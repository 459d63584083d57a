-- ===== src/Idempotency/Workers.antt =====
-- Concurrent users of one guard: each calls `ShouldApply` and, if it says so, `Commit` later. The
-- mutex makes each call one step, and any steps of other workers may come between.
use search_and_retrieval_sys.Prelude.{
  String, ◌≡◌, refl, ap, ap₂, sym, subst, ◌∙◌, map, All-map, true, All-replace, Elem, Elem-middle,
  Elem-map, List, [], ◌∷◌, ◌++◌, arith, if◌then◌else◌, All, Bool-cases, inl, inr, Option, some, ◌⊎◌,
  ◌==◌, eq_iff,
}
use search_and_retrieval_sys.Prelude.Int.{ℤ}
use search_and_retrieval_sys.Idempotency.{Guard, version, should_apply, commit}
use search_and_retrieval_sys.Idempotency.Watermark.{
  raise, version-commit, Reached, Reached-of_skipped, Reached-commit, Reached-commit_self,
}

pub data Phase : Type 0 where
  fresh passed settled : Phase

pub record Worker : Type 0 where
  pub doc_id : String
  pub version : ℤ
  pub phase : Phase

pub record Pool : Type 0 where
  pub guard : Guard
  pub workers : List Worker

abbrev pub checked : Guard → Worker → Worker
checked g w = record w { phase = if should_apply g w.doc_id w.version then passed else settled }

abbrev pub committed : Worker → Worker
committed w = record w { phase = settled }

-- One call of one worker, whose neighbours in the list are `front` and `back`.
pub data Step : Pool → Pool → Type 0 where
  check :
      {p q : Pool} (front back : List Worker) (w : Worker)
      → w.phase ≡ fresh
      → p.workers ≡ front ++ w ∷ back
      → q.workers ≡ front ++ checked p.guard w ∷ back
      → q.guard ≡ p.guard
      → Step p q
  write :
      {p q : Pool} (front back : List Worker) (w : Worker)
      → w.phase ≡ passed
      → p.workers ≡ front ++ w ∷ back
      → q.workers ≡ front ++ committed w ∷ back
      → q.guard ≡ commit p.guard w.doc_id w.version
      → Step p q

pub data Run (p : Pool) : Pool → Type 0 where
  here : Run p p
  next : {q r : Pool} → Run p q → Step q r → Run p r

abbrev pub Done : Guard → Worker → Type 0
Done g w = w.phase ≡ settled → Reached (version g w.doc_id) w.version

-- The change that a worker brings.
abbrev pub change : Worker → String × ℤ
change w = (w.doc_id, w.version)

abbrev pub changes : Pool → List (String × ℤ)
changes p = map change p.workers

map-replace :
    (front back : List Worker) (w v : Worker)
    → change v ≡ change w
    → map change (front ++ v ∷ back) ≡ map change (front ++ w ∷ back)
map-replace [] back w v e = ap (λ (c : String × ℤ). c ∷ map change back) e
map-replace (u ∷ front) back w v e = ap (◌∷◌ (change u)) (map-replace front back w v e)

changes-Step : {p q : Pool} → Step p q → changes q ≡ changes p
changes-Step (check front back w h e f g) = rw (e, f) (map-replace front back w _ refl)
changes-Step (write front back w h e f g) = rw (e, f) (map-replace front back w _ refl)

changes-Run : {p q : Pool} → Run p q → changes q ≡ changes p
changes-Run here = refl
changes-Run (next r s) = changes-Step s ∙ changes-Run r

Done-checked : (g : Guard) (w : Worker) → Done g (checked g w)
Done-checked g w = elim (Bool-cases (should_apply g w.doc_id w.version)) [
  | inl due ↦ rw due (λ s. cc)
  | inr old ↦ rw old (λ s. Reached-of_skipped g w.doc_id w.version old)
]

Done-Step : {p q : Pool} → Step p q → All (Done p.guard) p.workers → All (Done q.guard) q.workers
Done-Step {p} (check front back w h e f g) d =
    rw (f, g)
      (All-replace (Done p.guard) (Done p.guard) front w back (λ z k. k) (rw e at d)
        (Done-checked p.guard w))
Done-Step {p} (write front back w h e f g) d =
    rw (f, g)
      (All-replace (Done p.guard) (Done (commit p.guard w.doc_id w.version)) front w back
        (λ z k s. Reached-commit p.guard w.doc_id z.doc_id z.version w.version (k s)) (rw e at d)
        (λ s. Reached-commit_self p.guard w.doc_id w.version))

Done-Run : {p q : Pool} → Run p q → All (Done p.guard) p.workers → All (Done q.guard) q.workers
Done-Run here d = d
Done-Run (next r s) d = Done-Step s (Done-Run r d)

-- The watermark of `k` is the one of the start, or the version of one of the changes.
abbrev pub Sourced : Guard → List (String × ℤ) → Guard → Type 0
Sourced g cs h =
    (k : String) (v : ℤ)
    → version h k ≡ some v
    → (version g k ≡ some v) ⊎ Elem {A = String × ℤ} (k, v) cs

raise-eq_some : (o : Option ℤ) (u v : ℤ) → raise o u ≡ some v → (o ≡ some v) ⊎ (u ≡ v)
raise-eq_some o u v e = ground arith

commit-Sourced :
    (g h : Guard) (cs : List (String × ℤ)) (k : String) (v : ℤ)
    → Sourced g cs h
    → Elem {A = String × ℤ} (k, v) cs
    → Sourced g cs (commit h k v)
commit-Sourced g h cs k v s m j u e = elim (Bool-cases (k == j)) [
  | inl same ↦ elim (raise-eq_some (version h k) v u (rw same at written)) [
    | inl old ↦ s j u (rw (← key same) old)
    | inr new ↦ inr (subst (λ (c : String × ℤ). Elem c cs) (ap₂ pair (key same) new) m)
  ]
  | inr other ↦ s j u (rw other at written)
]
  where
    written : (if k == j then raise (version h k) v else version h j) ≡ some u
    written = sym (version-commit h k j v) ∙ e

    key : (k == j) ≡ true → k ≡ j
    key = (eq_iff k j).0

    pair : String → ℤ → String × ℤ
    pair a b = (a, b)

Sourced-cast :
    (g : Guard) {cs ds : List (String × ℤ)} {h k : Guard}
    → cs ≡ ds
    → h ≡ k
    → Sourced g ds k
    → Sourced g cs h
Sourced-cast g {cs = cs} {ds = ds} {h = h} e f s =
    subst (λ cs. Sourced g cs h) (sym e) (subst (λ k. Sourced g ds k) (sym f) s)

Elem-changes :
    (p : Pool) (front back : List Worker) (w : Worker)
    → p.workers ≡ front ++ w ∷ back
    → Elem (change w) (changes p)
Elem-changes p front back w e =
    subst (λ ws. Elem (change w) (map change ws)) (sym e)
      (Elem-map change (Elem-middle front w back))

Sourced-Step :
    (g : Guard) {p q : Pool}
    → Step p q
    → Sourced g (changes p) p.guard
    → Sourced g (changes q) q.guard
Sourced-Step g {p} (check front back w h e f same) s =
    Sourced-cast g (changes-Step (check front back w h e f same)) same s
Sourced-Step g {p} (write front back w h e f raised) s =
    Sourced-cast g (changes-Step (write front back w h e f raised)) raised
      (commit-Sourced g p.guard (changes p) w.doc_id w.version s (Elem-changes p front back w e))

Sourced-Run : {p q : Pool} → Run p q → Sourced p.guard (changes q) q.guard
Sourced-Run here = λ k v e. inl e
Sourced-Run {p} (next r s) = Sourced-Step p.guard s (Sourced-Run r)

fresh-Done : (g : Guard) (ws : List Worker) → All (λ w. w.phase ≡ fresh) ws → All (Done g) ws
fresh-Done g ws h = All-map (λ w f s. cc) ws h

abbrev pub Covers : Guard → String × ℤ → Type 0
Covers g c = Reached (version g c.0) c.1

finished-Covers :
    (g : Guard) (ws : List Worker)
    → All (λ w. w.phase ≡ settled) ws
    → All (Done g) ws
    → All (Covers g) (map change ws)
finished-Covers g [] f d = tt
finished-Covers g (w ∷ ws) f d = (d.0 f.0, finished-Covers g ws f.1 d.1)

-- Workers that start afresh and have all finished leave, whatever the interleaving of their calls,
-- a watermark that has reached every version they brought, and that is an old one or one of these.
pub highest_version_wins :
    {p q : Pool}
    → Run p q
    → All (λ w. w.phase ≡ fresh) p.workers
    → All (λ w. w.phase ≡ settled) q.workers
    → All (Covers q.guard) (changes p) × Sourced p.guard (changes p) q.guard
highest_version_wins {p} {q} r f s = (
  rw (← changes-Run r)
      (finished-Covers q.guard q.workers s (Done-Run r (fresh-Done p.guard p.workers f))),
  rw (← changes-Run r) (Sourced-Run r),
)
