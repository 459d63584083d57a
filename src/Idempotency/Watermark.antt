-- ===== src/Idempotency/Watermark.antt =====
-- The stored version is a watermark: it only rises, and it decides what is applied.
use mathlib.Core.List.{Permᴰ}
use search_and_retrieval_sys.Prelude.{
  String, ◌≡◌, refl, sym, ap, ap₂, ◌∙◌, ◌↔◌, true, false, Option, none, some, List, [], ◌∷◌, arith,
  ◌==◌, eq_iff, eq_refl, if◌then◌else◌,
}
use search_and_retrieval_sys.Prelude.Int.{ℤ, ltb_ℤ, ◌≤ℤ◌, eq_of_parts}
use search_and_retrieval_sys.Prelude.Maps.{lookup-insert}
use search_and_retrieval_sys.Idempotency.{Guard, version, should_apply, advances, commit}

-- The greater of two versions.
abbrev pub max_ℤ : ℤ → ℤ → ℤ
max_ℤ a b = if ltb_ℤ a b then b else a

-- The watermark after one more version.
abbrev pub raise : Option ℤ → ℤ → Option ℤ
raise none v = some v
raise (some w) v = some (max_ℤ w v)

-- The watermark of a document has reached `v`.
abbrev pub Reached : Option ℤ → ℤ → Type 0
Reached none v = ⊥
Reached (some w) v = v ≤ℤ w

-- A commit raises the watermark of its own document to the greater version, and no other.
pub version-commit :
    (g : Guard) (k j : String) (v : ℤ)
    → version (commit g k v) j ≡ (if k == j then raise (version g k) v else version g j)
unfolding version commit advances
version-commit g k j v = ground (arith, eq_iff k j, lookup-insert k j v g.seen)

-- A change is due exactly if the watermark has not reached its version.
pub should_apply_iff :
    (g : Guard) (k : String) (v : ℤ) → (should_apply g k v ≡ true) ↔ ¬ Reached (version g k) v
unfolding should_apply version
should_apply_iff g k v = ground arith

pub Reached-of_skipped :
    (g : Guard) (k : String) (v : ℤ) → should_apply g k v ≡ false → Reached (version g k) v
unfolding should_apply version
Reached-of_skipped g k v h = ground arith

pub Reached-below : (o : Option ℤ) (u v : ℤ) → u ≤ℤ v → Reached o v → Reached o u
Reached-below o u v h r = ground arith

pub Reached-raise : (o : Option ℤ) (u v : ℤ) → Reached o u → Reached (raise o v) u
Reached-raise o u v h = ground arith

pub Reached-raise_self : (o : Option ℤ) (v : ℤ) → Reached (raise o v) v
Reached-raise_self o v = ground arith

-- What a document has reached, it keeps through every commit.
pub Reached-commit :
    (g : Guard) (k j : String) (u v : ℤ)
    → Reached (version g j) u
    → Reached (version (commit g k v) j) u
Reached-commit g k j u v h =
    rw version-commit (ground (arith, eq_iff k j, Reached-raise (version g j) u v h))

pub Reached-commit_self : (g : Guard) (k : String) (v : ℤ) → Reached (version (commit g k v) k) v
Reached-commit_self g k v = rw (version-commit, eq_refl) (Reached-raise_self (version g k) v)

-- After a commit, the change itself and every older one of the document is skipped, for good.
should_apply-commit :
    (g : Guard) (k : String) (u v : ℤ) → u ≤ℤ v → should_apply (commit g k v) k u ≡ false
should_apply-commit g k u v h =
    ground (arith, should_apply_iff (commit g k v) k u, Reached-commit_self g k v)

-- A sequence of commits.
unfoldable pub commit_all : Guard → List (String × ℤ) → Guard
commit_all g [] = g
commit_all g ((k, v) ∷ cs) = commit_all (commit g k v) cs

-- The watermark of `k` after one more change.
abbrev absorb : String → Option ℤ → String × ℤ → Option ℤ
absorb k o c = if c.0 == k then raise o c.1 else o

-- The watermark that a sequence of versions leaves.
abbrev pub highest : String → Option ℤ → List (String × ℤ) → Option ℤ
highest k o [] = o
highest k o ((j, v) ∷ cs) = highest k (if j == k then raise o v else o) cs

pub version-commit_all :
    (g : Guard) (k : String) (cs : List (String × ℤ))
    → version (commit_all g cs) k ≡ highest k (version g k) cs
unfolding commit_all
version-commit_all g k [] = refl
version-commit_all g k ((j, v) ∷ cs) =
    version-commit_all (commit g j v) k cs
    ∙ ap (λ (o : Option ℤ). highest k o cs) (ground (arith, eq_iff j k, version-commit g j k v))

raise_comm : (o : Option ℤ) (u v : ℤ) → raise (raise o u) v ≡ raise (raise o v) u
raise_comm none u v = ground (arith, eq_of_parts u v)
raise_comm (some w) u v = ground (arith, eq_of_parts u v)

absorb_comm :
    (k : String) (o : Option ℤ) (a b : String × ℤ)
    → absorb k (absorb k o a) b ≡ absorb k (absorb k o b) a
absorb_comm k o (i, u) (j, v) = ground (arith, raise_comm o u v)

highest-perm :
    (k : String) (o : Option ℤ) {cs ds : List (String × ℤ)}
    → Permᴰ cs ds
    → highest k o cs ≡ highest k o ds
highest-perm k o Permᴰ.nil = refl
highest-perm k o (Permᴰ.cons {a = a} {l₂ = l} e p) =
    highest-perm k (absorb k o a) p ∙ ap (λ (c : String × ℤ). highest k (absorb k o c) l) e
highest-perm k o (Permᴰ.swap {a = a} {b = b} {l = l} e f) =
    ap (λ (w : Option ℤ). highest k w l) (absorb_comm k o a b)
    ∙ ap₂ (λ (c d : String × ℤ). highest k (absorb k (absorb k o c) d) l) f e
highest-perm k o (Permᴰ.trans p q) = highest-perm k o p ∙ highest-perm k o q

-- Commits that race leave the same watermarks in whatever order the mutex lets them in.
commit_all-perm :
    (g : Guard) (k : String) {cs ds : List (String × ℤ)}
    → Permᴰ cs ds
    → version (commit_all g cs) k ≡ version (commit_all g ds) k
commit_all-perm g k {cs} {ds} p =
    version-commit_all g k cs ∙ highest-perm k (version g k) p ∙ sym (version-commit_all g k ds)
