-- ===== src/Rag/Extractive/Picks.antt =====
-- The loop of the extractive answer that takes the best sentences, and the order that it takes them in.
use search_and_retrieval_sys.Prelude.{
  ℕ, zero, suc, ◌≤◌, String, true, false, ◌≡◌, ◌≢◌, refl, sym, ap, subst, ◌⊎◌, inl, inr, ◌==◌,
  eq_iff, length, List, [], ◌∷◌, map, All, All-map, All-Elem, Elem, head, tail, Bool-cases, arith,
}
use search_and_retrieval_sys.Prelude.Order.{before, before_irrefl, before_trans, before_total}
use search_and_retrieval_sys.Prelude.Sort.{IsSorted, IsWeak}
use search_and_retrieval_sys.Rag.Words.{has}
use search_and_retrieval_sys.Rag.Citations.Known.{IsDistinct, has-cons, has-ne}
use search_and_retrieval_sys.Rag.Extractive.{Candidate, better, take_best}

abbrev pub texts_of : List Candidate → List String
texts_of = map (λ (c : Candidate). c.text)

-- A strict order is asymmetric, and what is not before is carried on.
before_asym : (s t : String) → before s t ≡ true → before t s ≡ false
before_asym s t h = ground (arith, before_trans s t s, before_irrefl s)

before_steps : (s t u : String) → before s t ≡ false → before t u ≡ false → before s u ≡ false
before_steps s t u h k = elim (Bool-cases (s == t)) [
  | inl same ↦ subst (λ x. before x u ≡ false) (sym ((eq_iff s t).0 same)) k
  | inr other ↦ elim (Bool-cases (t == u)) [
    | inl same ↦ subst (λ x. before s x ≡ false) ((eq_iff t u).0 same) h
    | inr apart ↦ before_asym u s (
        before_trans u t s (before_total t u k (λ e. ground (arith, (eq_iff t u).1 e)))
          (before_total s t h (λ e. ground (arith, (eq_iff s t).1 e))))
  ]
]

pub better-IsWeak : IsWeak better
unfolding better
better-IsWeak = record {
  asym = λ a b h. ground (arith, before_asym a.marker b.marker);
  steps = λ a b c h k. ground (arith, before_steps a.marker b.marker c.marker);
}

pub take_best-All :
    (P : Candidate → Type 0) (n : ℕ) (seen : List String) (cands : List Candidate)
    → All P cands
    → All P (take_best n seen cands)
unfolding take_best
take_best-All P zero seen cands h = tt
take_best-All P (suc n) seen [] h = tt
take_best-All P (suc n) seen (c ∷ cands) (p, h) = elim (Bool-cases (has c.text seen)) [
  | inl again ↦ rw again (take_best-All P (suc n) seen cands h)
  | inr new ↦ rw new (p, take_best-All P n (c.text ∷ seen) cands h)
]

take_best-fresh :
    (n : ℕ) (seen : List String) (cands : List Candidate)
    → All (λ c. has c.text seen ≡ false) (take_best n seen cands)
unfolding take_best has
take_best-fresh zero seen cands = tt
take_best-fresh (suc n) seen [] = tt
take_best-fresh (suc n) seen (c ∷ cands) = elim (Bool-cases (has c.text seen)) [
  | inl again ↦ rw again (take_best-fresh (suc n) seen cands)
  | inr new ↦ rw new (
    new,
    All-map (λ d (h : has d.text (c.text ∷ seen) ≡ false). ground arith)
        (take_best n (c.text ∷ seen) cands) (take_best-fresh n (c.text ∷ seen) cands),
  )
]

pub take_best-IsDistinct :
    (n : ℕ) (seen : List String) (cands : List Candidate)
    → IsDistinct (texts_of (take_best n seen cands))
unfolding take_best
take_best-IsDistinct zero seen cands = tt
take_best-IsDistinct (suc n) seen [] = tt
take_best-IsDistinct (suc n) seen (c ∷ cands) = elim (Bool-cases (has c.text seen)) [
  | inl again ↦ rw again (take_best-IsDistinct (suc n) seen cands)
  | inr new ↦ rw new (
    others (take_best n (c.text ∷ seen) cands) (take_best-fresh n (c.text ∷ seen) cands),
    take_best-IsDistinct n (c.text ∷ seen) cands,
  )
]
  where
    others :
        (ds : List Candidate)
        → All (λ d. has d.text (c.text ∷ seen) ≡ false) ds
        → All (λ y. y ≢ c.text) (texts_of ds)
    others [] h = tt
    others (d ∷ ds) (p, h) = ((λ e. has-ne c.text d.text seen p e), others ds h)

pub take_best-length :
    (n : ℕ) (seen : List String) (cands : List Candidate) → length (take_best n seen cands) ≤ n
unfolding take_best
take_best-length zero seen cands = omega arith
take_best-length (suc n) seen [] = omega arith
take_best-length (suc n) seen (c ∷ cands) =
    ground (arith, take_best-length (suc n) seen cands, take_best-length n (c.text ∷ seen) cands)

-- What the loop leaves out is a text that it has, or no better than any of the `n` that it took.
pub take_best-best :
    (n : ℕ) (seen : List String) (cands : List Candidate) (c : Candidate)
    → IsSorted better cands
    → Elem c cands
    → (has c.text seen ≡ true)
      ⊎ Elem c.text (texts_of (take_best n seen cands))
      ⊎ ((length (take_best n seen cands) ≡ n)
          × All (λ p. better c p ≡ false) (take_best n seen cands))
unfolding take_best
take_best-best zero seen cands c s m = inr (inr (refl, tt))
take_best-best (suc n) seen [] c s m = elim m [ ]
take_best-best (suc n) seen (d ∷ cands) c (ds, s) m = elim (Bool-cases (has d.text seen)) [
  | inl again ↦ rw again (elim (m) [
    | head e ↦ inl (subst (λ (x : Candidate). has x.text seen ≡ true) e again)
    | tail l ↦ take_best-best (suc n) seen cands c s l
  ])
  | inr new ↦ rw new (elim (m) [
    | head e ↦ inr (inl (head (ap (λ (x : Candidate). x.text) e)))
    | tail l ↦ elim (take_best-best n (d.text ∷ seen) cands c s l) [
      | inl passed ↦ elim (has-cons c.text d.text seen passed) [
        | inl same ↦ inr (inl (head same))
        | inr earlier ↦ inl earlier
      ]
      | inr (inl taken) ↦ inr (inl (tail taken))
      | inr (inr (full, none_worse)) ↦
          inr (inr (ap suc full, (All-Elem (λ y. better y d ≡ false) ds l, none_worse)))
    ]
  ])
]
