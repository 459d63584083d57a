-- ===== src/Rag/Faithfulness/Support.antt =====
-- The score of an answer counts its sentences that a source supports, and the others are listed.
use search_and_retrieval_sys.Prelude.{
  ℕ, ◌+◌, String, ◌≡◌, refl, ◌⊎◌, inl, inr, length, List, All, Elem, Bool-cases, Option-cases,
  eq_iff, arith, Option, none, some, ◌==◌,
}
use search_and_retrieval_sys.Sources.{Source}
use search_and_retrieval_sys.Rag.Faithfulness.{Fraction, Faithful, faithfulness, score_faithfulness}
use search_and_retrieval_sys.Rag.Faithfulness.Best.{IsLinear, IsSupported}

module _ {F : Type 0} (fraction : Fraction F) (linear : IsLinear fraction)
    (to_lower : String → String) where
  -- What the loop over the sentences gives.
  abbrev Splits : List Source → List String → ℕ × List String → Type 0
  Splits sources sents r =
      (r.0 + length r.1 ≡ length sents)
      × All (λ t. Elem t sents × (¬ IsSupported fraction to_lower sources t)) r.1
      × All (λ t. IsSupported fraction to_lower sources t ⊎ Elem t r.1) sents

module _ {F : Type 0} (fraction : Fraction F) (to_lower : String → String) where
  -- The judge of the provider decides in the mode "llm", unless it is missing or fails.
  pub score_faithfulness_lem :
      (mode : String) (judge : Option (String → List Source → Option (Faithful F)))
      (answer : String) (sources : List Source)
      → (score_faithfulness fraction to_lower mode judge answer sources
          ≡ faithfulness fraction to_lower answer sources)
        ⊎ ((mode ≡ "llm")
            × ((j : String → List Source → Option (Faithful F)) × (judge ≡ some j)
                × (j answer sources
                    ≡ some (score_faithfulness fraction to_lower mode judge answer sources))))
  unfolding score_faithfulness
  score_faithfulness_lem mode none answer sources = inl (ground arith)
  score_faithfulness_lem mode (some j) answer sources = elim (Bool-cases (mode == "llm")) [
    | inr other ↦ inl (rw other)
    | inl llm ↦ elim (Option-cases (j answer sources)) [
      | inl failed ↦ inl (rw (llm, failed))
      | inr (res, scored) ↦ inr ((eq_iff mode "llm").0 llm, (j, refl, rw (llm, scored) refl))
    ]
  ]
