-- ===== src/Rag/Provider/Judged.antt =====
-- Whichever provider the environment selects: the score lies between 0 and 1, and the citations are of
-- the sources that the provider was given.
use Prim.Native.String.{◌++◌}
use search_and_retrieval_sys.Prelude.{
  ℕ, ◌≤◌, ◌<◌, String, false, ◌≡◌, sym, ap, ◌⊎◌, subst, inl, inr, ◌∙◌, Bool-cases, Option-cases,
  Option, none, some, List, [], ◌∷◌, length, arith,
}
use search_and_retrieval_sys.Prelude.Maps.{Map}
use search_and_retrieval_sys.Http.{Transport}
use search_and_retrieval_sys.Sources.{Source}
use search_and_retrieval_sys.Server.{Citation}
use search_and_retrieval_sys.Rag.Faithfulness.{
  Fraction, Faithful, faithfulness, judge_sentences, judged,
}
use search_and_retrieval_sys.Rag.Faithfulness.Support.{score_faithfulness_lem}
use search_and_retrieval_sys.Rag.Provider.Selected.{new_provider-cases}
use search_and_retrieval_sys.Rag.Provider.{
  LiteLlm, LlmJson, Provider, complete, clamp, judge_faithfulness, extractive, lite_llm,
  new_provider, provider_score, in_braces, listing, judge_prompt,
}

module _ {F : Type 0} (fraction : Fraction F) where
  -- The score is not below 0 and not above 1.
  abbrev pub InUnit : F → Type 0
  InUnit x = (fraction.less x fraction.zero_f ≡ false) × (fraction.less fraction.one_f x ≡ false)

  -- What IEEE 754 gives of 0, 1 and the quotient of a part by a whole that is not zero.
  pub record HasUnit : Type 0 where
    pub zero_unit : InUnit fraction.zero_f
    pub one_unit : InUnit fraction.one_f
    pub part_unit : (a b : ℕ) → a ≤ b → 0 < b → InUnit (fraction.divide a b)

  module _ (unit : HasUnit) where
    clamp-cases :
        (x : F)
        → (clamp fraction x ≡ fraction.zero_f)
          ⊎ (clamp fraction x ≡ fraction.one_f)
          ⊎ ((clamp fraction x ≡ x) × InUnit x)
    clamp-cases x = elim (Bool-cases (fraction.less x fraction.zero_f)) [
      | inl below ↦ inl (ground arith)
      | inr least ↦ elim (Bool-cases (fraction.less fraction.one_f x)) [
        | inl above ↦ inr (inl (ground arith))
        | inr most ↦ inr (inr (ground arith, (least, most)))
      ]
    ]

    clamp-InUnit : (x : F) → InUnit (clamp fraction x)
    clamp-InUnit x = elim (clamp-cases x) [
      | inl low ↦ subst InUnit (sym low) unit.zero_unit
      | inr (inl high) ↦ subst InUnit (sym high) unit.one_unit
      | inr (inr (same, within)) ↦ subst InUnit (sym same) within
    ]

    supported-le :
        (to_lower : String → String) (srcs : List (List String)) (sents : List String)
        → (judge_sentences fraction to_lower srcs sents).0 ≤ length sents
    unfolding judge_sentences
    supported-le to_lower srcs [] = omega arith
    supported-le to_lower srcs (sent ∷ sents) = ground (arith, supported-le to_lower srcs sents)

    judged-InUnit :
        (to_lower : String → String) (sources : List Source) (sents : List String)
        → InUnit (judged fraction to_lower sources sents).score
    judged-InUnit to_lower sources [] = unit.one_unit
    judged-InUnit to_lower sources (sent ∷ sents) =
        unit.part_unit _ (length (sent ∷ sents)) (supported-le to_lower _ (sent ∷ sents))
          (omega arith)

    faithfulness-InUnit :
        (to_lower : String → String) (answer : String) (sources : List Source)
        → InUnit (faithfulness fraction to_lower answer sources).score
    unfolding faithfulness
    faithfulness-InUnit to_lower answer sources = judged-InUnit to_lower sources _

    judge_faithfulness-InUnit :
        (json : LlmJson F) (send : Transport) (l : LiteLlm) (answer : String)
        (sources : List Source) (r : Faithful F)
        → judge_faithfulness fraction json send l answer sources ≡ some r
        → InUnit r.score
    unfolding judge_faithfulness
    judge_faithfulness-InUnit json send l answer sources r h =
        elim (Option-cases (
          complete fraction json send l judge_prompt
            ("SOURCES:\n" ++ listing sources ++ "\nANSWER:\n" ++ answer) 2048)) [
              | inl failed ↦ absurd (ground arith)
              | inr (text, e) ↦ elim (Option-cases (json.decode_judged (in_braces text))) [
                | inl unreadable ↦ absurd (ground arith)
                | inr (parsed, f) ↦
                    let score : clamp fraction parsed.score ≡ r.score = ground arith in
                    subst InUnit score (clamp-InUnit parsed.score)
              ]
            ]

    module _ (json : LlmJson F) (send : Transport) (to_lower : String → String)
        (order : Map (Citation F) → Map (Citation F)) where
      Judges : (String → List Source → Option (Faithful F)) → Type 0
      Judges j =
          (answer : String) (sources : List Source) (r : Faithful F)
          → j answer sources ≡ some r
          → InUnit r.score

      judge_score-InUnit :
          (mode : String) (p : Provider F) (answer : String) (sources : List Source)
          → ((j : String → List Source → Option (Faithful F)) → p.judge ≡ some j → Judges j)
          → InUnit (provider_score fraction json send to_lower order mode p answer sources).score
      unfolding provider_score Judges
      judge_score-InUnit mode p answer sources h =
          elim (score_faithfulness_lem fraction to_lower mode p.judge answer sources) [
            | inl lexical ↦
                subst (λ (r : Faithful F). InUnit r.score) (sym lexical)
                  (faithfulness-InUnit to_lower answer sources)
            | inr (llm, (j, has_judge, scored)) ↦ h j has_judge answer sources _ scored
          ]

      lite_llm-Judges :
          (l : LiteLlm) (j : String → List Source → Option (Faithful F))
          → some (judge_faithfulness fraction json send l) ≡ some j
          → Judges j
      unfolding Judges
      lite_llm-Judges l j e answer sources r h =
          let run : Option (String → List Source → Option (Faithful F)) → Option (Faithful F) =
            λ o. elim o [ none ↦ none | some k ↦ k answer sources ] in
          judge_faithfulness-InUnit json send l answer sources r (ap run e ∙ h)

      -- The score of an answer lies between 0 and 1, whichever provider the environment selects, in each
      -- mode, and whatever the language model replies.
      pub provider_score-InUnit :
          (env : String → String) (mode answer : String) (sources : List Source)
          → InUnit
              (provider_score fraction json send to_lower order mode
                (new_provider fraction json send to_lower order env)
                answer
                sources).score
      provider_score-InUnit env mode answer sources =
          let score : Provider F → F =
            λ p. (provider_score fraction json send to_lower order mode p answer sources).score in
          elim (new_provider-cases fraction json send to_lower order env) [
            | inl same ↦
                subst (λ p. InUnit (score p)) (sym same)
                  (judge_score-InUnit mode (extractive fraction json send to_lower order) answer
                    sources (λ j e. absurd (unfold extractive in cc)))
            | inr (l, same) ↦
                subst (λ p. InUnit (score p)) (sym same)
                  (judge_score-InUnit mode (lite_llm fraction json send to_lower order l) answer
                    sources (λ j e. lite_llm-Judges l j (unfold lite_llm in e)))
          ]
