-- ===== src/Rag/Faithfulness.antt =====
-- internal/rag/faithfulness.go: how much of an answer its sources support. A float64 is an abstract
-- type with the operations that the code uses.
pub mod Best
pub mod Support
use Prim.Native.Char.{Char, code}
use search_and_retrieval_sys.Prelude.{
  ℕ, zero, suc, ◌-◌, String, Bool, ◌==◌, Option, none, some, List, [], ◌∷◌, map, length,
  if◌then◌else◌,
}
use search_and_retrieval_sys.Prelude.Text.{after?}
use search_and_retrieval_sys.Sources.{Source}
use search_and_retrieval_sys.Rag.Words.{split_sentences, tokens, content_tokens, overlap}
use search_and_retrieval_sys.Rag.Citations.{leading_digits, letters}

-- `divide a b` is `float64(a) / float64(b)`, and `enough x` is `x >= 0.6`.
pub record Fraction (F : Type 0) : Type 0 where
  pub zero_f : F
  pub one_f : F
  pub divide : ℕ → ℕ → F
  pub less : F → F → Bool
  pub enough : F → Bool

-- `FaithfulnessResult`
pub record Faithful (F : Type 0) : Type 0 where
  pub score : F
  pub unsupported : List String

-- How many letters `\[doc_\d+\]` takes at the start of a text.
unfoldable pub bracketed : String → Option ℕ
unfolding leading_digits after?
bracketed s = elim (after? "[doc_" s) [
  | none ↦ none
  | some rest ↦ elim (leading_digits rest) [
    | String.[] ↦ none
    | String.◌∷◌ c ds ↦ elim (after? (String.◌∷◌ c ds) rest) [
      | none ↦ none
      | some tail ↦ elim (after? "]" tail) [
        | none ↦ none
        | some t ↦ some (suc (suc (suc (suc (suc (suc (suc (letters ds))))))))
      ]
    ]
  ]
]

-- `citationMarker.ReplaceAllString(answer, "")`; `skip` counts what is left of a match.
unfoldable pub without_markers : ℕ → String → String
unfolding bracketed
without_markers skip String.[] = ""
without_markers (suc skip) (String.◌∷◌ c s) = without_markers skip s
without_markers zero (String.◌∷◌ c s) = elim (bracketed (String.◌∷◌ c s)) [
  | none ↦ String.◌∷◌ c (without_markers zero s)
  | some n ↦ without_markers (n - 1) s
]

module _ {F : Type 0} (fraction : Fraction F) where
  abbrev pub greater : F → F → F
  greater best frac = if fraction.less best frac then frac else best

  -- The loop over the sources.
  unfoldable pub best_of : List String → F → List (List String) → F
  best_of st best [] = best
  best_of st best (src ∷ srcs) =
      best_of st (greater best (fraction.divide (overlap st src) (length st))) srcs

  abbrev pub is_supported : List String → List (List String) → Bool
  is_supported [] srcs = Bool.true
  is_supported (t ∷ ts) srcs = fraction.enough (best_of (t ∷ ts) fraction.zero_f srcs)

  -- The loop over the sentences: how many are supported, and those that are not.
  unfoldable pub judge_sentences :
      (String → String) → List (List String) → List String → ℕ × List String
  unfolding best_of
  judge_sentences to_lower srcs [] = (0, [])
  judge_sentences to_lower srcs (sent ∷ sents) =
      let (supported, unsupported) = judge_sentences to_lower srcs sents in
      if is_supported (content_tokens to_lower sent) srcs
      then (suc supported, unsupported)
      else (supported, sent ∷ unsupported)

  abbrev pub judged : (String → String) → List Source → List String → Faithful F
  judged to_lower sources [] = record { score = fraction.one_f; unsupported = [] }
  judged to_lower sources (sent ∷ sents) =
      let (supported, unsupported) =
        judge_sentences to_lower (map (λ (s : Source). tokens to_lower s.text) sources)
          (sent ∷ sents) in
      record {
        score = fraction.divide supported (length (sent ∷ sents));
        unsupported = unsupported;
      }

  -- `Faithfulness`
  unfoldable pub faithfulness : (String → String) → String → List Source → Faithful F
  unfolding without_markers judge_sentences
  faithfulness to_lower answer sources =
      judged to_lower sources (split_sentences (without_markers 0 answer))

  -- `ScoreFaithfulness`: `judge` is there if the provider is a `Judge`; its error is `none`.
  unfoldable pub score_faithfulness :
      (String → String)
      → String
      → Option (String → List Source → Option (Faithful F))
      → String
      → List Source
      → Faithful F
  unfolding faithfulness
  score_faithfulness to_lower mode judge answer sources =
      let lexical = faithfulness to_lower answer sources in
      if mode == "llm"
      then elim judge [
        | none ↦ lexical
        | some j ↦ elim (j answer sources) [ none ↦ lexical | some res ↦ res ]
      ]
      else lexical
