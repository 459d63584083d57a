-- ===== src/Rag/Extractive.antt =====
-- internal/rag/rag.go: `ExtractiveProvider` and `BuildPrompt`. A score is a count of tokens, so the
-- comparisons of float64 scores are those of numbers; `order` is the order in which `range` visits the
-- map of the citations.
pub mod Picks
pub mod Cites
pub mod Grounded
use Prim.Native.String.{◌++◌}
use search_and_retrieval_sys.Prelude.{
  ℕ, zero, suc, String, Bool, ◌==◌, eqb, ltb, List, [], ◌∷◌, map, if◌then◌else◌, Option, none, some,
}
use search_and_retrieval_sys.Prelude.Order.{before}
use search_and_retrieval_sys.Prelude.Sort.{sort}
use search_and_retrieval_sys.Prelude.Maps.{Map, lookup, insert}
use search_and_retrieval_sys.Sources.{Source}
use search_and_retrieval_sys.Server.{Answer, Citation}
use search_and_retrieval_sys.Rag.Words.{split_sentences, content_tokens, overlap, has}

-- `scoredSentence`
pub record Candidate : Type 0 where
  pub text : String
  pub marker : String
  pub doc_id : String
  pub origin : String
  pub score : ℕ

abbrev pub candidate : Source → String → ℕ → Candidate
candidate s sentence score = record {
  text = sentence;
  marker = s.marker;
  doc_id = s.doc_id;
  origin = s.origin;
  score = score;
}

-- The inner loop: the sentences of one source that share a token with the query, before `later`.
unfoldable pub of_source :
    (String → String) → List String → Source → List String → List Candidate → List Candidate
of_source to_lower q s [] later = later
of_source to_lower q s (sentence ∷ rest) later =
    let more = of_source to_lower q s rest later in
    let shared = overlap q (content_tokens to_lower sentence) in
    if eqb shared 0 then more else candidate s sentence shared ∷ more

unfoldable pub candidates : (String → String) → List String → List Source → List Candidate
unfolding of_source
candidates to_lower q [] = []
candidates to_lower q (s ∷ sources) =
    of_source to_lower q s (split_sentences s.text) (candidates to_lower q sources)

-- The comparison of the sort.
unfoldable pub better : Candidate → Candidate → Bool
better a b = if eqb a.score b.score then before a.marker b.marker else ltb b.score a.score

-- The loop that takes the best sentences, with the count that is left and the texts that it has seen.
unfoldable pub take_best : ℕ → List String → List Candidate → List Candidate
unfolding has
take_best zero seen cands = []
take_best (suc n) seen [] = []
take_best (suc n) seen (c ∷ cands) =
    let again = take_best (suc n) seen cands in
    let first = take_best n (c.text ∷ seen) cands in if has c.text seen then again else c ∷ first

-- The sentences that make up the answer.
unfoldable pub picks : (String → String) → String → List Source → List Candidate
unfolding candidates better take_best
picks to_lower query sources =
    take_best 3 [] (sort better (candidates to_lower (content_tokens to_lower query) sources))

abbrev pub part : Candidate → String
part c = c.text ++ " [" ++ c.marker ++ "]"

-- `strings.Join(parts, " ")`
unfoldable pub join_spaced : List String → String
join_spaced [] = ""
join_spaced (p ∷ []) = p
join_spaced (p ∷ q ∷ ps) = p ++ " " ++ join_spaced (q ∷ ps)

module _ {F : Type 0} (zero_score : F) where
  abbrev pub citation : Candidate → Citation F
  citation c = record {
    marker = c.marker;
    doc_id = c.doc_id;
    source = c.origin;
    score = zero_score;
  }

  abbrev pub cite_first : Candidate → Map (Citation F) → Option (Citation F) → Map (Citation F)
  cite_first c seen none = insert c.marker (citation c) seen
  cite_first c seen (some old) = seen

  -- `seenCite`, over the sentences that were taken.
  unfoldable pub seen_cite : Map (Citation F) → List Candidate → Map (Citation F)
  seen_cite seen [] = seen
  seen_cite seen (c ∷ cs) = seen_cite (cite_first c seen (lookup c.marker seen)) cs

  abbrev pub marker_before : Citation F → Citation F → Bool
  marker_before a b = before a.marker b.marker

  abbrev pub cited : String × Citation F → Citation F
  cited e = e.1

  abbrev pub citations : (Map (Citation F) → Map (Citation F)) → List Candidate → List (Citation F)
  citations order cs = sort marker_before (map cited (order (seen_cite [] cs)))

  -- The answer from the sentences that were taken.
  abbrev pub extract_answer : (Map (Citation F) → Map (Citation F)) → List Candidate → Answer F
  extract_answer order [] = record {
    text = "Not found in sources.";
    model = "extractive-v1";
    citations = [];
  }
  extract_answer order (c ∷ cs) = record {
    text = join_spaced (map part (c ∷ cs));
    model = "extractive-v1";
    citations = citations order (c ∷ cs);
  }

  -- `Generate`, which never fails.
  unfoldable pub generate :
      (String → String) → (Map (Citation F) → Map (Citation F)) → String → List Source → Answer F
  unfolding picks join_spaced seen_cite
  generate to_lower order query sources = extract_answer order (picks to_lower query sources)

-- `BuildPrompt`: the system prompt and the user's.
abbrev pub grounding_contract : String
grounding_contract =
    "Answer ONLY using the numbered sources. Cite each claim as [doc_N]. If the sources do not contain the answer, reply \"Not found in sources.\" Do not use outside knowledge. Do not guess."

unfoldable pub numbered : List Source → String
numbered [] = ""
numbered (s ∷ ss) =
    "[" ++ s.marker ++ "] (source=" ++ s.origin ++ ") " ++ s.text ++ "\n" ++ numbered ss

unfoldable pub build_prompt : String → List Source → String × String
unfolding numbered
build_prompt query sources =
    (grounding_contract, "Sources:\n" ++ numbered sources ++ "Question: " ++ query)
