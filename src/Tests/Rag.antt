-- ===== src/Tests/Rag.antt =====
-- An extractive answer, and a language model that answers every prompt alike.
use mathlib.Core.List.Permᴰ
use search_and_retrieval_sys.Prelude.{
  ℕ, ◌*◌, ◌/◌, ◌≤◌, ◌<◌, String, ◌≡◌, ◌≢◌, ◌⊎◌, refl, ◌==◌, ltb, leb, some, List, [], ◌∷◌, length,
  All, Elem, head, if◌then◌else◌, arith,
}
use search_and_retrieval_sys.Prelude.Text.{trim_space}
use search_and_retrieval_sys.Prelude.Sort.{sort}
use search_and_retrieval_sys.Prelude.Maps.{lookup, insert}
use search_and_retrieval_sys.Http.{Transport}
use search_and_retrieval_sys.Sources.{Source}
use search_and_retrieval_sys.Server.{Answer}
use search_and_retrieval_sys.Rag.Words.{split_sentences, content_tokens, overlap}
use search_and_retrieval_sys.Rag.Citations.{markers_in, citations_from_text}
use search_and_retrieval_sys.Rag.Citations.Known.{
  IsKnown, IsDistinct, markers_of, citations_from_text_lem,
}
use search_and_retrieval_sys.Rag.Extractive.{Candidate, candidate, picks, generate}
use search_and_retrieval_sys.Rag.Extractive.Picks.{texts_of}
use search_and_retrieval_sys.Rag.Extractive.Grounded.{IsExtract, ComesFirst, picks_lem, picks-best}
use search_and_retrieval_sys.Rag.Faithfulness.{Fraction, without_markers, faithfulness}
use search_and_retrieval_sys.Rag.Provider.{LlmJson, new_provider}
use search_and_retrieval_sys.Rag.Provider.Judged.{HasUnit}
use search_and_retrieval_sys.Rag.Provider.Cited.{OfSource, new_provider-OfSource}

abbrev pub same_text : String → String
same_text t = t

abbrev about_kafka : Source
about_kafka = record {
  marker = "doc_1";
  doc_id = "a";
  origin = "postgres";
  text = "kafka is a log. redis is a cache.";
}

abbrev sources : List Source
sources = about_kafka ∷ []

picks_lem_example :
    All
      (IsExtract same_text (content_tokens same_text "kafka log") sources)
      (picks same_text "kafka log" sources)
    × IsDistinct (texts_of (picks same_text "kafka log" sources))
    × (length (picks same_text "kafka log" sources) ≤ 3)
picks_lem_example = picks_lem same_text "kafka log" sources

abbrev log_sentence : Candidate
log_sentence = candidate about_kafka "kafka is a log." 2

log_sentence-IsExtract :
    IsExtract same_text (content_tokens same_text "kafka log") sources log_sentence
unfolding split_sentences content_tokens overlap trim_space
log_sentence-IsExtract = record {
  source = about_kafka;
  listed = head refl;
  sentence = head refl;
  shared = omega arith;
  same = refl;
}

picks-best_example :
    Elem "kafka is a log." (texts_of (picks same_text "kafka log" sources))
    ⊎ ((length (picks same_text "kafka log" sources) ≡ 3)
        × All (λ p. ComesFirst p log_sentence) (picks same_text "kafka log" sources))
picks-best_example = picks-best same_text "kafka log" sources log_sentence log_sentence-IsExtract

citations_from_text_lem_example :
    All
      (IsKnown {F = ℕ} 0 "see doc_1 and doc_2" sources)
      (citations_from_text {F = ℕ} 0 "see doc_1 and doc_2" sources)
    × IsDistinct
        (markers_of {F = ℕ} 0 (citations_from_text {F = ℕ} 0 "see doc_1 and doc_2" sources))
    × All
        (λ m.
          Elem m
            (markers_of {F = ℕ} 0 (citations_from_text {F = ℕ} 0 "see doc_1 and doc_2" sources))
          ⊎ All (λ (s : Source). s.marker ≢ m) sources)
        (markers_in 0 "see doc_1 and doc_2")
citations_from_text_lem_example = citations_from_text_lem {F = ℕ} 0 "see doc_1 and doc_2" sources

-- Percents, rounded down.
abbrev pub percent : Fraction ℕ
percent = record {
  zero_f = 0;
  one_f = 100;
  divide = λ a b. a * 100 / b;
  less = ltb;
  enough = λ x. leb 60 x;
}

percent-part : (a b : ℕ) → a ≤ b → 0 < b → a * 100 / b ≤ 100
percent-part a b h k = grind arith

pub percent-HasUnit : HasUnit percent
percent-HasUnit = record {
  zero_unit = (refl, refl);
  one_unit = (refl, refl);
  part_unit = λ a b h k. (ground arith, ground (arith, percent-part a b h k));
}

abbrev answer : String
answer = "kafka is a log. [doc_1] pigs fly."

abbrev pub json : LlmJson ℕ
json = record {
  completion_req = λ model system user n. user;
  decode_choices = λ text. some ("see doc_1." ∷ []);
  decode_judged = λ text. some (record { score = 250; unsupported = [] });
}

abbrev pub replies : Transport
replies r = some (record { status = 200; content = "" })

abbrev pub env : String → String
env key =
    if key == "LLM_PROVIDER" then "litellm" else if key == "LITELLM_URL" then "http://llm" else ""

abbrev pub visited : {A : Type 0} → List A → List A
visited l = l

abbrev llm_answer : Answer ℕ
llm_answer = record {
  text = "see doc_1.";
  model = "litellm:gemini-flash";
  citations = record { marker = "doc_1"; doc_id = "a"; source = "postgres"; score = 0 } ∷ [];
}

answered :
    (new_provider percent json replies same_text visited env).answer "kafka log" sources
    ≡ some llm_answer
unfolding new_provider citations_from_text lookup insert
answered = refl

new_provider-OfSource_example : All (OfSource percent sources) llm_answer.citations
new_provider-OfSource_example =
    new_provider-OfSource percent json replies same_text visited Permᴰ.refl env "kafka log" sources
      llm_answer answered

stripped_test :
    without_markers 0 "kafka is a log. [doc_12] pigs [doc_x] fly.[doc_3]"
    ≡ "kafka is a log.  pigs [doc_x] fly."
unfolding without_markers
stripped_test = refl

-- What follows the last terminator is dropped.
sentences_test : split_sentences "One v1.2 here.  Two! And three" ≡ "One v1.2 here." ∷ "Two!" ∷ []
unfolding split_sentences trim_space
sentences_test = refl

markers_test : markers_in 0 "see doc_1, doc_x and doc_23." ≡ "doc_1" ∷ "doc_23" ∷ []
unfolding markers_in
markers_test = refl

tokens_test : content_tokens same_text "the log-2 is a log" ≡ "2" ∷ "log" ∷ []
unfolding content_tokens
tokens_test = refl

-- Two sources whose sentences the answer joins: without a terminator they make one sentence.
abbrev unterminated : List Source
unterminated =
    record { marker = "doc_1"; doc_id = "a"; origin = "postgres"; text = "alpha kafka one two" }
    ∷ record {
      marker = "doc_2";
      doc_id = "b";
      origin = "postgres";
      text = "kafka beta three four.";
    }
    ∷ []

extractive_test :
    (generate {F = ℕ} 0 same_text visited "kafka" unterminated).text
    ≡ "alpha kafka one two [doc_1] kafka beta three four. [doc_2]"
unfolding generate split_sentences trim_space content_tokens overlap sort lookup insert
extractive_test = refl

-- No source has three fifths of it, so the extractive answer is scored 0.
unfaithful_test :
    faithfulness percent same_text "alpha kafka one two [doc_1] kafka beta three four. [doc_2]"
      unterminated
    ≡ record { score = 0; unsupported = "alpha kafka one two  kafka beta three four." ∷ [] }
unfolding faithfulness split_sentences trim_space content_tokens overlap
unfaithful_test = refl
