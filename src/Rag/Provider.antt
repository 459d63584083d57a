-- ===== src/Rag/Provider.antt =====
-- internal/rag/rag.go: `NewProvider`, and internal/rag/litellm.go. What `encoding/json` makes of the
-- bodies is a parameter.
pub mod Selected
pub mod Judged
pub mod Cited
use Prim.Native.Char.{code}
use Prim.Native.String.{◌++◌}
use search_and_retrieval_sys.Prelude.{
  ℕ, String, Bool, ◌==◌, eqb, leb, Option, none, some, List, [], ◌∷◌, if◌then◌else◌,
}
use search_and_retrieval_sys.Prelude.Maps.{Map}
use search_and_retrieval_sys.Http.{HttpRequest, HttpResponse, Transport}
use search_and_retrieval_sys.Sources.{Source}
use search_and_retrieval_sys.Server.{Answer, Citation}
use search_and_retrieval_sys.Rag.Citations.{citations_from_text}
use search_and_retrieval_sys.Rag.Extractive.{generate, build_prompt}
use search_and_retrieval_sys.Rag.Faithfulness.{Fraction, Faithful, score_faithfulness}

pub record LiteLlm : Type 0 where
  pub base : String
  pub api_key : String
  pub model : String

-- The body of a completion: the model, the system's and the user's prompt, `max_tokens`; the content of
-- each choice of the answer; the judge's answer.
pub record LlmJson (F : Type 0) : Type 0 where
  pub completion_req : String → String → String → ℕ → String
  pub decode_choices : String → Option (List String)
  pub decode_judged : String → Option (Faithful F)

unfoldable pub new_lite_llm : String → String → String → LiteLlm
new_lite_llm base api_key model = record {
  base = base;
  api_key = api_key;
  model = if model == "" then "gemini-flash" else model;
}

abbrev pub name : LiteLlm → String
name l = "litellm:" ++ l.model

abbrev pub auth_headers : String → List (String × String)
auth_headers api_key = if api_key == "" then [] else ("Authorization", "Bearer " ++ api_key) ∷ []

abbrev pub first_choice : List String → String
first_choice [] = ""
first_choice (c ∷ cs) = c

-- The text from the first `{` on.
unfoldable pub from_brace : String → Option String
from_brace String.[] = none
from_brace (String.◌∷◌ c s) =
    let later = from_brace s in if eqb (code c) b'{' then some (String.◌∷◌ c s) else later

-- The text up to the last `}`.
unfoldable pub to_brace : String → Option String
to_brace String.[] = none
to_brace (String.◌∷◌ c s) = elim (to_brace s) [
  | some front ↦ some (String.◌∷◌ c front)
  | none ↦ if eqb (code c) b'}' then some (String.◌∷◌ c "") else none
]

-- `raw`: the part in braces. A `}` that stands only before the first `{` leaves the text as it is.
unfoldable pub in_braces : String → String
unfolding from_brace to_brace
in_braces text = elim (from_brace text) [
  | none ↦ text
  | some from ↦ elim (to_brace from) [ none ↦ text | some raw ↦ raw ]
]

unfoldable pub listing : List Source → String
listing [] = ""
listing (s ∷ ss) = "[" ++ s.marker ++ "] " ++ s.text ++ "\n" ++ listing ss

abbrev pub judge_prompt : String
judge_prompt =
    "You are a strict faithfulness judge for a RAG system. Given SOURCES and an ANSWER, decide what fraction of the answer's factual claims are directly supported by the sources. Respond ONLY with compact JSON: {\"score\": <0..1>, \"unsupported\": [\"<claim>\", ...]}. No prose, no code fences."

abbrev pub clamp : {F : Type 0} → Fraction F → F → F
clamp fraction x =
    if fraction.less x fraction.zero_f
    then fraction.zero_f
    else if fraction.less fraction.one_f x
    then fraction.one_f
    else x

module _ {F : Type 0} (fraction : Fraction F) (json : LlmJson F) (send : Transport)
    (l : LiteLlm) where
  unfoldable pub complete : String → String → ℕ → Option String
  complete system user max_tokens =
      elim (send (record {
        method = "POST";
        url = l.base ++ "/v1/chat/completions";
        headers = ("content-type", "application/json") ∷ auth_headers l.api_key;
        body = json.completion_req l.model system user max_tokens;
      })) [
        | none ↦ none
        | some resp ↦
            if leb 400 resp.status then none else elim (json.decode_choices resp.content) [
              | none ↦ none
              | some choices ↦ some (first_choice choices)
            ]
      ]

  unfoldable pub llm_generate : String → List Source → Option (Answer F)
  unfolding complete
  llm_generate query sources =
      let (system, user) = build_prompt query sources in
      elim (complete system user 2048) [
        | none ↦ none
        | some text ↦ some (record {
          text = text;
          model = name l;
          citations = citations_from_text fraction.zero_f text sources;
        })
      ]

  unfoldable pub judge_faithfulness : String → List Source → Option (Faithful F)
  unfolding complete listing in_braces
  judge_faithfulness answer sources =
      elim (complete judge_prompt ("SOURCES:\n" ++ listing sources ++ "\nANSWER:\n" ++ answer)
        2048) [
          | none ↦ none
          | some text ↦ elim (json.decode_judged (in_braces text)) [
            | none ↦ none
            | some parsed ↦ some (record parsed { score = clamp fraction parsed.score })
          ]
        ]

-- A provider: `Generate`, `Name`, and `JudgeFaithfulness` if it has it.
pub record Provider (F : Type 0) : Type 0 where
  pub answer : String → List Source → Option (Answer F)
  pub called : String
  pub judge : Option (String → List Source → Option (Faithful F))

module _ {F : Type 0} (fraction : Fraction F) (json : LlmJson F) (send : Transport)
    (to_lower : String → String) (order : Map (Citation F) → Map (Citation F)) where
  unfoldable pub extractive : Provider F
  extractive = record {
    answer = λ query sources. some (generate fraction.zero_f to_lower order query sources);
    called = "extractive-v1";
    judge = none;
  }

  unfoldable pub lite_llm : LiteLlm → Provider F
  unfolding llm_generate judge_faithfulness
  lite_llm l = record {
    answer = llm_generate fraction json send l;
    called = name l;
    judge = some (judge_faithfulness fraction json send l);
  }

  -- `NewProvider`: an environment gives the text of each variable, "" if it is not set.
  unfoldable pub new_provider : (String → String) → Provider F
  unfolding extractive lite_llm new_lite_llm
  new_provider env =
      if to_lower (env "LLM_PROVIDER") == "litellm"
      then (if env "LITELLM_URL" == ""
          then extractive
          else lite_llm
              (new_lite_llm (env "LITELLM_URL") (env "LITELLM_API_KEY") (env "LLM_MODEL")))
      else extractive

  -- The score that the query service asks for.
  unfoldable pub provider_score : String → Provider F → String → List Source → Faithful F
  unfolding score_faithfulness
  provider_score mode p answer sources =
      score_faithfulness fraction to_lower mode p.judge answer sources
