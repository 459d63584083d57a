-- ===== src/Server.antt =====
-- cmd/query/main.go: what the query service holds and what it exchanges with other processes, with
-- `Answer` and `Citation` of internal/rag/rag.go.
use search_and_retrieval_sys.Prelude.{String, Bool, Option, List}
use search_and_retrieval_sys.Prelude.Int.{ℤ}
use search_and_retrieval_sys.Prelude.Maps.{Map}
use search_and_retrieval_sys.OpenSearch.{OsDoc}
use search_and_retrieval_sys.Fusion.{Float}
use search_and_retrieval_sys.Search.{SearchBody, PointQuery}
use search_and_retrieval_sys.Sources.{Source}
use search_and_retrieval_sys.Cache.{Redis}
use search_and_retrieval_sys.SemCache.{SemCache, Probe, Entry}

pub record Citation (F : Type 0) : Type 0 where
  pub marker : String
  pub doc_id : String
  pub source : String
  pub score : F

pub record Answer (F : Type 0) : Type 0 where
  pub text : String
  pub model : String
  pub citations : List (Citation F)

-- The JSON object of an answer; the last two fields are added to one from a cache.
pub record Reply (F : Type 0) : Type 0 where
  pub answer : Answer F
  pub faithfulness : F
  pub unsupported : List String
  pub warning : Bool
  pub latency_ms : ℤ
  pub cached : Bool
  pub semantic_score : Option F

-- The calls of other processes.
pub data Call (F : Type 0) : Type 0 where
  bm25 : SearchBody → Call F
  embed : List String → Call F
  nearest : PointQuery (List F) → Call F
  mget : List String → Call F
  rerank : String → List String → Call F
  read_generation : String → Call F
  read_cache : String → Call F
  probe : Probe F → Call F
  generate : String → List Source → Call F
  write_cache : String → String → Call F
  store_answer : Entry F → Call F

-- How the other processes answer; `none` is an error. The language model, the faithfulness score and
-- the JSON of an answer are among them.
pub record Outside (F : Type 0) : Type 0 where
  pub search_answer : SearchBody → Option (List String)
  pub embed_answer : List String → Option (List (List F))
  pub nearest_answer : PointQuery (List F) → Option (List (Option String))
  pub mget_answer : List String → Option (List (String × Option OsDoc))
  pub rerank_answer : String → List String → Option (List ℤ)
  pub generate_answer : String → List Source → Option (Answer F)
  pub score_faithfulness : String → List Source → F × List String
  pub redis : Redis
  pub sem : SemCache F
  pub encode_reply : Reply F → Option String
  pub decode_reply : String → Option (Reply F)
  pub latency_ms : ℤ

-- What `strings`, `crypto` and `range` bring in.
pub record Runtime (F : Type 0) : Type 0 where
  pub to_lower : String → String
  pub hex_sha1 : String → String
  pub filter_order : Map String → Map String
  pub key_order : List String → List String
  pub score_order : Map F → Map F
  pub float : Float F

pub record Server (F : Type 0) : Type 0 where
  pub out : Outside F
  pub runtime : Runtime F
  pub rrf_k : ℤ
  pub rerank_n : ℤ
  pub top_k : ℤ
  pub faith_min : F
  pub api_key : String

pub record AskReq : Type 0 where
  pub query : String
  pub filters : Map String
  pub top_k : ℤ

pub record Request : Type 0 where
  pub header : String → String
  pub body : Option AskReq
