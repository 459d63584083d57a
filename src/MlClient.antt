-- ===== src/MlClient.antt =====
-- internal/mlclient: the clients of the embedder and the reranker. What `encoding/json` makes of a value,
-- and of an answer, is a parameter.
pub mod Tei
use Prim.Native.String.{◌++◌}
use search_and_retrieval_sys.Prelude.{
  ℕ, String, Bool, ◌==◌, eqb, Option, none, some, List, [], ◌∷◌, if◌then◌else◌,
}
use search_and_retrieval_sys.Prelude.Int.{ℤ}
use search_and_retrieval_sys.Http.{HttpRequest, HttpResponse, Transport}

-- The interface `ML`; an error is `none`, and `false` for the health.
pub record Ml (F : Type 0) : Type 0 where
  pub embed : List String → Option (List (List F) × String)
  pub rerank : String → List String → Option (List F × List ℤ)
  pub health : Bool

pub record EmbedResp (F : Type 0) : Type 0 where
  pub vectors : List (List F)
  pub model_version : String

pub record RerankResp (F : Type 0) : Type 0 where
  pub scores : List F
  pub order : List ℤ

-- The JSON of the Python service.
pub record ServiceJson (F : Type 0) : Type 0 where
  pub embed_req : List String → String
  pub rerank_req : String → List String → String
  pub decode_embed : String → Option (EmbedResp F)
  pub decode_rerank : String → Option (RerankResp F)

abbrev pub json_header : List (String × String)
json_header = ("Content-Type", "application/json") ∷ []

-- `post` of both clients: the content of an answer with the status 200.
unfoldable pub post : Transport → String → String → Option String
post send url body =
    elim (send (record { method = "POST"; url = url; headers = json_header; body = body })) [
      | none ↦ none
      | some resp ↦ if eqb resp.status 200 then some resp.content else none
    ]

-- The health check of one server.
unfoldable pub ping : Transport → String → Bool
ping send base =
    elim (send (record { method = "GET"; url = base ++ "/health"; headers = []; body = "" })) [
      | none ↦ Bool.false
      | some resp ↦ eqb resp.status 200
    ]

module _ {F : Type 0} (json : ServiceJson F) (send : Transport) (base : String) where
  unfoldable pub service_embed : List String → Option (List (List F) × String)
  unfolding post
  service_embed texts = elim (post send (base ++ "/embed") (json.embed_req texts)) [
    | none ↦ none
    | some content ↦ elim (json.decode_embed content) [
      | none ↦ none
      | some out ↦ some (out.vectors, out.model_version)
    ]
  ]

  unfoldable pub service_rerank : String → List String → Option (List F × List ℤ)
  unfolding post
  service_rerank query docs = elim (post send (base ++ "/rerank") (json.rerank_req query docs)) [
    | none ↦ none
    | some content ↦ elim (json.decode_rerank content) [
      | none ↦ none
      | some out ↦ some (out.scores, out.order)
    ]
  ]

  -- `Client`
  unfoldable pub service : Ml F
  unfolding service_embed service_rerank ping
  service = record { embed = service_embed; rerank = service_rerank; health = ping send base }
