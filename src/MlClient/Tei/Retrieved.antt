-- ===== src/MlClient/Tei/Retrieved.antt =====
-- A query service whose reranker is the client of Text-Embeddings-Inference.
use mathlib.Core.Option
use search_and_retrieval_sys.Prelude.{
  String, ◌≡◌, ◌≢◌, subst, inl, inr, Option, none, List, length, length-map, map, All, All-map,
  Option-cases, arith,
}
use search_and_retrieval_sys.Prelude.Int.{ℤ, pos, negsuc}
use search_and_retrieval_sys.Prelude.Maps.{Map}
use search_and_retrieval_sys.Http.{Transport}
use search_and_retrieval_sys.Search.{Doc}
use search_and_retrieval_sys.Sources.{Source, rerank_text}
use search_and_retrieval_sys.Server.{Server}
use search_and_retrieval_sys.Retrieval.{found, retrieve}
use search_and_retrieval_sys.Retrieval.Ranking.{InRange, RanksTexts, retrieve_total}
use search_and_retrieval_sys.MlClient.Tei.Reranked.{tei_rerank-Below}
use search_and_retrieval_sys.MlClient.Tei.Scores.{Below}
use search_and_retrieval_sys.MlClient.Tei.{TeiJson, tei_rerank}

Below-InRange :
    (docs : List Doc) (order : List ℤ) → All (Below (length docs)) order → All (InRange docs) order
Below-InRange docs order h = All-map each order h
  where
    each : (i : ℤ) → Below (length docs) i → InRange docs i
    each (pos i) b = b
    each (negsuc i) b = b

-- The client of Text-Embeddings-Inference meets what retrieve needs of a reranker: with it, and
-- while OpenSearch returns documents by id, a retrieval succeeds, whatever the inference server
-- answers.
pub retrieve-tei :
    {F : Type 0} (s : Server F) (json : TeiJson F) (send : Transport)
    (embed_url rerank_url : String)
    → ((query : String) (docs : List String)
        → s.out.rerank_answer query docs
          ≡ Option.map
              (λ (r : List F × List ℤ). r.1)
              (tei_rerank json send embed_url rerank_url query docs))
    → ((ids : List String) → s.out.mget_answer ids ≢ none)
    → (query : String) (filters : Map String) (top_k : ℤ) (qvec : Option (List F))
    → (sources : List Source) × ((retrieve s query filters top_k qvec).0 ≡ found sources)
retrieve-tei s json send embed_url rerank_url uses up = retrieve_total s up ranks
  where
    ranks : RanksTexts s
    ranks query docs order h =
        elim (Option-cases
          (tei_rerank json send embed_url rerank_url query (map rerank_text docs))) [
            | inl failed ↦ absurd (ground (arith, uses query (map rerank_text docs)))
            | inr ((scores, order'), e) ↦
                let (counted, below) =
                  tei_rerank-Below json send embed_url rerank_url query (map rerank_text docs)
                    scores order' e in
                let same : order' ≡ order = ground (arith, uses query (map rerank_text docs)) in
                Below-InRange docs order (
                  subst (λ n. All (Below n) order) (length-map rerank_text docs)
                    (subst (All (Below (length (map rerank_text docs)))) same below))
          ]
