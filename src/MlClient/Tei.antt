-- ===== src/MlClient/Tei.antt =====
-- internal/mlclient/tei.go, and `FromEnv` of mlclient.go.
pub mod Scores
pub mod Reranked
pub mod Retrieved
use Prim.Native.String.{◌++◌}
use search_and_retrieval_sys.Prelude.{
  ℕ, zero, suc, String, Bool, ◌==◌, ◌&&◌, ltb, Option, none, some, List, [], ◌∷◌, length, map,
  if◌then◌else◌,
}
use search_and_retrieval_sys.Prelude.Int.{ℤ, pos, negsuc}
use search_and_retrieval_sys.Prelude.Sort.{sort}
use search_and_retrieval_sys.Http.{Transport}
use search_and_retrieval_sys.MlClient.{Ml, ServiceJson, post, ping, service}

-- An entry of the answer of `/rerank`.
pub record RankItem (F : Type 0) : Type 0 where
  pub index : ℤ
  pub score : F

-- The JSON of Text-Embeddings-Inference, and what Go has of float64.
pub record TeiJson (F : Type 0) : Type 0 where
  pub embed_req : List String → String
  pub rerank_req : String → List String → String
  pub decode_vectors : String → Option (List (List F))
  pub decode_items : String → Option (List (RankItem F))
  pub zero_f : F
  pub less : F → F → Bool

-- A write within the bounds; it is never made elsewhere.
abbrev pub set : {A : Type 0} → List A → ℕ → A → List A
set [] i v = []
set (x ∷ xs) zero v = v ∷ xs
set (x ∷ xs) (suc i) v = x ∷ set xs i v

abbrev pub zeros : {A B : Type 0} → A → List B → List A
zeros z [] = []
zeros z (x ∷ xs) = z ∷ zeros z xs

module _ {F : Type 0} (json : TeiJson F) where
  -- The comparison of the sort.
  abbrev pub scores_above : RankItem F → RankItem F → Bool
  scores_above a b = json.less b.score a.score

  -- The place of an index in the scores, if it has one.
  abbrev pub place : ℤ → List F → Option ℕ
  place (pos n) scores = if ltb n (length scores) then some n else none
  place (negsuc n) scores = none

  abbrev pub put_score : RankItem F → List F → Option ℕ → List F
  put_score r scores none = scores
  put_score r scores (some n) = set scores n r.score

  abbrev pub put_index : Option ℕ → ℤ → List ℤ → List ℤ
  put_index none i order = order
  put_index (some n) i order = i ∷ order

  -- The loop over the sorted answer: the scores and the order.
  unfoldable pub place_items : List (RankItem F) → List F → List F × List ℤ
  place_items [] scores = (scores, [])
  place_items (r ∷ res) scores =
      let (final, order) = place_items res (put_score r scores (place r.index scores)) in
      (final, put_index (place r.index scores) r.index order)

  abbrev pub ranked : List String → List (RankItem F) → List F × List ℤ
  ranked docs res = place_items (sort scores_above res) (zeros json.zero_f docs)

  module _ (send : Transport) (embed_url rerank_url : String) where
    unfoldable pub tei_embed : List String → Option (List (List F) × String)
    unfolding post
    tei_embed texts = elim (post send (embed_url ++ "/embed") (json.embed_req texts)) [
      | none ↦ none
      | some content ↦ elim (json.decode_vectors content) [
        | none ↦ none
        | some vectors ↦ some (vectors, "tei")
      ]
    ]

    -- What `/rerank` answers.
    unfoldable pub rerank_items : String → List String → Option (List (RankItem F))
    unfolding post
    rerank_items query docs =
        if rerank_url == ""
        then none
        else elim (post send (rerank_url ++ "/rerank") (json.rerank_req query docs)) [
          | none ↦ none
          | some content ↦ json.decode_items content
        ]

    unfoldable pub tei_rerank : String → List String → Option (List F × List ℤ)
    unfolding place_items rerank_items
    tei_rerank query docs = elim (rerank_items query docs) [
      | none ↦ none
      | some res ↦ some (ranked docs res)
    ]

    unfoldable pub tei_health : Bool
    unfolding ping
    tei_health =
        if ping send embed_url
        then (if rerank_url == "" then Bool.true else ping send rerank_url)
        else Bool.false

    unfoldable pub tei : Ml F
    unfolding tei_embed tei_rerank tei_health
    tei = record { embed = tei_embed; rerank = tei_rerank; health = tei_health }

-- `FromEnv`: an environment gives the text of each variable, "" if it is not set.
unfoldable pub from_env :
    {F : Type 0} → ServiceJson F → TeiJson F → Transport → (String → String) → String → Ml F
unfolding service tei
from_env service_json tei_json send env python_base =
    if env "TEI_EMBED_URL" == ""
    then service service_json send python_base
    else tei tei_json send (env "TEI_EMBED_URL") (env "TEI_RERANK_URL")
