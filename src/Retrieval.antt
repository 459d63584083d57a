-- ===== src/Retrieval.antt =====
-- cmd/query/main.go: `retrieve`. It returns the calls that it makes of other processes, in their
-- order, beside its result. The two lanes run concurrently and share nothing: the lexical one is
-- listed first. Traces, metrics and logs are left out; the context's deadline is one of the reasons
-- for which a call fails.
pub mod Ranking
pub mod Provenance
use search_and_retrieval_sys.Prelude.{
  ℕ, zero, suc, String, Bool, true, false, eqb, length, take, Option, none, some, List, [], ◌∷◌,
  ◌++◌, map, if◌then◌else◌,
}
use search_and_retrieval_sys.Prelude.Int.{ℤ, pos, negsuc, leb_ℤ}
use search_and_retrieval_sys.Prelude.Maps.{Map, lookup}
use search_and_retrieval_sys.Fusion.{Scored, rrf}
use search_and_retrieval_sys.Search.{Doc, search_body, point_query, hit_id, get_by_ids}
use search_and_retrieval_sys.Sources.{Source, marker_for, rerank_text, source_of}
use search_and_retrieval_sys.Server.{Server, Call, bm25, embed, nearest, mget, rerank}

-- What `retrieve` returns; `panics` is an index out of range.
pub data Retrieved : Type 0 where
  found : List Source → Retrieved
  store_down panics : Retrieved

-- An index of a slice; `none` is out of range.
abbrev pub nth : {A : Type 0} → List A → ℕ → Option A
nth [] n = none
nth (x ∷ xs) zero = some x
nth (x ∷ xs) (suc n) = nth xs n

abbrev pub at_index : {A : Type 0} → List A → ℤ → Option A
at_index xs (pos n) = nth xs n
at_index xs (negsuc n) = none

-- How many rounds a loop makes that breaks at `i >= n`.
abbrev pub rounds : ℤ → ℕ
rounds (pos n) = n
rounds (negsuc n) = 0

abbrev pub indices : ℕ → ℕ → List ℤ
indices i zero = []
indices i (suc n) = pos i ∷ indices (suc i) n

-- The first fused ids: one is taken before the bound is tested.
unfoldable pub first_ids : {F : Type 0} → ℤ → ℕ → List (Scored F) → List String
first_ids n taken [] = []
first_ids n taken (f ∷ fs) =
    let rest = first_ids n (suc taken) fs in
    f.doc_id ∷ (if leb_ℤ n (pos (suc taken)) then [] else rest)

-- The ids whose content is there, with it, in fused order.
unfoldable pub have : Map Doc → List String → List Doc
have docs [] = []
have docs (id ∷ ids) =
    let rest = have docs ids in elim (lookup id docs) [ none ↦ rest | some d ↦ d ∷ rest ]

-- The ranked sources, `n` of which stand before these.
unfoldable pub sources_of : List Doc → ℕ → List ℤ → Option (List Source)
unfolding marker_for
sources_of docs n [] = some []
sources_of docs n (i ∷ order) =
    let rest = sources_of docs (suc n) order in
    elim (at_index docs i) [
      | none ↦ none
      | some d ↦ elim rest [ none ↦ none | some sources ↦ some (source_of (suc n) d ∷ sources) ]
    ]

abbrev pub ranked_order : Option (List ℤ) → ℕ → List ℤ
ranked_order none n = indices 0 n
ranked_order (some order) n = if eqb (length order) n then order else indices 0 n

module _ {F : Type 0} (s : Server F) where
  -- The goroutine of the lexical lane.
  unfoldable pub lexical_lane : String → Map String → List String × List (Call F)
  lexical_lane query filters =
      let body = search_body s.runtime.filter_order query filters s.rerank_n in
      (elim (s.out.search_answer body) [ none ↦ [] | some hits ↦ hits ], bm25 body ∷ [])

  unfoldable pub nearest_ids : List F → Map String → List String × List (Call F)
  nearest_ids vector filters =
      let q = point_query s.runtime.filter_order vector filters s.rerank_n in
      (elim (s.out.nearest_answer q) [ none ↦ [] | some hits ↦ map hit_id hits ], nearest q ∷ [])

  -- `vecs[0]`, if the embedding succeeds with at least one vector.
  unfoldable pub embed_query : String → Option (List F)
  embed_query query = elim (s.out.embed_answer (query ∷ [])) [
    | none ↦ none
    | some vecs ↦ elim vecs [ [] ↦ none | v ∷ vs ↦ some v ]
  ]

  abbrev pub after_embed : Option (List F) → Map String → List String × List (Call F)
  after_embed none filters = ([], [])
  after_embed (some v) filters = nearest_ids v filters

  -- The goroutine of the vector lane, which embeds the query itself if no vector is given.
  unfoldable pub vector_lane : String → Map String → Option (List F) → List String × List (Call F)
  unfolding nearest_ids embed_query
  vector_lane query filters (some v) = nearest_ids v filters
  vector_lane query filters none =
      let (ids, calls) = after_embed (embed_query query) filters in
      (ids, embed (query ∷ []) ∷ calls)

  -- 5) and 6): the reranking of the documents, and the ranked sources.
  unfoldable pub rank : String → ℤ → List Doc → Retrieved × List (Call F)
  unfolding sources_of
  rank query top_k [] = (found [], [])
  rank query top_k (d ∷ docs) =
      let texts = map rerank_text (d ∷ docs) in
      let order = ranked_order (s.out.rerank_answer query texts) (length (d ∷ docs)) in
      let bound = if leb_ℤ top_k (pos 0) then s.top_k else top_k in
      (
        elim (sources_of (d ∷ docs) 0 (take (rounds bound) order)) [
          | none ↦ panics
          | some sources ↦ found sources
        ],
        rerank query texts ∷ [],
      )

  abbrev pub rank_found : String → ℤ → List String → Option (Map Doc) → Retrieved × List (Call F)
  rank_found query top_k ids none = (store_down, [])
  rank_found query top_k ids (some docs) = rank query top_k (have docs ids)

  -- 4): the content of the fused ids.
  unfoldable pub fetch : String → ℤ → List String → Retrieved × List (Call F)
  unfolding rank have
  fetch query top_k [] = (found [], [])
  fetch query top_k (id ∷ ids) =
      let (r, calls) =
        rank_found query top_k (id ∷ ids) (get_by_ids s.out.mget_answer (id ∷ ids)) in
      (r, mget (id ∷ ids) ∷ calls)

  unfoldable pub retrieve : String → Map String → ℤ → Option (List F) → Retrieved × List (Call F)
  unfolding lexical_lane vector_lane first_ids fetch
  retrieve query filters top_k qvec =
      let (bm25_ids, lexical_calls) = lexical_lane query filters in
      let (vec_ids, vector_calls) = vector_lane query filters qvec in
      let fused = rrf s.runtime.float s.runtime.score_order (bm25_ids ∷ vec_ids ∷ []) s.rrf_k in
      let (r, calls) = fetch query top_k (first_ids s.rerank_n 0 fused) in
      (r, lexical_calls ++ vector_calls ++ calls)
