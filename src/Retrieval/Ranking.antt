-- ===== src/Retrieval/Ranking.antt =====
-- Degradation, the bound on the results, and the indices of the reranker.
use search_and_retrieval_sys.Prelude.{
  ℕ, zero, suc, ◌+◌, ◌≤◌, ◌<◌, String, ◌≡◌, ◌≢◌, refl, ap, ◌∙◌, inl, inr, Option, none, some, List,
  [], ◌∷◌, map, arith, All, Bool-cases, Option-cases, if◌then◌else◌, eqb, length, take, length-take,
}
use search_and_retrieval_sys.Prelude.Int.{ℤ, pos, negsuc, leb_ℤ}
use search_and_retrieval_sys.Prelude.Maps.{Map}
use search_and_retrieval_sys.Search.{Doc, get_by_ids, found_docs}
use search_and_retrieval_sys.Sources.{Source, rerank_text, source_of}
use search_and_retrieval_sys.Server.{Server}
use search_and_retrieval_sys.Retrieval.{
  found, nth, at_index, rounds, indices, have, sources_of, ranked_order, rank, rank_found, fetch,
  retrieve,
}

sources_of-length :
    (docs : List Doc) (n : ℕ) (order : List ℤ) (sources : List Source)
    → sources_of docs n order ≡ some sources
    → length sources ≡ length order
unfolding sources_of
sources_of-length docs n [] [] h = refl
sources_of-length docs n [] (x ∷ sources) h = ground arith
sources_of-length docs n (i ∷ order) sources h = elim (Option-cases (at_index docs i)) [
  | inl missing ↦ absurd (ground arith)
  | inr (d, e) ↦ elim (Option-cases (sources_of docs (suc n) order)) [
    | inl short ↦ absurd (ground arith)
    | inr (rest, f) ↦ ground (arith, sources_of-length docs (suc n) order rest f)
  ]
]

-- An index of the documents.
abbrev pub InRange : List Doc → ℤ → Type 0
InRange docs (pos n) = n < length docs
InRange docs (negsuc n) = ⊥

nth-some : (docs : List Doc) (n : ℕ) → n < length docs → (d : Doc) × (nth docs n ≡ some d)
nth-some [] n h = absurd (omega arith)
nth-some (d ∷ docs) zero h = (d, refl)
nth-some (d ∷ docs) (suc n) h = nth-some docs n (omega arith)

sources_of_total :
    (docs : List Doc) (n : ℕ) (order : List ℤ)
    → All (InRange docs) order
    → (sources : List Source) × (sources_of docs n order ≡ some sources)
unfolding sources_of
sources_of_total docs n [] h = ([], refl)
sources_of_total docs n (pos i ∷ order) (p, h) =
    let (d, e) = nth-some docs i p in
    let (rest, f) = sources_of_total docs (suc n) order h in
    (source_of (suc n) d ∷ rest, rw (e, f, sources_of))
sources_of_total docs n (negsuc i ∷ order) (p, h) = absurd p

indices-InRange :
    (docs : List Doc) (i n : ℕ) → i + n ≤ length docs → All (InRange docs) (indices i n)
indices-InRange docs i zero h = tt
indices-InRange docs i (suc n) h = (omega arith, indices-InRange docs (suc i) n (omega arith))

take-All : {A : Type 0} (P : A → Type 0) (n : ℕ) (xs : List A) → All P xs → All P (take n xs)
take-All P zero xs h = tt
take-All P (suc n) [] h = tt
take-All P (suc n) (x ∷ xs) (p, h) = (p, take-All P n xs h)

module _ {F : Type 0} (s : Server F) where
  -- The most results that a request for `top_k` gets.
  abbrev pub bound : ℤ → ℕ
  bound top_k = rounds (if leb_ℤ top_k (pos 0) then s.top_k else top_k)

  -- Every index that the reranker returns is one of the texts that it was sent.
  abbrev pub RanksTexts : Type 0
  RanksTexts =
      (query : String) (docs : List Doc) (order : List ℤ)
      → s.out.rerank_answer query (map rerank_text docs) ≡ some order
      → All (InRange docs) order

  rank-length :
      (query : String) (top_k : ℤ) (docs : List Doc) (sources : List Source)
      → (rank s query top_k docs).0 ≡ found sources
      → length sources ≤ bound top_k
  unfolding rank
  rank-length query top_k [] sources h = let e : sources ≡ [] = ground arith in rw e (omega arith)
  rank-length query top_k (d ∷ docs) sources h =
      let order =
        ranked_order (s.out.rerank_answer query (map rerank_text (d ∷ docs))) (length (d ∷ docs)) in
      elim (Option-cases (sources_of (d ∷ docs) 0 (take (bound top_k) order))) [
        | inl short ↦ absurd (ground arith)
        | inr (found_sources, e) ↦
            let same : found_sources ≡ sources = ground arith in
            rw (← same) (
              omega (
                arith,
                sources_of-length (d ∷ docs) 0 (take (bound top_k) order) found_sources e,
                length-take (bound top_k) order,
              ))
      ]

  ranked_order-InRange :
      RanksTexts
      → (query : String) (docs : List Doc)
      → All
          (InRange docs)
          (ranked_order (s.out.rerank_answer query (map rerank_text docs)) (length docs))
  ranked_order-InRange ranks query docs =
      elim (Option-cases (s.out.rerank_answer query (map rerank_text docs))) [
        | inl fails ↦ rw fails (indices-InRange docs 0 (length docs) (omega arith))
        | inr (order, e) ↦ elim (Bool-cases (eqb (length order) (length docs))) [
          | inl complete ↦ rw (e, complete) (ranks query docs order e)
          | inr partial ↦ rw (e, partial) (indices-InRange docs 0 (length docs) (omega arith))
        ]
      ]

  rank_total :
      RanksTexts
      → (query : String) (top_k : ℤ) (docs : List Doc)
      → (sources : List Source) × ((rank s query top_k docs).0 ≡ found sources)
  unfolding rank
  rank_total ranks query top_k [] = ([], refl)
  rank_total ranks query top_k (d ∷ docs) =
      let order =
        ranked_order (s.out.rerank_answer query (map rerank_text (d ∷ docs))) (length (d ∷ docs)) in
      let (sources, e) = sources_of_total (d ∷ docs) 0 (take (bound top_k) order) (
        take-All (InRange (d ∷ docs)) (bound top_k) order
          (ranked_order-InRange ranks query (d ∷ docs))) in
      (sources, rw (e, rank))

  fetch-length :
      (query : String) (top_k : ℤ) (ids : List String) (sources : List Source)
      → (fetch s query top_k ids).0 ≡ found sources
      → length sources ≤ bound top_k
  unfolding fetch
  fetch-length query top_k [] sources h = let e : sources ≡ [] = ground arith in rw e (omega arith)
  fetch-length query top_k (id ∷ ids) sources h =
      elim (Option-cases (get_by_ids s.out.mget_answer (id ∷ ids))) [
        | inl down ↦ absurd (ground arith)
        | inr (docs, e) ↦ rank-length query top_k (have docs (id ∷ ids)) sources (rw e at h)
      ]

  fetch_total :
      ((ids : List String) → s.out.mget_answer ids ≢ none)
      → RanksTexts
      → (query : String) (top_k : ℤ) (ids : List String)
      → (sources : List Source) × ((fetch s query top_k ids).0 ≡ found sources)
  unfolding fetch get_by_ids
  fetch_total up ranks query top_k [] = ([], refl)
  fetch_total up ranks query top_k (id ∷ ids) = elim (Option-cases (s.out.mget_answer (id ∷ ids))) [
    | inl down ↦ absurd (up (id ∷ ids) down)
    | inr (docs, e) ↦
        let (sources, r) = rank_total ranks query top_k (have (found_docs [] docs) (id ∷ ids)) in
        let got : get_by_ids s.out.mget_answer (id ∷ ids) ≡ some (found_docs [] docs) =
          rw (e, get_by_ids) in
        (sources, ap (λ (o : Option (Map Doc)). (rank_found s query top_k (id ∷ ids) o).0) got ∙ r)
  ]

  -- A retrieval that succeeds never returns more sources than the request, or else the server, allows.
  retrieve-length :
      (query : String) (filters : Map String) (top_k : ℤ) (qvec : Option (List F))
      (sources : List Source)
      → (retrieve s query filters top_k qvec).0 ≡ found sources
      → length sources ≤ bound top_k
  unfolding retrieve
  retrieve-length query filters top_k qvec sources h = fetch-length query top_k _ sources h

  -- While OpenSearch returns documents by id and the reranker ranks what it was sent, a retrieval
  -- succeeds, whether or not the lexical search, the embedding, Qdrant and the reranker answer.
  pub retrieve_total :
      ((ids : List String) → s.out.mget_answer ids ≢ none)
      → RanksTexts
      → (query : String) (filters : Map String) (top_k : ℤ) (qvec : Option (List F))
      → (sources : List Source) × ((retrieve s query filters top_k qvec).0 ≡ found sources)
  unfolding retrieve
  retrieve_total up ranks query filters top_k qvec = fetch_total up ranks query top_k _
