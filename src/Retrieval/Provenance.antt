-- ===== src/Retrieval/Provenance.antt =====
-- Where the sources of a retrieval come from.
use Prim.Native.String.{◌++◌}
use mathlib.Core.List.{Permᴰ}
use search_and_retrieval_sys.Prelude.Text.{decimal_ℕ}
use search_and_retrieval_sys.Prelude.{
  ℕ, zero, suc, String, ◌≡◌, refl, subst, ◌⊎◌, inl, inr, Option, none, some, List, [], ◌∷◌, map,
  arith, All, All-map, Elem, head, tail, Bool-cases, Option-cases, take, length,
}
use search_and_retrieval_sys.Prelude.Int.{ℤ, pos, negsuc, leb_ℤ}
use search_and_retrieval_sys.Prelude.Maps.{Map, lookup}
use search_and_retrieval_sys.Fusion.{Scored, rrf}
use search_and_retrieval_sys.Fusion.Complete.{Elem-rrf_iff}
use search_and_retrieval_sys.Search.{Doc, get_by_ids}
use search_and_retrieval_sys.Sources.{Source, marker_for, source_of, rerank_text}
use search_and_retrieval_sys.Server.{Server}
use search_and_retrieval_sys.Retrieval.{
  found, nth, at_index, first_ids, have, sources_of, ranked_order, rank, fetch, retrieve,
  lexical_lane, vector_lane,
}
use search_and_retrieval_sys.Retrieval.Ranking.{bound}

nth-All :
    (P : Doc → Type 0) (docs : List Doc) (n : ℕ) (d : Doc) → All P docs → nth docs n ≡ some d → P d
nth-All P [] n d h e = cc
nth-All P (x ∷ docs) zero d (p, h) e = let same : x ≡ d = ground arith in subst P same p
nth-All P (x ∷ docs) (suc n) d (p, h) e = nth-All P docs n d h e

at_index-All :
    (P : Doc → Type 0) (docs : List Doc) (i : ℤ) (d : Doc)
    → All P docs
    → at_index docs i ≡ some d
    → P d
at_index-All P docs (pos n) d h e = nth-All P docs n d h e
at_index-All P docs (negsuc n) d h e = cc

-- The source shows a document with `P`: its id, its origin, and its title and body.
pub record Shows (P : Doc → Type 0) (n : ℕ) (src : Source) : Type 0 where
  pub doc : Doc
  pub meets : P doc
  pub marker : src.marker ≡ "doc_" ++ decimal_ℕ n
  pub doc_id : src.doc_id ≡ doc.doc_id
  pub origin : src.origin ≡ doc.source
  pub text : src.text ≡ doc.title ++ ". " ++ doc.body

-- The sources show documents with `P`, and their markers count on from `n`.
abbrev pub AllShow : (Doc → Type 0) → ℕ → List Source → Type 0
AllShow P n [] = Unit
AllShow P n (src ∷ sources) = Shows P n src × AllShow P (suc n) sources

sources_of-All :
    (P : Doc → Type 0) (docs : List Doc) (n : ℕ) (order : List ℤ) (sources : List Source)
    → All P docs
    → sources_of docs n order ≡ some sources
    → AllShow P (suc n) sources
unfolding sources_of
sources_of-All P docs n [] sources h e =
    let none_left : sources ≡ [] = ground arith in rw none_left tt
sources_of-All P docs n (i ∷ order) sources h e = elim (Option-cases (at_index docs i)) [
  | inl missing ↦ absurd (ground arith)
  | inr (d, at) ↦ elim (Option-cases (sources_of docs (suc n) order)) [
    | inl short ↦ absurd (ground arith)
    | inr (rest, later) ↦
        let same : sources ≡ source_of (suc n) d ∷ rest = ground arith in
        rw same (
          record {
            doc = d;
            meets = at_index-All P docs i d h at;
            marker = unfold marker_for in refl;
            doc_id = refl;
            origin = refl;
            text = refl;
          },
          sources_of-All P docs (suc n) order rest h later,
        )
  ]
]

-- The document is stored under one of the ids.
abbrev Stored : Map Doc → List String → Doc → Type 0
Stored docs ids d = (id : String) × Elem id ids × (lookup id docs ≡ some d)

have-All : (docs : Map Doc) (ids : List String) → All (Stored docs ids) (have docs ids)
unfolding have
have-All docs [] = tt
have-All docs (id ∷ ids) = here (have-All docs ids) (lookup id docs) refl
  where
    here :
        All (Stored docs ids) (have docs ids)
        → (o : Option Doc) → lookup id docs ≡ o
        → All
            (Stored docs (id ∷ ids))
            (elim o [ none ↦ have docs ids | some d ↦ d ∷ have docs ids ])
    here rest none e =
        All-map (λ d (s : Stored docs ids d). (s.0, tail s.1, s.2)) (have docs ids) rest
    here rest (some d) e = (
      (id, head refl, e),
      All-map (λ d (s : Stored docs ids d). (s.0, tail s.1, s.2)) (have docs ids) rest,
    )

first_ids-Elem :
    {F : Type 0} (n : ℤ) (taken : ℕ) (fs : List (Scored F)) (id : String)
    → Elem id (first_ids n taken fs)
    → Elem id (map (λ (s : Scored F). s.doc_id) fs)
unfolding first_ids
first_ids-Elem n taken [] id m = m
first_ids-Elem n taken (f ∷ fs) id (head e) = head e
first_ids-Elem n taken (f ∷ fs) id (tail m) = elim (Bool-cases (leb_ℤ n (pos (suc taken)))) [
  | inl full ↦ elim (rw full at m) [ ]
  | inr more ↦ tail (first_ids-Elem n (suc taken) fs id (rw more at m))
]

module _ {F : Type 0} (s : Server F) where
  rank-All :
      (P : Doc → Type 0) (query : String) (top_k : ℤ) (docs : List Doc) (sources : List Source)
      → All P docs
      → (rank s query top_k docs).0 ≡ found sources
      → AllShow P 1 sources
  unfolding rank
  rank-All P query top_k [] sources h e =
      let none_left : sources ≡ [] = ground arith in rw none_left tt
  rank-All P query top_k (d ∷ docs) sources h e =
      let order = take (bound s top_k) (
        ranked_order (s.out.rerank_answer query (map rerank_text (d ∷ docs)))
          (length (d ∷ docs))) in
      elim (Option-cases (sources_of (d ∷ docs) 0 order)) [
        | inl short ↦ absurd (ground arith)
        | inr (shown, f) ↦
            let same : sources ≡ shown = ground arith in
            rw same (sources_of-All P (d ∷ docs) 0 order shown h f)
      ]

  -- What OpenSearch returned when it was asked for the ids.
  abbrev pub Fetched : List String → Doc → Type 0
  Fetched ids d =
      (docs : Map Doc) × (get_by_ids s.out.mget_answer ids ≡ some docs) × Stored docs ids d

  fetch-All :
      (query : String) (top_k : ℤ) (ids : List String) (sources : List Source)
      → (fetch s query top_k ids).0 ≡ found sources
      → AllShow (Fetched ids) 1 sources
  unfolding fetch
  fetch-All query top_k [] sources e =
      let none_left : sources ≡ [] = ground arith in rw none_left tt
  fetch-All query top_k (id ∷ ids) sources e =
      elim (Option-cases (get_by_ids s.out.mget_answer (id ∷ ids))) [
        | inl down ↦ absurd (ground arith)
        | inr (docs, f) ↦
            rank-All (Fetched (id ∷ ids)) query top_k (have docs (id ∷ ids)) sources
              (All-map (λ d (p : Stored docs (id ∷ ids) d). (docs, f, p)) (have docs (id ∷ ids))
                (have-All docs (id ∷ ids)))
              (rw f at e)
      ]

  -- If range visits each score once: a retrieved source has the id and the origin of a document
  -- that OpenSearch returned for an id that one of the two lanes has hit; its text is the title of
  -- that document, a point and a space, and its body, and the markers of the sources are doc_1,
  -- doc_2 and so on.
  pub retrieve-sources :
      ((m : Map F) → Permᴰ (s.runtime.score_order m) m)
      → (query : String) (filters : Map String) (top_k : ℤ) (qvec : Option (List F))
        (sources : List Source)
      → (retrieve s query filters top_k qvec).0 ≡ found sources
      → (ids : List String) × AllShow (Fetched ids) 1 sources
        × ((id : String)
            → Elem id ids
            → Elem id (lexical_lane s query filters).0
              ⊎ Elem id (vector_lane s query filters qvec).0)
  unfolding retrieve
  retrieve-sources fair query filters top_k qvec sources e =
      let bm25_ids = (lexical_lane s query filters).0 in
      let vec_ids = (vector_lane s query filters qvec).0 in
      let lists = bm25_ids ∷ vec_ids ∷ [] in
      let fused = rrf s.runtime.float s.runtime.score_order lists s.rrf_k in
      let ids = first_ids s.rerank_n 0 fused in
      (
        ids,
        fetch-All query top_k ids sources e,
        λ id m.
            elim ((Elem-rrf_iff s.runtime.float s.runtime.score_order fair lists s.rrf_k id).0
              (first_ids-Elem s.rerank_n 0 fused id m)) [
                | inl lexical ↦ inl lexical
                | inr (inl vector) ↦ inr vector
                | inr (inr none_left) ↦ absurd none_left
              ],
      )
