-- ===== src/Rag/Extractive/Cites.antt =====
-- The citations of the extractive answer are those of the sentences that it is made of.
use mathlib.Core.List.{Permᴰ}
use mathlib.Core.List.Permᴰ
use search_and_retrieval_sys.Prelude.{
  String, ◌≡◌, ◌≢◌, refl, sym, ap, ◌∙◌, subst, inl, inr, eq_refl, Option, none, some, List, [], ◌∷◌,
  map, All, All-map, All-self, All-perm, All-Elem, Elem, Elem-map, Elem-perm, Option-cases, arith,
}
use search_and_retrieval_sys.Prelude.Sort.{sort-perm}
use search_and_retrieval_sys.Prelude.Maps.{Map, lookup, lookup-insert, lookup-Elem, All-insert}
use search_and_retrieval_sys.Server.{Citation}
use search_and_retrieval_sys.Rag.Extractive.{
  Candidate, citation, cite_first, seen_cite, marker_before, cited, citations,
}

module _ {F : Type 0} (zero_score : F) where
  -- The entry of the map is the citation of one of the sentences, under its marker.
  abbrev IsEntry : List Candidate → String × Citation F → Type 0
  IsEntry ps e = (p : Candidate) × Elem p ps × (e.1 ≡ citation zero_score p) × (e.0 ≡ p.marker)

  cite_first-IsEntry :
      (ps : List Candidate) (c : Candidate) (seen : Map (Citation F)) (o : Option (Citation F))
      → Elem c ps
      → All (IsEntry ps) seen
      → All (IsEntry ps) (cite_first zero_score c seen o)
  cite_first-IsEntry ps c seen none m h =
      All-insert (IsEntry ps) c.marker (citation zero_score c) seen h (c, m, refl, refl)
  cite_first-IsEntry ps c seen (some old) m h = h

  seen_cite-IsEntry :
      (ps : List Candidate) (seen : Map (Citation F)) (cs : List Candidate)
      → All (λ c. Elem c ps) cs
      → All (IsEntry ps) seen
      → All (IsEntry ps) (seen_cite zero_score seen cs)
  unfolding seen_cite
  seen_cite-IsEntry ps seen [] l h = h
  seen_cite-IsEntry ps seen (c ∷ cs) (m, l) h =
      seen_cite-IsEntry ps (cite_first zero_score c seen (lookup c.marker seen)) cs l
        (cite_first-IsEntry ps c seen (lookup c.marker seen) m h)

  cite_first-keeps :
      (c : Candidate) (seen : Map (Citation F)) (o : Option (Citation F)) (k : String)
      → lookup k seen ≢ none
      → lookup k (cite_first zero_score c seen o) ≢ none
  cite_first-keeps c seen (some old) k h = h
  cite_first-keeps c seen none k h =
      λ e. h (ground (arith, lookup-insert c.marker k (citation zero_score c) seen))

  cite_first-cites :
      (c : Candidate) (seen : Map (Citation F)) (o : Option (Citation F))
      → lookup c.marker seen ≡ o
      → lookup c.marker (cite_first zero_score c seen o) ≢ none
  cite_first-cites c seen (some old) h = λ e. cc
  cite_first-cites c seen none h = λ e.
      ground (arith, lookup-insert c.marker c.marker (citation zero_score c) seen, eq_refl c.marker)

  seen_cite-keeps :
      (k : String) (seen : Map (Citation F)) (cs : List Candidate)
      → lookup k seen ≢ none
      → lookup k (seen_cite zero_score seen cs) ≢ none
  unfolding seen_cite
  seen_cite-keeps k seen [] h = h
  seen_cite-keeps k seen (c ∷ cs) h =
      seen_cite-keeps k (cite_first zero_score c seen (lookup c.marker seen)) cs
        (cite_first-keeps c seen (lookup c.marker seen) k h)

  seen_cite-cites :
      (seen : Map (Citation F)) (cs : List Candidate)
      → All (λ c. lookup c.marker (seen_cite zero_score seen cs) ≢ none) cs
  unfolding seen_cite
  seen_cite-cites seen [] = tt
  seen_cite-cites seen (c ∷ cs) =
      let next = cite_first zero_score c seen (lookup c.marker seen) in
      (
        seen_cite-keeps c.marker next cs (cite_first-cites c seen (lookup c.marker seen) refl),
        seen_cite-cites next cs,
      )

  All-cited :
      (ps : List Candidate) (m : Map (Citation F))
      → All (IsEntry ps) m
      → All
          (λ k. (p : Candidate) × Elem p ps × (k ≡ citation zero_score p))
          (map (cited zero_score) m)
  All-cited ps [] h = tt
  All-cited ps (e ∷ m) ((p, l, same, _), h) = ((p, l, same), All-cited ps m h)

  module _ (order : Map (Citation F) → Map (Citation F))
      (order-perm : (m : Map (Citation F)) → Permᴰ m (order m)) where
    entries-IsEntry : (ps : List Candidate) → All (IsEntry ps) (seen_cite zero_score [] ps)
    entries-IsEntry ps = seen_cite-IsEntry ps [] ps (All-self ps) tt

    cites :
        (ps : List Candidate) (p : Candidate)
        → lookup p.marker (seen_cite zero_score [] ps) ≢ none
        → Elem p.marker (map (λ (k : Citation F). k.marker) (citations zero_score order ps))
    cites ps p h = elim (Option-cases (lookup p.marker (seen_cite zero_score [] ps))) [
      | inl gone ↦ absurd (h gone)
      | inr (v, found) ↦
          let e = lookup-Elem p.marker v (seen_cite zero_score [] ps) found in
          let (p', l, same, key) = All-Elem (IsEntry ps) (entries-IsEntry ps) e in
          let listed : Elem v (citations zero_score order ps) =
            Elem-perm
              (Permᴰ.symm (
                sort-perm (marker_before zero_score)
                  (map (cited zero_score) (order (seen_cite zero_score [] ps)))))
              (Elem-map (cited zero_score)
                (Elem-perm (order-perm (seen_cite zero_score [] ps)) e)) in
          subst (λ k. Elem k (map (λ (c : Citation F). c.marker) (citations zero_score order ps)))
            (ap (λ (c : Citation F). c.marker) same ∙ sym key)
            (Elem-map (λ (c : Citation F). c.marker) listed)
    ]

    -- Each citation is that of a sentence of the answer, and the marker of each sentence is cited.
    pub citations_lem :
        (ps : List Candidate)
        → All
            (λ k. (p : Candidate) × Elem p ps × (k ≡ citation zero_score p))
            (citations zero_score order ps)
          × All
              (λ p.
                Elem p.marker (map (λ (k : Citation F). k.marker) (citations zero_score order ps)))
              ps
    citations_lem ps = (
      All-perm _
          (Permᴰ.symm (
            sort-perm (marker_before zero_score)
              (map (cited zero_score) (order (seen_cite zero_score [] ps)))))
          (All-cited ps (order (seen_cite zero_score [] ps))
            (All-perm (IsEntry ps) (order-perm (seen_cite zero_score [] ps)) (entries-IsEntry ps))),
      All-map (λ p h. cites ps p h) ps (seen_cite-cites [] ps),
    )
