-- ===== src/Rag/Citations/Known.antt =====
-- The citations of a text are those of its markers that name a source.
use search_and_retrieval_sys.Prelude.{
  String, true, false, ◌≡◌, ◌≢◌, refl, sym, ap, ◌∙◌, subst, ◌⊎◌, inl, inr, ◌==◌, eq_iff, eq_refl,
  none, some, List, [], ◌∷◌, map, All, All-map, All-self, Elem, head, tail, Bool-cases,
  Option-cases, arith,
}
use search_and_retrieval_sys.Prelude.Maps.{Map, lookup, insert, lookup-insert}
use search_and_retrieval_sys.Sources.{Source}
use search_and_retrieval_sys.Server.{Citation}
use search_and_retrieval_sys.Rag.Words.{has}
use search_and_retrieval_sys.Rag.Citations.{
  markers_in, by_marker, citation_of, cite, citations_from_text,
}

-- No text stands twice.
abbrev pub IsDistinct : List String → Type 0
IsDistinct [] = Unit
IsDistinct (x ∷ xs) = All (λ y. y ≢ x) xs × IsDistinct xs

pub has-cons :
    (m x : String) (seen : List String) → has m (x ∷ seen) ≡ true → (x ≡ m) ⊎ (has m seen ≡ true)
unfolding has
has-cons m x seen h = ground (arith, eq_iff x m)

pub has-ne : (m k : String) (seen : List String) → has k (m ∷ seen) ≡ false → k ≢ m
unfolding has
has-ne m k seen h e = ground (arith, eq_iff m k)

module _ {F : Type 0} (zero_score : F) where
  -- The citation stands for a marker of the text, under which one of the sources is known.
  pub record IsKnown (text : String) (sources : List Source) (c : Citation F) : Type 0 where
    pub marked : Elem c.marker (markers_in 0 text)
    pub source : Source
    pub listed : Elem source sources
    pub named : source.marker ≡ c.marker
    pub same : c ≡ citation_of zero_score c.marker source

  abbrev pub markers_of : List (Citation F) → List String
  markers_of = map (λ (c : Citation F). c.marker)

  by_marker-found :
      (k : String) (m : Map Source) (ss : List Source) (s : Source)
      → lookup k (by_marker zero_score m ss) ≡ some s
      → (lookup k m ≡ some s) ⊎ (Elem s ss × (s.marker ≡ k))
  unfolding by_marker
  by_marker-found k m [] s h = inl h
  by_marker-found k m (x ∷ ss) s h = elim (by_marker-found k (insert x.marker x m) ss s h) [
    | inr (l, e) ↦ inr (tail l, e)
    | inl old ↦ elim (Bool-cases (x.marker == k)) [
      | inr other ↦ inl (ground (arith, lookup-insert x.marker k x m))
      | inl same ↦
          let e : x ≡ s = ground (arith, lookup-insert x.marker k x m) in
          inr (head e, ap (λ (y : Source). y.marker) (sym e) ∙ (eq_iff x.marker k).0 same)
    ]
  ]

  by_marker-keeps :
      (k : String) (m : Map Source) (ss : List Source)
      → lookup k m ≢ none
      → lookup k (by_marker zero_score m ss) ≢ none
  unfolding by_marker
  by_marker-keeps k m [] h = h
  by_marker-keeps k m (x ∷ ss) h =
      by_marker-keeps k (insert x.marker x m) ss
        (λ e. h (ground (arith, lookup-insert x.marker k x m)))

  by_marker-holds :
      (m : Map Source) (ss : List Source) (s : Source)
      → Elem s ss
      → lookup s.marker (by_marker zero_score m ss) ≢ none
  unfolding by_marker
  by_marker-holds m [] s l = elim l [ ]
  by_marker-holds m (x ∷ ss) s (tail l) = by_marker-holds (insert x.marker x m) ss s l
  by_marker-holds m (x ∷ ss) s (head e) = by_marker-keeps s.marker (insert x.marker x m) ss (
      subst (λ (y : Source). lookup y.marker (insert x.marker x m) ≢ none) e
        (λ gone. ground (arith, lookup-insert x.marker x.marker x m, eq_refl x.marker)))

  module _ (sources : Map Source) where
    abbrev IsFound : List String → Citation F → Type 0
    IsFound ms c =
        Elem c.marker ms
        × ((s : Source) × (lookup c.marker sources ≡ some s)
            × (c ≡ citation_of zero_score c.marker s))

    -- What one marker adds.
    cite-cases :
        (seen : List String) (m : String) (ms : List String)
        → ((has m seen ≡ true)
            × (cite zero_score sources seen (m ∷ ms) ≡ cite zero_score sources seen ms))
          ⊎ ((lookup m sources ≡ none)
              × (cite zero_score sources seen (m ∷ ms) ≡ cite zero_score sources (m ∷ seen) ms))
          ⊎ ((has m seen ≡ false)
              × ((s : Source) × (lookup m sources ≡ some s)
                  × (cite zero_score sources seen (m ∷ ms)
                      ≡ citation_of zero_score m s ∷ cite zero_score sources (m ∷ seen) ms)))
    unfolding cite
    cite-cases seen m ms = elim (Bool-cases (has m seen)) [
      | inl again ↦ inl (again, rw again)
      | inr new ↦ elim (Option-cases (lookup m sources)) [
        | inl unknown ↦ inr (inl (unknown, rw (new, unknown)))
        | inr (s, found) ↦ inr (inr (new, (s, found, rw (new, found))))
      ]
    ]

    later-IsFound :
        (m : String) (ms : List String) (cs : List (Citation F))
        → All (IsFound ms) cs
        → All (IsFound (m ∷ ms)) cs
    later-IsFound m ms cs h = All-map (λ c (f : IsFound ms c). (tail f.0, f.1)) cs h

    cite-IsFound : (seen ms : List String) → All (IsFound ms) (cite zero_score sources seen ms)
    unfolding cite
    cite-IsFound seen [] = tt
    cite-IsFound seen (m ∷ ms) = elim (cite-cases seen m ms) [
      | inl (again, e) ↦ rw e (later-IsFound m ms _ (cite-IsFound seen ms))
      | inr (inl (unknown, e)) ↦ rw e (later-IsFound m ms _ (cite-IsFound (m ∷ seen) ms))
      | inr (inr (new, (s, found, e))) ↦
          rw e ((head refl, (s, found, refl)), later-IsFound m ms _ (cite-IsFound (m ∷ seen) ms))
    ]

    cite-fresh :
        (seen ms : List String)
        → All (λ c. has c.marker seen ≡ false) (cite zero_score sources seen ms)
    unfolding has cite
    cite-fresh seen [] = tt
    cite-fresh seen (m ∷ ms) = elim (cite-cases seen m ms) [
      | inl (again, e) ↦ rw e (cite-fresh seen ms)
      | inr (inl (unknown, e)) ↦ rw e (All-map (λ c h. older c h) _ (cite-fresh (m ∷ seen) ms))
      | inr (inr (new, (s, found, e))) ↦
          rw e (new, All-map (λ c h. older c h) _ (cite-fresh (m ∷ seen) ms))
    ]
      where
        older : (c : Citation F) → has c.marker (m ∷ seen) ≡ false → has c.marker seen ≡ false
        older c h = ground arith

    cite-IsDistinct :
        (seen ms : List String) → IsDistinct (markers_of (cite zero_score sources seen ms))
    cite-IsDistinct seen [] = unfold cite in tt
    cite-IsDistinct seen (m ∷ ms) = elim (cite-cases seen m ms) [
      | inl (again, e) ↦ rw e (cite-IsDistinct seen ms)
      | inr (inl (unknown, e)) ↦ rw e (cite-IsDistinct (m ∷ seen) ms)
      | inr (inr (new, (s, found, e))) ↦
          rw e (others _ (cite-fresh (m ∷ seen) ms), cite-IsDistinct (m ∷ seen) ms)
    ]
      where
        others :
            (cs : List (Citation F))
            → All (λ c. has c.marker (m ∷ seen) ≡ false) cs
            → All (λ y. y ≢ m) (markers_of cs)
        others [] h = tt
        others (c ∷ cs) (p, h) = ((λ e. has-ne m c.marker seen p e), others cs h)

    cite-cites :
        (seen ms : List String) (m : String) (s : Source)
        → Elem m ms
        → lookup m sources ≡ some s
        → (has m seen ≡ true) ⊎ Elem m (markers_of (cite zero_score sources seen ms))
    cite-cites seen [] m s l found = elim l [ ]
    cite-cites seen (x ∷ ms) m s (tail l) found = elim (cite-cases seen x ms) [
      | inl (again, e) ↦ rw e (cite-cites seen ms m s l found)
      | inr (inl (unknown, e)) ↦ elim (cite-cites (x ∷ seen) ms m s l found) [
        | inr cited ↦ inr (rw e cited)
        | inl passed ↦ elim (has-cons m x seen passed) [
          | inl same ↦ absurd (cc (ap (λ (k : String). lookup k sources) same))
          | inr earlier ↦ inl earlier
        ]
      ]
      | inr (inr (new, (t, known, e))) ↦ elim (cite-cites (x ∷ seen) ms m s l found) [
        | inr cited ↦ inr (rw e (tail cited))
        | inl passed ↦ elim (has-cons m x seen passed) [
          | inl same ↦ inr (rw e (head same))
          | inr earlier ↦ inl earlier
        ]
      ]
    ]
    cite-cites seen (x ∷ ms) m s (head e) found = elim (cite-cases seen x ms) [
      | inl (again, _) ↦ inl (subst (λ k. has k seen ≡ true) e again)
      | inr (inl (unknown, _)) ↦ absurd (cc (ap (λ (k : String). lookup k sources) e))
      | inr (inr (new, (t, known, f))) ↦ inr (rw f (head e))
    ]

  -- The citations of a text are those of markers of the text that name a source, with distinct
  -- markers, and every marker of the text is cited unless it names no source.
  pub citations_from_text_lem :
      (text : String) (sources : List Source)
      → All (IsKnown text sources) (citations_from_text zero_score text sources)
        × IsDistinct (markers_of (citations_from_text zero_score text sources))
        × All
            (λ m.
              Elem m (markers_of (citations_from_text zero_score text sources))
              ⊎ All (λ (s : Source). s.marker ≢ m) sources)
            (markers_in 0 text)
  unfolding citations_from_text
  citations_from_text_lem text sources =
      let known = by_marker zero_score [] sources in
      let ms = markers_in 0 text in
      (
        All-map (λ c f. from_source c f) (cite zero_score known [] ms) (cite-IsFound known [] ms),
        cite-IsDistinct known [] ms,
        All-map {P = λ m. Elem m ms} cited ms (All-self ms),
      )
    where
      from_source :
          (c : Citation F)
          → IsFound (by_marker zero_score [] sources) (markers_in 0 text) c
          → IsKnown text sources c
      from_source c (m, (s, found, same)) = elim (by_marker-found c.marker [] sources s found) [
        | inl old ↦ absurd (unfold lookup in cc)
        | inr (l, named) ↦ record { marked = m; source = s; listed = l; named = named; same = same }
      ]

      cited :
          (m : String)
          → Elem m (markers_in 0 text)
          → Elem m (
              markers_of (cite zero_score (by_marker zero_score [] sources) [] (markers_in 0 text)))
            ⊎ All (λ (s : Source). s.marker ≢ m) sources
      cited m l = elim (Option-cases (lookup m (by_marker zero_score [] sources))) [
        | inl gone ↦ inr (
            All-map {P = λ s. Elem s sources} {Q = λ (s : Source). s.marker ≢ m}
              (λ s k e.
                by_marker-holds [] sources s k
                  (ap (λ x. lookup x (by_marker zero_score [] sources)) e ∙ gone))
              sources (All-self sources))
        | inr (t, found) ↦
            elim (cite-cites (by_marker zero_score [] sources) [] (markers_in 0 text) m t l found) [
              | inl seen ↦ absurd (unfold has in cc)
              | inr listed ↦ inl listed
            ]
      ]
