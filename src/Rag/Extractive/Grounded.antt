-- ===== src/Rag/Extractive/Grounded.antt =====
-- The extractive answer is made of the sources' own sentences, the best first.
use mathlib.Core.List.Permᴰ
use search_and_retrieval_sys.Prelude.{
  ◌≤◌, ◌<◌, String, false, ◌≡◌, refl, sym, ap, subst, ◌⊎◌, inl, inr, eqb, length, List, [], ◌∷◌,
  All, All-map, All-perm, All-self, Elem, head, tail, Elem-perm, Bool-cases, arith,
}
use search_and_retrieval_sys.Prelude.Order.{before}
use search_and_retrieval_sys.Prelude.Sort.{sort, sort-perm, sort-IsSorted}
use search_and_retrieval_sys.Sources.{Source}
use search_and_retrieval_sys.Rag.Words.{split_sentences, content_tokens, overlap, has}
use search_and_retrieval_sys.Rag.Citations.Known.{IsDistinct}
use search_and_retrieval_sys.Rag.Extractive.{
  Candidate, candidate, of_source, candidates, better, picks,
}
use search_and_retrieval_sys.Rag.Extractive.Picks.{
  texts_of, better-IsWeak, take_best-All, take_best-IsDistinct, take_best-length, take_best-best,
}

module _ (to_lower : String → String) (q : List String) where
  -- The candidate is a sentence of a source, with what it shares with the query.
  pub record IsExtract (sources : List Source) (c : Candidate) : Type 0 where
    pub source : Source
    pub listed : Elem source sources
    pub sentence : Elem c.text (split_sentences source.text)
    pub shared : 0 < overlap q (content_tokens to_lower c.text)
    pub same : c ≡ candidate source c.text (overlap q (content_tokens to_lower c.text))

  of_source-All :
      (P : Candidate → Type 0) (s : Source) (sentences : List String) (later : List Candidate)
      → All
          (λ t.
            0 < overlap q (content_tokens to_lower t)
            → P (candidate s t (overlap q (content_tokens to_lower t))))
          sentences
      → All P later
      → All P (of_source to_lower q s sentences later)
  unfolding of_source
  of_source-All P s [] later h l = l
  of_source-All P s (t ∷ ts) later (p, h) l =
      elim (Bool-cases (eqb (overlap q (content_tokens to_lower t)) 0)) [
        | inl apart ↦ rw apart (of_source-All P s ts later h l)
        | inr shares ↦ rw shares (p (ground arith), of_source-All P s ts later h l)
      ]

  candidates-All : (sources : List Source) → All (IsExtract sources) (candidates to_lower q sources)
  unfolding candidates
  candidates-All [] = tt
  candidates-All (s ∷ sources) =
      of_source-All (IsExtract (s ∷ sources)) s (split_sentences s.text)
        (candidates to_lower q sources)
        (All-map
          (λ t e p. record {
            source = s;
            listed = head refl;
            sentence = e;
            shared = p;
            same = refl;
          })
          (split_sentences s.text) (All-self (split_sentences s.text)))
        (All-map
          (λ c (x : IsExtract sources c). record {
            source = x.source;
            listed = tail x.listed;
            sentence = x.sentence;
            shared = x.shared;
            same = x.same;
          })
          (candidates to_lower q sources) (candidates-All sources))

  of_source-later :
      (s : Source) (sentences : List String) {later : List Candidate} {c : Candidate}
      → Elem c later
      → Elem c (of_source to_lower q s sentences later)
  unfolding of_source
  of_source-later s [] m = m
  of_source-later s (t ∷ ts) m = elim (Bool-cases (eqb (overlap q (content_tokens to_lower t)) 0)) [
    | inl apart ↦ rw apart (of_source-later s ts m)
    | inr shares ↦ rw shares (tail (of_source-later s ts m))
  ]

  of_source-Elem :
      (s : Source) (sentences : List String) (later : List Candidate) (t : String)
      → Elem t sentences
      → 0 < overlap q (content_tokens to_lower t)
      → Elem
          (candidate s t (overlap q (content_tokens to_lower t)))
          (of_source to_lower q s sentences later)
  unfolding of_source
  of_source-Elem s [] later t m h = elim m [ ]
  of_source-Elem s (u ∷ us) later t (head e) h =
      let shares : eqb (overlap q (content_tokens to_lower u)) 0 ≡ false = rw e (ground arith) in
      rw shares (head (ap (λ v. candidate s v (overlap q (content_tokens to_lower v))) e))
  of_source-Elem s (u ∷ us) later t (tail m) h =
      elim (Bool-cases (eqb (overlap q (content_tokens to_lower u)) 0)) [
        | inl apart ↦ rw apart (of_source-Elem s us later t m h)
        | inr shares ↦ rw shares (tail (of_source-Elem s us later t m h))
      ]

  candidates-Elem :
      (sources : List Source) (s : Source) (t : String)
      → Elem s sources
      → Elem t (split_sentences s.text)
      → 0 < overlap q (content_tokens to_lower t)
      → Elem (candidate s t (overlap q (content_tokens to_lower t))) (candidates to_lower q sources)
  unfolding candidates
  candidates-Elem [] s t l m h = elim l [ ]
  candidates-Elem (x ∷ sources) s t (head e) m h =
      subst
        (λ (y : Source).
          Elem (candidate s t (overlap q (content_tokens to_lower t)))
            (of_source to_lower q y (split_sentences y.text) (candidates to_lower q sources)))
        (sym e) (of_source-Elem s (split_sentences s.text) (candidates to_lower q sources) t m h)
  candidates-Elem (x ∷ sources) s t (tail l) m h =
      of_source-later x (split_sentences x.text) (candidates-Elem sources s t l m h)

-- The first has the greater score, or the same and a marker that is not greater.
abbrev pub ComesFirst : Candidate → Candidate → Type 0
ComesFirst p c = (c.score < p.score) ⊎ ((c.score ≡ p.score) × (before c.marker p.marker ≡ false))

better-ComesFirst : (p c : Candidate) → better c p ≡ false → ComesFirst p c
unfolding better
better-ComesFirst p c h = elim (Bool-cases (eqb c.score p.score)) [
  | inl same ↦ inr (ground arith, ground arith)
  | inr apart ↦ inl (ground arith)
]

module _ (to_lower : String → String) (query : String) (sources : List Source) where
  -- The extractive answer is made of sentences of the sources that share a token with the query,
  -- at most three, with distinct texts.
  pub picks_lem :
      All
        (IsExtract to_lower (content_tokens to_lower query) sources)
        (picks to_lower query sources)
      × IsDistinct (texts_of (picks to_lower query sources))
      × (length (picks to_lower query sources) ≤ 3)
  unfolding picks
  picks_lem =
      let q = content_tokens to_lower query in
      let cands = candidates to_lower q sources in
      (
        take_best-All (IsExtract to_lower q sources) 3 [] (sort better cands) (
            All-perm (IsExtract to_lower q sources) (Permᴰ.symm (sort-perm better cands))
              (candidates-All to_lower q sources)),
        take_best-IsDistinct 3 [] (sort better cands),
        take_best-length 3 [] (sort better cands),
      )

  -- Any sentence of a source that shares a token with the query has the text of one that the
  -- extractive answer is made of, or three were taken and each of them has the greater score, or
  -- the same and a marker that is not greater.
  pub picks-best :
      (c : Candidate)
      → IsExtract to_lower (content_tokens to_lower query) sources c
      → Elem c.text (texts_of (picks to_lower query sources))
        ⊎ ((length (picks to_lower query sources) ≡ 3)
            × All (λ p. ComesFirst p c) (picks to_lower query sources))
  unfolding picks
  picks-best c x =
      let q = content_tokens to_lower query in
      let cands = candidates to_lower q sources in
      let listed : Elem c cands =
        subst (λ d. Elem d cands) (sym x.same)
          (candidates-Elem to_lower q sources x.source c.text x.listed x.sentence x.shared) in
      elim (take_best-best 3 [] (sort better cands) c (sort-IsSorted better better-IsWeak cands)
        (Elem-perm (Permᴰ.symm (sort-perm better cands)) listed)) [
          | inl seen ↦ absurd (unfold has in cc)
          | inr (inl taken) ↦ inl taken
          | inr (inr (full, none_worse)) ↦
              inr (full, All-map (λ p h. better-ComesFirst p c h) _ none_worse)
        ]
