-- ===== src/Rag/Provider/Cited.antt =====
-- The citations of both providers are of the sources that the provider was given.
use mathlib.Core.List.{Permᴰ}
use search_and_retrieval_sys.Prelude.{
  String, ◌≡◌, sym, ap, subst, inl, inr, ◌∙◌, Option-cases, Option, some, List, [], ◌∷◌, All,
  All-map, All-Elem, Elem, arith,
}
use search_and_retrieval_sys.Prelude.Maps.{Map}
use search_and_retrieval_sys.Http.{Transport}
use search_and_retrieval_sys.Sources.{Source}
use search_and_retrieval_sys.Server.{Answer, Citation}
use search_and_retrieval_sys.Rag.Words.{content_tokens}
use search_and_retrieval_sys.Rag.Citations.{citations_from_text}
use search_and_retrieval_sys.Rag.Citations.Known.{IsKnown, citations_from_text_lem}
use search_and_retrieval_sys.Rag.Extractive.{
  Candidate, build_prompt, generate, extract_answer, picks, citation,
}
use search_and_retrieval_sys.Rag.Extractive.Grounded.{IsExtract, picks_lem}
use search_and_retrieval_sys.Rag.Extractive.Cites.{citations_lem}
use search_and_retrieval_sys.Rag.Faithfulness.{Fraction}
use search_and_retrieval_sys.Rag.Provider.Selected.{new_provider-cases}
use search_and_retrieval_sys.Rag.Provider.{
  LiteLlm, LlmJson, Provider, complete, llm_generate, extractive, lite_llm, new_provider,
}

module _ {F : Type 0} (fraction : Fraction F) where
  -- The citation names a source that the provider was given.
  abbrev pub OfSource : List Source → Citation F → Type 0
  OfSource sources c =
      (s : Source) × Elem s sources
      × (c.marker ≡ s.marker)
      × (c.doc_id ≡ s.doc_id)
      × (c.source ≡ s.origin)

  extract-OfSource :
      (to_lower : String → String) (q : List String) (sources : List Source) (p : Candidate)
      → IsExtract to_lower q sources p
      → OfSource sources (citation fraction.zero_f p)
  extract-OfSource to_lower q sources p x = (
    x.source,
    x.listed,
    ap (λ (c : Candidate). c.marker) x.same,
    ap (λ (c : Candidate). c.doc_id) x.same,
    ap (λ (c : Candidate). c.origin) x.same,
  )

  extract_answer-OfSource :
      (order : Map (Citation F) → Map (Citation F))
      → ((m : Map (Citation F)) → Permᴰ m (order m))
      → (to_lower : String → String) (q : List String) (sources : List Source) (ps : List Candidate)
      → All (IsExtract to_lower q sources) ps
      → All (OfSource sources) (extract_answer fraction.zero_f order ps).citations
  extract_answer-OfSource order order-perm to_lower q sources [] h = tt
  extract_answer-OfSource order order-perm to_lower q sources (p ∷ ps) h =
      All-map cited _ (citations_lem fraction.zero_f order order-perm (p ∷ ps)).0
    where
      cited :
          (c : Citation F)
          → ((x : Candidate) × Elem x (p ∷ ps) × (c ≡ citation fraction.zero_f x))
          → OfSource sources c
      cited c (x, l, same) =
          subst (OfSource sources) (sym same)
            (extract-OfSource to_lower q sources x (All-Elem (IsExtract to_lower q sources) h l))

  llm_generate-OfSource :
      (json : LlmJson F) (send : Transport) (l : LiteLlm) (query : String) (sources : List Source)
      (a : Answer F)
      → llm_generate fraction json send l query sources ≡ some a
      → All (OfSource sources) a.citations
  unfolding llm_generate
  llm_generate-OfSource json send l query sources a h =
      let (system, user) = build_prompt query sources in
      elim (Option-cases (complete fraction json send l system user 2048)) [
        | inl failed ↦ absurd (ground arith)
        | inr (text, e) ↦
            let same : citations_from_text fraction.zero_f text sources ≡ a.citations =
              ground arith in
            subst (All (OfSource sources)) same
              (All-map known _ (citations_from_text_lem fraction.zero_f text sources).0)
      ]
    where
      known :
          {text : String} (c : Citation F)
          → IsKnown fraction.zero_f text sources c
          → OfSource sources c
      known c k = (
        k.source,
        k.listed,
        sym k.named,
        ap (λ (x : Citation F). x.doc_id) k.same,
        ap (λ (x : Citation F). x.source) k.same,
      )

  -- Every citation of an answer is of a source that the provider was given, with that source's
  -- marker, document and origin, whichever provider the environment selects, if range visits each
  -- entry of a map once.
  pub new_provider-OfSource :
      (json : LlmJson F) (send : Transport) (to_lower : String → String)
      (order : Map (Citation F) → Map (Citation F))
      → ((m : Map (Citation F)) → Permᴰ m (order m))
      → (env : String → String) (query : String) (sources : List Source) (a : Answer F)
      → (new_provider fraction json send to_lower order env).answer query sources ≡ some a
      → All (OfSource sources) a.citations
  new_provider-OfSource json send to_lower order order-perm env query sources a h =
      let run : Provider F → Option (Answer F) = λ p. p.answer query sources in
      elim (new_provider-cases fraction json send to_lower order env) [
        | inl same ↦
            let e : some (generate fraction.zero_f to_lower order query sources) ≡ some a =
              unfold extractive in (sym (ap run same) ∙ h) in
            let f : generate fraction.zero_f to_lower order query sources ≡ a = cc in
            subst (λ (x : Answer F). All (OfSource sources) x.citations) f
              (unfold generate in
                extract_answer-OfSource order order-perm to_lower (content_tokens to_lower query)
                  sources (picks to_lower query sources) (picks_lem to_lower query sources).0)
        | inr (l, same) ↦
            llm_generate-OfSource json send l query sources a
              (unfold lite_llm in (sym (ap run same) ∙ h))
      ]
