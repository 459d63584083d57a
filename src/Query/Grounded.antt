-- ===== src/Query/Grounded.antt =====
-- The reply of a question that no cache answers, with a provider that the environment selects.

use mathlib.Core.List.{Permᴰ}
use search_and_retrieval_sys.Prelude.{
  String, true, false, ◌≡◌, ◌⊎◌, refl, sym, ap, subst, ◌∙◌, inl, inr, ◌==◌, Bool-cases,
  Option-cases, Option, none, some, List, [], ◌∷◌, All, arith,
}
use search_and_retrieval_sys.Prelude.Int.{ℤ}
use search_and_retrieval_sys.Prelude.Maps.{Map}
use search_and_retrieval_sys.Http.{Transport}
use search_and_retrieval_sys.Sources.{Source}
use search_and_retrieval_sys.Access.{auth_tenant, scope_filters}
use search_and_retrieval_sys.Cache.{get_cached, generation, key}
use search_and_retrieval_sys.SemCache.{lookup_answer}
use search_and_retrieval_sys.Server.{Server, Answer, Citation, Reply, Call, Request, AskReq}
use search_and_retrieval_sys.Retrieval.{Retrieved, found, store_down, panics, retrieve, embed_query}
use search_and_retrieval_sys.Query.{
  Response, answered, reply_of, generated, answer_from, ask_fresh, decoded_hit, probes_of, or_else,
  marked_cached, ask_semantic, ask_for, handle, handle_ask,
}
use search_and_retrieval_sys.Rag.Faithfulness.{Fraction}
use search_and_retrieval_sys.Rag.Provider.{LlmJson, Provider, new_provider, provider_score}
use search_and_retrieval_sys.Rag.Provider.Judged.{InUnit, HasUnit, provider_score-InUnit}
use search_and_retrieval_sys.Rag.Provider.Cited.{OfSource, new_provider-OfSource}

module _ {F : Type 0} (s : Server F) where
  or_else-cases :
      (o : Option (Reply F)) (later : Response F × List (Call F)) (reply : Reply F)
      → (or_else s o later).0 ≡ answered reply
      → (o ≡ some reply) ⊎ (later.0 ≡ answered reply)
  or_else-cases none later reply h = inr h
  or_else-cases (some r) later reply h = inl (let same : r ≡ reply = cc in ap some same)

  marked_cached-cached :
      (o : Option (Reply F)) (reply : Reply F)
      → marked_cached s o ≡ some reply
      → reply.cached ≡ true
  marked_cached-cached none reply h = cc
  marked_cached-cached (some r) reply h = ground arith

  decoded_hit-cached :
      (o : Option (String × F)) (reply : Reply F)
      → decoded_hit s o ≡ some reply
      → reply.cached ≡ true
  decoded_hit-cached none reply h = cc
  decoded_hit-cached (some (json, score)) reply h = elim (Option-cases (s.out.decode_reply json)) [
    | inl unreadable ↦ absurd (ground arith)
    | inr (r, e) ↦ ground arith
  ]

  -- The reply stands for an answer that was generated from retrieved sources.
  record IsGenerated (req : AskReq) (retrieved : Retrieved) (reply : Reply F) : Type 0 where
    sources : List Source
    answer : Answer F
    got : retrieved ≡ found sources
    made : s.out.generate_answer req.query sources ≡ some answer
    same : reply_of s answer sources ≡ reply

  answer_from-IsGenerated :
      (req : AskReq) (tenant : String) (gen : ℤ) (cache_key : String) (qvec : Option (List F))
      (retrieved : Retrieved) (reply : Reply F)
      → (answer_from s req tenant gen cache_key qvec retrieved).0 ≡ answered reply
      → IsGenerated req retrieved reply
  unfolding answer_from
  answer_from-IsGenerated req tenant gen cache_key qvec store_down reply h = absurd (cc)
  answer_from-IsGenerated req tenant gen cache_key qvec panics reply h = absurd (cc)
  answer_from-IsGenerated req tenant gen cache_key qvec (found []) reply h = absurd (cc)
  answer_from-IsGenerated req tenant gen cache_key qvec (found (x ∷ sources)) reply h =
      elim (Option-cases (s.out.generate_answer req.query (x ∷ sources))) [
        | inl failed ↦ absurd (ground arith)
        | inr (answer, e) ↦ record {
          sources = x ∷ sources;
          answer = answer;
          got = refl;
          made = e;
          same = ground arith;
        }
      ]

  ask_for-IsGenerated :
      (req : AskReq) (tenant : String) (reply : Reply F)
      → (ask_for s req tenant).0 ≡ answered reply
      → reply.cached ≡ false
      → IsGenerated req
          (retrieve s req.query
            (scope_filters req.filters tenant)
            req.top_k
            (embed_query s req.query)).0
          reply
  unfolding ask_for ask_semantic ask_fresh
  ask_for-IsGenerated req tenant reply h fresh =
      let gen = generation s.out.redis tenant in
      let cache_key =
        key s.runtime.hex_sha1 s.runtime.to_lower s.runtime.key_order req.query
          (scope_filters req.filters tenant) gen in
      let qvec = embed_query s req.query in
      elim (or_else-cases (marked_cached s (get_cached s.out.decode_reply s.out.redis cache_key))
        (ask_semantic s req tenant gen cache_key) reply h) [
          | inl hit ↦ absurd (cc (marked_cached-cached _ reply hit, fresh))
          | inr missed ↦
              elim (or_else-cases
                (decoded_hit s (lookup_answer s.out.sem (probes_of s qvec tenant gen)))
                (ask_fresh s req tenant gen cache_key qvec) reply missed) [
                  | inl hit ↦ absurd (cc (decoded_hit-cached _ reply hit, fresh))
                  | inr generated ↦
                      answer_from-IsGenerated req tenant gen cache_key qvec _ reply generated
                ]
        ]

  handle-answered :
      (serve : AskReq → String → Response F × List (Call F)) (r : Request) (reply : Reply F)
      → (handle s serve r).0 ≡ answered reply
      → (tenant : String) × (req : AskReq) × (auth_tenant s.api_key r.header ≡ some tenant)
        × (r.body ≡ some req)
        × ((serve req tenant).0 ≡ answered reply)
  unfolding handle
  handle-answered serve r reply h = elim (Option-cases (auth_tenant s.api_key r.header)) [
    | inl denied ↦ absurd (ground arith)
    | inr (tenant, allowed) ↦ elim (Option-cases r.body) [
      | inl unreadable ↦ absurd (ground arith)
      | inr (req, body) ↦ elim (Bool-cases (req.query == "")) [
        | inl empty ↦ absurd (ground arith)
        | inr asks ↦ (tenant, req, allowed, body, ground arith)
      ]
    ]
  ]

  module _ (fraction : Fraction F) (unit : HasUnit fraction) (json : LlmJson F) (send : Transport)
      (to_lower : String → String) (order : Map (Citation F) → Map (Citation F))
      (order-perm : (m : Map (Citation F)) → Permᴰ m (order m)) (env : String → String)
      (mode : String) where
    abbrev provider : Provider F
    provider = new_provider fraction json send to_lower order env

    -- The server generates by the provider, and scores by it.
    pub record UsesProvider : Type 0 where
      pub generates :
          (query : String) (sources : List Source)
          → s.out.generate_answer query sources ≡ provider.answer query sources
      pub scores :
          (text : String) (sources : List Source)
          → (s.out.score_faithfulness text sources).0
            ≡ (provider_score fraction json send to_lower order mode provider text sources).score

    -- For a server that generates and scores by the provider that the environment selects, where a
    -- part of a whole compares as between 0 and 1: an answer that is not from a cache is for an
    -- admitted request, cites only sources that were retrieved under the filter of the tenant that
    -- the header names, has a score between 0 and 1 and a warning exactly if the score is below
    -- the threshold, whichever provider the environment selects, in each mode of scoring, and
    -- whatever the language model replies.
    pub handle_ask_grounded :
        UsesProvider
        → (r : Request) (reply : Reply F) → (handle_ask s r).0 ≡ answered reply
        → reply.cached ≡ false
        → (tenant : String) × (req : AskReq) × (sources : List Source) × (auth_tenant s.api_key
              r.header
            ≡ some tenant)
          × (r.body ≡ some req)
          × ((retrieve s req.query
                (scope_filters req.filters tenant)
                req.top_k
                (embed_query s req.query)).0
              ≡ found sources)
          × All (OfSource fraction sources) reply.answer.citations
          × InUnit fraction reply.faithfulness
          × (reply.warning ≡ s.runtime.float.less reply.faithfulness s.faith_min)
    unfolding handle_ask reply_of
    handle_ask_grounded uses r reply h fresh =
        let (tenant, req, allowed, body, served) = handle-answered (ask_for s) r reply h in
        let g = ask_for-IsGenerated req tenant reply served fresh in
        let made : provider.answer req.query g.sources ≡ some g.answer =
          sym (uses.generates req.query g.sources) ∙ g.made in
        let cited =
          new_provider-OfSource fraction json send to_lower order order-perm env req.query g.sources
            g.answer made in
        let scored =
          provider_score-InUnit fraction unit json send to_lower order env mode g.answer.text
            g.sources in
        (
          tenant,
          req,
          g.sources,
          allowed,
          body,
          g.got,
          subst (λ (x : Reply F). All (OfSource fraction g.sources) x.answer.citations) g.same
              cited,
          subst (λ (x : Reply F). InUnit fraction x.faithfulness) g.same
              (subst (InUnit fraction) (sym (uses.scores g.answer.text g.sources)) scored),
          subst (λ (x : Reply F). x.warning ≡ s.runtime.float.less x.faithfulness s.faith_min)
              g.same refl,
        )
