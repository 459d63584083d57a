-- ===== src/Query.antt =====
-- cmd/query/main.go: `handleSearch` and `handleAsk`, with the calls that they make of other
-- processes. Traces, metrics and logs are left out.
pub mod Scoped
pub mod Isolation
pub mod Grounded
use search_and_retrieval_sys.Prelude.{
  String, Bool, true, false, ◌==◌, Option, none, some, List, [], ◌∷◌, ◌++◌, map, if◌then◌else◌,
}
use search_and_retrieval_sys.Prelude.Int.{ℤ}
use search_and_retrieval_sys.Access.{auth_tenant, scope_filters}
use search_and_retrieval_sys.Cache.{key, generation, get_cached, set_cached}
use search_and_retrieval_sys.SemCache.{Probe, Entry, probes, lookup_answer, store}
use search_and_retrieval_sys.Sources.{Source}
use search_and_retrieval_sys.Server.{
  Server, Call, Answer, Reply, AskReq, Request, embed, probe, generate, read_generation, read_cache,
  write_cache, store_answer,
}
use search_and_retrieval_sys.Retrieval.{Retrieved, found, store_down, panics, retrieve, embed_query}

pub data Response (F : Type 0) : Type 0 where
  unauthorized bad_request bad_gateway aborted not_found : Response F
  results : String → List Source → Response F
  degraded : List Source → Response F
  answered : Reply F → Response F

module _ {F : Type 0} (s : Server F) where
  abbrev pub search_response : String → Retrieved → Response F
  search_response query (found sources) = results query sources
  search_response query store_down = bad_gateway
  search_response query panics = aborted

  -- What the handlers do with a decoded request that names a query, for a tenant.
  unfoldable pub search_for : AskReq → String → Response F × List (Call F)
  unfolding retrieve
  search_for req tenant =
      let (r, calls) = retrieve s req.query (scope_filters req.filters tenant) req.top_k none in
      (search_response req.query r, calls)

  -- The reply of a generated answer, with its warning below the threshold.
  unfoldable pub reply_of : Answer F → List Source → Reply F
  reply_of answer sources =
      let (score, unsupported) = s.out.score_faithfulness answer.text sources in
      record {
        answer = answer;
        faithfulness = score;
        unsupported = unsupported;
        warning = s.runtime.float.less score s.faith_min;
        latency_ms = s.out.latency_ms;
        cached = false;
        semantic_score = none;
      }

  -- The points that are written to the semantic cache, if the reply can be encoded.
  abbrev pub entries : Option (List F) → String → ℤ → Option String → List (Entry F)
  entries none tenant gen json = []
  entries (some v) tenant gen none = []
  entries (some v) tenant gen (some json) = store s.out.sem v tenant gen json

  abbrev pub cache_writes : String → Option String → List (Call F)
  cache_writes cache_key none = []
  cache_writes cache_key (some json) = write_cache cache_key json ∷ []

  -- The writes of both caches.
  unfoldable pub save : String → ℤ → String → Option (List F) → Reply F → List (Call F)
  save tenant gen cache_key qvec reply =
      cache_writes cache_key (set_cached s.out.encode_reply s.out.redis reply)
      ++ map store_answer (entries qvec tenant gen (s.out.encode_reply reply))

  abbrev pub generated :
      String
      → ℤ
      → String
      → Option (List F)
      → List Source
      → Option (Answer F)
      → Response F × List (Call F)
  generated tenant gen cache_key qvec sources none = (degraded sources, [])
  generated tenant gen cache_key qvec sources (some answer) =
      let reply = reply_of answer sources in (answered reply, save tenant gen cache_key qvec reply)

  -- What follows the retrieval.
  unfoldable pub answer_from :
      AskReq → String → ℤ → String → Option (List F) → Retrieved → Response F × List (Call F)
  unfolding reply_of save
  answer_from req tenant gen cache_key qvec store_down = (bad_gateway, [])
  answer_from req tenant gen cache_key qvec panics = (aborted, [])
  answer_from req tenant gen cache_key qvec (found []) = (not_found, [])
  answer_from req tenant gen cache_key qvec (found (x ∷ sources)) =
      let (r, calls) =
        generated tenant gen cache_key qvec (x ∷ sources)
          (s.out.generate_answer req.query (x ∷ sources)) in
      (r, generate req.query (x ∷ sources) ∷ calls)

  -- What follows a miss of the semantic cache.
  unfoldable pub ask_fresh :
      AskReq → String → ℤ → String → Option (List F) → Response F × List (Call F)
  unfolding answer_from
  ask_fresh req tenant gen cache_key qvec =
      let (r, calls) = retrieve s req.query (scope_filters req.filters tenant) req.top_k qvec in
      let (response, more) = answer_from req tenant gen cache_key qvec r in
      (response, calls ++ more)

  -- The hit of a lookup that decodes.
  abbrev pub decoded_hit : Option (String × F) → Option (Reply F)
  decoded_hit none = none
  decoded_hit (some (json, score)) = elim (s.out.decode_reply json) [
    | none ↦ none
    | some reply ↦ some (record reply { cached = true; semantic_score = some score })
  ]

  abbrev pub probes_of : Option (List F) → String → ℤ → List (Probe F)
  probes_of none tenant gen = []
  probes_of (some v) tenant gen = probes s.out.sem v tenant gen

  -- A hit ends the request without another call.
  abbrev pub or_else : Option (Reply F) → Response F × List (Call F) → Response F × List (Call F)
  or_else (some reply) later = (answered reply, [])
  or_else none later = later

  abbrev pub marked_cached : Option (Reply F) → Option (Reply F)
  marked_cached none = none
  marked_cached (some reply) = some (record reply { cached = true })

  -- What follows a miss of the exact cache: the embedding and the semantic cache.
  unfoldable pub ask_semantic : AskReq → String → ℤ → String → Response F × List (Call F)
  unfolding ask_fresh embed_query
  ask_semantic req tenant gen cache_key =
      let qvec = embed_query s req.query in
      let probed = probes_of qvec tenant gen in
      let (response, more) =
        or_else (decoded_hit (lookup_answer s.out.sem probed))
          (ask_fresh req tenant gen cache_key qvec) in
      (response, embed (req.query ∷ []) ∷ map probe probed ++ more)

  -- The reads of Redis, if there is a client.
  abbrev pub redis_reads : String → String → List (Call F)
  redis_reads tenant cache_key =
      if s.out.redis.connected then read_generation tenant ∷ read_cache cache_key ∷ [] else []

  -- `handleAsk` for a decoded request that names a query.
  unfoldable pub ask_for : AskReq → String → Response F × List (Call F)
  unfolding ask_semantic
  ask_for req tenant =
      let gen = generation s.out.redis tenant in
      let filters = scope_filters req.filters tenant in
      let cache_key =
        key s.runtime.hex_sha1 s.runtime.to_lower s.runtime.key_order req.query filters gen in
      let (response, more) =
        or_else (marked_cached (get_cached s.out.decode_reply s.out.redis cache_key))
          (ask_semantic req tenant gen cache_key) in
      (response, redis_reads tenant cache_key ++ more)

  -- The checks that both handlers begin with.
  unfoldable pub handle :
      (AskReq → String → Response F × List (Call F)) → Request → Response F × List (Call F)
  handle serve r = elim (auth_tenant s.api_key r.header) [
    | none ↦ (unauthorized, [])
    | some tenant ↦ elim r.body [
      | none ↦ (bad_request, [])
      | some req ↦ if req.query == "" then (bad_request, []) else serve req tenant
    ]
  ]

  unfoldable pub handle_search : Request → Response F × List (Call F)
  unfolding handle search_for
  handle_search r = handle search_for r

  unfoldable pub handle_ask : Request → Response F × List (Call F)
  unfolding handle ask_for
  handle_ask r = handle ask_for r
