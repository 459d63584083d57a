-- ===== src/Query/Scoped.antt =====
-- Every call that a request for a tenant leads to is for that tenant.
use search_and_retrieval_sys.Prelude.{
  Bool, true, false, if◌then◌else◌, String, ◌≡◌, ◌≢◌, refl, ◌∙◌, inl, inr, Option, none, some, List,
  [], ◌∷◌, ◌++◌, map, arith, eq_iff, All, All-append, Bool-cases,
}
use search_and_retrieval_sys.Prelude.Int.{ℤ}
use search_and_retrieval_sys.Prelude.Maps.{Map, lookup}
use search_and_retrieval_sys.Search.{Doc, search_body, point_query}
use search_and_retrieval_sys.Access.{scope_filters}
use search_and_retrieval_sys.Access.Boundary.{lookup-scope_filters}
use search_and_retrieval_sys.Cache.{generation, key, set_cached, get_cached}
use search_and_retrieval_sys.Fusion.{rrf}
use search_and_retrieval_sys.SemCache.{scope, probes, store, lookup_answer}
use search_and_retrieval_sys.Sources.{Source}
use search_and_retrieval_sys.Server.{
  Server, Call, Answer, Reply, AskReq, bm25, nearest, read_generation, read_cache, write_cache,
  probe, store_answer,
}
use search_and_retrieval_sys.Retrieval.{
  Retrieved, found, store_down, panics, retrieve, embed_query, lexical_lane, vector_lane,
  nearest_ids, after_embed, fetch, rank_found, rank, first_ids,
}
use search_and_retrieval_sys.Query.{
  Response, search_for, ask_for, ask_semantic, ask_fresh, answer_from, generated, save,
  cache_writes, entries, probes_of, decoded_hit, redis_reads, marked_cached, or_else,
}

module _ {F : Type 0} (s : Server F) where
  -- The key of an exact answer is made of a question, of filters that hold the tenant, and of the
  -- tenant's own generation.
  pub record IsOwnKey (t cache_key : String) : Type 0 where
    pub query : String
    pub filters : Map String
    pub scoped : lookup "tenant_id" filters ≡ some t
    pub made :
        cache_key
        ≡ key s.runtime.hex_sha1 s.runtime.to_lower s.runtime.key_order query filters
            (generation s.out.redis t)

  -- What a call must satisfy for a request of the tenant: a search of a store or of the semantic
  -- cache is filtered by the tenant, the generation and the stored answers are the tenant's own, and
  -- an exact answer is read and written under a key of the tenant.
  abbrev pub IsScoped : String → Call F → Type 0
  IsScoped t (bm25 body) = lookup "tenant_id" body.terms ≡ some t
  IsScoped t (nearest q) = lookup "tenant_id" q.must ≡ some t
  IsScoped t (probe p) = lookup "tenant_id" p.must ≡ some t
  IsScoped t (read_generation u) = u ≡ t
  IsScoped t (store_answer e) = e.tenant_id ≡ t
  IsScoped t (read_cache cache_key) = IsOwnKey t cache_key
  IsScoped t (write_cache cache_key json) = IsOwnKey t cache_key
  IsScoped t call = Unit

-- Go visits each filter of a map.
abbrev pub VisitsFilters : (Map String → Map String) → Type 0
VisitsFilters order = (m : Map String) (k : String) → lookup k (order m) ≡ lookup k m

lookup-scope :
    (tenant : String) (gen : ℤ) → tenant ≢ "" → lookup "tenant_id" (scope tenant gen) ≡ some tenant
unfolding scope lookup
lookup-scope tenant gen named = ground (arith, eq_iff tenant "")

module _ {F : Type 0} (s : Server F) (tenant : String) where
  rank-AllScoped :
      (query : String) (top_k : ℤ) (docs : List Doc)
      → All (IsScoped s tenant) (rank s query top_k docs).1
  unfolding rank
  rank-AllScoped query top_k [] = tt
  rank-AllScoped query top_k (d ∷ docs) = (tt, tt)

  rank_found-AllScoped :
      (query : String) (top_k : ℤ) (ids : List String) (docs : Option (Map Doc))
      → All (IsScoped s tenant) (rank_found s query top_k ids docs).1
  rank_found-AllScoped query top_k ids none = tt
  rank_found-AllScoped query top_k ids (some docs) = rank-AllScoped query top_k _

  fetch-AllScoped :
      (query : String) (top_k : ℤ) (ids : List String)
      → All (IsScoped s tenant) (fetch s query top_k ids).1
  unfolding fetch
  fetch-AllScoped query top_k [] = tt
  fetch-AllScoped query top_k (id ∷ ids) = (tt, rank_found-AllScoped query top_k (id ∷ ids) _)

module _ {F : Type 0} (s : Server F) (visits : VisitsFilters s.runtime.filter_order)
    (tenant : String) where
  abbrev AllScoped : List (Call F) → Type 0
  AllScoped = All (IsScoped s tenant)

  module _ (filters : Map String) (scoped : lookup "tenant_id" filters ≡ some tenant) where
    lexical_lane-AllScoped : (query : String) → AllScoped (lexical_lane s query filters).1
    unfolding lexical_lane search_body
    lexical_lane-AllScoped query = (visits filters "tenant_id" ∙ scoped, tt)

    nearest_ids-AllScoped : (v : List F) → AllScoped (nearest_ids s v filters).1
    unfolding nearest_ids point_query
    nearest_ids-AllScoped v = (visits filters "tenant_id" ∙ scoped, tt)

    after_embed-AllScoped : (v : Option (List F)) → AllScoped (after_embed s v filters).1
    after_embed-AllScoped none = tt
    after_embed-AllScoped (some v) = nearest_ids-AllScoped v

    vector_lane-AllScoped :
        (query : String) (qvec : Option (List F)) → AllScoped (vector_lane s query filters qvec).1
    unfolding vector_lane
    vector_lane-AllScoped query (some v) = nearest_ids-AllScoped v
    vector_lane-AllScoped query none = (tt, after_embed-AllScoped (embed_query s query))

    retrieve-AllScoped :
        (query : String) (top_k : ℤ) (qvec : Option (List F))
        → AllScoped (retrieve s query filters top_k qvec).1
    unfolding retrieve
    retrieve-AllScoped query top_k qvec =
        let (bm25_ids, lexical_calls) = lexical_lane s query filters in
        let (vec_ids, vector_calls) = vector_lane s query filters qvec in
        let fused = rrf s.runtime.float s.runtime.score_order (bm25_ids ∷ vec_ids ∷ []) s.rrf_k in
        let fetched = (fetch s query top_k (first_ids s.rerank_n 0 fused)).1 in
        All-append (IsScoped s tenant) lexical_calls (vector_calls ++ fetched)
          (lexical_lane-AllScoped query)
          (All-append (IsScoped s tenant) vector_calls fetched (vector_lane-AllScoped query qvec)
            (fetch-AllScoped s tenant query top_k (first_ids s.rerank_n 0 fused)))

  module _ (named : tenant ≢ "") where
    probes-AllScoped :
        (v : Option (List F)) (gen : ℤ) → AllScoped (map probe (probes_of s v tenant gen))
    unfolding probes
    probes-AllScoped none gen = tt
    probes-AllScoped (some []) gen = tt
    probes-AllScoped (some (x ∷ xs)) gen = elim (Bool-cases s.out.sem.enabled) [
      | inl on ↦ rw on (lookup-scope tenant gen named, tt)
      | inr off ↦ rw off tt
    ]

    entries-AllScoped :
        (v : Option (List F)) (gen : ℤ) (json : Option String)
        → AllScoped (map store_answer (entries s v tenant gen json))
    unfolding store
    entries-AllScoped none gen json = tt
    entries-AllScoped (some v) gen none = tt
    entries-AllScoped (some []) gen (some json) = tt
    entries-AllScoped (some (x ∷ xs)) gen (some json) = elim (Bool-cases s.out.sem.enabled) [
      | inl on ↦ rw on (refl, tt)
      | inr off ↦ rw off tt
    ]

    cache_writes-AllScoped :
        (cache_key : String) (json : Option String)
        → IsOwnKey s tenant cache_key
        → AllScoped (cache_writes s cache_key json)
    cache_writes-AllScoped cache_key none own = tt
    cache_writes-AllScoped cache_key (some json) own = (own, tt)

    save-AllScoped :
        (gen : ℤ) (cache_key : String) (qvec : Option (List F)) (reply : Reply F)
        → IsOwnKey s tenant cache_key
        → AllScoped (save s tenant gen cache_key qvec reply)
    unfolding save
    save-AllScoped gen cache_key qvec reply own =
        All-append (IsScoped s tenant)
          (cache_writes s cache_key (set_cached s.out.encode_reply s.out.redis reply))
          (map store_answer (entries s qvec tenant gen (s.out.encode_reply reply)))
          (cache_writes-AllScoped cache_key _ own) (entries-AllScoped qvec gen _)

    generated-AllScoped :
        (gen : ℤ) (cache_key : String) (qvec : Option (List F)) (sources : List Source)
        (answer : Option (Answer F))
        → IsOwnKey s tenant cache_key
        → AllScoped (generated s tenant gen cache_key qvec sources answer).1
    generated-AllScoped gen cache_key qvec sources none own = tt
    generated-AllScoped gen cache_key qvec sources (some answer) own =
        save-AllScoped gen cache_key qvec _ own

    answer_from-AllScoped :
        (req : AskReq) (gen : ℤ) (cache_key : String) (qvec : Option (List F)) (r : Retrieved)
        → IsOwnKey s tenant cache_key
        → AllScoped (answer_from s req tenant gen cache_key qvec r).1
    unfolding answer_from
    answer_from-AllScoped req gen cache_key qvec store_down own = tt
    answer_from-AllScoped req gen cache_key qvec panics own = tt
    answer_from-AllScoped req gen cache_key qvec (found []) own = tt
    answer_from-AllScoped req gen cache_key qvec (found (x ∷ sources)) own =
        (tt, generated-AllScoped gen cache_key qvec (x ∷ sources) _ own)

    tenant_filter :
        (filters : Map String) → lookup "tenant_id" (scope_filters filters tenant) ≡ some tenant
    tenant_filter filters = lookup-scope_filters filters tenant "tenant_id" named

    pub search_for-AllScoped : (req : AskReq) → AllScoped (search_for s req tenant).1
    unfolding search_for
    search_for-AllScoped req =
        retrieve-AllScoped (scope_filters req.filters tenant) (tenant_filter req.filters) req.query
          req.top_k none

    ask_fresh-AllScoped :
        (req : AskReq) (gen : ℤ) (cache_key : String) (qvec : Option (List F))
        → IsOwnKey s tenant cache_key
        → AllScoped (ask_fresh s req tenant gen cache_key qvec).1
    unfolding ask_fresh
    ask_fresh-AllScoped req gen cache_key qvec own =
        let (r, calls) = retrieve s req.query (scope_filters req.filters tenant) req.top_k qvec in
        All-append (IsScoped s tenant) calls (answer_from s req tenant gen cache_key qvec r).1
          (retrieve-AllScoped (scope_filters req.filters tenant) (tenant_filter req.filters)
            req.query req.top_k qvec)
          (answer_from-AllScoped req gen cache_key qvec r own)

    or_else-AllScoped :
        (hit : Option (Reply F)) (later : Response F × List (Call F))
        → AllScoped later.1
        → AllScoped (or_else s hit later).1
    or_else-AllScoped none later h = h
    or_else-AllScoped (some reply) later h = tt

    ask_semantic-AllScoped :
        (req : AskReq) (gen : ℤ) (cache_key : String)
        → IsOwnKey s tenant cache_key
        → AllScoped (ask_semantic s req tenant gen cache_key).1
    unfolding ask_semantic
    ask_semantic-AllScoped req gen cache_key own =
        let qvec = embed_query s req.query in
        let probed = probes_of s qvec tenant gen in
        (
          tt,
          All-append (IsScoped s tenant) (map probe probed)
              (or_else s (decoded_hit s (lookup_answer s.out.sem probed))
                (ask_fresh s req tenant gen cache_key qvec)).1
              (probes-AllScoped qvec gen)
              (or_else-AllScoped _ _ (ask_fresh-AllScoped req gen cache_key qvec own)),
        )

    cond-AllScoped :
        (b : Bool) (calls : List (Call F)) → AllScoped calls → AllScoped (if b then calls else [])
    cond-AllScoped true calls h = h
    cond-AllScoped false calls h = tt

    redis_reads-AllScoped :
        (cache_key : String)
        → IsOwnKey s tenant cache_key
        → AllScoped (redis_reads s tenant cache_key)
    redis_reads-AllScoped cache_key own =
        cond-AllScoped s.out.redis.connected (read_generation tenant ∷ read_cache cache_key ∷ [])
          (refl, (own, tt))

    pub ask_for-AllScoped : (req : AskReq) → AllScoped (ask_for s req tenant).1
    unfolding ask_for
    ask_for-AllScoped req =
        let gen = generation s.out.redis tenant in
        let filters = scope_filters req.filters tenant in
        let cache_key =
          key s.runtime.hex_sha1 s.runtime.to_lower s.runtime.key_order req.query filters gen in
        let hit = marked_cached s (get_cached s.out.decode_reply s.out.redis cache_key) in
        let later = ask_semantic s req tenant gen cache_key in
        let own : IsOwnKey s tenant cache_key = record {
          query = req.query;
          filters = filters;
          scoped = tenant_filter req.filters;
          made = refl;
        } in
        All-append (IsScoped s tenant) (redis_reads s tenant cache_key) (or_else s hit later).1
          (redis_reads-AllScoped cache_key own)
          (or_else-AllScoped hit later (ask_semantic-AllScoped req gen cache_key own))
