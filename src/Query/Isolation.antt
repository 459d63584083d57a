-- ===== src/Query/Isolation.antt =====
-- The boundary between tenants: which requests lead to calls, and for whom.
use search_and_retrieval_sys.Prelude.{
  String, ◌≡◌, ◌≢◌, refl, ◌⊎◌, inl, inr, ◌==◌, List, [], All, Bool-cases, Option-cases,
}
use search_and_retrieval_sys.Prelude.Text.{trim_space}
use search_and_retrieval_sys.Access.{presented, auth_tenant}
use search_and_retrieval_sys.Access.Boundary.{auth_tenant_iff}
use search_and_retrieval_sys.Cache.{key}
use search_and_retrieval_sys.Server.{Server, Call, AskReq, Request}
use search_and_retrieval_sys.Query.{
  Response, unauthorized, bad_request, search_for, ask_for, handle, handle_search, handle_ask,
}
use search_and_retrieval_sys.Query.Scoped.{
  IsScoped, VisitsFilters, search_for-AllScoped, ask_for-AllScoped,
}

module _ {F : Type 0} (s : Server F) where
  -- The request was refused before any call, or it presents the key of the server and names a tenant,
  -- and every call is for that tenant.
  abbrev pub IsIsolated : Request → Response F × List (Call F) → Type 0
  IsIsolated r (response, calls) =
      (((response ≡ unauthorized) ⊎ (response ≡ bad_request)) × (calls ≡ []))
      ⊎ ((tenant : String) × (presented r.header ≡ s.api_key)
          × (tenant ≢ "")
          × (tenant ≡ trim_space (r.header "X-Tenant-ID"))
          × All (IsScoped s tenant) calls)

  handle-IsIsolated :
      (serve : AskReq → String → Response F × List (Call F))
      → s.api_key ≢ ""
      → ((tenant : String)
          → tenant ≢ ""
          → (req : AskReq) → All (IsScoped s tenant) (serve req tenant).1)
      → (r : Request) → IsIsolated r (handle s serve r)
  unfolding handle
  handle-IsIsolated serve keyed scoped r = elim (Option-cases (auth_tenant s.api_key r.header)) [
    | inl refused ↦ rw (refused, handle) (inl (inl refl, refl))
    | inr (tenant, authorized) ↦
        let (key, named, same) = (auth_tenant_iff s.api_key r.header tenant keyed).0 authorized in
        elim (Option-cases r.body) [
          | inl malformed ↦ rw (authorized, malformed, handle) (inl (inr refl, refl))
          | inr (req, decoded) ↦ elim (Bool-cases (req.query == "")) [
            | inl empty ↦ rw (authorized, decoded, empty, handle) (inl (inr refl, refl))
            | inr asks ↦
                rw (authorized, decoded, asks, handle)
                  (inr (tenant, key, named, same, scoped tenant named req))
          ]
        ]
  ]

  -- With an API key configured, a search without the key or a tenant makes no call at all, and every
  -- search of a store is filtered by the tenant that the request's header names, whatever filters
  -- the client sends.
  pub handle_search-IsIsolated :
      VisitsFilters s.runtime.filter_order
      → s.api_key ≢ ""
      → (r : Request) → IsIsolated r (handle_search s r)
  unfolding handle_search
  handle_search-IsIsolated visits keyed r =
      handle-IsIsolated (search_for s) keyed
        (λ tenant named. search_for-AllScoped s visits tenant named) r

  -- With an API key configured, and where range visits each filter: a question without the key or
  -- a tenant makes no call at all. Otherwise every search of a store or of the semantic cache is
  -- filtered by the tenant that the header names; the generation that is read and the answer that
  -- is stored in the semantic cache are the tenant's own; and an exact answer is read and written
  -- only under a key made of filters that hold the tenant and of the tenant's generation.
  pub handle_ask-IsIsolated :
      VisitsFilters s.runtime.filter_order
      → s.api_key ≢ ""
      → (r : Request) → IsIsolated r (handle_ask s r)
  unfolding handle_ask
  handle_ask-IsIsolated visits keyed r =
      handle-IsIsolated (ask_for s) keyed (λ tenant named. ask_for-AllScoped s visits tenant named)
        r
