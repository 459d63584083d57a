-- ===== src/Access.antt =====
-- cmd/query/main.go: `authTenant` and `scopeFilters`, the boundary between tenants. `header` is
-- `r.Header.Get`, which is empty for a missing header.
pub mod Boundary
use mathlib.Core.Option
use search_and_retrieval_sys.Prelude.{String, Bool, ◌==◌, not, Option, none, some, if◌then◌else◌}
use search_and_retrieval_sys.Prelude.Text.{trim_space, trim_prefix}
use search_and_retrieval_sys.Prelude.Maps.{Map, insert}

-- The key that a request presents, in its own header or as a bearer token.
abbrev pub presented : (String → String) → String
presented header =
    if header "X-API-Key" == ""
    then trim_prefix (header "Authorization") "Bearer "
    else header "X-API-Key"

-- `none` is a request that is not authorized.
unfoldable pub auth_tenant : String → (String → String) → Option String
auth_tenant api_key header =
    let tenant = trim_space (header "X-Tenant-ID") in
    if api_key == ""
    then some tenant
    else if not (presented header == api_key)
    then none
    else if tenant == ""
    then none
    else some tenant

-- A nil map is an empty one.
unfoldable pub scope_filters : Map String → String → Map String
scope_filters filters tenant = if tenant == "" then filters else insert "tenant_id" tenant filters
