-- ===== src/Access/Boundary.antt =====
-- Who gets in, and under which filter.
use search_and_retrieval_sys.Prelude.{
  String, ◌≡◌, ◌≢◌, ◌↔◌, ◌==◌, some, if◌then◌else◌, arith, eq_iff,
}
use search_and_retrieval_sys.Prelude.Text.{trim_space}
use search_and_retrieval_sys.Prelude.Maps.{Map, lookup, lookup-insert}
use search_and_retrieval_sys.Access.{presented, auth_tenant, scope_filters}

-- Where a key is configured, a request is let in exactly if it presents that key and names a
-- tenant, and then under the tenant that its header names.
pub auth_tenant_iff :
    (api_key : String) (header : String → String) (tenant : String)
    → api_key ≢ ""
    → (auth_tenant api_key header ≡ some tenant) ↔ (
        (presented header ≡ api_key) × (tenant ≢ "") × (tenant ≡ trim_space (header "X-Tenant-ID")))
unfolding auth_tenant
auth_tenant_iff api_key header tenant keyed = ground (
  arith,
  eq_iff api_key "",
  eq_iff (presented header) api_key,
  eq_iff (trim_space (header "X-Tenant-ID")) "",
)

-- The tenant of the server replaces whatever tenant a client filters by, and no other filter.
pub lookup-scope_filters :
    (filters : Map String) (tenant key : String)
    → tenant ≢ ""
    → lookup key (scope_filters filters tenant)
      ≡ (if "tenant_id" == key then some tenant else lookup key filters)
unfolding scope_filters
lookup-scope_filters filters tenant key named =
    ground (arith, eq_iff tenant "", lookup-insert "tenant_id" key tenant filters)
