-- ===== src/Setup.antt =====
-- What a start of the services makes of the stores: `EnsureIndex` of internal/opensearch/opensearch.go,
-- `EnsureCollection` of internal/qdrant/qdrant.go and `Ensure` of internal/semcache/semcache.go. The stores
-- are a parameter, with a state `S`; an operation gives whether it ends without an error, and the state.
pub mod Again
use search_and_retrieval_sys.Prelude.{
  ℕ, String, Bool, true, false, Option, none, some, if◌then◌else◌,
}
use search_and_retrieval_sys.OpenSearch.{index_name}

-- How OpenSearch answers the creation of an index; `exists_already` is the error
-- "resource_already_exists_exception".
pub data Creation : Type 0 where
  created exists_already failed : Creation

-- The calls; `none` is an error of `CollectionExists`.
pub record Stores (S : Type 0) : Type 0 where
  pub create_index : String → S → Creation × S
  pub has_collection : String → S → Option Bool
  pub create_collection : String → ℕ → S → Bool × S

abbrev pub collection : String
collection = "documents"

abbrev pub answer_cache : String
answer_cache = "answer_cache"

abbrev pub is_there : Creation → Bool
is_there created = true
is_there exists_already = true
is_there failed = false

module _ {S : Type 0} (stores : Stores S) where
  unfoldable pub ensure_index : S → Bool × S
  ensure_index s = let (answer, s') = stores.create_index index_name s in (is_there answer, s')

  -- `EnsureCollection` and `Ensure` alike.
  unfoldable pub ensure_collection : String → ℕ → S → Bool × S
  ensure_collection name dim s = elim (stores.has_collection name s) [
    | none ↦ (false, s)
    | some there ↦ if there then (true, s) else stores.create_collection name dim s
  ]

  unfoldable pub ensure_answers : Bool → ℕ → S → Bool × S
  unfolding ensure_collection
  ensure_answers enabled dim s = if enabled then ensure_collection answer_cache dim s else (true, s)
