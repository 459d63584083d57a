-- ===== src/Search.antt =====
-- The reads of the two stores: `Search` and `GetByIDs` of internal/opensearch/opensearch.go, and
-- `Search` of internal/qdrant/qdrant.go. A store answers a request from outside; `order` is the
-- order in which `range` visits the filters. The scores of the hits are not read by the callers.
use mathlib.Core.Option
use search_and_retrieval_sys.Prelude.{String, Option, none, some, List, [], ◌∷◌}
use search_and_retrieval_sys.Prelude.Int.{ℤ}
use search_and_retrieval_sys.Prelude.Maps.{Map, insert}
use search_and_retrieval_sys.OpenSearch.{OsDoc}

-- The body of the BM25 query; every filter is a `term`. The index and the fields are constants.
pub record SearchBody : Type 0 where
  pub query : String
  pub terms : Map String
  pub size : ℤ

-- The nearest neighbours of a vector; every filter is a `Match` that must hold.
pub record PointQuery (Vector : Type 0) : Type 0 where
  pub vector : Vector
  pub must : Map String
  pub limit : ℤ

pub record Doc : Type 0 where
  pub doc_id : String
  pub source : String
  pub title : String
  pub body : String
  pub category : String

unfoldable pub search_body : (Map String → Map String) → String → Map String → ℤ → SearchBody
search_body order query filters size = record { query = query; terms = order filters; size = size }

unfoldable pub point_query :
    {Vector : Type 0} → (Map String → Map String) → Vector → Map String → ℤ → PointQuery Vector
point_query order vector filters limit = record {
  vector = vector;
  must = order filters;
  limit = limit;
}

-- The doc_id of a point; a payload without one gives the empty string.
abbrev pub hit_id : Option String → String
hit_id doc_id = Option.get_or doc_id ""

abbrev pub stored_doc : OsDoc → Doc
stored_doc s = record {
  doc_id = s.doc_id;
  source = s.source;
  title = s.title;
  body = s.body;
  category = s.category;
}

-- The loop over the answer of `MGet`, which has an entry for each id, found or not.
unfoldable pub found_docs : Map Doc → List (String × Option OsDoc) → Map Doc
found_docs out [] = out
found_docs out ((id, none) ∷ docs) = found_docs out docs
found_docs out ((id, some s) ∷ docs) = found_docs (insert id (stored_doc s) out) docs

-- `GetByIDs`; `none` is an error.
unfoldable pub get_by_ids :
    (List String → Option (List (String × Option OsDoc))) → List String → Option (Map Doc)
unfolding found_docs
get_by_ids answer [] = some []
get_by_ids answer (id ∷ ids) = elim (answer (id ∷ ids)) [
  | none ↦ none
  | some docs ↦ some (found_docs [] docs)
]
