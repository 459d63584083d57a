-- ===== src/OpenSearch.antt =====
-- internal/opensearch/opensearch.go: the requests that the client builds and what it makes of the
-- answers. The cluster itself answers from outside; JSON is represented by what it encodes.
pub mod Bulk
use search_and_retrieval_sys.Prelude.{
  ℕ, String, Bool, true, false, ◌==◌, ◌&&◌, eqb, ltb, Option, none, some, List, [], ◌∷◌, map,
  if◌then◌else◌,
}
use mathlib.Core.Option
use search_and_retrieval_sys.Prelude.Int.{ℤ}
use search_and_retrieval_sys.Prelude.Text.{decimal}
use search_and_retrieval_sys.Prelude.Maps.{Map, lookup, insert}
use search_and_retrieval_sys.Contract.{CanonicalDoc, op_delete}

abbrev pub index_name : String
index_name = "documents"

-- `commit_ts` stands for its RFC 3339 form.
pub record OsDoc : Type 0 where
  pub doc_id : String
  pub source : String
  pub tenant_id : String
  pub title : String
  pub body : String
  pub category : String
  pub version : ℤ
  pub commit_ts : ℤ

-- One action of a `_bulk` request. Every action has `version_type` "external".
pub data Action : Type 0 where
  delete_doc : (index id : String) (version : ℤ) → Action
  index_doc : (index id : String) (version : ℤ) → OsDoc → Action

pub record Line : Type 0 where
  pub doc_id : String
  pub is_delete : Bool

abbrev pub os_doc : CanonicalDoc → OsDoc
os_doc d = record {
  doc_id = d.doc_id;
  source = d.source;
  tenant_id = decimal d.tenant_id;
  title = d.title;
  body = d.body;
  category = d.metadata.category;
  version = d.version;
  commit_ts = d.commit_ts;
}

unfoldable pub action : CanonicalDoc → Action
action d =
    if d.op == op_delete
    then delete_doc index_name d.doc_id d.version
    else index_doc index_name d.doc_id d.version (os_doc d)

unfoldable pub line : CanonicalDoc → Line
line d = record { doc_id = d.doc_id; is_delete = d.op == op_delete }

-- The statuses of one item of the response, one for each action that it names.
abbrev pub Item : Type 0
Item = List ℕ

pub data BulkError : Type 0 where
  request_failed : BulkError
  item_failed : String → ℕ → BulkError

pub data BulkResult : Type 0 where
  applied : Map Bool → BulkResult
  failed : BulkError → BulkResult

-- The switch on one status.
pub data Verdict : Type 0 where
  applies stale fails : Verdict

unfoldable pub verdict : Line → ℕ → Verdict
verdict ln status =
    if ltb status 300
    then applies
    else if eqb status 409
    then stale
    else if eqb status 404 && ln.is_delete
    then applies
    else fails

-- The inner loop, over the results of one item.
unfoldable pub collect_item : Map Bool → Line → Item → BulkResult
unfolding verdict
collect_item done ln [] = applied done
collect_item done ln (status ∷ rest) =
    let again = collect_item (insert ln.doc_id true done) ln rest in
    let same = collect_item done ln rest in
    elim (verdict ln status) [
      | applies ↦ again
      | stale ↦ same
      | fails ↦ failed (item_failed ln.doc_id status)
    ]

-- The loop over `resp.Items`; it breaks when the items outnumber the lines.
unfoldable pub collect : Map Bool → List Line → List Item → BulkResult
unfolding collect_item
collect done lines [] = applied done
collect done [] (item ∷ items) = applied done
collect done (ln ∷ lines) (item ∷ items) = elim (collect_item done ln item) [
  | applied done' ↦ collect done' lines items
  | failed e ↦ failed e
]

-- What `Bulk` makes of the answer of the cluster; `none` is an error of the call.
unfoldable pub bulk_result : List CanonicalDoc → Option (List Item) → BulkResult
unfolding collect line
bulk_result docs none = failed request_failed
bulk_result docs (some items) = collect [] (map line docs) items

-- `applied[doc_id]`
unfoldable pub is_applied : Map Bool → String → Bool
is_applied done doc_id = Option.get_or (lookup doc_id done) false
