-- ===== src/Contract.antt =====
-- internal/contract/doc.go: the canonical document. The commit time is nanoseconds since the zero
-- time of Go, so that 0 is the time that `IsZero` recognises; SHA-1 is an argument of `point_id`.
pub mod Validation
use search_and_retrieval_sys.Prelude.{String, Option, none, some, ◌==◌, ◌&&◌, not, if◌then◌else◌}
use search_and_retrieval_sys.Prelude.Int.{ℤ, pos, ltb_ℤ, eqb_ℤ}
use Prim.Native.String.{◌++◌}

abbrev pub op_upsert : String
op_upsert = "upsert"

abbrev pub op_delete : String
op_delete = "delete"

abbrev pub tier_urgent : String
tier_urgent = "urgent"

abbrev pub tier_bulk : String
tier_bulk = "bulk"

pub record Metadata : Type 0 where
  pub category : String
  pub url : String
  pub author : String

pub record CanonicalDoc : Type 0 where
  pub source : String
  pub source_id : String
  pub doc_id : String
  pub tenant_id : ℤ
  pub op : String
  pub tier : String
  pub version : ℤ
  pub commit_ts : ℤ
  pub title : String
  pub body : String
  pub chunk_id : ℤ
  pub metadata : Metadata

-- The errors of `Validate`, one constructor for each message.
pub data ValidationError : Type 0 where
  source_required doc_id_required : ValidationError
  invalid_op invalid_tier : String → ValidationError
  negative_version : ℤ → ValidationError
  commit_ts_required upsert_requires_text : ValidationError

unfoldable pub namespaced_doc_id : String → String → String
namespaced_doc_id source native_id = source ++ ":" ++ native_id

-- `none` is a nil error.
unfoldable pub validate : CanonicalDoc → Option ValidationError
validate d =
    if d.source == ""
    then some source_required
    else if d.doc_id == ""
    then some doc_id_required
    else if not (d.op == op_upsert) && not (d.op == op_delete)
    then some (invalid_op d.op)
    else if not (d.tier == tier_urgent) && not (d.tier == tier_bulk)
    then some (invalid_tier d.tier)
    else if ltb_ℤ d.version (pos 0)
    then some (negative_version d.version)
    else if eqb_ℤ d.commit_ts (pos 0)
    then some commit_ts_required
    else if d.op == op_upsert && d.body == "" && d.title == ""
    then some upsert_requires_text
    else none

-- `new_sha1` is `uuid.NewSHA1(uuid.NameSpaceDNS, …).String()`.
unfoldable pub point_id : (String → String) → CanonicalDoc → String
point_id new_sha1 d = new_sha1 d.doc_id

unfoldable pub text : CanonicalDoc → String
text d =
    if d.title == "" then d.body else if d.body == "" then d.title else d.title ++ "\n\n" ++ d.body
