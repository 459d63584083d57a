-- ===== src/Contract/Validation.antt =====
-- `Validate` against an independent description of the documents that it lets through.
use search_and_retrieval_sys.Prelude.{◌≡◌, ◌≢◌, ◌↔◌, ◌⊎◌, none, arith, eq_iff}
use search_and_retrieval_sys.Prelude.Int.{pos, ◌≤ℤ◌, eqb_ℤ_iff}
use search_and_retrieval_sys.Contract.{
  CanonicalDoc, op_upsert, op_delete, tier_urgent, tier_bulk, validate,
}

-- The required-field contract of a document.
pub record IsWellFormed (d : CanonicalDoc) : Type 0 where
  pub has_source : d.source ≢ ""
  pub has_doc_id : d.doc_id ≢ ""
  pub known_op : (d.op ≡ op_upsert) ⊎ (d.op ≡ op_delete)
  pub known_tier : (d.tier ≡ tier_urgent) ⊎ (d.tier ≡ tier_bulk)
  pub versioned : pos 0 ≤ℤ d.version
  pub dated : d.commit_ts ≢ pos 0
  pub has_text : d.op ≡ op_upsert → (d.body ≢ "") ⊎ (d.title ≢ "")

-- `Validate` returns no error exactly on the documents that meet the required-field contract.
pub validate_iff : (d : CanonicalDoc) → (validate d ≡ none) ↔ IsWellFormed d
unfolding validate
validate_iff d = ground (
  arith,
  eq_iff d.source "",
  eq_iff d.doc_id "",
  eq_iff d.op op_upsert,
  eq_iff d.op op_delete,
  eq_iff d.tier tier_urgent,
  eq_iff d.tier tier_bulk,
  eq_iff d.body "",
  eq_iff d.title "",
  eqb_ℤ_iff d.commit_ts (pos 0),
)
