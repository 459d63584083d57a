-- ===== src/Normalizer/Classification.antt =====
-- What the normalizer guarantees of the documents that it emits.
use Prim.Native.String.{◌++◌}
use text.Mathlib.TextLemmas.{append_cancel_left, append-eq-nil_iff}
use search_and_retrieval_sys.Prelude.{
  true, String, ◌≡◌, refl, subst, ◌≢◌, ◌==◌, ◌||◌, Bool-cases, Option-cases, inl, inr, ◌⊎◌, ◌↔◌,
  some, none, arith, eq_iff, sym, ◌∙◌,
}
use search_and_retrieval_sys.Prelude.Int.{ℤ, pos, ◌≤ℤ◌, eqb_ℤ_iff}
use search_and_retrieval_sys.Prelude.Text.{decimal, decimal_injective}
use search_and_retrieval_sys.Contract.{
  CanonicalDoc, op_upsert, op_delete, tier_urgent, tier_bulk, namespaced_doc_id, validate,
}
use search_and_retrieval_sys.Contract.Validation.{validate_iff}
use search_and_retrieval_sys.Normalizer.{
  DocumentRow, DebeziumEnvelope, doc, source_postgres, commit_ts, from_envelope, native_id,
  build_doc, classify_tier, unix_milli,
}

-- The time of the change is that of the source; without it that of the event, and else the clock's.
abbrev pub IsCommitTime : ℤ → DebeziumEnvelope → ℤ → Type 0
IsCommitTime now e t =
    ((e.source.ts_ms ≢ pos 0) × (t ≡ unix_milli e.source.ts_ms))
    ⊎ ((e.source.ts_ms ≡ pos 0) × (e.ts_ms ≢ pos 0) × (t ≡ unix_milli e.ts_ms))
    ⊎ ((e.source.ts_ms ≡ pos 0) × (e.ts_ms ≡ pos 0) × (t ≡ now))

-- A creation, an update or a snapshot read gives an upsert of the row after it, a deletion a delete of
-- the row before it.
abbrev pub IsChange : DebeziumEnvelope → String → DocumentRow → Type 0
IsChange e op row =
    (((e.op ≡ "c") ⊎ (e.op ≡ "u") ⊎ (e.op ≡ "r")) × (op ≡ op_upsert) × (e.after ≡ some row))
    ⊎ ((e.op ≡ "d") × (op ≡ op_delete) × (e.before ≡ some row))

-- What an emitted document says of the event that it came from.
pub record Describes (now : ℤ) (e : DebeziumEnvelope) (d : CanonicalDoc) : Type 0 where
  pub row : DocumentRow
  pub image : IsChange e d.op row
  pub source : d.source ≡ source_postgres
  pub doc_id : d.doc_id ≡ namespaced_doc_id source_postgres (native_id row.id)
  pub tenant_id : d.tenant_id ≡ row.tenant_id
  pub version : d.version ≡ row.version
  pub title : d.title ≡ row.title
  pub body : d.body ≡ row.body
  pub commit : IsCommitTime now e d.commit_ts
  pub source_id : d.source_id ≡ "documents:" ++ decimal row.id
  pub category : d.metadata.category ≡ row.category
  pub urgent : (d.tier ≡ tier_urgent) ↔ ((d.op ≡ op_delete) ⊎ (row.tier ≡ tier_urgent))
  pub known_tier : (d.tier ≡ tier_urgent) ⊎ (d.tier ≡ tier_bulk)

build_doc-urgent :
    (row : DocumentRow) (op : String)
    → (classify_tier op row ≡ tier_urgent) ↔ ((op ≡ op_delete) ⊎ (row.tier ≡ tier_urgent))
unfolding classify_tier
build_doc-urgent row op =
    ground (arith, eq_iff op op_delete, eq_iff row.tier tier_urgent, eq_iff tier_bulk tier_urgent)

build_doc-known_tier :
    (row : DocumentRow) (op : String)
    → (classify_tier op row ≡ tier_urgent) ⊎ (classify_tier op row ≡ tier_bulk)
unfolding classify_tier
build_doc-known_tier row op = ground arith

commit_ts-IsCommitTime : (now : ℤ) (e : DebeziumEnvelope) → IsCommitTime now e (commit_ts now e)
unfolding commit_ts
commit_ts-IsCommitTime now e =
    ground (arith, eqb_ℤ_iff e.source.ts_ms (pos 0), eqb_ℤ_iff e.ts_ms (pos 0))

build_doc-Describes :
    (now : ℤ) (e : DebeziumEnvelope) (row : DocumentRow) (op : String)
    → IsChange e op row
    → Describes now e (build_doc row op (commit_ts now e))
unfolding build_doc
build_doc-Describes now e row op image = record {
  row = row;
  image = image;
  source = refl;
  doc_id = refl;
  tenant_id = refl;
  version = refl;
  title = refl;
  body = refl;
  commit = commit_ts-IsCommitTime now e;
  source_id = unfold native_id in refl;
  category = refl;
  urgent = build_doc-urgent row op;
  known_tier = build_doc-known_tier row op;
}

-- The row and the kind of change that a document was built from.
Origin : ℤ → DebeziumEnvelope → CanonicalDoc → Type 0
Origin now e d =
    (row : DocumentRow) × (op : String) × IsChange e op row
    × (build_doc row op (commit_ts now e) ≡ d)

upserts_iff :
    (op : String)
    → (op == "c" || op == "u" || op == "r") ≡ true
    → (op ≡ "c") ⊎ (op ≡ "u") ⊎ (op ≡ "r")
upserts_iff op h = ground (arith, eq_iff op "c", eq_iff op "u", eq_iff op "r")

from_envelope-Origin :
    (now : ℤ) (e : DebeziumEnvelope) (d : CanonicalDoc)
    → from_envelope now e ≡ doc d
    → Origin now e d
unfolding from_envelope Origin
from_envelope-Origin now e d h = elim (Bool-cases (e.op == "c" || e.op == "u" || e.op == "r")) [
  | inl up ↦ elim (Option-cases e.after) [
    | inl missing ↦ absurd (ground arith)
    | inr (row, found) ↦ (row, op_upsert, inl (upserts_iff e.op up, refl, found), ground arith)
  ]
  | inr other ↦ elim (Option-cases e.before) [
    | inl missing ↦ absurd (ground arith)
    | inr (row, found) ↦
        (row, op_delete, inr (ground (arith, eq_iff e.op "d"), refl, found), ground arith)
  ]
]

-- An emitted document is an upsert of the row after a creation, an update or a snapshot read, or a
-- delete of the row before a deletion. It has the key, tenant, category, version and texts of that
-- row, the time of the source, else of the event, else of the clock, and it is urgent exactly if
-- it deletes or the row says so.
pub from_envelope-Describes :
    (now : ℤ) (e : DebeziumEnvelope) (d : CanonicalDoc)
    → from_envelope now e ≡ doc d
    → Describes now e d
unfolding Origin
from_envelope-Describes now e d h =
    let (row, op, image, same) = from_envelope-Origin now e d h in
    subst (Describes now e) same (build_doc-Describes now e row op image)

-- Rows with different keys have different doc_ids.
doc_id-injective :
    (m n : ℤ)
    → namespaced_doc_id source_postgres (native_id m)
      ≡ namespaced_doc_id source_postgres (native_id n)
    → m ≡ n
unfolding namespaced_doc_id native_id
doc_id-injective m n e = decimal_injective m n (
    append_cancel_left "documents:" _ _
      (append_cancel_left ":" _ _ (append_cancel_left "postgres" _ _ e)))

namespaced-ne-empty : (id : String) → namespaced_doc_id source_postgres id ≢ ""
unfolding namespaced_doc_id
namespaced-ne-empty id e = ground (arith, eq_iff source_postgres "", (append-eq-nil_iff.0 e).0)

-- The normalizer's own checks suffice: an emitted document passes `Validate` exactly if its version
-- is not negative, its time is not the zero time and, for an upsert, the row has a title or a body.
pub from_envelope-validate :
    (now : ℤ) (e : DebeziumEnvelope) (d : CanonicalDoc)
    → from_envelope now e ≡ doc d
    → (validate d ≡ none) ↔ (
        (pos 0 ≤ℤ d.version)
        × (d.commit_ts ≢ pos 0)
        × (d.op ≡ op_upsert → (d.body ≢ "") ⊎ (d.title ≢ "")))
from_envelope-validate now e d h = (
  λ valid. let w = (validate_iff d).0 valid in (w.versioned, w.dated, w.has_text),
  λ t. (validate_iff d).1 (record {
    has_source = ground (arith, c.source, eq_iff source_postgres "");
    has_doc_id = λ empty. namespaced-ne-empty (native_id c.row.id) (sym c.doc_id ∙ empty);
    known_op = ground (arith, c.image);
    known_tier = c.known_tier;
    versioned = t.0;
    dated = t.1;
    has_text = t.2;
  }),
)
  where
    c : Describes now e d
    c = from_envelope-Describes now e d h
