-- ===== src/Normalizer.antt =====
-- internal/normalizer/normalizer.go: a Debezium change event to a canonical document. The decoded
-- envelope is the input (`encoding/json` stands before it), and the clock is an argument.
pub mod Classification
use Prim.Native.String.{◌++◌}
use search_and_retrieval_sys.Prelude.{ℕ, ◌*◌, String, Option, none, some, ◌==◌, ◌||◌, if◌then◌else◌}
use search_and_retrieval_sys.Prelude.Int.{ℤ, pos, negsuc, ◌+ℤ◌, ◌*ℤ◌, eqb_ℤ}
use search_and_retrieval_sys.Prelude.Text.{decimal}
use search_and_retrieval_sys.Contract.{
  CanonicalDoc, op_upsert, op_delete, tier_urgent, tier_bulk, namespaced_doc_id,
}

abbrev pub source_postgres : String
source_postgres = "postgres"

pub record DocumentRow : Type 0 where
  pub id : ℤ
  pub tenant_id : ℤ
  pub title : String
  pub body : String
  pub category : String
  pub tier : String
  pub updated_at : String
  pub version : ℤ

pub record SourceBlock : Type 0 where
  pub ts_ms : ℤ
  pub lsn : ℤ
  pub table : String

pub record DebeziumEnvelope : Type 0 where
  pub before : Option DocumentRow
  pub after : Option DocumentRow
  pub op : String
  pub source : SourceBlock
  pub ts_ms : ℤ

-- What `FromDebezium` returns: a document, `ErrSkip`, or another error.
pub data Error : Type 0 where
  decode_envelope : Error
  nil_after : String → Error
  nil_before : Error
  unknown_op : String → Error

pub data Outcome : Type 0 where
  doc : CanonicalDoc → Outcome
  skip : Outcome
  failed : Error → Outcome

-- `time.UnixMilli(ms)`, in nanoseconds since the zero time of Go.
abbrev pub unix_milli : ℤ → ℤ
unix_milli ms = ms *ℤ pos 1000000 +ℤ pos 62135596800000000000

unfoldable pub commit_ts : ℤ → DebeziumEnvelope → ℤ
commit_ts now e =
    let ms = if eqb_ℤ e.source.ts_ms (pos 0) then e.ts_ms else e.source.ts_ms in
    if eqb_ℤ ms (pos 0) then now else unix_milli ms

-- Deletes are urgent; otherwise the row's own tier decides.
unfoldable pub classify_tier : String → DocumentRow → String
classify_tier op row =
    if op == op_delete
    then tier_urgent
    else if row.tier == tier_urgent
    then tier_urgent
    else tier_bulk

unfoldable pub native_id : ℤ → String
native_id id = "documents:" ++ decimal id

unfoldable pub build_doc : DocumentRow → String → ℤ → CanonicalDoc
unfolding native_id classify_tier
build_doc row op commit = record {
  source = source_postgres;
  source_id = native_id row.id;
  doc_id = namespaced_doc_id source_postgres (native_id row.id);
  tenant_id = row.tenant_id;
  op = op;
  tier = classify_tier op row;
  version = row.version;
  commit_ts = commit;
  title = row.title;
  body = row.body;
  chunk_id = pos 0;
  metadata = record { category = row.category; url = ""; author = "" };
}

-- The switch on `env.Op`; `now` is what `time.Now()` returns.
unfoldable pub from_envelope : ℤ → DebeziumEnvelope → Outcome
unfolding build_doc commit_ts
from_envelope now env =
    if env.op == "c" || env.op == "u" || env.op == "r"
    then (elim env.after [
      | none ↦ failed (nil_after env.op)
      | some row ↦ doc (build_doc row op_upsert (commit_ts now env))
    ])
    else if env.op == "d"
    then (elim env.before [
      | none ↦ failed nil_before
      | some row ↦ doc (build_doc row op_delete (commit_ts now env))
    ])
    else if env.op == "t" || env.op == ""
    then skip
    else failed (unknown_op env.op)

-- `decode` is `json.Unmarshal` into an envelope; `none` is its error.
unfoldable pub from_debezium {ℓ} :
    {Bytes : Type ℓ} → (Bytes → Option DebeziumEnvelope) → ℤ → Bytes → Outcome
unfolding from_envelope
from_debezium decode now value = elim (decode value) [
  | none ↦ failed decode_envelope
  | some env ↦ from_envelope now env
]
