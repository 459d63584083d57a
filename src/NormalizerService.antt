-- ===== src/NormalizerService.antt =====
-- cmd/normalizer/main.go: the consume, convert, route and commit loop. A record's value is an
-- abstract type with its emptiness and its JSON decoding; the JSON that the service writes is
-- represented by what it encodes. The code drops the errors of `json.Marshal`, so a value that it
-- cannot write is nil, which is `none`.
pub mod Routing
use search_and_retrieval_sys.Prelude.{
  String, Bool, true, false, ◌==◌, Option, none, some, List, [], ◌∷◌, ◌++◌, if◌then◌else◌,
}
use search_and_retrieval_sys.Prelude.Int.{ℤ}
use search_and_retrieval_sys.Contract.{CanonicalDoc, ValidationError, tier_urgent, validate}
use search_and_retrieval_sys.Normalizer.{
  DebeziumEnvelope, Outcome, doc, skip, failed, from_debezium,
}
use search_and_retrieval_sys.Normalizer

-- `err.Error()` of the two kinds of bad event.
pub data Reason : Type 0 where
  normalize_error : Normalizer.Error → Reason
  invalid_doc : ValidationError → Reason

-- What stands in a record's value.
pub data Payload (Bytes : Type 0) : Type 0 where
  document : CanonicalDoc → Payload Bytes
  dead_letter : Reason → Bytes → Payload Bytes

pub record Produced (Bytes : Type 0) : Type 0 where
  pub topic : String
  pub key : Option String
  pub value : Option (Payload Bytes)

pub record Topics : Type 0 where
  pub fast : String
  pub bulk : String
  pub dlq : String

-- What the service is given: the wire format, the clock and the topic names.
pub record Setting (Bytes : Type 0) : Type 0 where
  pub is_empty : Bytes → Bool
  pub decode : Bytes → Option DebeziumEnvelope
  -- Whether `json.Marshal` takes the bytes as a `json.RawMessage`, and whether it takes a document.
  pub is_raw_json : Bytes → Bool
  pub is_writable : CanonicalDoc → Bool
  pub now : ℤ
  pub topics : Topics

-- What one iteration of the loop meets from outside: `PollFetches` ends with the context, reports
-- errors, or brings records; `ProduceSync` and the commit may fail.
pub data Poll (Bytes : Type 0) : Type 0 where
  canceled fetch_errors : Poll Bytes
  records : List Bytes → Bool → Poll Bytes

-- What one iteration does: it ends the loop, goes on without a commit, or commits the offsets, where an
-- error is only logged.
pub data Ending : Type 0 where
  stops goes_on commits : Ending

module _ {Bytes : Type 0} where
  unfoldable pub dlq_record : Setting Bytes → Bytes → Reason → Produced Bytes
  dlq_record s original reason = record {
    topic = s.topics.dlq;
    key = none;
    value = if s.is_raw_json original then some (dead_letter reason original) else none;
  }

  -- The part of the callback behind `Validate`.
  unfoldable pub route : Setting Bytes → Bytes → CanonicalDoc → Produced Bytes
  unfolding dlq_record
  route s value d = elim (validate d) [
    | some e ↦ dlq_record s value (invalid_doc e)
    | none ↦ record {
      topic = if d.tier == tier_urgent then s.topics.fast else s.topics.bulk;
      key = some d.doc_id;
      value = if s.is_writable d then some (document d) else none;
    }
  ]

  -- The callback of `EachRecord`: what it appends to `toProduce`.
  unfoldable pub each_record : Setting Bytes → Bytes → List (Produced Bytes)
  unfolding dlq_record route from_debezium
  each_record s value = if s.is_empty value then [] else elim (from_debezium s.decode s.now value) [
    | skip ↦ []
    | failed e ↦ dlq_record s value (normalize_error e) ∷ []
    | doc d ↦ route s value d ∷ []
  ]

  unfoldable pub to_produce : Setting Bytes → List Bytes → List (Produced Bytes)
  unfolding each_record
  to_produce s [] = []
  to_produce s (value ∷ rest) = each_record s value ++ to_produce s rest

  -- `len(toProduce) > 0`, `ProduceSync` and the commit; the flag says whether `ProduceSync` succeeds.
  unfoldable pub finish : List (Produced Bytes) → Bool → List (Produced Bytes) × Ending
  finish [] ok = ([], commits)
  finish (r ∷ rs) true = (r ∷ rs, commits)
  finish (r ∷ rs) false = (r ∷ rs, goes_on)

  -- One iteration: the records handed to the producer, and how the iteration ends.
  unfoldable pub iterate : Setting Bytes → Poll Bytes → List (Produced Bytes) × Ending
  unfolding to_produce finish
  iterate s canceled = ([], stops)
  iterate s fetch_errors = ([], goes_on)
  iterate s (records values ok) = finish (to_produce s values) ok
