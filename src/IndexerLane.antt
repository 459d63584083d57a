-- ===== src/IndexerLane.antt =====
-- cmd/indexer/main.go: `runLane`, `flushBatch` and `toDLQ`. One lane polls records, buffers the valid
-- ones and applies the buffer when it is full or old. Record values are abstract, with their
-- JSON decoding. What the lane asks of its broker is a log of events, each with the outcome, which
-- the code only logs.
pub mod Accounting
pub mod Handling
pub mod Latency
use search_and_retrieval_sys.Prelude.{
  ℕ, String, Bool, true, false, ◌||◌, ◌&&◌, leb, ltb, length, Option, none, some, List, [], ◌∷◌,
  ◌++◌, if◌then◌else◌,
}
use search_and_retrieval_sys.Prelude.Int.{ℤ, pos, ◌-ℤ◌, leb_ℤ}
use search_and_retrieval_sys.Contract.{CanonicalDoc, validate}
use search_and_retrieval_sys.Indexer
use search_and_retrieval_sys.Indexer.{Outside, Ranges, State, Result, ok, error, panic, apply}

-- The reasons that `toDLQ` is given.
pub data Reason : Type 0 where
  decode_error invalid_doc : Reason

-- A `ProduceSync` to the dead letter topic, with its value, which is nil where `json.Marshal` does
-- not take the original, or a commit of the offsets behind an applied batch; and whether the broker
-- accepts it.
pub data Event (Bytes : Type 0) : Type 0 where
  dead_letter : Option (Bytes × Reason) → Bool → Event Bytes
  commit_offsets : List CanonicalDoc → Bool → Event Bytes

pub record Lane (Bytes Vector : Type 0) : Type 0 where
  pub batch : List CanonicalDoc
  pub raws : List Bytes
  pub batch_start : ℤ
  pub events : List (Event Bytes)
  pub indexer : State Vector

-- What a lane is given: the wire format, the other processes, the map orders, the flush interval.
pub record Setting (Bytes Vector : Type 0) : Type 0 where
  pub decode : Bytes → Option CanonicalDoc
  -- Whether `json.Marshal` takes the bytes as a `json.RawMessage`.
  pub is_raw_json : Bytes → Bool
  pub out : Outside Vector
  pub ranges : Ranges
  pub flush : ℤ

-- A record, the time at which it is handled, and whether the broker would accept its dead letter.
pub record Arrival (Bytes : Type 0) : Type 0 where
  pub value : Bytes
  pub time : ℤ
  pub accepted : Bool

-- One round of the loop: the poll is canceled with the context, or brings records (none after an
-- idle poll or a fetch error), and then comes the time at which the flush is decided. The flag says
-- whether a commit of the offsets succeeds.
pub data Poll (Bytes : Type 0) : Type 0 where
  canceled : Bool → Poll Bytes
  fetched : List (Arrival Bytes) → ℤ → Bool → Poll Bytes

-- Whether the loop goes on, returns, or the process has crashed.
pub data Ending : Type 0 where
  goes_on returns crashes : Ending

module _ {Bytes Vector : Type 0} where
  abbrev pub start : State Vector → Lane Bytes Vector
  start s = record { batch = []; raws = []; batch_start = pos 0; events = []; indexer = s }

  -- `flushBatch`: on an error of `apply` the batch stays, and nothing is committed. An error of the
  -- commit changes nothing else.
  unfoldable pub flush_result :
      Lane Bytes Vector → Bool → Result (Unit {0}) → State Vector → Lane Bytes Vector × Ending
  flush_result l committed (ok u) s = (
    record {
      batch = [];
      raws = [];
      batch_start = pos 0;
      events = commit_offsets l.batch committed ∷ l.events;
      indexer = s;
    },
    goes_on,
  )
  flush_result l committed error s = (record l { indexer = s }, goes_on)
  flush_result l committed panic s = (record l { indexer = s }, crashes)

  -- The body of `flushBatch`, over the documents of the batch.
  unfoldable pub flush_docs :
      Setting Bytes Vector
      → Lane Bytes Vector
      → Bool
      → List CanonicalDoc
      → Lane Bytes Vector × Ending
  unfolding flush_result
  flush_docs st l committed [] = (l, goes_on)
  flush_docs st l committed (d ∷ docs) =
      let (r, s) = apply st.out st.ranges (d ∷ docs) l.indexer in flush_result l committed r s

  unfoldable pub flush_batch :
      Setting Bytes Vector → Lane Bytes Vector → Bool → Lane Bytes Vector × Ending
  unfolding flush_docs
  flush_batch st l committed = flush_docs st l committed l.batch

  -- `toDLQ`, whose own errors are dropped or only logged.
  abbrev pub to_dlq :
      Setting Bytes Vector → Arrival Bytes → Reason → Lane Bytes Vector → Lane Bytes Vector
  to_dlq st r reason l =
      let body = if st.is_raw_json r.value then some (r.value, reason) else none in
      record l { events = dead_letter body r.accepted ∷ l.events }

  abbrev pub buffer : Arrival Bytes → CanonicalDoc → Lane Bytes Vector → Lane Bytes Vector
  buffer r d l = record l {
    batch = l.batch ++ d ∷ [];
    raws = l.raws ++ r.value ∷ [];
    batch_start = elim l.batch [ [] ↦ r.time | c ∷ docs ↦ l.batch_start ];
  }

  -- The callback of `EachRecord`.
  unfoldable pub each_record :
      Setting Bytes Vector → Lane Bytes Vector → Arrival Bytes → Lane Bytes Vector
  each_record st l r = elim (st.decode r.value) [
    | none ↦ to_dlq st r decode_error l
    | some d ↦ elim (validate d) [ some e ↦ to_dlq st r invalid_doc l | none ↦ buffer r d l ]
  ]

  unfoldable pub each_records :
      Setting Bytes Vector → Lane Bytes Vector → List (Arrival Bytes) → Lane Bytes Vector
  unfolding each_record
  each_records st l [] = l
  each_records st l (r ∷ rs) = each_records st (each_record st l r) rs

  -- The batch is full, or its first record has waited for the flush interval.
  unfoldable pub is_due : Setting Bytes Vector → Lane Bytes Vector → ℤ → Bool
  is_due st l now =
      leb 256 (length l.batch) || (ltb 0 (length l.batch) && leb_ℤ st.flush (now -ℤ l.batch_start))

  unfoldable pub iterate :
      Setting Bytes Vector → Lane Bytes Vector → Poll Bytes → Lane Bytes Vector × Ending
  unfolding each_records is_due flush_batch
  iterate st l (canceled committed) =
      let (l', e) = flush_batch st l committed in (l', elim e [ crashes ↦ crashes | _ ↦ returns ])
  iterate st l (fetched rs now committed) =
      let l' = each_records st l rs in
      if is_due st l' now then flush_batch st l' committed else (l', goes_on)

  -- The loop over the polls; it ends when the context or the process does.
  unfoldable pub run :
      Setting Bytes Vector → Lane Bytes Vector → List (Poll Bytes) → Lane Bytes Vector
  unfolding iterate
  run st l [] = l
  run st l (p ∷ polls) =
      let (l', e) = iterate st l p in elim e [ goes_on ↦ run st l' polls | _ ↦ l' ]
