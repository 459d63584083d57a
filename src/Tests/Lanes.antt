-- ===== src/Tests/Lanes.antt =====
-- A lane that polls a bad value, an invalid document and a valid one, and the normalizer on events.
use search_and_retrieval_sys.Prelude.{
  String, ◌≡◌, ◌≢◌, ◌↔◌, refl, ◌⊎◌, true, false, Option, none, some, List, [], ◌∷◌, Elem, head,
  tail, All,
}
use search_and_retrieval_sys.Prelude.Int.{ℤ, pos, ◌≤ℤ◌}
use search_and_retrieval_sys.Contract.{CanonicalDoc, op_upsert, validate}
use search_and_retrieval_sys.Normalizer.{
  DocumentRow, DebeziumEnvelope, doc, from_envelope, build_doc, commit_ts,
}
use search_and_retrieval_sys.Normalizer.Classification.{
  Describes, from_envelope-Describes, from_envelope-validate,
}
use search_and_retrieval_sys.NormalizerService
use search_and_retrieval_sys.NormalizerService.{records, commits, to_produce}
use search_and_retrieval_sys.NormalizerService.Routing
use search_and_retrieval_sys.NormalizerService.Routing.{to_produce_sound, iterate_commits}
use search_and_retrieval_sys.IndexerLane.{Setting, Arrival, Lane, fetched, start, iterate}
use search_and_retrieval_sys.IndexerLane.Latency.{Bounded, iterate-IsFresh}
use search_and_retrieval_sys.Tests.Fixtures.{doc_of, as_visited, outside, first_state}

-- A value is its own decoding, and JSON if it decodes. The flush interval is 100.
abbrev lane_setting : Setting (Option CanonicalDoc) (Unit {0})
lane_setting = record {
  decode = λ v. v;
  is_raw_json = λ v. elim v [ none ↦ false | some d ↦ true ];
  out = outside;
  ranges = as_visited;
  flush = pos 100;
}

-- A value that does not decode, an invalid document, whose dead letter is refused, and a valid one.
abbrev arrivals : List (Arrival (Option CanonicalDoc))
arrivals =
    record { value = none; time = pos 1000; accepted = true }
    ∷ record { value = some (doc_of "" op_upsert (pos 1)); time = pos 1001; accepted = false }
    ∷ record { value = some (doc_of "a" op_upsert (pos 1)); time = pos 1002; accepted = true }
    ∷ []

abbrev polled_values : List (Option CanonicalDoc)
polled_values = none ∷ some (doc_of "" op_upsert (pos 1)) ∷ some (doc_of "a" op_upsert (pos 1)) ∷ []

abbrev after_poll : Lane (Option CanonicalDoc) (Unit {0})
after_poll = (iterate lane_setting (start first_state) (fetched arrivals (pos 1200) false)).0

iterate-IsFresh_example :
    Bounded lane_setting arrivals
      (pos 1050)
      (start first_state)
      (iterate lane_setting (start first_state) (fetched arrivals (pos 1050) true)).0
iterate-IsFresh_example = iterate-IsFresh lane_setting (start first_state) arrivals (pos 1050) true

abbrev row_of : ℤ → String → DocumentRow
row_of id tier = record {
  id = id;
  tenant_id = pos 7;
  title = "t";
  body = "";
  category = "";
  tier = tier;
  updated_at = "";
  version = pos 3;
}

abbrev event_of : String → Option DocumentRow → Option DocumentRow → DebeziumEnvelope
event_of op before after = record {
  before = before;
  after = after;
  op = op;
  source = record { ts_ms = pos 1700000000000; lsn = pos 1; table = "documents" };
  ts_ms = pos 0;
}

abbrev created : DebeziumEnvelope
created = event_of "c" none (some (row_of (pos 42) "urgent"))

abbrev created_doc : CanonicalDoc
created_doc = build_doc (row_of (pos 42) "urgent") op_upsert (commit_ts (pos 9) created)

created_test : from_envelope (pos 9) created ≡ doc created_doc
unfolding from_envelope
created_test = refl

from_envelope-Describes_example : Describes (pos 9) created created_doc
from_envelope-Describes_example = from_envelope-Describes (pos 9) created created_doc created_test

from_envelope-validate_example : (validate created_doc ≡ none) ↔ (
    (pos 0 ≤ℤ created_doc.version)
    × (created_doc.commit_ts ≢ pos 0)
    × (created_doc.op ≡ op_upsert → (created_doc.body ≢ "") ⊎ (created_doc.title ≢ "")))
from_envelope-validate_example = from_envelope-validate (pos 9) created created_doc created_test

abbrev service : NormalizerService.Setting (Option DebeziumEnvelope)
service = record {
  is_empty = λ v. elim v [ none ↦ true | some e ↦ false ];
  decode = λ v. v;
  is_raw_json = λ v. true;
  is_writable = λ d. true;
  now = pos 9;
  topics = record { fast = "docs.fast"; bulk = "docs.bulk"; dlq = "docs.dlq" };
}

-- A tombstone, a heartbeat, a delete without its before-image, and an urgent insert.
abbrev events : List (Option DebeziumEnvelope)
events = none ∷ some (event_of "" none none) ∷ some (event_of "d" none none) ∷ some created ∷ []

to_produce_sound_example : All (Routing.IsJustified service events) (to_produce service events)
to_produce_sound_example = to_produce_sound service events

service_commits : (NormalizerService.iterate service (records events true)).1 ≡ commits
unfolding NormalizerService.iterate
service_commits = refl

iterate_commits_example :
    Routing.IsSilent service (some created)
    ⊎ ((true ≡ true)
        × (p : NormalizerService.Produced (Option DebeziumEnvelope)) × Elem p
            (NormalizerService.iterate service (records events true)).0
        × Routing.Carries service (some created) p)
iterate_commits_example =
    iterate_commits service events true service_commits (some created)
      (tail (tail (tail (head refl))))
