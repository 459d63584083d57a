-- ===== src/Tests/Fixtures.antt =====
-- Documents, a guard, and processes that answer every call.
use mathlib.Core.List.Permᴰ
use search_and_retrieval_sys.Prelude.{String, true, none, some, List, [], ◌∷◌, map}
use search_and_retrieval_sys.Prelude.Int.{ℤ, pos}
use search_and_retrieval_sys.Contract.{CanonicalDoc, op_upsert, op_delete, tier_bulk}
use search_and_retrieval_sys.OpenSearch.{Action, Item}
use search_and_retrieval_sys.Indexer.{Outside, State, Ranges}
use search_and_retrieval_sys.Indexer.Newest.{AreRanges}

abbrev pub doc_of : String → String → ℤ → CanonicalDoc
doc_of doc_id op version = record {
  source = "postgres";
  source_id = doc_id;
  doc_id = doc_id;
  tenant_id = pos 7;
  op = op;
  tier = tier_bulk;
  version = version;
  commit_ts = pos 1;
  title = "t";
  body = "b";
  chunk_id = pos 0;
  metadata = record { category = ""; url = ""; author = "" };
}

-- A batch with two versions of one document, and a delete of another.
abbrev pub batch : List CanonicalDoc
batch =
    doc_of "a" op_upsert (pos 1) ∷ doc_of "a" op_upsert (pos 2) ∷ doc_of "b" op_delete (pos 5) ∷ []

abbrev pub as_visited : Ranges
as_visited = record { docs = λ l. l; tenants = λ l. l }

abbrev pub as_visited-AreRanges : AreRanges as_visited
as_visited-AreRanges = record { docs = Permᴰ.refl; tenants = Permᴰ.refl }

abbrev pub succeeds : List Action → List Item
succeeds = map (λ a. 200 ∷ [])

abbrev pub outside : Outside (Unit {0})
outside = record {
  bulk_answer = λ h actions. some (succeeds actions);
  embed_answer = λ h texts. some (map (λ t. tt) texts, "bge-small");
  upsert_answer = λ h points. true;
  delete_answer = λ h ids. true;
  new_sha1 = λ s. s;
}

-- Every document is stale for OpenSearch.
abbrev pub ahead : Outside (Unit {0})
ahead = record outside { bulk_answer = λ h actions. some (map (λ a. 409 ∷ []) actions) }

-- The embedder is down.
abbrev pub no_embedder : Outside (Unit {0})
no_embedder = record outside { embed_answer = λ h texts. none }

abbrev pub first_state : State (Unit {0})
first_state = record { guard = record { seen = ("b", pos 4) ∷ [] }; calls = [] }
