-- ===== src/Tests/Write.antt =====
-- `apply` on the batch, with processes that succeed, are ahead or fail.
use mathlib.Core.Option.{some-injective}
use search_and_retrieval_sys.Prelude.{
  String, ◌≡◌, ◌≢◌, refl, ◌⊎◌, true, some, List, [], ◌∷◌, map, arith, Elem, head, All-Elem,
}
use search_and_retrieval_sys.Prelude.Int.{pos, ◌≤ℤ◌}
use search_and_retrieval_sys.Prelude.Maps.{lookup, insert}
use search_and_retrieval_sys.Contract.{CanonicalDoc, op_upsert, op_delete, text, point_id}
use search_and_retrieval_sys.Idempotency.{version, should_apply, commit}
use search_and_retrieval_sys.Idempotency.Watermark.{Reached}
use search_and_retrieval_sys.OpenSearch.{
  action, Item, applied, bulk_result, collect, collect_item, verdict, line, is_applied,
}
use search_and_retrieval_sys.OpenSearch.Bulk.{reported, is_tolerable, bulk_result-applied}
use search_and_retrieval_sys.Indexer.{
  ok, error, bulk, apply, apply_some, apply_due, embed_and_write, write_qdrant, finish, bump_all,
  delete_docs, upsert_points, embed_upserts, bulk_docs, points_of, tenants_changed, commit_applied,
  upserts_of, deletes_of, to_apply, due, newest_by_doc, newest_from, called,
}
use search_and_retrieval_sys.Indexer.Newest.{IsNewest, to_apply_sound, to_apply_complete}
use search_and_retrieval_sys.Indexer.Calls.{Writes, apply_calls}
use search_and_retrieval_sys.Indexer.Commits.{NotReported, apply_fails, apply-keeps, apply_settles}
use search_and_retrieval_sys.Indexer.Replay.{apply_replay, apply_stale}
use search_and_retrieval_sys.Tests.Fixtures.{
  doc_of, batch, as_visited, as_visited-AreRanges, outside, ahead, no_embedder, first_state,
  succeeds,
}

runs : Unit {0}
unfolding apply apply_some apply_due embed_and_write write_qdrant finish bump_all delete_docs
    upsert_points embed_upserts bulk_docs points_of tenants_changed commit_applied upserts_of
    deletes_of to_apply due newest_by_doc newest_from bulk_result collect collect_item verdict line
    action is_applied lookup insert should_apply commit version text point_id
runs = tt

-- The versions that the batch leaves behind.
apply_tests :
    ((apply outside as_visited batch first_state).0 ≡ ok tt)
    × (version (apply outside as_visited batch first_state).1.guard "a" ≡ some (pos 2))
    × (version (apply outside as_visited batch first_state).1.guard "b" ≡ some (pos 5))
    × ((apply no_embedder as_visited batch first_state).0 ≡ error)
unfolding runs
apply_tests = (refl, refl, refl, refl)

-- The documents of the batch that are due: the second version of "a", and the delete of "b".
abbrev sent : List CanonicalDoc
sent = doc_of "a" op_upsert (pos 2) ∷ doc_of "b" op_delete (pos 5) ∷ []

to_apply_test : to_apply as_visited first_state.guard batch ≡ sent
unfolding runs
to_apply_test = refl

apply_calls_example :
    ((to_apply as_visited first_state.guard batch ≡ [])
      × ((apply outside as_visited batch first_state).1.calls ≡ first_state.calls))
    ⊎ Writes outside as_visited as_visited-AreRanges first_state
        (to_apply as_visited first_state.guard batch)
        (apply outside as_visited batch first_state).1
apply_calls_example = apply_calls outside as_visited as_visited-AreRanges batch first_state

apply_ok : (apply outside as_visited batch first_state).0 ≡ ok tt
apply_ok = apply_tests.0

apply_settles_example :
    Reached (version (apply outside as_visited batch first_state).1.guard "a") (pos 1)
    ⊎ NotReported outside as_visited (to_apply as_visited first_state.guard batch) first_state "a"
apply_settles_example =
    apply_settles outside as_visited as_visited-AreRanges batch first_state
      (doc_of "a" op_upsert (pos 1)) apply_ok (head refl)

apply-no_embedder : (apply no_embedder as_visited batch first_state).0 ≢ ok tt
unfolding runs
apply-no_embedder e = cc

apply_fails_example : (apply no_embedder as_visited batch first_state).1.guard ≡ first_state.guard
apply_fails_example = apply_fails no_embedder as_visited batch first_state apply-no_embedder

Reached-before : Reached (version first_state.guard "b") (pos 3)
unfolding runs
Reached-before = omega arith

apply-keeps_example :
    Reached (version (apply outside as_visited batch first_state).1.guard "b") (pos 3)
apply-keeps_example = apply-keeps outside as_visited batch first_state "b" (pos 3) Reached-before

-- A document whose item is a success is reported.
reported_item :
    (k : String)
    → reported k
        (to_apply as_visited first_state.guard batch)
        (succeeds (map action (to_apply as_visited first_state.guard batch)))
      ≡ true
    → ¬ NotReported outside as_visited (to_apply as_visited first_state.guard batch) first_state k
reported_item k h r = let same = some-injective r.answered in let skips = r.skipped in cc

all_reported :
    (e : CanonicalDoc)
    → Elem e batch
    → ¬ NotReported outside as_visited
        (to_apply as_visited first_state.guard batch)
        first_state
        e.doc_id
unfolding runs
all_reported e m =
    All-Elem
      (λ c.
        ¬ NotReported outside as_visited (to_apply as_visited first_state.guard batch) first_state
          c.doc_id)
      (reported_item "a" refl, (reported_item "a" refl, (reported_item "b" refl, tt))) m

apply_replay_example :
    apply outside as_visited batch (apply outside as_visited batch first_state).1
    ≡ (ok tt, (apply outside as_visited batch first_state).1)
apply_replay_example =
    apply_replay outside as_visited as_visited-AreRanges batch first_state apply_ok all_reported

apply_stale_example :
    apply ahead as_visited batch first_state ≡ (ok tt, called (bulk (map action sent)) first_state)
apply_stale_example =
    apply_stale ahead as_visited as_visited-AreRanges batch first_state
      ((409 ∷ []) ∷ (409 ∷ []) ∷ []) (doc_of "a" op_upsert (pos 2))
      (doc_of "b" op_delete (pos 5) ∷ []) to_apply_test refl refl (λ k. ground arith)

Reached-all :
    (e : CanonicalDoc)
    → Elem e (doc_of "b" op_upsert (pos 3) ∷ [])
    → Reached (version first_state.guard e.doc_id) e.version
unfolding runs
Reached-all e m =
    All-Elem (λ c. Reached (version first_state.guard c.doc_id) c.version) (omega arith, tt) m

to_apply_sound_example :
    IsNewest batch (doc_of "a" op_upsert (pos 2))
    × (should_apply first_state.guard "a" (pos 2) ≡ true)
to_apply_sound_example =
    to_apply_sound as_visited as_visited-AreRanges first_state.guard batch
      (doc_of "a" op_upsert (pos 2)) (rw to_apply_test (head refl))

to_apply_complete_example :
    ((d : CanonicalDoc) × Elem d (to_apply as_visited first_state.guard batch)
      × (d.doc_id ≡ "a")
      × (pos 1 ≤ℤ d.version))
    ⊎ Reached (version first_state.guard "a") (pos 1)
to_apply_complete_example =
    to_apply_complete as_visited as_visited-AreRanges first_state.guard batch
      (doc_of "a" op_upsert (pos 1)) (head refl)

-- One document took effect, the other was stale.
abbrev mixed : List Item
mixed = (201 ∷ []) ∷ (409 ∷ []) ∷ []

bulk_result-mixed : bulk_result sent (some mixed) ≡ applied (("a", true) ∷ [])
unfolding runs
bulk_result-mixed = refl

bulk_result-applied_example :
    (is_tolerable sent mixed ≡ true)
    × ((k : String) → is_applied (("a", true) ∷ []) k ≡ reported k sent mixed)
bulk_result-applied_example = bulk_result-applied sent mixed (("a", true) ∷ []) bulk_result-mixed
