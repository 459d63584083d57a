-- ===== src/Indexer.antt =====
-- cmd/indexer/main.go: `apply` and `toDLQ`. Every call that leaves the process is a `Call` in a
-- history, and the outside answers a call from the history before it. `order` is the order in
-- which a `range` visits a map. Vectors are abstract; traces, metrics and logs are left out.
pub mod Picks
pub mod Newest
pub mod Steps
pub mod Adds
pub mod Calls
pub mod Commits
pub mod Replay
pub mod Settled
use search_and_retrieval_sys.Prelude.{
  String, Bool, true, false, ◌==◌, Option, none, some, List, [], ◌∷◌, ◌++◌, map, if◌then◌else◌,
}
use search_and_retrieval_sys.Prelude.Int.{ℤ, ltb_ℤ}
use search_and_retrieval_sys.Prelude.Text.{decimal}
use search_and_retrieval_sys.Prelude.Maps.{Map, lookup, insert}
pub use search_and_retrieval_sys.Prelude.Maps.{keys}
use search_and_retrieval_sys.Contract.{CanonicalDoc, op_delete, text, point_id}
use search_and_retrieval_sys.Idempotency.{Guard, should_apply, commit}
use search_and_retrieval_sys.OpenSearch.{
  Action, Item, BulkResult, applied, failed, action, bulk_result, is_applied,
}

pub record Payload : Type 0 where
  pub doc_id : String
  pub source : String
  pub tenant_id : ℤ
  pub category : String
  pub version : ℤ
  pub model_version : String

-- `qdrant.Point`
pub record Point (Vector : Type 0) : Type 0 where
  pub id : String
  pub vector : Vector
  pub payload : Payload

-- A call of another process: the `_bulk` request, the embedding, the two writes of Qdrant, and
-- the increment of a cache generation.
pub data Call (Vector : Type 0) : Type 0 where
  bulk : List Action → Call Vector
  embed : List String → Call Vector
  upsert : List (Point Vector) → Call Vector
  delete_by_doc_ids : List String → Call Vector
  bump_generation : String → Call Vector

abbrev pub History : Type 0 → Type 0
History Vector = List (Call Vector)

-- How the other processes answer, and the SHA-1 of the point ids. The history has the latest call
-- at its head; `none` and `false` are errors.
pub record Outside (Vector : Type 0) : Type 0 where
  pub bulk_answer : History Vector → List Action → Option (List Item)
  pub embed_answer : History Vector → List String → Option (List Vector × String)
  pub upsert_answer : History Vector → List (Point Vector) → Bool
  pub delete_answer : History Vector → List String → Bool
  pub new_sha1 : String → String

pub record State (Vector : Type 0) : Type 0 where
  pub guard : Guard
  pub calls : History Vector

-- A value, an error, or the panic of an index out of range.
pub data Result (A : Type 0) : Type 0 where
  ok : A → Result A
  error : Result A
  panic : Result A

abbrev pub M : Type 0 → Type 0 → Type 0
M Vector A = State Vector → Result A × State Vector

abbrev pub continue : {Vector A B : Type 0} → Result A → (A → M Vector B) → M Vector B
continue (ok a) f s = f a s
continue error f s = (error, s)
continue panic f s = (panic, s)

infixl 5 ◌>>=◌ ◌>>◌
abbrev pub ◌>>=◌ : {Vector A B : Type 0} → M Vector A → (A → M Vector B) → M Vector B
◌>>=◌ m f s = let (r, s') = m s in continue r f s'

abbrev pub ◌>>◌ : {Vector B : Type 0} → M Vector (Unit {0}) → M Vector B → M Vector B
m >> k = m >>= λ _. k

-- 1) The newest version of each document of the batch; the first of equal versions stays.
abbrev newer : CanonicalDoc → Option CanonicalDoc → Bool
newer d none = true
newer d (some cur) = ltb_ℤ cur.version d.version

unfoldable pub newest_from : Map CanonicalDoc → List CanonicalDoc → Map CanonicalDoc
newest_from m [] = m
newest_from m (d ∷ docs) =
    newest_from (if newer d (lookup d.doc_id m) then insert d.doc_id d m else m) docs

unfoldable pub newest_by_doc : List CanonicalDoc → Map CanonicalDoc
unfolding newest_from
newest_by_doc docs = newest_from [] docs

-- The values of a map, in the order of its entries.
abbrev pub values {ℓ} : {V : Type ℓ} → Map V → List V
values [] = []
values ((k, v) ∷ m) = v ∷ values m

-- The orders in which the two `range` loops of `apply` visit their maps.
pub record Ranges : Type 0 where
  pub docs : List CanonicalDoc → List CanonicalDoc
  pub tenants : List String → List String

unfoldable pub due : Guard → List CanonicalDoc → List CanonicalDoc
due g [] = []
due g (d ∷ docs) =
    let rest = due g docs in if should_apply g d.doc_id d.version then d ∷ rest else rest

-- The documents of a batch that are due: the newest of each, if its version is newer than stored.
unfoldable pub to_apply : Ranges → Guard → List CanonicalDoc → List CanonicalDoc
to_apply ranges g docs = due g (ranges.docs (values (newest_by_doc docs)))

-- 3) The documents that OpenSearch applied, split into upserts and deletes.
unfoldable pub upserts_of : Map Bool → List CanonicalDoc → List CanonicalDoc
upserts_of written [] = []
upserts_of written (d ∷ docs) =
    let rest = upserts_of written docs in
    if is_applied written d.doc_id then (if d.op == op_delete then rest else d ∷ rest) else rest

unfoldable pub deletes_of : Map Bool → List CanonicalDoc → List String
deletes_of written [] = []
deletes_of written (d ∷ docs) =
    let rest = deletes_of written docs in
    if is_applied written d.doc_id
    then (if d.op == op_delete then d.doc_id ∷ rest else rest)
    else rest

-- 4) `Commit` and the changed tenants, over the applied documents.
unfoldable pub commit_applied : Map Bool → Guard → List CanonicalDoc → Guard
commit_applied written g [] = g
commit_applied written g (d ∷ docs) =
    commit_applied written (if is_applied written d.doc_id then commit g d.doc_id d.version else g)
      docs

unfoldable pub tenants_changed : Map Bool → Map (Unit {0}) → List CanonicalDoc → Map (Unit {0})
tenants_changed written m [] = m
tenants_changed written m (d ∷ docs) =
    tenants_changed written
      (if is_applied written d.doc_id then insert (decimal d.tenant_id) tt m else m) docs

module _ {Vector : Type 0} where
  abbrev pub called : Call Vector → State Vector → State Vector
  called c s = record s { calls = c ∷ s.calls }

  abbrev point : Outside Vector → String → CanonicalDoc → Vector → Point Vector
  point out model_version d v = record {
    id = point_id out.new_sha1 d;
    vector = v;
    payload = record {
      doc_id = d.doc_id;
      source = d.source;
      tenant_id = d.tenant_id;
      category = d.metadata.category;
      version = d.version;
      model_version = model_version;
    };
  }

  -- `none` is the panic of `vecs[i]` where there are fewer vectors than upserts.
  unfoldable pub points_of :
      Outside Vector → String → List CanonicalDoc → List Vector → Option (List (Point Vector))
  points_of out mv [] vecs = some []
  points_of out mv (d ∷ docs) [] = none
  points_of out mv (d ∷ docs) (v ∷ vecs) = elim (points_of out mv docs vecs) [
    | none ↦ none
    | some points ↦ some (point out mv d v ∷ points)
  ]

  -- 2) `Bulk` of internal/opensearch.
  unfoldable pub bulk_docs : Outside Vector → List CanonicalDoc → M Vector (Map Bool)
  bulk_docs out docs s =
      let request = map action docs in
      (
        elim (bulk_result docs (out.bulk_answer s.calls request)) [
          | applied written ↦ ok written
          | failed e ↦ error
        ],
        called (bulk request) s,
      )

  -- The embedding of the upserts, if there are any, and their points.
  unfoldable pub embed_upserts : Outside Vector → List CanonicalDoc → M Vector (List (Point Vector))
  unfolding points_of
  embed_upserts out [] s = (ok [], s)
  embed_upserts out (d ∷ docs) s =
      let texts = map text (d ∷ docs) in
      (
        elim (out.embed_answer s.calls texts) [
          | none ↦ error
          | some (vecs, model_version) ↦ elim (points_of out model_version (d ∷ docs) vecs) [
            | none ↦ panic
            | some points ↦ ok points
          ]
        ],
        called (embed texts) s,
      )

  -- `Upsert` and `DeleteByDocIDs` of internal/qdrant; neither is called with nothing to write.
  unfoldable pub upsert_points : Outside Vector → List (Point Vector) → M Vector (Unit {0})
  upsert_points out [] s = (ok tt, s)
  upsert_points out (p ∷ points) s = (
    if out.upsert_answer s.calls (p ∷ points) then ok tt else error,
    called (upsert (p ∷ points)) s,
  )

  unfoldable pub delete_docs : Outside Vector → List String → M Vector (Unit {0})
  delete_docs out [] s = (ok tt, s)
  delete_docs out (id ∷ ids) s = (
    if out.delete_answer s.calls (id ∷ ids) then ok tt else error,
    called (delete_by_doc_ids (id ∷ ids)) s,
  )

  -- 5) `BumpGeneration` of each changed tenant; its error is ignored.
  unfoldable pub bump_all : List String → History Vector → History Vector
  bump_all [] h = h
  bump_all (tenant ∷ tenants) h = bump_all tenants (bump_generation tenant ∷ h)

  -- 4) and 5), which cannot fail.
  unfoldable pub finish : Ranges → Map Bool → List CanonicalDoc → M Vector (Unit {0})
  unfolding commit_applied tenants_changed bump_all
  finish ranges written docs s = (
    ok tt,
    record {
      guard = commit_applied written s.guard docs;
      calls = bump_all (ranges.tenants (keys (tenants_changed written [] docs))) s.calls;
    },
  )

  -- The parts of `apply` behind the embedding, behind the bulk write, and the whole.
  unfoldable pub write_qdrant :
      Outside Vector
      → Ranges
      → List CanonicalDoc
      → Map Bool
      → List (Point Vector)
      → M Vector (Unit {0})
  write_qdrant out ranges docs written points = do
    upsert_points out points
    delete_docs out (deletes_of written docs)
    finish ranges written docs

  unfoldable pub embed_and_write :
      Outside Vector → Ranges → List CanonicalDoc → Map Bool → M Vector (Unit {0})
  embed_and_write out ranges docs written = do
    points ← embed_upserts out (upserts_of written docs)
    write_qdrant out ranges docs written points

  unfoldable pub apply_due : Outside Vector → Ranges → List CanonicalDoc → M Vector (Unit {0})
  apply_due out ranges docs = do
    written ← bulk_docs out docs
    embed_and_write out ranges docs written

  -- `if len(toApply) == 0 { return nil }`
  unfoldable pub apply_some : Outside Vector → Ranges → List CanonicalDoc → M Vector (Unit {0})
  apply_some out ranges [] s = (ok tt, s)
  apply_some out ranges (d ∷ docs) s = apply_due out ranges (d ∷ docs) s

  unfoldable pub apply : Outside Vector → Ranges → List CanonicalDoc → M Vector (Unit {0})
  unfolding apply_some
  apply out ranges docs s = apply_some out ranges (to_apply ranges s.guard docs) s
