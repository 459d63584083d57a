-- ===== src/OpenSearch/Bulk.antt =====
-- Which documents a bulk response reports as applied, and when it is an error.
use search_and_retrieval_sys.Prelude.{
  ℕ, String, Bool, true, false, ◌&&◌, ◌||◌, ltb, eqb, ◌≡◌, refl, ◌⊎◌, inl, inr, List, [], ◌∷◌, map,
  arith, some, ◌==◌, Bool-cases,
}
use search_and_retrieval_sys.Prelude.Maps.{Map, lookup, insert, lookup-insert}
use search_and_retrieval_sys.Contract.{CanonicalDoc, op_delete}
use search_and_retrieval_sys.OpenSearch.{
  Item, BulkResult, BulkError, applied, failed, collect_item, collect, bulk_result, line,
  is_applied,
}

-- The status says that the document's action took effect: a success, or nothing to delete.
abbrev pub accepts : CanonicalDoc → ℕ → Bool
accepts d status = ltb status 300 || (eqb status 404 && d.op == op_delete)

-- The status is no hard error: the action took effect, or the document was stale (409).
abbrev pub tolerates : CanonicalDoc → ℕ → Bool
tolerates d status = accepts d status || eqb status 409

abbrev pub any_accepts : CanonicalDoc → Item → Bool
any_accepts d [] = false
any_accepts d (status ∷ rest) = accepts d status || any_accepts d rest

abbrev pub all_tolerate : CanonicalDoc → Item → Bool
all_tolerate d [] = true
all_tolerate d (status ∷ rest) = tolerates d status && all_tolerate d rest

-- The document with this id was sent, and its item reports an effect.
abbrev pub reported : String → List CanonicalDoc → List Item → Bool
reported k [] items = false
reported k (d ∷ docs) [] = false
reported k (d ∷ docs) (item ∷ items) =
    (d.doc_id == k && any_accepts d item) || reported k docs items

-- No item that belongs to a document reports a hard error.
abbrev pub is_tolerable : List CanonicalDoc → List Item → Bool
is_tolerable [] items = true
is_tolerable (d ∷ docs) [] = true
is_tolerable (d ∷ docs) (item ∷ items) = all_tolerate d item && is_tolerable docs items

is_applied-empty : (k : String) → is_applied [] k ≡ false
unfolding is_applied lookup
is_applied-empty k = refl

is_applied-insert :
    (k j : String) (done : Map Bool)
    → is_applied (insert k true done) j ≡ (k == j || is_applied done j)
unfolding is_applied
is_applied-insert k j done = rw lookup-insert (ground arith)

module _ (done' : Map Bool) (d : CanonicalDoc) where
  collect_item-tolerates :
      (done : Map Bool) (item : Item)
      → collect_item done (line d) item ≡ applied done'
      → all_tolerate d item ≡ true
  unfolding collect_item line
  collect_item-tolerates done [] h = refl
  collect_item-tolerates done (status ∷ rest) h = ground (
    arith,
    collect_item-tolerates done rest,
    collect_item-tolerates (insert d.doc_id true done) rest,
  )

  collect_item-is_applied :
      (k : String) (done : Map Bool) (item : Item)
      → collect_item done (line d) item ≡ applied done'
      → is_applied done' k ≡ ((d.doc_id == k && any_accepts d item) || is_applied done k)
  unfolding collect_item line
  collect_item-is_applied k done [] h = ground arith
  collect_item-is_applied k done (status ∷ rest) h = ground (
    arith,
    collect_item-is_applied k done rest,
    collect_item-is_applied k (insert d.doc_id true done) rest,
    is_applied-insert d.doc_id k done,
  )

collect_item_total :
    (done : Map Bool) (d : CanonicalDoc) (item : Item)
    → all_tolerate d item ≡ true
    → (done' : Map Bool) × (collect_item done (line d) item ≡ applied done')
unfolding collect_item line
collect_item_total done d [] h = (done, refl)
collect_item_total done d (status ∷ rest) h = elim (Bool-cases (accepts d status)) [
  | inl yes_status ↦
      let (done', e) = collect_item_total (insert d.doc_id true done) d rest (ground arith) in
      (done', ground arith)
  | inr no_status ↦
      let (done', e) = collect_item_total done d rest (ground arith) in (done', ground arith)
]

collect_item-cases :
    (r : BulkResult) → ((done : Map Bool) × (r ≡ applied done)) ⊎ ((e : BulkError) × (r ≡ failed e))
collect_item-cases (applied done) = inl (done, refl)
collect_item-cases (failed e) = inr (e, refl)

collect-is_tolerable :
    (done done' : Map Bool) (docs : List CanonicalDoc) (items : List Item)
    → collect done (map line docs) items ≡ applied done'
    → is_tolerable docs items ≡ true
unfolding collect
collect-is_tolerable done done' [] [] h = refl
collect-is_tolerable done done' [] (item ∷ items) h = refl
collect-is_tolerable done done' (d ∷ docs) [] h = refl
collect-is_tolerable done done' (d ∷ docs) (item ∷ items) h =
    elim (collect_item-cases (collect_item done (line d) item)) [
      | inl (done₁, e) ↦ ground (
        arith,
        collect_item-tolerates done₁ d done item e,
        collect-is_tolerable done₁ done' docs items (rw (e, collect) at h),
      )
      | inr (e, bad) ↦ absurd (ground arith)
    ]

collect-is_applied :
    (k : String) (done done' : Map Bool) (docs : List CanonicalDoc) (items : List Item)
    → collect done (map line docs) items ≡ applied done'
    → is_applied done' k ≡ (reported k docs items || is_applied done k)
unfolding collect
collect-is_applied k done done' [] [] h = ground arith
collect-is_applied k done done' [] (item ∷ items) h = ground arith
collect-is_applied k done done' (d ∷ docs) [] h = ground arith
collect-is_applied k done done' (d ∷ docs) (item ∷ items) h =
    elim (collect_item-cases (collect_item done (line d) item)) [
      | inl (done₁, e) ↦ ground (
        arith,
        collect_item-is_applied done₁ d k done item e,
        collect-is_applied k done₁ done' docs items (rw (e, collect) at h),
      )
      | inr (e, bad) ↦ absurd (ground arith)
    ]

collect_total :
    (done : Map Bool) (docs : List CanonicalDoc) (items : List Item)
    → is_tolerable docs items ≡ true
    → (done' : Map Bool) × (collect done (map line docs) items ≡ applied done')
unfolding collect
collect_total done [] [] h = (done, refl)
collect_total done [] (item ∷ items) h = (done, refl)
collect_total done (d ∷ docs) [] h = (done, refl)
collect_total done (d ∷ docs) (item ∷ items) h =
    let (done₁, e) = collect_item_total done d item (ground arith) in
    let (done', f) = collect_total done₁ docs items (ground arith) in (done', rw (e, collect) f)

-- `Bulk` returns exactly the documents whose item reports an effect (a success, or a delete that
-- found nothing), so no stale one, and only if no item is a hard error.
pub bulk_result-applied :
    (docs : List CanonicalDoc) (items : List Item) (done : Map Bool)
    → bulk_result docs (some items) ≡ applied done
    → (is_tolerable docs items ≡ true) × ((k : String) → is_applied done k ≡ reported k docs items)
unfolding bulk_result
bulk_result-applied docs items done h = (
  collect-is_tolerable [] done docs items h,
  λ k. ground (arith, collect-is_applied k [] done docs items h, is_applied-empty k),
)

-- `Bulk` succeeds on every answer in which no item of a document is a hard error.
pub bulk_result_total :
    (docs : List CanonicalDoc) (items : List Item)
    → is_tolerable docs items ≡ true
    → (done : Map Bool) × (bulk_result docs (some items) ≡ applied done)
unfolding bulk_result
bulk_result_total docs items h = collect_total [] docs items h
