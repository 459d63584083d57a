-- ===== src/Indexer/Replay.antt =====
-- A batch that comes again: after a success it changes nothing; after OpenSearch has taken it,
-- it is dropped, whether or not Qdrant has it.
use mathlib.Core.List.{Permᴰ}
use search_and_retrieval_sys.Prelude.{
  String, Bool, true, false, ◌≡◌, refl, ◌∙◌, subst, some, List, [], ◌∷◌, map, inl, inr, Elem,
  Elem-perm, head,
}
use search_and_retrieval_sys.Prelude.Maps.{Map}
use search_and_retrieval_sys.Contract.{CanonicalDoc}
use search_and_retrieval_sys.Idempotency.{Guard, version}
use search_and_retrieval_sys.Idempotency.Watermark.{Reached, should_apply_iff}
use search_and_retrieval_sys.OpenSearch.{Item, action, is_applied}
use search_and_retrieval_sys.OpenSearch.Bulk.{
  reported, bulk_result-applied, bulk_result_total, is_tolerable,
}
use search_and_retrieval_sys.Indexer.{
  Outside, State, ok, Ranges, finish, apply_due, apply_some, apply, to_apply, commit_applied,
  called, bulk, bulk_docs, embed_and_write, write_qdrant, embed_upserts, upsert_points, delete_docs,
  upserts_of, deletes_of, tenants_changed, bump_all,
}
use search_and_retrieval_sys.Indexer.Newest.{AreRanges, to_apply_sound}
use search_and_retrieval_sys.Indexer.Commits.{apply_settles, NotReported}

no_elements : {A : Type 0} (xs : List A) → ((a : A) → ¬ Elem a xs) → xs ≡ []
no_elements [] h = refl
no_elements (x ∷ xs) h = absurd (h x (head refl))

module _ {Vector : Type 0} (out : Outside Vector) (ranges : Ranges) (fair : AreRanges ranges) where
  -- Documents that the guard has reached are skipped: no process is called and nothing changes.
  apply-Reached :
      (docs : List CanonicalDoc) (s : State Vector)
      → ((e : CanonicalDoc) → Elem e docs → Reached (version s.guard e.doc_id) e.version)
      → apply out ranges docs s ≡ (ok tt, s)
  unfolding apply apply_some
  apply-Reached docs s reached = rw (no_elements (to_apply ranges s.guard docs) skipped)
    where
      skipped : (d : CanonicalDoc) → ¬ Elem d (to_apply ranges s.guard docs)
      skipped d m =
          let (newest, fresh) = to_apply_sound ranges fair s.guard docs d m in
          (should_apply_iff s.guard d.doc_id d.version).0 fresh (reached d newest.listed)

  -- Replay is idempotent: once a batch has succeeded, with no document of it reported without
  -- effect by OpenSearch, the same batch makes no call, changes nothing and succeeds.
  pub apply_replay :
      (docs : List CanonicalDoc) (s : State Vector)
      → (apply out ranges docs s).0 ≡ ok tt
      → ((e : CanonicalDoc)
          → Elem e docs
          → ¬ NotReported out ranges (to_apply ranges s.guard docs) s e.doc_id)
      → apply out ranges docs (apply out ranges docs s).1 ≡ (ok tt, (apply out ranges docs s).1)
  apply_replay docs s h all = apply-Reached docs (apply out ranges docs s).1 λ e m.
      elim (apply_settles out ranges fair docs s e h m) [
        | inl reached ↦ reached
        | inr stale ↦ absurd (all e m stale)
      ]

-- A write that took no effect anywhere.
abbrev Nowhere : Map Bool → Type 0
Nowhere written = (k : String) → is_applied written k ≡ false

module _ (written : Map Bool) (nowhere : Nowhere written) where
  upserts_of-nowhere : (docs : List CanonicalDoc) → upserts_of written docs ≡ []
  unfolding upserts_of
  upserts_of-nowhere [] = refl
  upserts_of-nowhere (d ∷ docs) = rw (nowhere d.doc_id) (upserts_of-nowhere docs)

  deletes_of-nowhere : (docs : List CanonicalDoc) → deletes_of written docs ≡ []
  unfolding deletes_of
  deletes_of-nowhere [] = refl
  deletes_of-nowhere (d ∷ docs) = rw (nowhere d.doc_id) (deletes_of-nowhere docs)

  commit_applied-nowhere :
      (g : Guard) (docs : List CanonicalDoc) → commit_applied written g docs ≡ g
  unfolding commit_applied
  commit_applied-nowhere g [] = refl
  commit_applied-nowhere g (d ∷ docs) = rw (nowhere d.doc_id) (commit_applied-nowhere g docs)

  tenants_changed-nowhere :
      (m : Map (Unit {0})) (docs : List CanonicalDoc) → tenants_changed written m docs ≡ m
  unfolding tenants_changed
  tenants_changed-nowhere m [] = refl
  tenants_changed-nowhere m (d ∷ docs) = rw (nowhere d.doc_id) (tenants_changed-nowhere m docs)

perm-nil : {A : Type 0} {xs ys : List A} → Permᴰ xs ys → ys ≡ [] → xs ≡ []
perm-nil {xs = xs} p e = no_elements xs (λ a m. nothing (subst (Elem a) e (Elem-perm p m)))
  where
    nothing : {A : Type 0} {a : A} → Elem a [] → ⊥
    nothing m = elim m [ ]

module _ {Vector : Type 0} (out : Outside Vector) (ranges : Ranges) (fair : AreRanges ranges) where
  apply_due-Nowhere :
      (docs : List CanonicalDoc) (s : State Vector) (written : Map Bool)
      → bulk_docs out docs s ≡ (ok written, called (bulk (map action docs)) s)
      → Nowhere written
      → apply_due out ranges docs s ≡ (ok tt, called (bulk (map action docs)) s)
  unfolding apply_due embed_and_write write_qdrant
  apply_due-Nowhere docs s written e nowhere =
      rw (e, upserts_of-nowhere written nowhere docs)
        (unfold embed_upserts upsert_points in
          rw (deletes_of-nowhere written nowhere docs) (
            unfold delete_docs finish bump_all in
            rw (
              commit_applied-nowhere written nowhere s.guard docs,
              tenants_changed-nowhere written nowhere [] docs,
              perm-nil (fair.tenants []) refl,
            )))

  -- A batch that OpenSearch reports as stale throughout is acknowledged: `apply` succeeds after the
  -- bulk call alone. Nothing is written to Qdrant, and the guard stays as it was.
  pub apply_stale :
      (docs : List CanonicalDoc) (s : State Vector) (items : List Item) (d : CanonicalDoc)
      (rest : List CanonicalDoc)
      → to_apply ranges s.guard docs ≡ d ∷ rest
      → out.bulk_answer s.calls (map action (d ∷ rest)) ≡ some items
      → is_tolerable (d ∷ rest) items ≡ true
      → ((k : String) → reported k (d ∷ rest) items ≡ false)
      → apply out ranges docs s ≡ (ok tt, called (bulk (map action (d ∷ rest))) s)
  unfolding apply apply_some
  apply_stale docs s items d rest sent answered tolerable stale =
      let (written, collected) = bulk_result_total (d ∷ rest) items tolerable in
      let spec = (bulk_result-applied (d ∷ rest) items written collected).1 in
      rw sent (
        apply_due-Nowhere (d ∷ rest) s written (unfold bulk_docs in rw (answered, collected))
          (λ k. spec k ∙ stale k))
