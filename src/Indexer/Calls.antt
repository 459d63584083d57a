-- ===== src/Indexer/Calls.antt =====
-- Which calls `apply` makes of other processes, however it ends.
use mathlib.Core.List.Permᴰ
use mathlib.Core.Option.{some-injective}
use mathlib.Core.Bool.{false≢true}
use search_and_retrieval_sys.Prelude.{
  String, Bool, true, ◌≡◌, ◌≢◌, refl, ap, ◌∙◌, ◌⊎◌, sym, subst, some, List, [], ◌∷◌, ◌++◌, map,
  arith, Option-cases, inl, inr, Elem, All, All-self, All-perm, eq_iff,
}
use search_and_retrieval_sys.Prelude.Maps.{Map}
use search_and_retrieval_sys.Prelude.Text.{decimal}
use search_and_retrieval_sys.Contract.{CanonicalDoc, op_delete, text, point_id}
use search_and_retrieval_sys.OpenSearch.{Item, action, is_applied}
use search_and_retrieval_sys.OpenSearch.Bulk.{reported, bulk_result-applied}
use search_and_retrieval_sys.Indexer.{
  Outside, State, History, Result, ok, error, panic, continue, ◌>>◌, Ranges, Call, bulk, embed,
  upsert, delete_by_doc_ids, bump_generation, Point, point, points_of, upserts_of, deletes_of,
  bulk_docs, embed_upserts, upsert_points, delete_docs, finish, write_qdrant, embed_and_write,
  apply_due, apply_some, apply, to_apply,
}
use search_and_retrieval_sys.Indexer.Newest.{AreRanges}
use search_and_retrieval_sys.Indexer.Steps.{bulk_docs-ok}
use search_and_retrieval_sys.Indexer.Adds.{
  AddsAt, bind-AddsAt, bump_all-AddsAt, upserts_of-All, deletes_of-All, tenants_changed-All,
}

module _ {Vector : Type 0} (out : Outside Vector) (docs : List CanonicalDoc)
    (s : State Vector) where
  -- `d` is a document of the batch, and OpenSearch reported an effect for its id.
  pub record IsEffective (d : CanonicalDoc) : Type 0 where
    pub sent : Elem d docs
    pub items : List Item
    pub answered : out.bulk_answer s.calls (map action docs) ≡ some items
    pub effect : reported d.doc_id docs items ≡ true

  -- The point of an upsert that took effect.
  pub record IsPointOf (p : Point Vector) : Type 0 where
    pub doc : CanonicalDoc
    pub effective : IsEffective doc
    pub upserts : doc.op ≢ op_delete
    pub id : p.id ≡ point_id out.new_sha1 doc
    pub doc_id : p.payload.doc_id ≡ doc.doc_id
    pub version : p.payload.version ≡ doc.version
    pub tenant_id : p.payload.tenant_id ≡ doc.tenant_id

  -- What a call behind the bulk write may say: it is about documents for which OpenSearch reported an
  -- effect, and it is no second bulk write.
  abbrev pub IsAllowed : Call Vector → Type 0
  IsAllowed (bulk actions) = ⊥
  IsAllowed (embed texts) =
      All (λ t. (d : CanonicalDoc) × IsEffective d × (d.op ≢ op_delete) × (t ≡ text d)) texts
  IsAllowed (upsert points) = All IsPointOf points
  IsAllowed (delete_by_doc_ids ids) =
      All (λ i. (d : CanonicalDoc) × IsEffective d × (d.op ≡ op_delete) × (i ≡ d.doc_id)) ids
  IsAllowed (bump_generation tenant) =
      (d : CanonicalDoc) × IsEffective d × (tenant ≡ decimal d.tenant_id)

  -- An upsert that took effect.
  abbrev IsUpsert : CanonicalDoc → Type 0
  IsUpsert d = IsEffective d × (d.op ≢ op_delete)

  points_of-All :
      (mv : String) (ds : List CanonicalDoc) (vecs : List Vector) (points : List (Point Vector))
      → All IsUpsert ds
      → points_of out mv ds vecs ≡ some points
      → All IsPointOf points
  unfolding points_of
  points_of-All mv [] vecs points u h = subst (All IsPointOf) (some-injective _ points h) tt
  points_of-All mv (d ∷ ds) [] points u h = absurd (cc)
  points_of-All mv (d ∷ ds) (v ∷ vecs) points (u, us) h =
      elim (Option-cases (points_of out mv ds vecs)) [
        | inl short ↦ absurd (ground arith)
        | inr (rest, e) ↦
            subst (All IsPointOf) (some-injective (point out mv d v ∷ rest) points (ground arith)) (
              record {
                doc = d;
                effective = u.0;
                upserts = u.1;
                id = refl;
                doc_id = refl;
                version = refl;
                tenant_id = refl;
              },
              points_of-All mv ds vecs rest us e,
            )
      ]

  texts-All :
      (ds : List CanonicalDoc)
      → All IsUpsert ds
      → All
          (λ t. (d : CanonicalDoc) × IsEffective d × (d.op ≢ op_delete) × (t ≡ text d))
          (map text ds)
  texts-All [] u = tt
  texts-All (d ∷ ds) (u, us) = ((d, u.0, u.1, refl), texts-All ds us)

  -- The state behind a call may be any: the facts are about the start of `apply`.
  embed_upserts-AddsAt :
      (ds : List CanonicalDoc) (t : State Vector)
      → All IsUpsert ds
      → AddsAt IsAllowed (embed_upserts out ds) t
  unfolding embed_upserts
  embed_upserts-AddsAt [] t u = ([], refl, tt)
  embed_upserts-AddsAt (d ∷ ds) t u =
      (embed (map text (d ∷ ds)) ∷ [], refl, (texts-All (d ∷ ds) u, tt))

  embed_upserts-points :
      (ds : List CanonicalDoc) (t : State Vector) (points : List (Point Vector))
      → All IsUpsert ds
      → (embed_upserts out ds t).0 ≡ ok points
      → All IsPointOf points
  unfolding embed_upserts
  embed_upserts-points [] t points u h =
      let same : [] ≡ points = cc in subst (All IsPointOf) same tt
  embed_upserts-points (d ∷ ds) t points u h =
      elim (Option-cases (out.embed_answer t.calls (map text (d ∷ ds)))) [
        | inl failed ↦ absurd (ground arith)
        | inr ((vecs, mv), answered) ↦ elim (Option-cases (points_of out mv (d ∷ ds) vecs)) [
          | inl short ↦ absurd (ground arith)
          | inr (ps, e) ↦
              let same : ps ≡ points = ground arith in
              subst (All IsPointOf) same (points_of-All mv (d ∷ ds) vecs ps u e)
        ]
      ]

  upsert_points-AddsAt :
      (points : List (Point Vector)) (t : State Vector)
      → All IsPointOf points
      → AddsAt IsAllowed (upsert_points out points) t
  unfolding upsert_points
  upsert_points-AddsAt [] t h = ([], refl, tt)
  upsert_points-AddsAt (p ∷ points) t h = (upsert (p ∷ points) ∷ [], refl, (h, tt))

  delete_docs-AddsAt :
      (ids : List String) (t : State Vector)
      → All (λ i. (d : CanonicalDoc) × IsEffective d × (d.op ≡ op_delete) × (i ≡ d.doc_id)) ids
      → AddsAt IsAllowed (delete_docs out ids) t
  unfolding delete_docs
  delete_docs-AddsAt [] t h = ([], refl, tt)
  delete_docs-AddsAt (id ∷ ids) t h = (delete_by_doc_ids (id ∷ ids) ∷ [], refl, (h, tt))

  module _ (ranges : Ranges) (fair : AreRanges ranges) (written : Map Bool)
      (effective : (d : CanonicalDoc)
        → Elem d docs
        → is_applied written d.doc_id ≡ true
        → IsEffective d) where
    upserts-IsUpsert : All IsUpsert (upserts_of written docs)
    upserts-IsUpsert =
        upserts_of-All written IsUpsert
          (λ d m a n. (effective d m a, λ e. false≢true (sym n ∙ (eq_iff d.op op_delete).1 e))) docs
          (All-self docs)

    finish-AddsAt : (t : State Vector) → AddsAt IsAllowed (finish ranges written docs) t
    unfolding finish
    finish-AddsAt t = bump_all-AddsAt IsAllowed _ t.calls (
        All-perm (λ k. IsAllowed (bump_generation k)) (Permᴰ.symm (fair.tenants _))
          (tenants_changed-All written (λ k. IsAllowed (bump_generation k))
            (λ d m a. (d, effective d m a, refl)) docs [] (All-self docs) tt))

    write_qdrant-AddsAt :
        (points : List (Point Vector)) (t : State Vector)
        → All IsPointOf points
        → AddsAt IsAllowed (write_qdrant out ranges docs written points) t
    unfolding write_qdrant
    write_qdrant-AddsAt points t p =
        bind-AddsAt IsAllowed (upsert_points out points)
          (λ _. delete_docs out (deletes_of written docs) >> finish ranges written docs) t
          (upsert_points-AddsAt points t p)
          λ _ _.
            bind-AddsAt IsAllowed (delete_docs out (deletes_of written docs))
              (λ _. finish ranges written docs) _
              (delete_docs-AddsAt (deletes_of written docs) _ deletes) λ _ _. finish-AddsAt _
      where
        deletes :
            All
              (λ i. (d : CanonicalDoc) × IsEffective d × (d.op ≡ op_delete) × (i ≡ d.doc_id))
              (deletes_of written docs)
        deletes =
            deletes_of-All written
              (λ i. (d : CanonicalDoc) × IsEffective d × (d.op ≡ op_delete) × (i ≡ d.doc_id))
              (λ d m a y. (d, effective d m a, (eq_iff d.op op_delete).0 y, refl)) docs
              (All-self docs)

    embed_and_write-AddsAt :
        (t : State Vector) → AddsAt IsAllowed (embed_and_write out ranges docs written) t
    unfolding embed_and_write
    embed_and_write-AddsAt t =
        bind-AddsAt IsAllowed (embed_upserts out (upserts_of written docs))
          (write_qdrant out ranges docs written) t
          (embed_upserts-AddsAt (upserts_of written docs) t upserts-IsUpsert)
          λ points e.
            write_qdrant-AddsAt points _
              (embed_upserts-points (upserts_of written docs) t points upserts-IsUpsert e)

module _ {Vector : Type 0} (out : Outside Vector) (ranges : Ranges) (fair : AreRanges ranges) where
  -- The bulk write of the documents comes first, and what may follow it follows.
  abbrev pub Writes : State Vector → List CanonicalDoc → State Vector → Type 0
  Writes s docs t =
      (later : History Vector) × (t.calls ≡ later ++ bulk (map action docs) ∷ s.calls)
      × All (IsAllowed out docs s) later

  continue-Writes :
      (docs : List CanonicalDoc) (s t : State Vector) (r : Result (Map Bool))
      → t.calls ≡ bulk (map action docs) ∷ s.calls
      → ((written : Map Bool)
          → r ≡ ok written
          → AddsAt (IsAllowed out docs s) (embed_and_write out ranges docs written) t)
      → Writes s docs (continue r (embed_and_write out ranges docs) t).1
  continue-Writes docs s t error e later = ([], e, tt)
  continue-Writes docs s t panic e later = ([], e, tt)
  continue-Writes docs s t (ok written) e later =
      let (new, f, p) = later written refl in (new, f ∙ ap (λ (h : History Vector). new ++ h) e, p)

  apply_due-Writes :
      (docs : List CanonicalDoc) (s : State Vector) → Writes s docs (apply_due out ranges docs s).1
  unfolding apply_due
  apply_due-Writes docs s =
      continue-Writes docs s (bulk_docs out docs s).1 (bulk_docs out docs s).0
        (unfold bulk_docs in refl)
        λ written e.
          let (items, answered, collected) = bulk_docs-ok out s docs written e in
          let (_, spec) = bulk_result-applied docs items written collected in
          embed_and_write-AddsAt out docs s ranges fair written
            (λ d m a. record {
              sent = m;
              items = items;
              answered = answered;
              effect = sym (spec d.doc_id) ∙ a;
            })
            _

  apply_some-Writes :
      (docs : List CanonicalDoc) (s : State Vector)
      → ((docs ≡ []) × ((apply_some out ranges docs s).1.calls ≡ s.calls))
        ⊎ Writes s docs (apply_some out ranges docs s).1
  unfolding apply_some
  apply_some-Writes [] s = inl (refl, refl)
  apply_some-Writes (x ∷ docs) s = inr (apply_due-Writes (x ∷ docs) s)

  -- If range visits each entry of a map once, and however apply ends: where no document is due, it
  -- makes no call. Otherwise its first call is the bulk write of the due documents, no other of
  -- its calls is a bulk write, and each of them, to the embedder, Qdrant or the cache generations,
  -- is only about documents for which OpenSearch reported an effect.
  pub apply_calls :
      (docs : List CanonicalDoc) (s : State Vector)
      → ((to_apply ranges s.guard docs ≡ []) × ((apply out ranges docs s).1.calls ≡ s.calls))
        ⊎ Writes s (to_apply ranges s.guard docs) (apply out ranges docs s).1
  unfolding apply
  apply_calls docs s = apply_some-Writes (to_apply ranges s.guard docs) s
