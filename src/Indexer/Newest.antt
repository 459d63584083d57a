-- ===== src/Indexer/Newest.antt =====
-- Step 1 of `apply`: which documents of a batch are written.
use mathlib.Core.List.{Permᴰ}
use mathlib.Core.List.Permᴰ
use search_and_retrieval_sys.Prelude.{
  String, true, ◌≡◌, sym, subst, ◌⊎◌, inl, inr, List, [], ◌∷◌, Elem, Elem-cons, Elem-perm, head,
  tail, Bool-cases,
}
use search_and_retrieval_sys.Prelude.Int.{◌≤ℤ◌}
use search_and_retrieval_sys.Contract.{CanonicalDoc}
use search_and_retrieval_sys.Idempotency.{Guard, should_apply, version}
use search_and_retrieval_sys.Idempotency.Watermark.{Reached, Reached-below, Reached-of_skipped}
use search_and_retrieval_sys.Indexer.{newest_by_doc, values, due, Ranges, to_apply}
pub use search_and_retrieval_sys.Indexer.Picks.{IsNewest}
use search_and_retrieval_sys.Indexer.Picks.{newest_by_doc-IsNewest, newest_by_doc-covers}

due-Elem :
    (g : Guard) (docs : List CanonicalDoc) (d : CanonicalDoc)
    → Elem d (due g docs)
    → Elem d docs × (should_apply g d.doc_id d.version ≡ true)
unfolding due
due-Elem g [] d m = elim m [ ]
due-Elem g (c ∷ docs) d m = elim (Bool-cases (should_apply g c.doc_id c.version)) [
  | inl fresh ↦ elim (Elem-cons (rw fresh at m)) [
    | inl e ↦ (head e, subst (λ x. should_apply g x.doc_id x.version ≡ true) e fresh)
    | inr r ↦ let (mem, fresh_d) = due-Elem g docs d r in (tail mem, fresh_d)
  ]
  | inr old ↦ let (mem, fresh_d) = due-Elem g docs d (rw old at m) in (tail mem, fresh_d)
]

due-covers :
    (g : Guard) (docs : List CanonicalDoc) (d : CanonicalDoc)
    → Elem d docs
    → Elem d (due g docs) ⊎ Reached (version g d.doc_id) d.version
unfolding due
due-covers g [] d m = elim m [ ]
due-covers g (c ∷ docs) d (head e) = elim (Bool-cases (should_apply g c.doc_id c.version)) [
  | inl fresh ↦ rw fresh (inl (head e))
  | inr old ↦ inr (
      subst (λ x. Reached (version g x.doc_id) x.version) e
        (Reached-of_skipped g c.doc_id c.version old))
]
due-covers g (c ∷ docs) d (tail m) = elim (due-covers g docs d m) [
  | inl r ↦ elim (Bool-cases (should_apply g c.doc_id c.version)) [
    | inl fresh ↦ rw fresh (inl (tail r))
    | inr old ↦ rw old (inl r)
  ]
  | inr reached ↦ inr reached
]

-- The orders of the `range` loops visit what the maps hold, each entry once.
pub record AreRanges (r : Ranges) : Type 0 where
  pub docs : (l : List CanonicalDoc) → Permᴰ (r.docs l) l
  pub tenants : (l : List String) → Permᴰ (r.tenants l) l

module _ (ranges : Ranges) (fair : AreRanges ranges) (g : Guard) (docs : List CanonicalDoc) where
  -- What `apply` sends out is the newest version of a document in its batch, and newer than what
  -- the guard has stored.
  pub to_apply_sound :
      (d : CanonicalDoc)
      → Elem d (to_apply ranges g docs)
      → IsNewest docs d × (should_apply g d.doc_id d.version ≡ true)
  unfolding to_apply
  to_apply_sound d m =
      let (visited, fresh) = due-Elem g (ranges.docs (values (newest_by_doc docs))) d m in
      (newest_by_doc-IsNewest docs d (Elem-perm (fair.docs _) visited), fresh)

  -- Each document of a batch is sent out, in its newest version, or the guard has stored a version
  -- that is at least as new.
  pub to_apply_complete :
      (e : CanonicalDoc)
      → Elem e docs
      → ((d : CanonicalDoc) × Elem d (to_apply ranges g docs)
          × (d.doc_id ≡ e.doc_id)
          × (e.version ≤ℤ d.version))
        ⊎ Reached (version g e.doc_id) e.version
  unfolding to_apply
  to_apply_complete e m =
      let (d, held, same) = newest_by_doc-covers docs e m in
      let newest = (newest_by_doc-IsNewest docs d held).newest e m (sym same) in
      elim (due-covers g (ranges.docs (values (newest_by_doc docs))) d
        (Elem-perm (Permᴰ.symm (fair.docs _)) held)) [
          | inl sent ↦ inl (d, sent, same, newest)
          | inr reached ↦ inr (
              Reached-below (version g e.doc_id) e.version d.version newest
                (subst (λ k. Reached (version g k) d.version) same reached))
        ]
