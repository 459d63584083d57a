-- ===== src/Indexer/Settled.antt =====
-- A document is settled: the guard has reached its version, or OpenSearch was sent its newest version
-- and reported no effect.
use search_and_retrieval_sys.Prelude.{
  ◌≡◌, ap, ◌∙◌, sym, subst, ◌⊎◌, inl, inr, List, [], ◌∷◌, ◌++◌, map, Elem,
}
use mathlib.Core.List.{append_assoc}
use search_and_retrieval_sys.Prelude.Int.{◌≤ℤ◌}
use search_and_retrieval_sys.Contract.{CanonicalDoc}
use search_and_retrieval_sys.Idempotency.{version}
use search_and_retrieval_sys.Idempotency.Watermark.{Reached, Reached-below}
use search_and_retrieval_sys.OpenSearch.{action}
use search_and_retrieval_sys.Indexer.{Outside, State, History, Ranges, ok, bulk, apply, to_apply}
use search_and_retrieval_sys.Indexer.Newest.{AreRanges, to_apply_complete}
use search_and_retrieval_sys.Indexer.Calls.{apply_calls}
use search_and_retrieval_sys.Indexer.Commits.{NotReported, apply_some-settles, apply-keeps}

module _ {Vector : Type 0} (out : Outside Vector) (ranges : Ranges) where
  -- Among the calls that were made is a bulk write of a version of the document that is at least as
  -- new, and OpenSearch answered it and reported no effect for the document.
  pub record IsRefused (calls : History Vector) (e : CanonicalDoc) : Type 0 where
    pub docs : List CanonicalDoc
    pub before : State Vector
    pub later : History Vector
    pub newest : CanonicalDoc
    pub sent : Elem newest docs
    pub same : newest.doc_id ≡ e.doc_id
    pub not_older : e.version ≤ℤ newest.version
    pub asked : calls ≡ later ++ bulk (map action docs) ∷ before.calls
    pub unreported : NotReported out ranges docs before e.doc_id

  abbrev pub IsSettled : State Vector → CanonicalDoc → Type 0
  IsSettled s e = Reached (version s.guard e.doc_id) e.version ⊎ IsRefused s.calls e

  IsRefused-later :
      (calls new : History Vector) (e : CanonicalDoc)
      → IsRefused calls e
      → IsRefused (new ++ calls) e
  IsRefused-later calls new e r = record {
    docs = r.docs;
    before = r.before;
    newest = r.newest;
    sent = r.sent;
    same = r.same;
    not_older = r.not_older;
    unreported = r.unreported;
    later = new ++ r.later;
    asked =
        ap (λ (h : History Vector). new ++ h) r.asked
        ∙ sym (append_assoc new r.later (bulk (map action r.docs) ∷ r.before.calls));
  }

  module _ (fair : AreRanges ranges) where
    -- `apply` only adds calls.
    apply-adds :
        (docs : List CanonicalDoc) (s : State Vector)
        → (new : History Vector) × ((apply out ranges docs s).1.calls ≡ new ++ s.calls)
    apply-adds docs s = elim (apply_calls out ranges fair docs s) [
      | inl (_, same) ↦ ([], same)
      | inr (later, e, _) ↦
          let first = bulk (map action (to_apply ranges s.guard docs)) in
          (later ++ first ∷ [], e ∙ sym (append_assoc later (first ∷ []) s.calls))
    ]

    -- What is settled stays so, however a batch ends.
    pub apply-keeps-IsSettled :
        (docs : List CanonicalDoc) (s : State Vector) (e : CanonicalDoc)
        → IsSettled s e
        → IsSettled (apply out ranges docs s).1 e
    apply-keeps-IsSettled docs s e (inl reached) =
        inl (apply-keeps out ranges docs s e.doc_id e.version reached)
    apply-keeps-IsSettled docs s e (inr refused) =
        let (new, adds) = apply-adds docs s in
        inr (subst (λ h. IsRefused h e) (sym adds) (IsRefused-later s.calls new e refused))

    -- A batch that succeeds settles its documents.
    pub apply-IsSettled :
        (docs : List CanonicalDoc) (s : State Vector) (e : CanonicalDoc)
        → (apply out ranges docs s).0 ≡ ok tt
        → Elem e docs
        → IsSettled (apply out ranges docs s).1 e
    apply-IsSettled docs s e h m = elim (to_apply_complete ranges fair s.guard docs e m) [
      | inr reached ↦ inl (apply-keeps out ranges docs s e.doc_id e.version reached)
      | inl (d, sent, same, newest) ↦
          let due = to_apply ranges s.guard docs in
          elim (apply_some-settles out ranges due s d (unfold apply in h) sent) [
            | inl reached ↦ inl (
                Reached-below _ e.version d.version newest (
                  subst (λ k. Reached (version (apply out ranges docs s).1.guard k) d.version) same
                    (unfold apply in reached)))
            | inr stale ↦ elim (apply_calls out ranges fair docs s) [
              | inl (empty, _) ↦ elim (subst (Elem d) empty sent) [ ]
              | inr (later, asked, _) ↦ inr (record {
                docs = due;
                before = s;
                later = later;
                newest = d;
                sent = sent;
                same = same;
                not_older = newest;
                asked = asked;
                unreported = subst (NotReported out ranges due s) same stale;
              })
            ]
          ]
    ]
