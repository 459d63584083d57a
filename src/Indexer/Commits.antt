-- ===== src/Indexer/Commits.antt =====
-- What `apply` does to the guard, whether it succeeds or fails.
use search_and_retrieval_sys.Prelude.{
  String, Bool, true, false, ◌≡◌, ◌≢◌, refl, ap, ◌∙◌, sym, subst, ◌⊎◌, some, List, [], ◌∷◌, map,
  Bool-cases, inl, inr, Elem, head, tail, if◌then◌else◌,
}
use search_and_retrieval_sys.Prelude.Int.{ℤ}
use search_and_retrieval_sys.Prelude.Maps.{Map}
use search_and_retrieval_sys.Contract.{CanonicalDoc}
use search_and_retrieval_sys.Idempotency.{Guard, version, commit}
use search_and_retrieval_sys.Idempotency.Watermark.{
  Reached, Reached-below, Reached-commit, Reached-commit_self,
}
use search_and_retrieval_sys.OpenSearch.{Item, action, is_applied}
use search_and_retrieval_sys.OpenSearch.Bulk.{reported, bulk_result-applied}
use search_and_retrieval_sys.Indexer.{
  Outside, State, Result, ok, Ranges, finish, apply_due, apply_some, apply, to_apply,
  commit_applied,
}
use search_and_retrieval_sys.Indexer.Newest.{AreRanges, to_apply_complete}
use search_and_retrieval_sys.Indexer.Steps.{
  result-cases, Succeeds, FailureKeeps, apply_due-Succeeds, apply_due-FailureKeeps,
}

module _ (written : Map Bool) where
  commit_applied-keeps :
      (g : Guard) (docs : List CanonicalDoc) (k : String) (v : ℤ)
      → Reached (version g k) v
      → Reached (version (commit_applied written g docs) k) v
  unfolding commit_applied
  commit_applied-keeps g [] k v h = h
  commit_applied-keeps g (d ∷ docs) k v h = elim (Bool-cases (is_applied written d.doc_id)) [
    | inl applies ↦ rw applies (
        commit_applied-keeps (commit g d.doc_id d.version) docs k v
          (Reached-commit g d.doc_id k v d.version h))
    | inr skips ↦ rw skips (commit_applied-keeps g docs k v h)
  ]

  commit_applied-reaches :
      (g : Guard) (docs : List CanonicalDoc) (d : CanonicalDoc)
      → Elem d docs
      → is_applied written d.doc_id ≡ true
      → Reached (version (commit_applied written g docs) d.doc_id) d.version
  unfolding commit_applied
  commit_applied-reaches g [] d m a = elim m [ ]
  commit_applied-reaches g (c ∷ docs) d (tail m) a =
      commit_applied-reaches
        (if is_applied written c.doc_id then commit g c.doc_id c.version else g) docs d m a
  commit_applied-reaches g (c ∷ docs) d (head e) a = subst P e (commit_here (subst Q (sym e) a))
    where
      Q : CanonicalDoc → Type 0
      Q x = is_applied written x.doc_id ≡ true

      P : CanonicalDoc → Type 0
      P x = Reached (version (commit_applied written g (c ∷ docs)) x.doc_id) x.version

      commit_here : Q c → P c
      commit_here q = rw q (
          commit_applied-keeps (commit g c.doc_id c.version) docs c.doc_id c.version
            (Reached-commit_self g c.doc_id c.version))

module _ {Vector : Type 0} (out : Outside Vector) (ranges : Ranges) where
  -- OpenSearch answered the bulk write of `docs`, and reported no effect for the id.
  pub record NotReported (docs : List CanonicalDoc) (s : State Vector) (k : String) : Type 0 where
    pub items : List Item
    pub answered : out.bulk_answer s.calls (map action docs) ≡ some items
    pub skipped : reported k docs items ≡ false

  guard-Succeeds :
      {docs : List CanonicalDoc} {s : State Vector} (c : Succeeds out ranges docs s)
      → (apply_due out ranges docs s).1.guard ≡ commit_applied c.written s.guard docs
  unfolding finish
  guard-Succeeds {docs} {s} c =
      ap (λ (x : Result (Unit {0}) × State Vector). x.1.guard) c.finished
      ∙ ap (λ (g : Guard). commit_applied c.written g docs) c.guard

  pub apply_some-settles :
      (docs : List CanonicalDoc) (s : State Vector) (d : CanonicalDoc)
      → (apply_some out ranges docs s).0 ≡ ok tt
      → Elem d docs
      → Reached (version (apply_some out ranges docs s).1.guard d.doc_id) d.version
        ⊎ NotReported docs s d.doc_id
  unfolding apply_some
  apply_some-settles [] s d h m = elim m [ ]
  apply_some-settles (x ∷ docs) s d h m =
      let c = apply_due-Succeeds out ranges (x ∷ docs) s h in
      let (_, spec) = bulk_result-applied (x ∷ docs) c.items c.written c.collected in
      elim (Bool-cases (is_applied c.written d.doc_id)) [
        | inl applies ↦ inl (
            rw (guard-Succeeds c) (commit_applied-reaches c.written s.guard (x ∷ docs) d m applies))
        | inr skips ↦ inr (record {
          items = c.items;
          answered = c.answered;
          skipped = sym (spec d.doc_id) ∙ skips;
        })
      ]

  apply_some-fails :
      (docs : List CanonicalDoc) (s : State Vector) → FailureKeeps (apply_some out ranges docs) s
  unfolding apply_some
  apply_some-fails [] s bad = refl
  apply_some-fails (x ∷ docs) s bad = apply_due-FailureKeeps out ranges (x ∷ docs) s bad

  -- A batch that ends in an error or a panic leaves the guard as it was, so no document of it is
  -- taken for applied when the batch is tried again.
  pub apply_fails :
      (docs : List CanonicalDoc) (s : State Vector)
      → (apply out ranges docs s).0 ≢ ok tt
      → (apply out ranges docs s).1.guard ≡ s.guard
  unfolding apply
  apply_fails docs s bad = apply_some-fails (to_apply ranges s.guard docs) s (λ u h. bad h)

  guard-apply_some :
      (docs : List CanonicalDoc) (s : State Vector)
      → (apply_some out ranges docs s).0 ≡ ok tt
      → (written : Map Bool) × ((apply_some out ranges docs s).1.guard
          ≡ commit_applied written s.guard docs)
  unfolding apply_some
  guard-apply_some [] s h = ([], unfold commit_applied in refl)
  guard-apply_some (x ∷ docs) s h =
      let c = apply_due-Succeeds out ranges (x ∷ docs) s h in (c.written, guard-Succeeds c)

  -- No watermark ever falls, however the batch ends.
  pub apply-keeps :
      (docs : List CanonicalDoc) (s : State Vector) (k : String) (v : ℤ)
      → Reached (version s.guard k) v
      → Reached (version (apply out ranges docs s).1.guard k) v
  unfolding apply
  apply-keeps docs s k v h = elim (result-cases (apply out ranges docs s).0) [
    | inl done ↦
        let (written, e) = guard-apply_some (to_apply ranges s.guard docs) s done in
        rw e (commit_applied-keeps written s.guard (to_apply ranges s.guard docs) k v h)
    | inr bad ↦ rw (apply_some-fails (to_apply ranges s.guard docs) s (λ u e. bad e)) h
  ]

  -- When a batch succeeds, every document of it is settled: the guard has reached its version, or
  -- OpenSearch reported no effect for it.
  pub apply_settles :
      AreRanges ranges
      → (docs : List CanonicalDoc) (s : State Vector) (e : CanonicalDoc)
      → (apply out ranges docs s).0 ≡ ok tt
      → Elem e docs
      → Reached (version (apply out ranges docs s).1.guard e.doc_id) e.version
        ⊎ NotReported (to_apply ranges s.guard docs) s e.doc_id
  unfolding apply
  apply_settles fair docs s e h m = elim (to_apply_complete ranges fair s.guard docs e m) [
    | inl (d, sent, same, newest) ↦
        elim (apply_some-settles (to_apply ranges s.guard docs) s d h sent) [
          | inl reached ↦ inl (
              Reached-below _ e.version d.version newest (
                subst (λ k. Reached (version (apply out ranges docs s).1.guard k) d.version) same
                  reached))
          | inr stale ↦ inr (subst (NotReported (to_apply ranges s.guard docs) s) same stale)
        ]
    | inr reached ↦ inl (apply-keeps docs s e.doc_id e.version reached)
  ]
