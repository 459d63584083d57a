-- ===== src/IndexerLane/Latency.antt =====
-- The size and the age of a lane's batch.
use search_and_retrieval_sys.Prelude.{
  Bool, ◌<◌, false, ◌≡◌, ◌≢◌, refl, sym, ◌∙◌, subst, ◌⊎◌, none, some, List, [], ◌∷◌, ◌++◌, length,
  arith, Bool-cases, Option-cases, inl, inr,
}
use search_and_retrieval_sys.Prelude.Int.{ℤ, ◌-ℤ◌, ◌<ℤ◌}
use search_and_retrieval_sys.Contract.{CanonicalDoc, validate}
use search_and_retrieval_sys.Indexer.{State, Result, error, panic, ok, apply}
use search_and_retrieval_sys.IndexerLane.{
  Reason, decode_error, invalid_doc, Lane, Setting, Arrival, fetched, to_dlq, buffer, flush_result,
  flush_docs, flush_batch, each_record, each_records, is_due, iterate,
}

module _ {Bytes Vector : Type 0} (st : Setting Bytes Vector) where
  -- Fewer than 256 documents wait, the first of them for less than the flush interval.
  pub record IsFresh (l : Lane Bytes Vector) (now : ℤ) : Type 0 where
    pub short : length l.batch < 256
    pub young : 0 < length l.batch → now -ℤ l.batch_start <ℤ st.flush

  -- The record goes into the batch.
  abbrev pub Joins : Arrival Bytes → Type 0
  Joins a = (d : CanonicalDoc) × (st.decode a.value ≡ some d) × (validate d ≡ none)

  -- The time of the first record that goes into the batch.
  abbrev pub FirstTime : List (Arrival Bytes) → ℤ → Type 0
  FirstTime [] t = ⊥
  FirstTime (a ∷ rs) t = (Joins a × (t ≡ a.time)) ⊎ ((¬ Joins a) × FirstTime rs t)

  -- The age of a batch is that of its first document: an old batch keeps its start, and a new one
  -- starts with the first record that joins it.
  abbrev pub Dates : List (Arrival Bytes) → Lane Bytes Vector → Lane Bytes Vector → Type 0
  Dates rs l l' =
      ((l.batch ≢ []) × (l'.batch_start ≡ l.batch_start))
      ⊎ ((l.batch ≡ []) × ((l'.batch ≡ []) ⊎ FirstTime rs l'.batch_start))

  list-cases : (docs : List CanonicalDoc) → (docs ≡ []) ⊎ (docs ≢ [])
  list-cases [] = inl refl
  list-cases (d ∷ docs) = inr (λ e. cc)

  -- A record joins and dates a batch that it starts, or changes neither the batch nor its start.
  abbrev Step : Arrival Bytes → Lane Bytes Vector → Lane Bytes Vector → Type 0
  Step a l l' =
      ((¬ Joins a) × (l'.batch ≡ l.batch) × (l'.batch_start ≡ l.batch_start))
      ⊎ (Joins a
          × (l'.batch ≢ [])
          × (((l.batch ≢ []) × (l'.batch_start ≡ l.batch_start))
              ⊎ ((l.batch ≡ []) × (l'.batch_start ≡ a.time))))

  started :
      (docs : List CanonicalDoc) (now old : ℤ)
      → ((docs ≢ []) × ((elim docs as (λ x. ℤ) [ [] ↦ now | c ∷ rest ↦ old ]) ≡ old))
        ⊎ ((docs ≡ []) × ((elim docs as (λ x. ℤ) [ [] ↦ now | c ∷ rest ↦ old ]) ≡ now))
  started [] now old = inr (refl, refl)
  started (d ∷ docs) now old = inl ((λ e. cc), refl)

  grown : (docs : List CanonicalDoc) (d : CanonicalDoc) → docs ++ d ∷ [] ≢ []
  grown [] d e = cc
  grown (c ∷ docs) d e = cc

  buffer-Step :
      (l : Lane Bytes Vector) (a : Arrival Bytes) (d : CanonicalDoc)
      → Joins a
      → Step a l (buffer a d l)
  buffer-Step l a d joins = inr (joins, grown l.batch d, started l.batch a.time l.batch_start)

  dlq-Step :
      (l : Lane Bytes Vector) (a : Arrival Bytes) (r : Reason)
      → ¬ Joins a
      → Step a l (to_dlq st a r l)
  dlq-Step l a r out = inl (out, refl, refl)

  each_record-Step : (l : Lane Bytes Vector) (a : Arrival Bytes) → Step a l (each_record st l a)
  unfolding each_record
  each_record-Step l a = elim (Option-cases (st.decode a.value)) [
    | inl bad ↦
        let same : each_record st l a ≡ to_dlq st a decode_error l = rw (bad, each_record) in
        subst (Step a l) (sym same) (dlq-Step l a decode_error (λ j. let (c, found, v) = j in cc))
    | inr (d, decoded) ↦ elim (Option-cases (validate d)) [
      | inr (e, bad) ↦
          let same : each_record st l a ≡ to_dlq st a invalid_doc l =
            rw (decoded, bad, each_record) in
          subst (Step a l) (sym same) (dlq-Step l a invalid_doc (unjoined d e decoded bad))
      | inl valid ↦
          let same : each_record st l a ≡ buffer a d l = rw (decoded, valid, each_record) in
          subst (Step a l) (sym same) (buffer-Step l a d (d, decoded, valid))
    ]
  ]
    where
      unjoined :
          (d : CanonicalDoc) (e : _) → st.decode a.value ≡ some d → validate d ≡ some e → ¬ Joins a
      unjoined d e decoded bad (c, found, valid) =
          let same : c ≡ d = cc in
          let none_left : validate d ≡ none = subst (λ x. validate x ≡ none) same valid in cc

  each_records-Dates :
      (rs : List (Arrival Bytes)) (l : Lane Bytes Vector) → Dates rs l (each_records st l rs)
  unfolding each_records
  each_records-Dates [] l = elim (list-cases l.batch) [
    | inl empty ↦ inr (empty, inl empty)
    | inr waits ↦ inl (waits, refl)
  ]
  each_records-Dates (a ∷ rs) l =
      joined (each_record-Step l a) (each_records-Dates rs (each_record st l a))
    where
      joined :
          Step a l (each_record st l a)
          → Dates rs (each_record st l a) (each_records st (each_record st l a) rs)
          → Dates (a ∷ rs) l (each_records st (each_record st l a) rs)
      joined (inl (out, same, start)) (inl (waits, e)) =
          inl ((λ empty. waits (same ∙ empty)), e ∙ start)
      joined (inl (out, same, start)) (inr (empty, inl none_left)) =
          inr (sym same ∙ empty, inl none_left)
      joined (inl (out, same, start)) (inr (empty, inr first)) =
          inr (sym same ∙ empty, inr (inr (out, first)))
      joined (inr (joins, filled, how)) (inr (empty, rest)) = absurd (filled empty)
      joined (inr (joins, filled, inl (waits, start))) (inl (more, e)) = inl (waits, e ∙ start)
      joined (inr (joins, filled, inr (empty, start))) (inl (more, e)) =
          inr (empty, inr (inl (joins, e ∙ start)))

  undue-IsFresh : (l : Lane Bytes Vector) (now : ℤ) → is_due st l now ≡ false → IsFresh l now
  unfolding is_due
  undue-IsFresh l now h = ground arith

  -- A flush empties the batch, or `apply` fails and the batch keeps its start.
  abbrev Flushes : Lane Bytes Vector → Lane Bytes Vector → Type 0
  Flushes l l' =
      (l'.batch ≡ [])
      ⊎ (((apply st.out st.ranges l.batch l.indexer).0 ≢ ok tt)
          × (l'.batch ≡ l.batch)
          × (l'.batch_start ≡ l.batch_start))

  flush_result-Flushes :
      (l : Lane Bytes Vector) (committed : Bool) (r : Result (Unit {0})) (s : State Vector)
      → (apply st.out st.ranges l.batch l.indexer).0 ≡ r
      → Flushes l (flush_result l committed r s).0
  unfolding flush_result
  flush_result-Flushes l committed (ok u) s e = inl refl
  flush_result-Flushes l committed error s e = inr ((λ h. cc), refl, refl)
  flush_result-Flushes l committed panic s e = inr ((λ h. cc), refl, refl)

  flush_docs-Flushes :
      (l : Lane Bytes Vector) (committed : Bool) (docs : List CanonicalDoc)
      → docs ≡ l.batch
      → Flushes l (flush_docs st l committed docs).0
  unfolding flush_docs
  flush_docs-Flushes l committed [] same = inl (sym same)
  flush_docs-Flushes l committed (d ∷ docs) same =
      flush_result-Flushes l committed _ _ (rw (← same))

  -- What a round that polls leaves behind.
  abbrev pub Bounded : List (Arrival Bytes) → ℤ → Lane Bytes Vector → Lane Bytes Vector → Type 0
  Bounded rs now l l' =
      (l'.batch ≡ [])
      ⊎ (Dates rs l l'
          × (IsFresh l' now
              ⊎ ((apply st.out st.ranges (each_records st l rs).batch
                    (each_records st l rs).indexer).0
                  ≢ ok tt)))

  Flushes-Bounded :
      (rs : List (Arrival Bytes)) (now : ℤ) (l l' : Lane Bytes Vector)
      → Dates rs l (each_records st l rs)
      → Flushes (each_records st l rs) l'
      → Bounded rs now l l'
  Flushes-Bounded rs now l l' dates (inl empty) = inl empty
  Flushes-Bounded rs now l l' (inl (waits, e)) (inr (failed, same, start)) =
      inr (inl (waits, start ∙ e), inr failed)
  Flushes-Bounded rs now l l' (inr (none_left, inl empty)) (inr (failed, same, start)) =
      inl (same ∙ empty)
  Flushes-Bounded rs now l l' (inr (none_left, inr first)) (inr (failed, same, start)) =
      inr (inr (none_left, inr (subst (FirstTime rs) (sym start) first)), inr failed)

  -- After every round that polls, the batch is empty, or it is dated by its first document: an old
  -- batch has kept its start, and a new one starts at the time of the first record that joined it.
  -- Then fewer than 256 documents wait, and less than the flush interval has passed since that
  -- start, or applying the batch failed.
  pub iterate-IsFresh :
      (l : Lane Bytes Vector) (rs : List (Arrival Bytes)) (now : ℤ) (committed : Bool)
      → Bounded rs now l (iterate st l (fetched rs now committed)).0
  unfolding iterate flush_batch
  iterate-IsFresh l rs now committed =
      let l' = each_records st l rs in
      let dates = each_records-Dates rs l in
      elim (Bool-cases (is_due st l' now)) [
        | inl due ↦ rw due (
            Flushes-Bounded rs now l (flush_docs st l' committed l'.batch).0 dates
              (flush_docs-Flushes l' committed l'.batch refl))
        | inr early ↦ rw early (inr (dates, inl (undue-IsFresh l' now early)))
      ]
