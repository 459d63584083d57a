-- ===== src/IndexerLane/Handling.antt =====
-- What one record does to the account of a lane: its dead letter is sent, or it waits in the batch.
use search_and_retrieval_sys.Prelude.{
  Bool, true, false, ◌≡◌, ◌≢◌, refl, sym, subst, ◌⊎◌, Option, none, some, List, [], ◌∷◌, map,
  Bool-cases, Option-cases, inl, inr, Elem, Elem-append_left, Elem-append_right, head, tail, All,
  All-append, All-map, if◌then◌else◌,
}
use search_and_retrieval_sys.Contract.{CanonicalDoc, validate}
use search_and_retrieval_sys.Indexer.{State}
use search_and_retrieval_sys.Indexer.Settled.{IsSettled}
use search_and_retrieval_sys.IndexerLane.{
  Reason, decode_error, invalid_doc, Event, dead_letter, commit_offsets, Lane, Setting, Arrival,
  to_dlq, buffer, each_record, each_records,
}

module _ {Bytes Vector : Type 0} (st : Setting Bytes Vector) where
  abbrev pub Settled : State Vector → CanonicalDoc → Type 0
  Settled = IsSettled st.out st.ranges

  -- The reason holds of the value.
  abbrev pub Fails : Bytes → Reason → Type 0
  Fails v decode_error = st.decode v ≡ none
  Fails v invalid_doc = (d : CanonicalDoc) × (st.decode v ≡ some d) × (validate d ≢ none)

  -- What `ProduceSync` was called with is the dead letter of the value; it is nil where the value is
  -- no JSON.
  abbrev pub IsLetterOf : Bytes → Option (Bytes × Reason) → Type 0
  IsLetterOf v body =
      (r : Reason) × Fails v r
      × (((st.is_raw_json v ≡ true) × (body ≡ some (v, r)))
          ⊎ ((st.is_raw_json v ≡ false) × (body ≡ none)))

  -- The document is in the batch, or settled.
  abbrev pub IsHeld : Lane Bytes Vector → CanonicalDoc → Type 0
  IsHeld l d = Elem d l.batch ⊎ Settled l.indexer d

  abbrev pub IsAccounted : Lane Bytes Vector → Bytes → Type 0
  IsAccounted l v =
      ((body : Option (Bytes × Reason)) × (accepted : Bool) × Elem (dead_letter body accepted)
          l.events
        × IsLetterOf v body)
      ⊎ ((d : CanonicalDoc) × (st.decode v ≡ some d) × IsHeld l d)

  -- What an event says of the record or the batch behind it, where `Seen` are the polled values.
  abbrev pub IsJustified : (Bytes → Type 0) → State Vector → Event Bytes → Type 0
  IsJustified Seen s (dead_letter body accepted) = (v : Bytes) × Seen v × IsLetterOf v body
  IsJustified Seen s (commit_offsets docs committed) =
      All (λ d. validate d ≡ none) docs × All (Settled s) docs

  pub record IsSound (Seen : Bytes → Type 0) (l : Lane Bytes Vector) : Type 0 where
    pub valid : All (λ d. validate d ≡ none) l.batch
    pub justified : All (IsJustified Seen l.indexer) l.events

  pub IsJustified-map :
      {Seen Also : Bytes → Type 0} (s t : State Vector)
      → ((v : Bytes) → Seen v → Also v)
      → ((d : CanonicalDoc) → Settled s d → Settled t d)
      → (e : Event Bytes) → IsJustified Seen s e
      → IsJustified Also t e
  IsJustified-map s t f g (dead_letter body accepted) (v, seen, letter) = (v, f v seen, letter)
  IsJustified-map s t f g (commit_offsets docs committed) (valid, settled) =
      (valid, All-map g docs settled)

  pub IsSound-map :
      {Seen Also : Bytes → Type 0} (l : Lane Bytes Vector)
      → ((v : Bytes) → Seen v → Also v)
      → IsSound Seen l
      → IsSound Also l
  IsSound-map l f h = record {
    valid = h.valid;
    justified = All-map (IsJustified-map l.indexer l.indexer f (λ d s. s)) l.events h.justified;
  }

  -- `l'` accounts for every record that `l` accounts for.
  abbrev pub Keeps : Lane Bytes Vector → Lane Bytes Vector → Type 0
  Keeps l l' = (v : Bytes) → IsAccounted l v → IsAccounted l' v

  letter_of :
      (v : Bytes) (r : Reason)
      → Fails v r
      → IsLetterOf v (if st.is_raw_json v then some (v, r) else none)
  letter_of v r h = elim (Bool-cases (st.is_raw_json v)) [
    | inl raw ↦ (r, h, inl (raw, rw raw))
    | inr other ↦ (r, h, inr (other, rw other))
  ]

  -- One record is accounted for once it is handled, and disturbs no other.
  abbrev Handles : (Bytes → Type 0) → Lane Bytes Vector → Bytes → Lane Bytes Vector → Type 0
  Handles Seen l v l' = Keeps l l' × IsAccounted l' v × (Seen v → IsSound Seen l → IsSound Seen l')

  -- The values of the records.
  abbrev pub values : List (Arrival Bytes) → List Bytes
  values = map (λ (a : Arrival Bytes). a.value)

  module _ (Seen : Bytes → Type 0) where
    to_dlq-Handles :
        (l : Lane Bytes Vector) (a : Arrival Bytes) (r : Reason)
        → Fails a.value r
        → Handles Seen l a.value (to_dlq st a r l)
    to_dlq-Handles l a r h = (
      keeps,
      inl (_, a.accepted, head refl, letter_of a.value r h),
      λ seen s. record {
        valid = s.valid;
        justified = ((a.value, seen, letter_of a.value r h), s.justified);
      },
    )
      where
        keeps : Keeps l (to_dlq st a r l)
        keeps w (inl (body, sent, m, letter)) = inl (body, sent, tail m, letter)
        keeps w (inr held) = inr held

    buffer-Handles :
        (l : Lane Bytes Vector) (a : Arrival Bytes) (d : CanonicalDoc)
        → st.decode a.value ≡ some d
        → validate d ≡ none
        → Handles Seen l a.value (buffer a d l)
    buffer-Handles l a d decoded valid = (
      keeps,
      inr (d, decoded, inl (Elem-append_right l.batch (head refl))),
      λ seen s. record {
        valid = All-append (λ c. validate c ≡ none) l.batch (d ∷ []) s.valid (valid, tt);
        justified = s.justified;
      },
    )
      where
        keeps : Keeps l (buffer a d l)
        keeps w (inl letter) = inl letter
        keeps w (inr (c, e, inl m)) = inr (c, e, inl (Elem-append_left (d ∷ []) m))
        keeps w (inr (c, e, inr settled)) = inr (c, e, inr settled)

    each_record-Handles :
        (l : Lane Bytes Vector) (a : Arrival Bytes) → Handles Seen l a.value (each_record st l a)
    unfolding each_record
    each_record-Handles l a = elim (Option-cases (st.decode a.value)) [
      | inl bad ↦
          subst (Handles Seen l a.value) (sym (rw (bad, each_record)))
            (to_dlq-Handles l a decode_error bad)
      | inr (d, decoded) ↦ elim (Option-cases (validate d)) [
        | inr (e, bad) ↦
            subst (Handles Seen l a.value) (sym (rw (decoded, bad, each_record)))
              (to_dlq-Handles l a invalid_doc (d, decoded, λ h. cc))
        | inl valid ↦
            subst (Handles Seen l a.value) (sym (rw (decoded, valid, each_record)))
              (buffer-Handles l a d decoded valid)
      ]
    ]

    pub each_records-Handles :
        (rs : List (Arrival Bytes)) (l : Lane Bytes Vector)
        → Keeps l (each_records st l rs)
          × All (IsAccounted (each_records st l rs)) (values rs)
          × (All Seen (values rs) → IsSound Seen l → IsSound Seen (each_records st l rs))
    unfolding each_records
    each_records-Handles [] l = (λ v a. a, tt, λ seen s. s)
    each_records-Handles (r ∷ rs) l =
        let (keeps, held, sound) = each_record-Handles l r in
        let (keeps', all, sound') = each_records-Handles rs (each_record st l r) in
        (
          λ w a. keeps' w (keeps w a),
          (keeps' r.value held, all),
          λ seen s. sound' seen.1 (sound seen.0 s),
        )
