-- ===== src/NormalizerService/Routing.antt =====
-- Where the events of a batch go, and when their offsets are committed.
use search_and_retrieval_sys.Prelude.{
  Bool, true, false, Option, if◌then◌else◌, ◌≡◌, refl, ◌⊎◌, inl, inr, none, some, List, [], ◌∷◌,
  ◌++◌, arith, eq_iff, All, All-append, All-map, Elem-append_right, sym, Elem, head, tail,
  Bool-cases, Option-cases, subst,
}
use search_and_retrieval_sys.Contract.{CanonicalDoc, tier_urgent, tier_bulk, validate}
use search_and_retrieval_sys.Normalizer.{Outcome, doc, skip, failed, from_debezium}
use search_and_retrieval_sys.NormalizerService.{
  Reason, normalize_error, invalid_doc, Payload, document, dead_letter, Produced, Setting, records,
  commits, each_record, to_produce, route, iterate, finish, dlq_record,
}

module _ {Bytes : Type 0} (s : Setting Bytes) where
  -- The outcome of the conversion of one value.
  abbrev pub converted : Bytes → Outcome
  converted value = from_debezium s.decode s.now value

  -- The event is a tombstone, a truncation or a heartbeat.
  abbrev pub IsSilent : Bytes → Type 0
  IsSilent value = (s.is_empty value ≡ true) ⊎ (converted value ≡ skip)

  -- Why a dead letter stands for a value.
  abbrev pub Fails : Bytes → Reason → Type 0
  Fails value (normalize_error e) = converted value ≡ failed e
  Fails value (invalid_doc e) =
      (d : CanonicalDoc) × (converted value ≡ doc d) × (validate d ≡ some e)

  -- What a record's value must hold, where `json.Marshal` takes it or not; it is nil if not.
  abbrev pub Holds : Bool → Payload Bytes → Option (Payload Bytes) → Type 0
  Holds written payload value =
      ((written ≡ true) × (value ≡ some payload)) ⊎ ((written ≡ false) × (value ≡ none))

  -- The record is the document that the value converts to.
  pub record IsDocument (value : Bytes) (p : Produced Bytes) : Type 0 where
    pub document_of : CanonicalDoc
    pub converts : converted value ≡ doc document_of
    pub valid : validate document_of ≡ none
    pub key : p.key ≡ some document_of.doc_id
    pub fast : document_of.tier ≡ tier_urgent → p.topic ≡ s.topics.fast
    pub bulk : document_of.tier ≡ tier_bulk → p.topic ≡ s.topics.bulk
    pub holds : Holds (s.is_writable document_of) (document document_of) p.value

  -- The record is the dead letter of the value.
  pub record IsDeadLetter (value : Bytes) (p : Produced Bytes) : Type 0 where
    pub reason : Reason
    pub fails : Fails value reason
    pub topic : p.topic ≡ s.topics.dlq
    pub holds : Holds (s.is_raw_json value) (dead_letter reason value) p.value

  -- The record that a value must leave behind.
  abbrev pub Carries : Bytes → Produced Bytes → Type 0
  Carries value p = IsDocument value p ⊎ IsDeadLetter value p

  written-Holds :
      (written : Bool) (payload : Payload Bytes)
      → Holds written payload (if written then some payload else none)
  written-Holds true payload = inl (refl, refl)
  written-Holds false payload = inr (refl, refl)

  dlq_record-IsDeadLetter :
      (value : Bytes) (r : Reason) → Fails value r → IsDeadLetter value (dlq_record s value r)
  unfolding dlq_record
  dlq_record-IsDeadLetter value r h = record {
    reason = r;
    fails = h;
    topic = refl;
    holds = written-Holds (s.is_raw_json value) (dead_letter r value);
  }

  route-Carries :
      (value : Bytes) (d : CanonicalDoc) → converted value ≡ doc d → Carries value (route s value d)
  unfolding route
  route-Carries value d h = elim (Option-cases (validate d)) [
    | inl valid ↦
        rw (valid, route)
          (inl (record {
            document_of = d;
            converts = h;
            valid = valid;
            key = refl;
            fast = ground (arith, eq_iff d.tier tier_urgent);
            bulk = ground (arith, eq_iff d.tier tier_urgent, eq_iff tier_bulk tier_urgent);
            holds = written-Holds (s.is_writable d) (document d);
          }))
    | inr (e, invalid) ↦
        rw (invalid, route) (inr (dlq_record-IsDeadLetter value (invalid_doc e) (d, h, invalid)))
  ]

  abbrev Emits : Bytes → List (Produced Bytes) → Type 0
  Emits value out =
      (IsSilent value × (out ≡ [])) ⊎ ((p : Produced Bytes) × (out ≡ p ∷ []) × Carries value p)

  converted-Emits :
      (value : Bytes) (o : Outcome)
      → s.is_empty value ≡ false
      → converted value ≡ o
      → Emits value (each_record s value)
  unfolding each_record
  converted-Emits value skip full h = inl (inr h, rw (full, h))
  converted-Emits value (failed e) full h = inr (
    dlq_record s value (normalize_error e),
    rw (full, h),
    inr (dlq_record-IsDeadLetter value (normalize_error e) h),
  )
  converted-Emits value (doc d) full h =
      inr (route s value d, rw (full, h), route-Carries value d h)

  each_record-Emits : (value : Bytes) → Emits value (each_record s value)
  unfolding each_record
  each_record-Emits value = elim (Bool-cases (s.is_empty value)) [
    | inl empty ↦ inl (inl empty, rw empty)
    | inr full ↦ converted-Emits value (converted value) full refl
  ]

  -- The record stands for one of the values.
  pub record IsJustified (values : List Bytes) (p : Produced Bytes) : Type 0 where
    pub value : Bytes
    pub polled : Elem value values
    pub carries : Carries value p

  IsJustified-cons :
      (v : Bytes) (vs : List Bytes) (p : Produced Bytes) → IsJustified vs p → IsJustified (v ∷ vs) p
  IsJustified-cons v vs p j = record {
    value = j.value;
    polled = tail j.polled;
    carries = j.carries;
  }

  here-IsJustified :
      (v : Bytes) (vs : List Bytes) (out : List (Produced Bytes))
      → Emits v out
      → All (IsJustified (v ∷ vs)) out
  here-IsJustified v vs out (inl (silent, e)) = rw e tt
  here-IsJustified v vs out (inr (p, e, c)) =
      rw e (record { value = v; polled = head refl; carries = c }, tt)

  -- Every record handed to the producer stands for a polled value: a valid document, under its own
  -- doc_id and in the topic of its tier, or a dead letter with the value and the reason it failed;
  -- the record's value is nil exactly where json.Marshal does not take the document or the polled
  -- value.
  pub to_produce_sound : (values : List Bytes) → All (IsJustified values) (to_produce s values)
  unfolding to_produce
  to_produce_sound [] = tt
  to_produce_sound (v ∷ vs) =
      All-append (IsJustified (v ∷ vs)) (each_record s v) (to_produce s vs)
        (here-IsJustified v vs (each_record s v) (each_record-Emits v))
        (All-map (IsJustified-cons v vs) (to_produce s vs) (to_produce_sound vs))

  -- The value is silent, or a record among `out` carries it.
  abbrev pub IsKept : List (Produced Bytes) → Bytes → Type 0
  IsKept out value = IsSilent value ⊎ ((p : Produced Bytes) × Elem p out × Carries value p)

  here-IsKept :
      (v : Bytes) (out rest : List (Produced Bytes)) → Emits v out → IsKept (out ++ rest) v
  here-IsKept v out rest (inl (silent, _)) = inl silent
  here-IsKept v out rest (inr (p, same, c)) =
      inr (p, subst (λ l. Elem p (l ++ rest)) (sym same) (head refl), c)

  later-IsKept :
      (v : Bytes) (front out : List (Produced Bytes)) → IsKept out v → IsKept (front ++ out) v
  later-IsKept v front out (inl silent) = inl silent
  later-IsKept v front out (inr (p, found, c)) = inr (p, Elem-append_right front found, c)

  pub to_produce_complete :
      (values : List Bytes) (value : Bytes) → Elem value values → IsKept (to_produce s values) value
  unfolding to_produce
  to_produce_complete [] value m = elim m [ ]
  to_produce_complete (v ∷ vs) value (head e) =
      subst (IsKept (each_record s v ++ to_produce s vs)) e
        (here-IsKept v (each_record s v) (to_produce s vs) (each_record-Emits v))
  to_produce_complete (v ∷ vs) value (tail m) =
      later-IsKept value (each_record s v) (to_produce s vs) (to_produce_complete vs value m)

  finish-accepts :
      (out : List (Produced Bytes)) (ok : Bool) (p : Produced Bytes)
      → (finish out ok).1 ≡ commits
      → Elem p out
      → (ok ≡ true) × Elem p (finish out ok).0
  unfolding finish
  finish-accepts [] ok p h m = elim m [ ]
  finish-accepts (r ∷ rs) true p h m = (refl, m)
  finish-accepts (r ∷ rs) false p h m = absurd (cc)

  -- When an iteration goes on to commit the offsets, every value it polled is a tombstone or a
  -- skipped event, or the producer has accepted a record that is its document or its dead letter,
  -- whose value is nil where json.Marshal does not take it.
  pub iterate_commits :
      (values : List Bytes) (ok : Bool)
      → (iterate s (records values ok)).1 ≡ commits
      → (value : Bytes) → Elem value values
      → IsSilent value
        ⊎ ((ok ≡ true)
            × (p : Produced Bytes) × Elem p (iterate s (records values ok)).0
            × Carries value p)
  unfolding iterate
  iterate_commits values ok h value m = elim (to_produce_complete values value m) [
    | inl silent ↦ inl silent
    | inr (p, found, carries) ↦
        let (accepted, kept) = finish-accepts (to_produce s values) ok p h found in
        inr (accepted, p, kept, carries)
  ]
