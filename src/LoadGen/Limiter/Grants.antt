-- ===== src/LoadGen/Limiter/Grants.antt =====
-- The allowance of the limiter, and the wait for more than it can hold.
use search_and_retrieval_sys.Prelude.{
  true, false, ◌≡◌, none, List, [], ◌∷◌, arith, All, Bool-cases, inl, inr,
}
use search_and_retrieval_sys.Prelude.Int.{ℤ}
use search_and_retrieval_sys.LoadGen.Limiter.{Float, Limiter, fill, round, wait_n, rounds}

module _ {F : Type 0} (float : Float F) where
  abbrev pub IsCapped : Limiter F → Type 0
  IsCapped l = float.less l.rate l.allow ≡ false

  round-rate : (l : Limiter F) (n now : ℤ) → (round float l n now).0.rate ≡ l.rate
  unfolding round fill
  round-rate l n now = ground arith

  fill-capped :
      ((a : F) → float.less a a ≡ false)
      → (l : Limiter F) (now : ℤ) → float.less l.rate (fill float l now).allow ≡ false
  unfolding fill
  fill-capped irrefl l now = ground (arith, irrefl l.rate)

  -- What subtracting the number of units does not raise above another number.
  abbrev pub Lowers : ℤ → Type 0
  Lowers n =
      (a b : F) → float.less a b ≡ false → float.less a (float.subtract b (float.of_int n)) ≡ false

  round-capped :
      ((a : F) → float.less a a ≡ false)
      → (l : Limiter F) (n now : ℤ) → Lowers n
      → float.less l.rate (round float l n now).0.allow ≡ false
  unfolding round
  round-capped irrefl l n now lowers =
      let full = fill-capped irrefl l now in
      elim (Bool-cases (float.at_most (float.of_int n) (fill float l now).allow)) [
        | inl grants ↦ rw grants (lowers l.rate (fill float l now).allow full)
        | inr waits ↦ rw waits full
      ]

  -- However the rounds of the writers interleave, and whatever the clock reads, an allowance that
  -- does not exceed the rate never does, where no number is less than itself and subtracting what
  -- is asked for does not raise a number above another.
  pub rounds-IsCapped :
      ((a : F) → float.less a a ≡ false)
      → (l : Limiter F) (later : List (ℤ × ℤ)) → IsCapped l
      → All (λ (r : ℤ × ℤ). Lowers r.0) later
      → IsCapped (rounds float l later)
  unfolding rounds
  rounds-IsCapped irrefl l [] h k = h
  rounds-IsCapped irrefl l ((n, now) ∷ later) h (lowers, k) =
      rounds-IsCapped irrefl (round float l n now).0 later
        (rw (round-rate l n now) (round-capped irrefl l n now lowers)) k

  round-waits :
      ((a : F) → float.less a a ≡ false)
      → (l : Limiter F) (n now : ℤ)
      → ((b : F) → float.less l.rate b ≡ false → float.at_most (float.of_int n) b ≡ false)
      → (round float l n now).1 ≡ false
  unfolding round
  round-waits irrefl l n now beyond =
      rw (beyond (fill float l now).allow (fill-capped irrefl l now))

  -- With a positive rate, a writer that asks for more units than the rate never returns, whatever
  -- the clock reads and however long it waits, where no number is less than itself, and a number
  -- above the rate is not at most one that the rate is not below.
  pub wait_n-none :
      ((a : F) → float.less a a ≡ false)
      → ((a b c : F) → float.less a b ≡ true → float.less a c ≡ false → float.at_most b c ≡ false)
      → (l : Limiter F) (n : ℤ) (times : List ℤ) → float.at_most l.rate float.zero_f ≡ false
      → float.less l.rate (float.of_int n) ≡ true
      → wait_n float l n times ≡ none
  unfolding wait_n
  wait_n-none irrefl beyond l n [] positive more = rw positive
  wait_n-none irrefl beyond l n (now ∷ times) positive more = rw (
    positive,
    round-waits irrefl l n now λ b. beyond l.rate (float.of_int n) b more,
    wait_n-none irrefl beyond (round float l n now).0 n times (rw (round-rate l n now) positive)
        (rw (round-rate l n now) more),
  )
