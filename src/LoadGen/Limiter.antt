-- ===== src/LoadGen/Limiter.antt =====
-- cmd/loadgen/main.go: `limiter`. A float64 is an abstract type with the operations that the code
-- uses; times are nanoseconds. The mutex makes each round of the loop one step, so that the rounds of
-- all writers stand in one sequence.
pub mod Grants
use search_and_retrieval_sys.Prelude.{
  Bool, true, false, Option, none, some, List, [], ◌∷◌, if◌then◌else◌,
}
use search_and_retrieval_sys.Prelude.Int.{ℤ, pos, ◌-ℤ◌}

-- `of_int n` is `float64(n)`, `seconds d` is `d.Seconds()`, `duration x` is `time.Duration(x)`, and
-- `at_most` is `<=`.
pub record Float (F : Type 0) : Type 0 where
  pub zero_f : F
  pub of_int : ℤ → F
  pub seconds : ℤ → F
  pub duration : F → ℤ
  pub add : F → F → F
  pub subtract : F → F → F
  pub multiply : F → F → F
  pub divide : F → F → F
  pub less : F → F → Bool
  pub at_most : F → F → Bool

pub record Limiter (F : Type 0) : Type 0 where
  pub rate : F
  pub allow : F
  pub last : ℤ

abbrev pub second : ℤ
second = pos 1000000000

module _ {F : Type 0} (float : Float F) where
  unfoldable pub new_limiter : ℤ → ℤ → Limiter F
  new_limiter rate now = record { rate = float.of_int rate; allow = float.of_int rate; last = now }

  -- The part of a round that fills the allowance.
  unfoldable pub fill : Limiter F → ℤ → Limiter F
  fill l now =
      let filled = float.add l.allow (float.multiply l.rate (float.seconds (now -ℤ l.last))) in
      record l { allow = if float.less l.rate filled then l.rate else filled; last = now }

  -- One round of the loop at the time `now`: does it return?
  unfoldable pub round : Limiter F → ℤ → ℤ → Limiter F × Bool
  unfolding fill
  round l n now =
      let full = fill l now in
      if float.at_most (float.of_int n) full.allow
      then (record full { allow = float.subtract full.allow (float.of_int n) }, true)
      else (full, false)

  -- How long the round sleeps that does not return.
  unfoldable pub sleep_time : Limiter F → ℤ → ℤ
  sleep_time l n =
      let deficit = float.subtract (float.of_int n) l.allow in
      float.duration (float.multiply (float.divide deficit l.rate) (float.of_int second))

  -- `waitN(n)` of one writer, with the times that its rounds read; `none` means that it still waits.
  unfoldable pub wait_n : Limiter F → ℤ → List ℤ → Option (Limiter F × List ℤ)
  unfolding round
  wait_n l n [] = if float.at_most l.rate float.zero_f then some (l, []) else none
  wait_n l n (now ∷ times) =
      let rest = wait_n (round l n now).0 n times in
      if float.at_most l.rate float.zero_f
      then some (l, now ∷ times)
      else if (round l n now).1
      then some ((round l n now).0, times)
      else rest

  -- The rounds of all writers, in the order in which they hold the mutex.
  unfoldable pub rounds : Limiter F → List (ℤ × ℤ) → Limiter F
  unfolding round
  rounds l [] = l
  rounds l ((n, now) ∷ later) = rounds (round l n now).0 later
