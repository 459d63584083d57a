-- ===== src/Tests/Guards.antt =====
-- Commits in both orders, and two workers that race.
use search_and_retrieval_sys.Prelude.{String, refl, List, [], ◌∷◌, All}
use search_and_retrieval_sys.Prelude.Int.{ℤ, pos}
use search_and_retrieval_sys.Prelude.Maps.{lookup}
use search_and_retrieval_sys.Idempotency.{Guard, new_guard, should_apply, commit}
use search_and_retrieval_sys.Idempotency.Workers.{
  Phase, fresh, passed, settled, Worker, Pool, check, write, Run, here, next, changes, Covers,
  Sourced, highest_version_wins,
}

abbrev rising : List (String × ℤ)
rising = ("a", pos 1) ∷ ("a", pos 2) ∷ []

abbrev falling : List (String × ℤ)
falling = ("a", pos 2) ∷ ("a", pos 1) ∷ []

abbrev worker : ℤ → Phase → Worker
worker v phase = record { doc_id = "a"; version = v; phase = phase }

abbrev pool : List Worker → Guard → Pool
pool ws g = record { guard = g; workers = ws }

abbrev before_race : Pool
before_race = pool (worker (pos 1) fresh ∷ worker (pos 2) fresh ∷ []) new_guard

-- Both pass the check; then the newer version is written before the older one.
abbrev after_race : Pool
after_race =
    pool (worker (pos 1) settled ∷ worker (pos 2) settled ∷ [])
      (commit (commit new_guard "a" (pos 2)) "a" (pos 1))

race : Run before_race after_race
unfolding should_apply lookup
race =
    next
      (next
        (next
          (next here (
            check {p = before_race}
              {q = pool (worker (pos 1) passed ∷ worker (pos 2) fresh ∷ []) new_guard} []
              (worker (pos 2) fresh ∷ []) (worker (pos 1) fresh) refl refl refl refl))
          (check {q = pool (worker (pos 1) passed ∷ worker (pos 2) passed ∷ []) new_guard}
            (worker (pos 1) passed ∷ []) [] (worker (pos 2) fresh) refl refl refl refl))
        (write
          {q = pool (worker (pos 1) passed ∷ worker (pos 2) settled ∷ [])
            (commit new_guard "a" (pos 2))}
          (worker (pos 1) passed ∷ []) [] (worker (pos 2) passed) refl refl refl refl))
      (write {q = after_race} [] (worker (pos 2) settled ∷ []) (worker (pos 1) passed) refl refl
        refl refl)

highest_version_wins_example :
    All (Covers after_race.guard) (changes before_race)
    × Sourced before_race.guard (changes before_race) after_race.guard
highest_version_wins_example = highest_version_wins race (refl, (refl, tt)) (refl, (refl, tt))
