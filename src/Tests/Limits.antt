-- ===== src/Tests/Limits.antt =====
-- A limiter of one token per second, with whole tokens.
use search_and_retrieval_sys.Prelude.{
  ℕ, ◌+◌, ◌*◌, ◌-◌, ◌/◌, true, false, ◌≡◌, refl, [], ◌∷◌, arith, ltb, leb,
}
use search_and_retrieval_sys.Prelude.Int.{ℤ, pos, negsuc, ◌-ℤ◌, ltb_ℤ}
use search_and_retrieval_sys.Prelude.Maps.{lookup, insert}
use search_and_retrieval_sys.RateLimiter.{Rate, RateLimiter, allow, allow_limited, spend, evict}
use search_and_retrieval_sys.RateLimiter.Buckets.{IsCapped, allow-IsCapped}

abbrev whole_seconds : ℤ → ℕ
whole_seconds (pos n) = n / 1000000000
whole_seconds (negsuc n) = 0

abbrev whole_tokens : Rate ℕ
whole_tokens = record {
  zero = 0;
  one = 1;
  seconds = whole_seconds;
  multiply = ◌*◌;
  add = ◌+◌;
  decrement = λ t. t - 1;
  at_most = leb;
  less = ltb;
}

-- "key:a" has spent its burst, and "ip:b" has been idle for more than ten minutes.
abbrev limiter : RateLimiter ℕ
limiter = record {
  buckets =
      ("key:a", record { tokens = 0; last = pos 700000000000; seen = pos 700000000000 })
      ∷ ("ip:b", record { tokens = 2; last = pos 0; seen = pos 0 })
      ∷ [];
  rps = 1;
  burst = 2;
  idle_evic = pos 600000000000;
}

limiter_tests :
    ((allow whole_tokens limiter (pos 700000000001) "key:a").0 ≡ false)
    × ((allow whole_tokens limiter (pos 701000000000) "key:a").0 ≡ true)
unfolding allow allow_limited spend evict lookup insert ◌-ℤ◌
limiter_tests = (refl, refl)

allow-IsCapped_example :
    IsCapped whole_tokens (allow whole_tokens limiter (pos 701000000000) "key:a").1
allow-IsCapped_example =
    allow-IsCapped whole_tokens (λ a. ground arith) (λ a b h. ground arith) limiter
      (pos 701000000000) "key:a" (refl, (refl, tt))

window : ltb_ℤ limiter.idle_evic (pos 701000000000 -ℤ pos 701000000000) ≡ false
unfolding ◌-ℤ◌
window = refl
