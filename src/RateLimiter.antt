-- ===== src/RateLimiter.antt =====
-- cmd/query/middleware.go: the token buckets and the key of a client. A float64 is an abstract type
-- with the operations that the code uses; `now` is what the clock returns, in nanoseconds. `allow`
-- holds the mutex for its whole body, so a call is one step on the state.
pub mod Buckets
use Prim.Native.String.{◌++◌}
use search_and_retrieval_sys.Prelude.{
  String, Bool, true, false, ◌==◌, Option, none, some, List, [], ◌∷◌, if◌then◌else◌,
}
use search_and_retrieval_sys.Prelude.Int.{ℤ, ◌-ℤ◌, ltb_ℤ}
use search_and_retrieval_sys.Prelude.Text.{trim_space, cut_before}
use search_and_retrieval_sys.Prelude.Maps.{Map, lookup, insert}

-- `seconds d` is `d.Seconds()`, `decrement t` is `t - 1`, `at_most` is `<=` and `less` is `<`.
pub record Rate (F : Type 0) : Type 0 where
  pub zero : F
  pub one : F
  pub seconds : ℤ → F
  pub multiply : F → F → F
  pub add : F → F → F
  pub decrement : F → F
  pub at_most : F → F → Bool
  pub less : F → F → Bool

pub record Bucket (F : Type 0) : Type 0 where
  pub tokens : F
  pub last : ℤ
  pub seen : ℤ

pub record RateLimiter (F : Type 0) : Type 0 where
  pub buckets : Map (Bucket F)
  pub rps : F
  pub burst : F
  pub idle_evic : ℤ

-- `evictLocked`
unfoldable pub evict : {F : Type 0} → ℤ → ℤ → Map (Bucket F) → Map (Bucket F)
evict idle now [] = []
evict idle now ((key, b) ∷ buckets) =
    let rest = evict idle now buckets in
    if ltb_ℤ idle (now -ℤ b.seen) then rest else (key, b) ∷ rest

-- `net.SplitHostPort`, which stands in no file here, is `split_host`; `none` is its error.
unfoldable pub client_key : (String → Option String) → (String → String) → String → String
client_key split_host header remote_addr =
    if header "X-API-Key" == ""
    then (if header "X-Forwarded-For" == ""
        then "ip:" ++ (elim (split_host remote_addr) [ none ↦ remote_addr | some host ↦ host ])
        else "ip:" ++ trim_space (cut_before b',' (header "X-Forwarded-For")))
    else "key:" ++ header "X-API-Key"

module _ {F : Type 0} (rate : Rate F) where
  -- The bucket of a client, or a full new one.
  abbrev pub bucket_of : RateLimiter F → ℤ → Option (Bucket F) → Bucket F
  bucket_of rl now none = record { tokens = rl.burst; last = now; seen = now }
  bucket_of rl now (some b) = b

  -- The tokens after the time that has passed, capped.
  abbrev pub refilled : RateLimiter F → ℤ → Bucket F → F
  refilled rl now b =
      let tokens = rate.add b.tokens (rate.multiply (rate.seconds (now -ℤ b.last)) rl.rps) in
      if rate.less rl.burst tokens then rl.burst else tokens

  abbrev pub refill : RateLimiter F → ℤ → Bucket F → Bucket F
  refill rl now b = record { tokens = refilled rl now b; last = now; seen = now }

  -- The bucket after the request, and whether the request may proceed.
  unfoldable pub spend : Bucket F → Bool × Bucket F
  spend b =
      if rate.less b.tokens rate.one
      then (false, b)
      else (true, record b { tokens = rate.decrement b.tokens })

  -- The bucket is shared with the map, so what is spent after the eviction is seen there, unless it
  -- was evicted itself.
  abbrev pub write_back : String → Bucket F → Option (Bucket F) → Map (Bucket F) → Map (Bucket F)
  write_back key b none buckets = buckets
  write_back key b (some old) buckets = insert key b buckets

  -- A request under a limit.
  unfoldable pub allow_limited : RateLimiter F → ℤ → String → Bool × RateLimiter F
  unfolding spend evict
  allow_limited rl now key =
      let b = refill rl now (bucket_of rl now (lookup key rl.buckets)) in
      let kept = evict rl.idle_evic now (insert key b rl.buckets) in
      let (ok, spent) = spend b in
      (ok, record rl { buckets = write_back key spent (lookup key kept) kept })

  unfoldable pub allow : RateLimiter F → ℤ → String → Bool × RateLimiter F
  unfolding allow_limited
  allow rl now key = if rate.at_most rl.rps rate.zero then (true, rl) else allow_limited rl now key
