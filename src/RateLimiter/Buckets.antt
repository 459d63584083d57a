-- ===== src/RateLimiter/Buckets.antt =====
-- What holds of the buckets after any sequence of requests.
use search_and_retrieval_sys.Prelude.{
  String, false, ◌≡◌, inl, inr, ◌==◌, Option, none, some, [], ◌∷◌, All, arith, Bool-cases,
}
use search_and_retrieval_sys.Prelude.Int.{ℤ, ◌-ℤ◌, ltb_ℤ}
use search_and_retrieval_sys.Prelude.Maps.{Map, lookup, insert}
use search_and_retrieval_sys.RateLimiter.{
  Rate, Bucket, RateLimiter, evict, bucket_of, refill, spend, write_back, allow_limited, allow,
}

module _ {F : Type 0} (P : Bucket F → Type 0) where
  abbrev pub AllBuckets : Map (Bucket F) → Type 0
  AllBuckets = All (λ (e : String × Bucket F). P e.1)

  insert-AllBuckets :
      (key : String) (b : Bucket F) (m : Map (Bucket F))
      → P b
      → AllBuckets m
      → AllBuckets (insert key b m)
  unfolding insert
  insert-AllBuckets key b [] p h = (p, tt)
  insert-AllBuckets key b ((k, c) ∷ m) p (q, h) = elim (Bool-cases (k == key)) [
    | inl same ↦ rw same (p, h)
    | inr other ↦ rw other (q, insert-AllBuckets key b m p h)
  ]

  lookup-AllBuckets :
      (key : String) (m : Map (Bucket F)) (b : Bucket F)
      → AllBuckets m
      → lookup key m ≡ some b
      → P b
  unfolding lookup
  lookup-AllBuckets key [] b h e = cc
  lookup-AllBuckets key ((k, c) ∷ m) b (q, h) e = elim (Bool-cases (k == key)) [
    | inl same ↦ let found : c ≡ b = ground arith in rw (← found) q
    | inr other ↦ lookup-AllBuckets key m b h (ground arith)
  ]

  evict-AllBuckets :
      (idle now : ℤ) (m : Map (Bucket F)) → AllBuckets m → AllBuckets (evict idle now m)
  unfolding evict
  evict-AllBuckets idle now [] h = tt
  evict-AllBuckets idle now ((k, b) ∷ m) (q, h) = elim (Bool-cases (ltb_ℤ idle (now -ℤ b.seen))) [
    | inl old ↦ rw old (evict-AllBuckets idle now m h)
    | inr young ↦ rw young (q, evict-AllBuckets idle now m h)
  ]

  write_back-AllBuckets :
      (rate : Rate F) (key : String) (b : Bucket F) (old : Option (Bucket F)) (m : Map (Bucket F))
      → P b
      → AllBuckets m
      → AllBuckets (write_back rate key b old m)
  write_back-AllBuckets rate key b none m p h = h
  write_back-AllBuckets rate key b (some old) m p h = insert-AllBuckets key b m p h

module _ {F : Type 0} (rate : Rate F) where
  -- No bucket holds more than the burst.
  abbrev pub IsCapped : RateLimiter F → Type 0
  IsCapped rl = AllBuckets (λ b. rate.less rl.burst b.tokens ≡ false) rl.buckets

  -- A new bucket is full, and time and requests keep a bucket within the burst.
  refill-capped :
      ((a : F) → rate.less a a ≡ false)
      → (rl : RateLimiter F) (now : ℤ) (b : Bucket F)
      → rate.less rl.burst (refill rate rl now b).tokens ≡ false
  refill-capped irrefl rl now b = ground (arith, irrefl rl.burst)

  spend-capped :
      (burst : F) (b : Bucket F)
      → (rate.less burst b.tokens ≡ false → rate.less burst (rate.decrement b.tokens) ≡ false)
      → rate.less burst b.tokens ≡ false
      → rate.less burst (spend rate b).1.tokens ≡ false
  unfolding spend
  spend-capped burst b lowers h = ground arith

  -- Whatever the requests are and whenever they come, no client ever holds more tokens than the
  -- burst, where no number is less than itself and a decrement does not raise one above another.
  pub allow-IsCapped :
      ((a : F) → rate.less a a ≡ false)
      → ((a b : F) → rate.less a b ≡ false → rate.less a (rate.decrement b) ≡ false)
      → (rl : RateLimiter F) (now : ℤ) (key : String) → IsCapped rl
      → IsCapped (allow rate rl now key).1
  unfolding allow allow_limited
  allow-IsCapped irrefl lowers rl now key h = elim (Bool-cases (rate.at_most rl.rps rate.zero)) [
    | inl open_mode ↦ rw open_mode h
    | inr limited ↦
        let b = refill rate rl now (bucket_of rate rl now (lookup key rl.buckets)) in
        let kept = evict rl.idle_evic now (insert key b rl.buckets) in
        let full = refill-capped irrefl rl now (bucket_of rate rl now (lookup key rl.buckets)) in
        rw limited (
          write_back-AllBuckets (λ c. rate.less rl.burst c.tokens ≡ false) rate key (spend rate b).1
            (lookup key kept) kept (spend-capped rl.burst b (lowers rl.burst b.tokens) full)
            (evict-AllBuckets (λ c. rate.less rl.burst c.tokens ≡ false) rl.idle_evic now
              (insert key b rl.buckets)
              (insert-AllBuckets (λ c. rate.less rl.burst c.tokens ≡ false) key b rl.buckets full
                h)))
  ]

-- Whoever has been idle for too long is dropped.
abbrev pub IsRecent : {F : Type 0} → ℤ → ℤ → Bucket F → Type 0
IsRecent idle now b = ltb_ℤ idle (now -ℤ b.seen) ≡ false

evict-IsRecent :
    {F : Type 0} (idle now : ℤ) (m : Map (Bucket F))
    → AllBuckets (IsRecent idle now) (evict idle now m)
unfolding evict
evict-IsRecent idle now [] = tt
evict-IsRecent idle now ((k, b) ∷ m) = elim (Bool-cases (ltb_ℤ idle (now -ℤ b.seen))) [
  | inl old ↦ rw old (evict-IsRecent idle now m)
  | inr young ↦ rw young (young, evict-IsRecent idle now m)
]

module _ {F : Type 0} (rate : Rate F) where
  -- After a request under a limit, every bucket has been seen within the idle window, so the memory
  -- is bounded by the clients of one window.
  allow-IsRecent :
      (rl : RateLimiter F) (now : ℤ) (key : String)
      → rate.at_most rl.rps rate.zero ≡ false
      → ltb_ℤ rl.idle_evic (now -ℤ now) ≡ false
      → AllBuckets (IsRecent rl.idle_evic now) (allow rate rl now key).1.buckets
  unfolding allow allow_limited spend
  allow-IsRecent rl now key limited window =
      let b = refill rate rl now (bucket_of rate rl now (lookup key rl.buckets)) in
      let kept = evict rl.idle_evic now (insert key b rl.buckets) in
      rw limited (
        write_back-AllBuckets (IsRecent rl.idle_evic now) rate key (spend rate b).1
          (lookup key kept) kept (spend-IsRecent b window)
          (evict-IsRecent rl.idle_evic now (insert key b rl.buckets)))
    where
      spend-IsRecent :
          (b : Bucket F)
          → ltb_ℤ rl.idle_evic (now -ℤ b.seen) ≡ false
          → ltb_ℤ rl.idle_evic (now -ℤ (spend rate b).1.seen) ≡ false
      spend-IsRecent b h = elim (Bool-cases (rate.less b.tokens rate.one)) [
        | inl few ↦ rw few h
        | inr enough ↦ rw enough h
      ]
