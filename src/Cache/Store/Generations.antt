-- ===== src/Cache/Store/Generations.antt =====
-- The generations of the tenants never fall, and a write raises that of its tenant.
use Prim.Native.String.{◌++◌}
use Prim.Native.String.append
use search_and_retrieval_sys.Prelude.{
  String, ◌≡◌, ◌≢◌, refl, sym, ap, subst, ◌∙◌, inl, inr, ◌==◌, eq_iff, Bool-cases, Option, none,
  some, if◌then◌else◌, arith,
}
use search_and_retrieval_sys.Prelude.Int.{ℤ, pos, ◌+ℤ◌, ◌≤ℤ◌, +ℤ_parts}
use search_and_retrieval_sys.Prelude.Text.Parse.{leading}
use search_and_retrieval_sys.Prelude.Maps.{Map}
use search_and_retrieval_sys.Cache.{key, key_text, gen_key, generation}
use search_and_retrieval_sys.Cache.Store.{
  Commands, Hashing, World, current, answer_key, begin_ask, save_answer, bump_generation,
  lose_answer, Step, begins, saves, bumps, loses, Steps, done, more,
}

module _ {S : Type 0} (commands : Commands S) where
  -- The number under a key, which is 0 if there is none.
  abbrev pub number : String → S → ℤ
  number k s = elim (commands.get k s) [ none ↦ pos 0 | some v ↦ commands.parse_int v ]

  -- What Redis documents of its commands, while no counter overflows.
  pub record IsStore : Type 0 where
    pub get_set :
        (j k v : String) (s : S)
        → commands.get k (commands.set j v s) ≡ (if j == k then some v else commands.get k s)
    pub get_expire :
        (j k : String) (s : S)
        → commands.get k (commands.expire j s) ≡ (if j == k then none else commands.get k s)
    pub get_incr :
        (j k : String) (s : S) → j ≢ k → commands.get k (commands.incr j s) ≡ commands.get k s
    pub incr_up : (k : String) (s : S) → number k (commands.incr k s) ≡ number k s +ℤ pos 1

pub gen_key-ne-key :
    (tenant : String) (hashing : Hashing) (query : String) (filters : Map String) (gen : ℤ)
    → key hashing.hex_sha1 hashing.to_lower hashing.order query filters gen ≢ gen_key tenant
unfolding key gen_key
gen_key-ne-key tenant hashing query filters gen e =
    let text : String =
      hashing.hex_sha1 (key_text hashing.to_lower hashing.order query filters gen) in
    let answers : leading ("ans:" ++ text) ≡ 97 = rw append.cons in
    let generations : leading ("gen:" ++ (if tenant == "" then "_global" else tenant)) ≡ 103 =
      rw append.cons in
    let same : leading ("ans:" ++ text)
        ≡ leading ("gen:" ++ (if tenant == "" then "_global" else tenant)) =
      ap leading e in
    omega arith

le_of_eq : (a b : ℤ) → b ≡ a → a ≤ℤ b
le_of_eq a b e = rw e (omega arith)

module _ {S : Type 0} (commands : Commands S) (hashing : Hashing) (store : IsStore commands) where
  current-number :
      (s : S) (tenant : String)
      → current commands hashing s tenant ≡ number commands (gen_key tenant) s
  unfolding current generation
  current-number s tenant = refl

  abbrev place_of : String → Map String → ℤ → String
  place_of query filters gen = answer_key commands hashing query filters gen

  abbrev now : World S → String → ℤ
  now w tenant = current commands hashing w.store tenant

  current-same :
      (s s' : S) (tenant : String)
      → commands.get (gen_key tenant) s' ≡ commands.get (gen_key tenant) s
      → current commands hashing s' tenant ≡ current commands hashing s tenant
  unfolding current generation
  current-same s s' tenant e = rw e

  get-other :
      (j : String) (tenant : String) (other : Option String) (s : S)
      → j ≢ gen_key tenant
      → (if j == gen_key tenant then other else commands.get (gen_key tenant) s)
        ≡ commands.get (gen_key tenant) s
  get-other j tenant other s h = elim (Bool-cases (j == gen_key tenant)) [
    | inl same ↦ absurd (h ((eq_iff j (gen_key tenant)).0 same))
    | inr apart ↦ rw apart
  ]

  pub current-set :
      (query : String) (filters : Map String) (gen : ℤ) (value tenant : String) (s : S)
      → current commands hashing (commands.set (place_of query filters gen) value s) tenant
        ≡ current commands hashing s tenant
  current-set query filters gen value tenant s =
      current-same s (commands.set (place_of query filters gen) value s) tenant (
        store.get_set (place_of query filters gen) (gen_key tenant) value s
        ∙ get-other (place_of query filters gen) tenant (some value) s
            (gen_key-ne-key tenant hashing query filters gen))

  pub current-expire :
      (query : String) (filters : Map String) (gen : ℤ) (tenant : String) (s : S)
      → current commands hashing (commands.expire (place_of query filters gen) s) tenant
        ≡ current commands hashing s tenant
  current-expire query filters gen tenant s =
      current-same s (commands.expire (place_of query filters gen) s) tenant (
        store.get_expire (place_of query filters gen) (gen_key tenant) s
        ∙ get-other (place_of query filters gen) tenant none s
            (gen_key-ne-key tenant hashing query filters gen))

  pub current-incr :
      (tenant : String) (s : S)
      → current commands hashing (commands.incr (gen_key tenant) s) tenant
        ≡ current commands hashing s tenant +ℤ pos 1
  current-incr tenant s =
      current-number (commands.incr (gen_key tenant) s) tenant
      ∙ store.incr_up (gen_key tenant) s
      ∙ ap (λ n. n +ℤ pos 1) (sym (current-number s tenant))

  pub current-incr-le :
      (other tenant : String) (s : S)
      → current commands hashing s tenant
        ≤ℤ current commands hashing (commands.incr (gen_key other) s) tenant
  current-incr-le other tenant s = elim (Bool-cases (gen_key other == gen_key tenant)) [
    | inl same ↦
        let key : gen_key other ≡ gen_key tenant =
          (eq_iff (gen_key other) (gen_key tenant)).0 same in
        subst
          (λ k.
            current commands hashing s tenant
            ≤ℤ current commands hashing (commands.incr k s) tenant)
          (sym key)
          (subst (λ v. current commands hashing s tenant ≤ℤ v) (sym (current-incr tenant s))
            (omega (arith, +ℤ_parts (current commands hashing s tenant) (pos 1))))
    | inr apart ↦ le_of_eq _ _ (
        current-same s (commands.incr (gen_key other) s) tenant (
          store.get_incr (gen_key other) (gen_key tenant) s
            (λ e. ground (arith, (eq_iff (gen_key other) (gen_key tenant)).1 e))))
  ]

  -- No step lowers a generation.
  Step-raises :
      {w w' : World S} (tenant : String)
      → Step commands hashing w w'
      → now w tenant ≤ℤ now w' tenant
  Step-raises {w} tenant (begins t w' e) =
      subst (λ x. now w tenant ≤ℤ now x tenant) (sym e) (unfold begin_ask in omega arith)
  Step-raises {w} tenant (saves a query filters value w' l e) =
      subst (λ x. now w tenant ≤ℤ now x tenant) (sym e)
        (unfold save_answer in le_of_eq _ _ (current-set query filters a.gen value tenant w.store))
  Step-raises {w} tenant (bumps t w' e) =
      subst (λ x. now w tenant ≤ℤ now x tenant) (sym e)
        (unfold bump_generation in current-incr-le t tenant w.store)
  Step-raises {w} tenant (loses query filters gen w' e) =
      subst (λ x. now w tenant ≤ℤ now x tenant) (sym e)
        (unfold lose_answer in le_of_eq _ _ (current-expire query filters gen tenant w.store))

  pub Steps-raises :
      {w w' : World S} (tenant : String)
      → Steps commands hashing w w'
      → now w tenant ≤ℤ now w' tenant
  Steps-raises {w} tenant (done e) = subst (λ x. now w tenant ≤ℤ now x tenant) (sym e) (omega arith)
  Steps-raises tenant (more steps step) =
      omega (arith, Steps-raises tenant steps, Step-raises tenant step)
