-- ===== src/Cache/Store/Fresh.antt =====
-- After a write for a tenant no answer that was begun before it is served to the tenant.

use text.Mathlib.TextLemmas.{append_cancel_left}
use search_and_retrieval_sys.Prelude.{
  String, ◌≡◌, refl, sym, subst, ◌∙◌, inl, inr, ◌==◌, eq_iff, Bool-cases, none, some, [], All,
  All-map, All-Elem, Elem, head, tail, if◌then◌else◌, arith,
}
use search_and_retrieval_sys.Prelude.Int.{ℤ, pos, ◌+ℤ◌, ◌≤ℤ◌, ◌<ℤ◌, +ℤ_parts}
use search_and_retrieval_sys.Prelude.Maps.{Map}
use search_and_retrieval_sys.Cache.{key, gen_key}
use search_and_retrieval_sys.Cache.Key.{key_text-separates}
use search_and_retrieval_sys.Cache.Store.{
  Commands, Hashing, Ask, Saved, World, current, answer_key, begin_ask, save_answer,
  bump_generation, lose_answer, Step, begins, saves, bumps, loses, Steps, done, more,
}
use search_and_retrieval_sys.Cache.Store.Generations.{
  IsStore, gen_key-ne-key, current-set, current-expire, current-incr, current-incr-le, Steps-raises,
}

module _ {S : Type 0} (commands : Commands S) (hashing : Hashing) (store : IsStore commands) where
  abbrev pub place_of : String → Map String → ℤ → String
  place_of query filters gen = answer_key commands hashing query filters gen

  abbrev pub now : World S → String → ℤ
  now w tenant = current commands hashing w.store tenant

  -- What is known of a world that no answer was in at first.
  record IsTraced (w : World S) : Type 0 where
    served :
        (query : String) (filters : Map String) (gen : ℤ) (v : String)
        → commands.get (place_of query filters gen) w.store ≡ some v
        → (x : Saved) × Elem x w.saved × (x.place ≡ place_of query filters gen) × (x.value ≡ v)
    begun : All (λ (a : Ask). a.gen ≤ℤ now w a.tenant) w.asks
    placed :
        All
          (λ (x : Saved).
            (query : String) × (filters : Map String) × (x.place
              ≡ place_of query filters x.ask.gen))
          w.saved

  begin_ask-IsTraced :
      (tenant : String) (w : World S) → IsTraced w → IsTraced (begin_ask commands hashing tenant w)
  unfolding begin_ask
  begin_ask-IsTraced tenant w t = record {
    served = t.served;
    begun = (omega arith, t.begun);
    placed = t.placed;
  }

  save_answer-IsTraced :
      (a : Ask) (query : String) (filters : Map String) (value : String) (w : World S)
      → IsTraced w
      → IsTraced (save_answer commands hashing a query filters value w)
  unfolding save_answer
  save_answer-IsTraced a query filters value w t = record {
    served = λ q f g v h.
        let written : (if place_of query filters a.gen == place_of q f g
              then some value
              else commands.get (place_of q f g) w.store)
            ≡ some v =
          sym (store.get_set (place_of query filters a.gen) (place_of q f g) value w.store) ∙ h in
        elim (Bool-cases (place_of query filters a.gen == place_of q f g)) [
          | inl same ↦ (
            record { ask = a; place = place_of query filters a.gen; value = value },
            head refl,
            (eq_iff (place_of query filters a.gen) (place_of q f g)).0 same,
            ground arith,
          )
          | inr apart ↦ let (x, l, p, e) = t.served q f g v (ground arith) in (x, tail l, p, e)
        ];
    begun =
        All-map
          (λ b (h : b.gen ≤ℤ now w b.tenant).
            subst (λ n. b.gen ≤ℤ n)
              (sym (current-set commands hashing store query filters a.gen value b.tenant w.store))
              h)
          w.asks t.begun;
    placed = ((query, filters, refl), t.placed);
  }

  bump_generation-IsTraced :
      (tenant : String) (w : World S)
      → IsTraced w
      → IsTraced (bump_generation commands hashing tenant w)
  unfolding bump_generation
  bump_generation-IsTraced tenant w t = record {
    served = λ q f g v h. t.served q f g v (
        sym (
          store.get_incr (gen_key tenant) (place_of q f g) w.store
            (λ e. gen_key-ne-key tenant hashing q f g (sym e)))
        ∙ h);
    begun =
        All-map
          (λ b (h : b.gen ≤ℤ now w b.tenant).
            omega (arith, current-incr-le commands hashing store tenant b.tenant w.store))
          w.asks t.begun;
    placed = t.placed;
  }

  lose_answer-IsTraced :
      (query : String) (filters : Map String) (gen : ℤ) (w : World S)
      → IsTraced w
      → IsTraced (lose_answer commands hashing query filters gen w)
  unfolding lose_answer
  lose_answer-IsTraced query filters gen w t = record {
    served = λ q f g v h.
        let left : (if place_of query filters gen == place_of q f g
              then none
              else commands.get (place_of q f g) w.store)
            ≡ some v =
          sym (store.get_expire (place_of query filters gen) (place_of q f g) w.store) ∙ h in
        t.served q f g v (ground arith);
    begun =
        All-map
          (λ b (h : b.gen ≤ℤ now w b.tenant).
            subst (λ n. b.gen ≤ℤ n)
              (sym (current-expire commands hashing store query filters gen b.tenant w.store)) h)
          w.asks t.begun;
    placed = t.placed;
  }

  Step-IsTraced : {w w' : World S} → Step commands hashing w w' → IsTraced w → IsTraced w'
  Step-IsTraced {w} (begins t w' e) h = subst IsTraced (sym e) (begin_ask-IsTraced t w h)
  Step-IsTraced {w} (saves a query filters value w' l e) h =
      subst IsTraced (sym e) (save_answer-IsTraced a query filters value w h)
  Step-IsTraced {w} (bumps t w' e) h = subst IsTraced (sym e) (bump_generation-IsTraced t w h)
  Step-IsTraced {w} (loses query filters gen w' e) h =
      subst IsTraced (sym e) (lose_answer-IsTraced query filters gen w h)

  Steps-IsTraced : {w w' : World S} → Steps commands hashing w w' → IsTraced w → IsTraced w'
  Steps-IsTraced (done e) h = subst IsTraced (sym e) h
  Steps-IsTraced (more steps step) h = Step-IsTraced step (Steps-IsTraced steps h)

  -- Redis holds no answer, and no question has begun.
  pub record IsStart (w : World S) : Type 0 where
    pub none_stored :
        (query : String) (filters : Map String) (gen : ℤ)
        → commands.get (place_of query filters gen) w.store ≡ none
    pub none_begun : w.asks ≡ []
    pub none_saved : w.saved ≡ []

  IsStart-IsTraced : (w : World S) → IsStart w → IsTraced w
  IsStart-IsTraced w start = record {
    served = λ q f g v h. absurd (ground (arith, start.none_stored q f g));
    begun = subst (λ l. All (λ (a : Ask). a.gen ≤ℤ now w a.tenant) l) (sym start.none_begun) tt;
    placed =
        subst
          (λ l.
            All
              (λ (x : Saved).
                (query : String) × (filters : Map String) × (x.place
                  ≡ place_of query filters x.ask.gen))
              l)
          (sym start.none_saved) tt;
  }

  -- After a bump of a tenant's generation, an answer that stands under a key of the tenant's
  -- current generation was saved for a question that read a later generation than the one before
  -- the bump: it is none of those that the tenant had begun by then, however questions, saves,
  -- bumps and losses interleave, if Redis starts without answers, no counter overflows and no two
  -- hashed texts collide.
  pub fresh_after_bump :
      ((s t : String) → hashing.hex_sha1 s ≡ hashing.hex_sha1 t → s ≡ t)
      → (start w w' : World S) (tenant query : String) (filters : Map String) (v : String)
      → IsStart start
      → Steps commands hashing start w
      → Steps commands hashing (bump_generation commands hashing tenant w) w'
      → commands.get (place_of query filters (now w' tenant)) w'.store ≡ some v
      → (x : Saved) × Elem x w'.saved
        × (x.value ≡ v)
        × (now w tenant <ℤ x.ask.gen)
        × (¬ (Elem x.ask w.asks × (x.ask.tenant ≡ tenant)))
  unfolding key
  fresh_after_bump collision_free start w w' tenant query filters v empty before after hit =
      let traced = Steps-IsTraced before (IsStart-IsTraced start empty) in
      let traced' = Steps-IsTraced after (bump_generation-IsTraced tenant w traced) in
      let (x, l, p, e) = traced'.served query filters (now w' tenant) v hit in
      let (q, f, own) = All-Elem _ traced'.placed l in
      let same : x.ask.gen ≡ now w' tenant =
        same_gen q query f filters x.ask.gen (now w' tenant) (sym own ∙ p) in
      let raised : now (bump_generation commands hashing tenant w) tenant ≤ℤ now w' tenant =
        Steps-raises commands hashing store tenant after in
      let bumped : now (bump_generation commands hashing tenant w) tenant ≡ now w tenant +ℤ pos 1 =
        unfold bump_generation in current-incr commands hashing store tenant w.store in
      let above : (now w tenant +ℤ pos 1) ≤ℤ now w' tenant =
        subst (λ n. n ≤ℤ now w' tenant) bumped raised in
      let up : now w tenant <ℤ x.ask.gen =
        subst (λ n. now w tenant <ℤ n) (sym same)
          (omega (arith, +ℤ_parts (now w tenant) (pos 1))) in
      (x, l, e, up, λ m. before_write x.ask up (All-Elem _ traced.begun m.0) m.1)
    where
      same_gen :
          (q q' : String) (f f' : Map String) (g g' : ℤ)
          → place_of q f g ≡ place_of q' f' g'
          → g ≡ g'
      same_gen q q' f f' g g' e =
          key_text-separates hashing.to_lower hashing.order q q' f f' g g'
            (collision_free _ _ (append_cancel_left "ans:" _ _ e))

      before_write :
          (a : Ask) → now w tenant <ℤ a.gen → a.gen ≤ℤ now w a.tenant → a.tenant ≡ tenant → ⊥
      before_write a up h e =
          let low : a.gen ≤ℤ now w tenant = subst (λ t. a.gen ≤ℤ now w t) e h in omega arith
