-- ===== src/Cache/Store.antt =====
-- internal/cache/cache.go over time: what the indexer's and the query service's calls make of Redis, as a
-- step relation. A question reads the generation first and saves its answer later, under the key of
-- what it has read. Redis is a parameter, with a state `S`.
pub mod Generations
pub mod Fresh
use search_and_retrieval_sys.Prelude.{String, true, ◌≡◌, Option, none, some, List, [], ◌∷◌, Elem}
use search_and_retrieval_sys.Prelude.Int.{ℤ}
use search_and_retrieval_sys.Prelude.Maps.{Map}
use search_and_retrieval_sys.Cache.{Redis, key, gen_key, generation}

-- The commands `GET`, `SET` and `INCR`, the loss of a key by its TTL, and `strconv.ParseInt`.
pub record Commands (S : Type 0) : Type 0 where
  pub get : String → S → Option String
  pub set : String → String → S → S
  pub incr : String → S → S
  pub expire : String → S → S
  pub parse_int : String → ℤ

-- `hex_sha1`, `strings.ToLower` and the order in which `range` visits the filters.
pub record Hashing : Type 0 where
  pub hex_sha1 : String → String
  pub to_lower : String → String
  pub order : List String → List String

-- A question that has read the generation of its tenant.
pub record Ask : Type 0 where
  pub tenant : String
  pub gen : ℤ

-- An answer that was saved.
pub record Saved : Type 0 where
  pub ask : Ask
  pub place : String
  pub value : String

-- The state of Redis, the questions that were begun and the answers that were saved.
pub record World (S : Type 0) : Type 0 where
  pub store : S
  pub asks : List Ask
  pub saved : List Saved

module _ {S : Type 0} (commands : Commands S) (hashing : Hashing) where
  -- What a client sees of a state.
  abbrev pub view : S → Redis
  view s = record { connected = true; get = λ k. commands.get k s; parse_int = commands.parse_int }

  unfoldable pub current : S → String → ℤ
  current s tenant = generation (view s) tenant

  abbrev pub answer_key : String → Map String → ℤ → String
  answer_key query filters gen =
      key hashing.hex_sha1 hashing.to_lower hashing.order query filters gen

  unfoldable pub begin_ask : String → World S → World S
  unfolding current
  begin_ask tenant w = record w {
    asks = record { tenant = tenant; gen = current w.store tenant } ∷ w.asks;
  }

  unfoldable pub save_answer : Ask → String → Map String → String → World S → World S
  save_answer a query filters value w = record w {
    store = commands.set (answer_key query filters a.gen) value w.store;
    saved = record { ask = a; place = answer_key query filters a.gen; value = value } ∷ w.saved;
  }

  -- `BumpGeneration`
  unfoldable pub bump_generation : String → World S → World S
  bump_generation tenant w = record w { store = commands.incr (gen_key tenant) w.store }

  unfoldable pub lose_answer : String → Map String → ℤ → World S → World S
  lose_answer query filters gen w = record w {
    store = commands.expire (answer_key query filters gen) w.store;
  }

  pub data Step (w : World S) : World S → Type 0 where
    begins : (tenant : String) (w' : World S) → w' ≡ begin_ask tenant w → Step w w'
    saves :
        (a : Ask) (query : String) (filters : Map String) (value : String) (w' : World S)
        → Elem a w.asks
        → w' ≡ save_answer a query filters value w
        → Step w w'
    bumps : (tenant : String) (w' : World S) → w' ≡ bump_generation tenant w → Step w w'
    loses :
        (query : String) (filters : Map String) (gen : ℤ) (w' : World S)
        → w' ≡ lose_answer query filters gen w
        → Step w w'

  pub data Steps (w : World S) : World S → Type 0 where
    done : {w' : World S} → w' ≡ w → Steps w w'
    more : {w' w'' : World S} → Steps w w' → Step w' w'' → Steps w w''
