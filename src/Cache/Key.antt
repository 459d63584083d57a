-- ===== src/Cache/Key.antt =====
-- What tells the keys of the cache apart, and what does not.
use mathlib.Core.List.{Permᴰ}
use mathlib.Core.List.Permᴰ
use text.Mathlib.TextLemmas.{append_cancel_left}
use search_and_retrieval_sys.Prelude.{String, ◌≡◌, ◌≢◌, List, [], ◌∷◌, arith, eq_iff, All}
use search_and_retrieval_sys.Prelude.Int.{ℤ}
use search_and_retrieval_sys.Prelude.Text.{Stops-bar, decimal-append_inj}
use search_and_retrieval_sys.Prelude.Order.{before, before_irrefl, before_trans, before_total}
use search_and_retrieval_sys.Prelude.Sort.{IsStrict, sort-eq_of_perm}
use search_and_retrieval_sys.Prelude.Maps.{Map, keys}
use search_and_retrieval_sys.Cache.{key_text, gen_key}

-- A new generation makes every key of another generation unreachable: the texts that are hashed for
-- two generations differ, whatever the queries and the filters are.
pub key_text-separates :
    (to_lower : String → String) (order : List String → List String) (query query' : String)
    (filters filters' : Map String) (gen gen' : ℤ)
    → key_text to_lower order query filters gen ≡ key_text to_lower order query' filters' gen'
    → gen ≡ gen'
unfolding key_text
key_text-separates to_lower order query query' filters filters' gen gen' e =
    decimal-append_inj gen gen' _ _ (Stops-bar _) (Stops-bar _) (append_cancel_left "g" _ _ e)

before-IsStrict : IsStrict before (λ (s : String). Unit {0})
before-IsStrict = record {
  irrefl = λ a _. before_irrefl a;
  trans = λ a b c _ _ _ h k. before_trans a b c h k;
  total = λ a b _ _. ground (arith, before_total a b, eq_iff a b);
}

always : (ks : List String) → All (λ (s : String). Unit {0}) ks
always [] = tt
always (k ∷ ks) = (tt, always ks)

-- The key does not depend on the order in which Go visits the filters.
key_text-perm :
    (to_lower : String → String) (order order' : List String → List String) (query : String)
    (filters : Map String) (gen : ℤ)
    → ((ks : List String) → Permᴰ (order ks) ks)
    → ((ks : List String) → Permᴰ (order' ks) ks)
    → key_text to_lower order query filters gen ≡ key_text to_lower order' query filters gen
unfolding key_text
key_text-perm to_lower order order' query filters gen fair fair' = rw (
    sort-eq_of_perm before before-IsStrict
      (Permᴰ.trans (fair (keys filters)) (Permᴰ.symm (fair' (keys filters)))) (always _))

-- Two tenants share a generation only if one is the tenant named "_global" and the other is none.
gen_key-injective : (s t : String) → s ≢ "_global" → t ≢ "_global" → gen_key s ≡ gen_key t → s ≡ t
unfolding gen_key
gen_key-injective s t h k e =
    let same = append_cancel_left "gen:" _ _ e in ground (arith, eq_iff s "", eq_iff t "")
