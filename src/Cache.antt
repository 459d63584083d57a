-- ===== src/Cache.antt =====
-- internal/cache/cache.go: keys, generations, and the answers that Redis gives. `to_lower` is
-- `strings.ToLower`, `order` the order in which `range` visits the filters; Redis is a parameter.
pub mod Key
pub mod Store
use Prim.Native.String.{◌++◌}
use mathlib.Core.Option
use search_and_retrieval_sys.Prelude.{
  String, Bool, true, false, ◌==◌, Option, none, some, List, [], ◌∷◌, if◌then◌else◌,
}
use search_and_retrieval_sys.Prelude.Int.{ℤ, pos}
use search_and_retrieval_sys.Prelude.Text.{decimal, trim_space}
use search_and_retrieval_sys.Prelude.Order.{before}
use search_and_retrieval_sys.Prelude.Sort.{sort}
use search_and_retrieval_sys.Prelude.Maps.{Map, lookup, keys}

-- The part of a key for the filters, in the order of their names.
unfoldable pub filters_text : Map String → List String → String
filters_text filters [] = ""
filters_text filters (k ∷ ks) =
    "|" ++ k ++ "=" ++ Option.get_or (lookup k filters) "" ++ filters_text filters ks

-- The text that `Key` hashes.
unfoldable pub key_text :
    (String → String) → (List String → List String) → String → Map String → ℤ → String
unfolding filters_text
key_text to_lower order query filters gen =
    "g"
    ++ decimal gen
    ++ "|"
    ++ to_lower (trim_space query)
    ++ filters_text filters (sort before (order (keys filters)))

-- `hex_sha1` is the SHA-1 in hexadecimal.
unfoldable pub key :
    (String → String)
    → (String → String)
    → (List String → List String)
    → String
    → Map String
    → ℤ
    → String
unfolding key_text
key hex_sha1 to_lower order query filters gen =
    "ans:" ++ hex_sha1 (key_text to_lower order query filters gen)

unfoldable pub gen_key : String → String
gen_key tenant = "gen:" ++ (if tenant == "" then "_global" else tenant)

-- How Redis answers a request, if there is a client: `none` is an error or a missing key.
-- `parse_int` is what `strconv.ParseInt` returns beside its error.
pub record Redis : Type 0 where
  pub connected : Bool
  pub get : String → Option String
  pub parse_int : String → ℤ

unfoldable pub generation : Redis → String → ℤ
unfolding gen_key
generation redis tenant =
    if redis.connected
    then (elim (redis.get (gen_key tenant)) [ none ↦ pos 0 | some value ↦ redis.parse_int value ])
    else pos 0

-- `Get`, whose decoding may fail; a failure is a miss.
unfoldable pub get_cached : {A : Type 0} → (String → Option A) → Redis → String → Option A
get_cached decode redis key =
    if redis.connected
    then (elim (redis.get key) [ none ↦ none | some value ↦ decode value ])
    else none

-- `Set`: the value that is written, if any.
unfoldable pub set_cached : {A : Type 0} → (A → Option String) → Redis → A → Option String
set_cached encode redis value = if redis.connected then encode value else none
