-- ===== src/Prelude/Maps.antt =====
-- A Go map with string keys, as an association list: `lookup` is `v, ok := m[k]`, `insert` is
-- `m[k] = v`, `delete` is `delete(m, k)`. The order of a `range` over a map is an argument where
-- it matters.
use Prim.Native.String.{String}
use mathlib.Core.Path.{◌≡◌, refl, ap₂}
use mathlib.Core.Logic.{◌≢◌, inl, inr}
use mathlib.Core.Option.{Option, none, some}
use mathlib.Core.List.{List, [], ◌∷◌}
use native.Mathlib.Omega.{arith}
use text.Mathlib.Text.{◌==◌}
use text.Mathlib.TextEquality.{eq_iff}
use search_and_retrieval_sys.Prelude.Tests.{if◌then◌else◌, Bool-cases}
use search_and_retrieval_sys.Prelude.Lists.{All, Elem, head, tail}

abbrev pub Map {ℓ} : Type ℓ → Type ℓ
Map V = List (String × V)

-- The keys of a map, in the order of its entries.
abbrev pub keys {ℓ} : {V : Type ℓ} → Map V → List String
keys [] = []
keys ((key, value) ∷ rest) = key ∷ keys rest

module _ {ℓ} {V : Type ℓ} where
  unfoldable pub lookup : String → Map V → Option V
  lookup key [] = none
  lookup key ((k, value) ∷ rest) =
      let later = lookup key rest in if k == key then some value else later

  unfoldable pub insert : String → V → Map V → Map V
  insert key new [] = (key, new) ∷ []
  insert key new ((k, value) ∷ rest) =
      let later = insert key new rest in if k == key then (key, new) ∷ rest else (k, value) ∷ later

  unfoldable pub delete : String → Map V → Map V
  delete key [] = []
  delete key ((k, value) ∷ rest) =
      let later = delete key rest in if k == key then later else (k, value) ∷ later

  -- Only the key itself is changed.
  pub lookup-insert :
      (key other : String) (new : V) (m : Map V)
      → lookup other (insert key new m) ≡ (if key == other then some new else lookup other m)
  unfolding lookup insert
  lookup-insert key other new [] = refl
  lookup-insert key other new ((k, value) ∷ rest) =
      ground
        (arith, lookup-insert key other new rest, eq_iff k other, eq_iff key other, eq_iff k key)

  pub lookup-delete :
      (k j : String) (m : Map V) → lookup j (delete k m) ≡ (if k == j then none else lookup j m)
  unfolding lookup delete
  lookup-delete k j [] = ground arith
  lookup-delete k j ((i, w) ∷ m) =
      ground (arith, eq_iff k j, eq_iff i k, eq_iff i j, lookup-delete k j m)

  -- No key stands twice, as in every Go map.
  abbrev pub IsFresh : String → Map V → Type 0
  IsFresh k [] = Unit
  IsFresh k ((j, v) ∷ m) = (j ≢ k) × IsFresh k m

  abbrev pub IsMap : Map V → Type 0
  IsMap [] = Unit
  IsMap ((j, v) ∷ m) = IsFresh j m × IsMap m

  pub IsFresh-insert :
      (j k : String) (v : V) (m : Map V) → k ≢ j → IsFresh j m → IsFresh j (insert k v m)
  unfolding insert
  IsFresh-insert j k v [] h f = (h, tt)
  IsFresh-insert j k v ((i, w) ∷ m) h f = ground (arith, IsFresh-insert j k v m h)

  pub IsMap-insert : (k : String) (v : V) (m : Map V) → IsMap m → IsMap (insert k v m)
  unfolding insert
  IsMap-insert k v [] h = (tt, tt)
  IsMap-insert k v ((i, w) ∷ m) h =
      ground (arith, eq_iff i k, IsMap-insert k v m h.1, IsFresh-insert i k v m)

  pub lookup-Elem : (k : String) (v : V) (m : Map V) → lookup k m ≡ some v → Elem (k, v) m
  unfolding lookup
  lookup-Elem k v [] h = cc
  lookup-Elem k v ((i, w) ∷ m) h = elim (Bool-cases (i == k)) [
    | inl same ↦
        let e : w ≡ v = ground arith in
        head (ap₂ (λ (j : String) (u : V). (j, u)) ((eq_iff i k).0 same) e)
    | inr other ↦ tail (lookup-Elem k v m (ground arith))
  ]

  pub All-insert {κ} :
      (P : String × V → Type κ) (k : String) (v : V) (m : Map V)
      → All P m
      → P (k, v)
      → All P (insert k v m)
  unfolding insert
  All-insert P k v [] h p = (p, tt)
  All-insert P k v ((i, w) ∷ m) (q, h) p = elim (Bool-cases (i == k)) [
    | inl same ↦ rw same (p, h)
    | inr other ↦ rw other (q, All-insert P k v m h p)
  ]
