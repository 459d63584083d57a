-- ===== src/Prelude/Order.antt =====
-- The order of Go's `<` on strings. UTF-8 keeps the order of the code points.
use Prim.Native.String.{String, compare}
use Prim.Native.String.compare
use mathlib.Core.Path.{◌≡◌, refl, ap₂}
use mathlib.Core.Bool.{Bool, true, false}
use mathlib.Core.Logic.{◌≢◌}
use native.Mathlib.Omega.{arith}
use text.Mathlib.Text.{is_lt}
use text.Mathlib.TextEquality.{Char-path}
use text.Mathlib.TextPositions.{compare_refl}

abbrev pub before : String → String → Bool
before s t = is_lt (compare s t)

pub before_irrefl : (s : String) → before s s ≡ false
before_irrefl s = rw compare_refl

before_empty : (s : String) → before s "" ≡ true → ⊥
before_empty String.[] h = cc
before_empty (String.◌∷◌ c s) h = cc (compare.cons-nil c s)

pub before_trans : (s t u : String) → before s t ≡ true → before t u ≡ true → before s u ≡ true
before_trans s String.[] u h k = absurd (before_empty s h)
before_trans s t String.[] h k = absurd (before_empty t k)
before_trans String.[] (String.◌∷◌ d t) (String.◌∷◌ e u) h k = cc (compare.nil-cons e u)
before_trans (String.◌∷◌ c s) (String.◌∷◌ d t) (String.◌∷◌ e u) h k = ground (
  arith,
  before_trans s t u,
  compare.cons-cons c d s t,
  compare.cons-cons d e t u,
  compare.cons-cons c e s u,
)

pub before_total : (s t : String) → before s t ≡ false → s ≢ t → before t s ≡ true
before_total String.[] String.[] h k = absurd (k refl)
before_total String.[] (String.◌∷◌ d t) h k = cc (compare.nil-cons d t)
before_total (String.◌∷◌ c s) String.[] h k = cc (compare.nil-cons c s)
before_total (String.◌∷◌ c s) (String.◌∷◌ d t) h k = ground (
  arith,
  before_total s t,
  compare.cons-cons c d s t,
  compare.cons-cons d c t s,
  Char-path c d,
  λ (e : c ≡ d) (f : s ≡ t). k (ap₂ String.◌∷◌ e f),
)
