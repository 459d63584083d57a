-- ===== src/Prelude/Text.antt =====
-- What the code uses of Go's `strings`, `strconv` and `fmt`: decimal numbers, trimming, prefixes.
pub mod Parse
use Prim.Native.Nat.{ℕ, zero, suc, ◌+◌, ◌-◌, ◌*◌, ◌/◌, ◌%◌, ◌<◌}
use Prim.Native.Char.{Char, code}
use Prim.Native.String.{String, ◌++◌}
use Prim.Native.String.append
use mathlib.Core.Path.{◌≡◌, refl, sym, ap, ◌∙◌}
use mathlib.Core.Logic.{inl, inr}
use mathlib.Core.Bool.{Bool, true, false, ◌&&◌, ◌||◌}
use native.Mathlib.Omega.{arith}
use text.Mathlib.Text.{◌==◌}
use text.Mathlib.TextLemmas.{append_assoc, append_cancel_left, nil-append}
use mathlib.Core.Option
use mathlib.Core.Option.{Option, none, some}
use search_and_retrieval_sys.Prelude.Tests.{ltb, leb, eqb, ltb→lt, Bool-cases, if◌then◌else◌}
use search_and_retrieval_sys.Prelude.Int.{ℤ, pos, negsuc}

digit : ℕ → String
digit zero = "0"
digit (suc zero) = "1"
digit (suc (suc zero)) = "2"
digit (suc (suc (suc zero))) = "3"
digit (suc (suc (suc (suc zero)))) = "4"
digit (suc (suc (suc (suc (suc zero))))) = "5"
digit (suc (suc (suc (suc (suc (suc zero)))))) = "6"
digit (suc (suc (suc (suc (suc (suc (suc zero))))))) = "7"
digit (suc (suc (suc (suc (suc (suc (suc (suc zero)))))))) = "8"
digit _ = "9"

-- The first argument bounds the number of digits.
digits : ℕ → ℕ → String
digits zero n = digit n
digits (suc f) n =
    let front = digits f (n / 10) in if ltb n 10 then digit n else front ++ digit (n % 10)

-- `strconv.Itoa` of a number that is not negative.
unfoldable pub decimal_ℕ : ℕ → String
unfolding digits digit
decimal_ℕ n = digits (suc n) n

-- `strconv.FormatInt(n, 10)` and `%d`.
unfoldable pub decimal : ℤ → String
unfolding decimal_ℕ
decimal (pos n) = decimal_ℕ n
decimal (negsuc n) = "-" ++ decimal_ℕ (suc n)

is_digit : Char → Bool
is_digit c = leb 48 (code c) && leb (code c) 57

-- The number that the leading digits of a text write, after what was read so far.
unfoldable pub read : ℕ → String → ℕ
unfolding is_digit
read acc String.[] = acc
read acc (String.◌∷◌ c s) = if is_digit c then read (acc * 10 + (code c - 48)) s else acc

read-digit : (acc d : ℕ) (t : String) → d < 10 → read acc (digit d ++ t) ≡ read (acc * 10 + d) t
unfolding read digit
read-digit acc zero t h = rw (append.cons, append.nil)
read-digit acc (suc zero) t h = rw (append.cons, append.nil)
read-digit acc (suc (suc zero)) t h = rw (append.cons, append.nil)
read-digit acc (suc (suc (suc zero))) t h = rw (append.cons, append.nil)
read-digit acc (suc (suc (suc (suc zero)))) t h = rw (append.cons, append.nil)
read-digit acc (suc (suc (suc (suc (suc zero))))) t h = rw (append.cons, append.nil)
read-digit acc (suc (suc (suc (suc (suc (suc zero)))))) t h = rw (append.cons, append.nil)
read-digit acc (suc (suc (suc (suc (suc (suc (suc zero))))))) t h = rw (append.cons, append.nil)
read-digit acc (suc (suc (suc (suc (suc (suc (suc (suc zero)))))))) t h =
    rw (append.cons, append.nil)
read-digit acc (suc (suc (suc (suc (suc (suc (suc (suc (suc zero))))))))) t h =
    rw (append.cons, append.nil)
read-digit acc (suc (suc (suc (suc (suc (suc (suc (suc (suc (suc d)))))))))) t h =
    absurd (omega arith)

read-digits : (f n : ℕ) (t : String) → n < f → read 0 (digits f n ++ t) ≡ read n t
unfolding digits
read-digits zero n t h = elim h [ ]
read-digits (suc f) n t h = elim (Bool-cases (ltb n 10)) [
  | inl small ↦
      rw small (read-digit 0 n t (ltb→lt n 10 small) ∙ ap (λ (k : ℕ). read k t) (omega arith))
  | inr large ↦
      rw (large, append_assoc)
        (read-digits f (n / 10) (digit (n % 10) ++ t) (ground arith)
          ∙ read-digit (n / 10) (n % 10) t (omega arith)
          ∙ ap (λ (k : ℕ). read k t) (omega arith))
]

-- A text that does not begin by a digit, as far as `read` can tell.
abbrev pub Stops : String → Type 0
Stops t = (acc : ℕ) → read acc t ≡ acc

pub Stops-bar : (s : String) → Stops ("|" ++ s)
unfolding read is_digit
Stops-bar s acc = rw append.cons

has_minus : String → Bool
has_minus String.[] = false
has_minus (String.◌∷◌ c s) = eqb (code c) b'-'

has_minus-digit : (d : ℕ) (t : String) → has_minus (digit d ++ t) ≡ false
unfolding has_minus digit
has_minus-digit zero t = rw append.cons
has_minus-digit (suc zero) t = rw append.cons
has_minus-digit (suc (suc zero)) t = rw append.cons
has_minus-digit (suc (suc (suc zero))) t = rw append.cons
has_minus-digit (suc (suc (suc (suc zero)))) t = rw append.cons
has_minus-digit (suc (suc (suc (suc (suc zero))))) t = rw append.cons
has_minus-digit (suc (suc (suc (suc (suc (suc zero)))))) t = rw append.cons
has_minus-digit (suc (suc (suc (suc (suc (suc (suc zero))))))) t = rw append.cons
has_minus-digit (suc (suc (suc (suc (suc (suc (suc (suc zero)))))))) t = rw append.cons
has_minus-digit (suc (suc (suc (suc (suc (suc (suc (suc (suc zero))))))))) t = rw append.cons
has_minus-digit (suc (suc (suc (suc (suc (suc (suc (suc (suc (suc d)))))))))) t = rw append.cons

has_minus-digits : (f n : ℕ) (t : String) → has_minus (digits f n ++ t) ≡ false
unfolding digits
has_minus-digits zero n t = has_minus-digit n t
has_minus-digits (suc f) n t = elim (Bool-cases (ltb n 10)) [
  | inl small ↦ rw small (has_minus-digit n t)
  | inr large ↦ rw (large, append_assoc) (has_minus-digits f (n / 10) (digit (n % 10) ++ t))
]

decimal_ℕ-append_inj :
    (m n : ℕ) (s t : String) → Stops s → Stops t → decimal_ℕ m ++ s ≡ decimal_ℕ n ++ t → m ≡ n
unfolding decimal_ℕ
decimal_ℕ-append_inj m n s t hs ht e =
    cc (read-digits (suc m) m s (omega arith), read-digits (suc n) n t (omega arith), hs m, ht n)

has_minus-negsuc : (n : ℕ) (t : String) → has_minus (decimal (negsuc n) ++ t) ≡ true
unfolding has_minus decimal
has_minus-negsuc n t = rw (append_assoc, append.cons)

has_minus-pos : (n : ℕ) (t : String) → has_minus (decimal (pos n) ++ t) ≡ false
unfolding decimal
has_minus-pos n t = has_minus-digits (suc n) n t

-- Two numbers that are printed alike before texts which do not begin by a digit are equal.
pub decimal-append_inj :
    (a b : ℤ) (s t : String) → Stops s → Stops t → decimal a ++ s ≡ decimal b ++ t → a ≡ b
unfolding decimal
decimal-append_inj (pos m) (pos n) s t hs ht e = ap pos (decimal_ℕ-append_inj m n s t hs ht e)
decimal-append_inj (negsuc m) (negsuc n) s t hs ht e =
    let inner =
      append_cancel_left "-" _ _ (sym (append_assoc "-" _ _) ∙ e ∙ append_assoc "-" _ _) in
    ground (arith, decimal_ℕ-append_inj (suc m) (suc n) s t hs ht inner)
decimal-append_inj (pos m) (negsuc n) s t hs ht e =
    cc (ap has_minus e, has_minus-pos m s, has_minus-negsuc n t)
decimal-append_inj (negsuc m) (pos n) s t hs ht e =
    cc (ap has_minus e, has_minus-negsuc m s, has_minus-pos n t)

-- `strings.TrimSpace` over Unicode's white space.
is_space : Char → Bool
is_space c =
    let n = code c in
    (leb 9 n && leb n 13)
    || eqb n 32
    || eqb n 0x85
    || eqb n 0xa0
    || eqb n 0x1680
    || (leb 0x2000 n && leb n 0x200a)
    || eqb n 0x2028
    || eqb n 0x2029
    || eqb n 0x202f
    || eqb n 0x205f
    || eqb n 0x3000

pub trim_left : String → String
trim_left String.[] = ""
trim_left (String.◌∷◌ c s) = let rest = trim_left s in if is_space c then rest else String.◌∷◌ c s

pub trim_right : String → String
trim_right String.[] = ""
trim_right (String.◌∷◌ c s) =
    let rest = trim_right s in if is_space c && rest == "" then "" else String.◌∷◌ c rest

unfoldable pub trim_space : String → String
unfolding is_space trim_left trim_right
trim_space s = trim_right (trim_left s)

pub trim_left-suffix : (s : String) → (a : String) × (s ≡ a ++ trim_left s)
unfolding trim_left
trim_left-suffix String.[] = ("", sym (nil-append ""))
trim_left-suffix (String.◌∷◌ c s) = elim (Bool-cases (is_space c)) [
  | inl blank ↦
      let (a, e) = trim_left-suffix s in
      (String.◌∷◌ c a, rw blank (ap (String.◌∷◌ c) e ∙ sym (append.cons c a (trim_left s))))
  | inr other ↦ ("", rw other (sym (nil-append (String.◌∷◌ c s))))
]

pub trim_right-prefix : (s : String) → (b : String) × (s ≡ trim_right s ++ b)
unfolding trim_right
trim_right-prefix String.[] = ("", sym (nil-append ""))
trim_right-prefix (String.◌∷◌ c s) = elim (Bool-cases (is_space c && trim_right s == "")) [
  | inl blank ↦ (String.◌∷◌ c s, rw blank (sym (nil-append (String.◌∷◌ c s))))
  | inr other ↦
      let (b, e) = trim_right-prefix s in
      (b, rw other (ap (String.◌∷◌ c) e ∙ sym (append.cons c (trim_right s) b)))
]

-- What follows a prefix, if the text has it.
unfoldable pub after? : String → String → Option String
after? String.[] s = some s
after? (String.◌∷◌ c p) String.[] = none
after? (String.◌∷◌ c p) (String.◌∷◌ d s) = if eqb (code c) (code d) then after? p s else none

-- `strings.TrimPrefix(s, p)` and `strings.HasPrefix(s, p)`.
unfoldable pub trim_prefix : String → String → String
unfolding after?
trim_prefix s p = Option.get_or (after? p s) s

unfoldable pub has_prefix : String → String → Bool
unfolding after?
has_prefix s p = elim (after? p s) [ none ↦ false | some rest ↦ true ]

-- The text before the first character with the given code, as `strings.Cut` returns it; the whole
-- text if there is none.
unfoldable pub cut_before : ℕ → String → String
cut_before d String.[] = ""
cut_before d (String.◌∷◌ c s) =
    let rest = cut_before d s in if eqb (code c) d then "" else String.◌∷◌ c rest

pub decimal_injective : (a b : ℤ) → decimal a ≡ decimal b → a ≡ b
unfolding read
decimal_injective a b e =
    decimal-append_inj a b "" "" (λ acc. refl) (λ acc. refl) (ap (λ (t : String). t ++ "") e)
