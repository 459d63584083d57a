-- ===== src/Prelude/Text/Parse.antt =====
-- Go's `strconv.Atoi` on 64 bits: an optional sign and digits, within the bounds of an int.
use Prim.Native.Nat.{ℕ, zero, suc, ◌+◌, ◌-◌, ◌*◌, ◌/◌, ◌%◌, ◌^◌, ◌≤◌, ◌<◌}
use Prim.Native.Char.{Char, code}
use Prim.Native.String.{String, ◌++◌}
use Prim.Native.String.append
use mathlib.Core.Path.{◌≡◌, refl, sym, ap, ◌∙◌, subst}
use mathlib.Core.Logic.{inl, inr}
use mathlib.Core.Bool.{true, false, ◌&&◌}
use mathlib.Core.Option.{Option, none, some}
use native.Mathlib.Omega.{arith}
use text.Mathlib.TextLemmas.{append_assoc, append-nil}
use search_and_retrieval_sys.Prelude.Tests.{ltb, leb, eqb, ltb→lt, Bool-cases, if◌then◌else◌}
use search_and_retrieval_sys.Prelude.Int.{ℤ, pos, negsuc, ◌≤ℤ◌}
use search_and_retrieval_sys.Prelude.Text.{digit, digits, decimal_ℕ, decimal}

-- The number that a text of digits writes, after what was read so far.
unfoldable pub parse_digits : ℕ → String → Option ℕ
parse_digits acc String.[] = some acc
parse_digits acc (String.◌∷◌ c s) =
    let rest = parse_digits (acc * 10 + (code c - 48)) s in
    if leb 48 (code c) && leb (code c) 57 then rest else none

abbrev pub magnitude : String → Option ℕ
magnitude String.[] = none
magnitude (String.◌∷◌ c s) = parse_digits 0 (String.◌∷◌ c s)

abbrev pub leading : String → ℕ
leading String.[] = 0
leading (String.◌∷◌ c s) = code c

abbrev pub behind : String → String
behind String.[] = ""
behind (String.◌∷◌ c s) = s

abbrev pub positive : Option ℕ → Option ℤ
positive none = none
positive (some n) = if ltb n (2 ^ 63) then some (pos n) else none

abbrev pub negative : Option ℕ → Option ℤ
negative none = none
negative (some zero) = some (pos 0)
negative (some (suc n)) = if ltb n (2 ^ 63) then some (negsuc n) else none

unfoldable pub atoi : String → Option ℤ
unfolding parse_digits
atoi s =
    if eqb (leading s) b'-'
    then negative (magnitude (behind s))
    else if eqb (leading s) b'+'
    then positive (magnitude (behind s))
    else positive (magnitude s)

-- `digit` writes one digit.
record Writes (d : ℕ) (s : String) : Type 0 where
  reads : (acc : ℕ) (t : String) → parse_digits acc (s ++ t) ≡ parse_digits (acc * 10 + d) t
  leads : (t : String) → (48 ≤ leading (s ++ t))

one-Writes : (c : Char) (d : ℕ) → code c ≡ 48 + d → d < 10 → Writes d (String.◌∷◌ c "")
unfolding parse_digits
one-Writes c d e h = record {
  reads = λ acc t.
      let within : (leb 48 (code c) && leb (code c) 57) ≡ true = ground arith in
      let value : code c - 48 ≡ d = omega arith in rw (append.cons, append.nil, within, value);
  leads = λ t. rw append.cons (omega arith);
}

digit-Writes : (d : ℕ) → d < 10 → Writes d (digit d)
unfolding digit
digit-Writes zero h = one-Writes _ 0 refl (omega arith)
digit-Writes (suc zero) h = one-Writes _ 1 refl (omega arith)
digit-Writes (suc (suc zero)) h = one-Writes _ 2 refl (omega arith)
digit-Writes (suc (suc (suc zero))) h = one-Writes _ 3 refl (omega arith)
digit-Writes (suc (suc (suc (suc zero)))) h = one-Writes _ 4 refl (omega arith)
digit-Writes (suc (suc (suc (suc (suc zero))))) h = one-Writes _ 5 refl (omega arith)
digit-Writes (suc (suc (suc (suc (suc (suc zero)))))) h = one-Writes _ 6 refl (omega arith)
digit-Writes (suc (suc (suc (suc (suc (suc (suc zero))))))) h = one-Writes _ 7 refl (omega arith)
digit-Writes (suc (suc (suc (suc (suc (suc (suc (suc zero)))))))) h =
    one-Writes _ 8 refl (omega arith)
digit-Writes (suc (suc (suc (suc (suc (suc (suc (suc (suc zero))))))))) h =
    one-Writes _ 9 refl (omega arith)
digit-Writes (suc (suc (suc (suc (suc (suc (suc (suc (suc (suc d)))))))))) h = absurd (omega arith)

parse_digits-digits :
    (f n : ℕ) (t : String) → n < f → parse_digits 0 (digits f n ++ t) ≡ parse_digits n t
unfolding digits
parse_digits-digits zero n t h = elim h [ ]
parse_digits-digits (suc f) n t h = elim (Bool-cases (ltb n 10)) [
  | inl small ↦ rw small (
      (digit-Writes n (ltb→lt n 10 small)).reads 0 t
      ∙ ap (λ (k : ℕ). parse_digits k t) (omega arith))
  | inr large ↦
      rw (large, append_assoc)
        (parse_digits-digits f (n / 10) (digit (n % 10) ++ t) (ground arith)
          ∙ (digit-Writes (n % 10) (omega arith)).reads (n / 10) t
          ∙ ap (λ (k : ℕ). parse_digits k t) (omega arith))
]

leading-digits : (f n : ℕ) (t : String) → n < f → 48 ≤ leading (digits f n ++ t)
unfolding digits
leading-digits zero n t h = elim h [ ]
leading-digits (suc f) n t h = elim (Bool-cases (ltb n 10)) [
  | inl small ↦ rw small ((digit-Writes n (ltb→lt n 10 small)).leads t)
  | inr large ↦
      rw (large, append_assoc) (leading-digits f (n / 10) (digit (n % 10) ++ t) (ground arith))
]

magnitude-digits : (s : String) → 48 ≤ leading s → magnitude s ≡ parse_digits 0 s
magnitude-digits String.[] h = absurd (omega arith)
magnitude-digits (String.◌∷◌ c s) h = refl

leading-decimal : (n : ℕ) → 48 ≤ leading (decimal_ℕ n)
unfolding decimal_ℕ
leading-decimal n =
    subst (λ s. 48 ≤ leading s) (append-nil (digits (suc n) n))
      (leading-digits (suc n) n "" (omega arith))

magnitude-decimal : (n : ℕ) → magnitude (decimal_ℕ n) ≡ some n
unfolding decimal_ℕ parse_digits
magnitude-decimal n =
    magnitude-digits (decimal_ℕ n) (leading-decimal n)
    ∙ ap (parse_digits 0) (sym (append-nil (digits (suc n) n)))
    ∙ parse_digits-digits (suc n) n "" (omega arith)

-- What is printed is read, within the bounds of an int.
pub atoi-decimal :
    (n : ℤ) → negsuc (2 ^ 63 - 1) ≤ℤ n → n ≤ℤ pos (2 ^ 63 - 1) → atoi (decimal n) ≡ some n
unfolding atoi decimal
atoi-decimal (pos n) low high =
    let signed : (eqb (leading (decimal_ℕ n)) b'-' ≡ false)
        × (eqb (leading (decimal_ℕ n)) b'+' ≡ false) =
      ground (arith, leading-decimal n) in
    let small : ltb n (2 ^ 63) ≡ true = ground arith in
    rw (signed.0, signed.1, magnitude-decimal n, small)
atoi-decimal (negsuc n) low high =
    let small : ltb n (2 ^ 63) ≡ true = ground arith in
    rw (append.cons, append.nil, magnitude-decimal (suc n), small)
