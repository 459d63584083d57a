-- ===== src/Config/Reads.antt =====
-- What the settings are that an environment gives.
use Prim.Native.Char.{code}
use search_and_retrieval_sys.Prelude.{
  ◌<◌, ◌⊎◌, ℕ, false, ◌*◌, ◌+◌, Option, none, arith, eqb, leb, ◌&&◌, String, ◌-◌, ◌^◌, ◌≡◌, sym, ap,
  ◌∙◌, inl, inr, Bool-cases, eq_iff, ◌==◌, some,
}
use search_and_retrieval_sys.Prelude.Int.{ℤ, pos, negsuc, ◌≤ℤ◌}
use search_and_retrieval_sys.Prelude.Text.{decimal}
use search_and_retrieval_sys.Prelude.Text.Parse.{
  atoi, parse_digits, magnitude, behind, leading, atoi-decimal,
}
use search_and_retrieval_sys.Config.{or_default, int}

int-decimal :
    (env : String → String) (key : String) (default n : ℤ)
    → negsuc (2 ^ 63 - 1) ≤ℤ n
    → n ≤ℤ pos (2 ^ 63 - 1)
    → env key ≡ decimal n
    → int env key default ≡ n
unfolding int
int-decimal env key default n low high e =
    let read : atoi (env key) ≡ some n = ap atoi e ∙ atoi-decimal n low high in
    elim (Bool-cases (env key == "")) [
      | inl unset ↦
          let gone : atoi "" ≡ some n = ap atoi (sym ((eq_iff (env key) "").0 unset)) ∙ read in
          absurd (unfold atoi in cc)
      | inr given ↦ rw given (ap (or_default default) read)
    ]

-- A character of the text is no digit.
abbrev pub HasOther : String → Type 0
HasOther String.[] = ⊥
HasOther (String.◌∷◌ c s) = ((code c < 48) ⊎ (57 < code c)) ⊎ HasOther s

-- The text is the printed form of a number within the range of an int, or it is no number: it is
-- empty, or a character behind the first one is no digit.
abbrev pub Gives : String → Option ℤ → Type 0
Gives text (some n) = (negsuc (2 ^ 63 - 1) ≤ℤ n) × (n ≤ℤ pos (2 ^ 63 - 1)) × (text ≡ decimal n)
Gives text none = (text ≡ "") ⊎ HasOther (behind text)

abbrev pub expected : ℤ → Option ℤ → ℤ
expected default (some n) = n
expected default none = default

parse_digits-other : (acc : ℕ) (s : String) → HasOther s → parse_digits acc s ≡ none
unfolding parse_digits
parse_digits-other acc String.[] h = absurd h
parse_digits-other acc (String.◌∷◌ c s) (inl other) =
    let bad : (leb 48 (code c) && leb (code c) 57) ≡ false = ground arith in rw bad
parse_digits-other acc (String.◌∷◌ c s) (inr later) =
    rw (parse_digits-other (acc * 10 + (code c - 48)) s later)
      (elim (Bool-cases (leb 48 (code c) && leb (code c) 57)) [
        | inl digit ↦ rw digit
        | inr other ↦ rw other
      ])

magnitude-other : (s : String) → HasOther s → magnitude s ≡ none
magnitude-other String.[] h = absurd h
magnitude-other (String.◌∷◌ c s) h = parse_digits-other 0 (String.◌∷◌ c s) h

magnitude-behind : (s : String) → HasOther (behind s) → magnitude s ≡ none
magnitude-behind String.[] h = absurd h
magnitude-behind (String.◌∷◌ c s) h = parse_digits-other 0 (String.◌∷◌ c s) (inr h)

atoi-other : (s : String) → HasOther (behind s) → atoi s ≡ none
unfolding atoi
atoi-other s h =
    rw (magnitude-other (behind s) h, magnitude-behind s h)
      (elim (Bool-cases (eqb (leading s) b'-')) [
        | inl minus ↦ rw minus
        | inr other ↦ elim (Bool-cases (eqb (leading s) b'+')) [
          | inl plus ↦ rw (other, plus)
          | inr digit ↦ rw (other, digit)
        ]
      ])

int-other :
    (env : String → String) (key : String) (default : ℤ)
    → Gives (env key) none
    → int env key default ≡ default
unfolding int
int-other env key default h = elim (Bool-cases (env key == "")) [
  | inl unset ↦ rw unset
  | inr given ↦ elim h [
    | inl empty ↦ absurd (cc ((eq_iff (env key) "").1 empty, given))
    | inr other ↦ rw (given, atoi-other (env key) other)
  ]
]

-- A setting that is the printed form of a number in the range of an int gives that number; one
-- that is empty, or in which a character behind the first is no digit, gives the default.
pub int_lem :
    (env : String → String) (key : String) (default : ℤ) (o : Option ℤ)
    → Gives (env key) o
    → int env key default ≡ expected default o
int_lem env key default (some n) (low, high, e) = int-decimal env key default n low high e
int_lem env key default none h = int-other env key default h
