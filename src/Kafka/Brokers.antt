-- ===== src/Kafka/Brokers.antt =====
-- The list of brokers that a setting writes.
use Prim.Native.Char.{code}
use Prim.Native.String.{◌++◌}
use Prim.Native.String.append
use search_and_retrieval_sys.Prelude.{
  String, false, ◌≡◌, ◌≢◌, refl, ap, ◌∙◌, ◌==◌, eq_iff, eqb, List, [], ◌∷◌, All, Bool-cases, inl,
  inr,
}
use search_and_retrieval_sys.Prelude.Text.{trim_space}
use search_and_retrieval_sys.Kafka.{split_commas, keep_parts, brokers}

abbrev pub HasNoComma : String → Type 0
HasNoComma String.[] = Unit
HasNoComma (String.◌∷◌ c s) = (eqb (code c) b',' ≡ false) × HasNoComma s

-- The parts name the brokers, in their order: blanks may stand around a name, and parts that are blank
-- throughout name none.
pub data Names : List String → List String → Type 0 where
  ends : Names [] []
  broker :
      {p b : String} {parts bs : List String}
      → trim_space p ≡ b
      → b ≢ ""
      → Names parts bs
      → Names (p ∷ parts) (b ∷ bs)
  blank :
      {p : String} {parts bs : List String}
      → trim_space p ≡ ""
      → Names parts bs
      → Names (p ∷ parts) bs

-- `strings.Join(bs, ",")`
abbrev pub join_commas : List String → String
join_commas [] = ""
join_commas (b ∷ []) = b
join_commas (b ∷ c ∷ bs) = b ++ "," ++ join_commas (c ∷ bs)

split_commas-last : (b : String) → HasNoComma b → split_commas b ≡ b ∷ []
unfolding split_commas
split_commas-last String.[] h = refl
split_commas-last (String.◌∷◌ c s) (p, h) = rw (p, split_commas-last s h)

split_commas-append :
    (b s : String) → HasNoComma b → split_commas (b ++ "," ++ s) ≡ b ∷ split_commas s
unfolding split_commas
split_commas-append String.[] s h = rw (append.nil, append.cons, append.nil)
split_commas-append (String.◌∷◌ c b) s (p, h) = rw (append.cons, p, split_commas-append b s h)

keep_parts-Names : {parts bs : List String} → Names parts bs → keep_parts parts ≡ bs
unfolding keep_parts
keep_parts-Names ends = refl
keep_parts-Names (broker {p = p} {b = b} e filled h) = elim (Bool-cases (b == "")) [
  | inl empty ↦ absurd (filled ((eq_iff b "").0 empty))
  | inr other ↦ rw (e, other, keep_parts-Names h)
]
keep_parts-Names (blank e h) = rw (e, keep_parts-Names h)

split_commas-join :
    (p : String) (parts : List String)
    → All HasNoComma (p ∷ parts)
    → split_commas (join_commas (p ∷ parts)) ≡ p ∷ parts
split_commas-join p [] (plain, h) = split_commas-last p plain
split_commas-join p (q ∷ parts) (plain, h) =
    split_commas-append p (join_commas (q ∷ parts)) plain
    ∙ ap (λ l. p ∷ l) (split_commas-join q parts h)

-- Parts without a comma, joined by commas, are read back as the brokers that they name: the blanks
-- around a name are dropped, and so are the parts that are blank.
pub brokers-join :
    (parts bs : List String)
    → All HasNoComma parts
    → Names parts bs
    → brokers (join_commas parts) ≡ bs
unfolding brokers
brokers-join [] bs h n = keep_parts-Names (blank {p = ""} (unfold trim_space in refl) n)
brokers-join (p ∷ parts) bs h n = ap keep_parts (split_commas-join p parts h) ∙ keep_parts-Names n
