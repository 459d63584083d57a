-- ===== src/Rag/Words/Sentences.antt =====
-- Sentences are taken from the text word for word, and no text with words in it is left without one.
use Prim.Native.Char.{Char}
use Prim.Native.String.{◌++◌}
use text.Mathlib.TextLemmas.{append_assoc, nil-append, append-nil, cons-append}
use search_and_retrieval_sys.Prelude.{
  String, Bool, true, false, ◌≡◌, ◌≢◌, sym, ap, ◌∙◌, ◌==◌, ◌&&◌, List, [], ◌∷◌, All, All-map,
  Bool-cases, inl, inr, if◌then◌else◌, arith, eq_iff, subst,
}
use search_and_retrieval_sys.Prelude.Text.{
  trim_space, trim_left, trim_left-suffix, trim_right-prefix,
}
use search_and_retrieval_sys.Rag.Words.{
  is_blank, is_terminator, ends, keep, matches, or_whole, split_sentences,
}

-- `m` stands in `s` as it is.
pub record Occurs (m s : String) : Type 0 where
  pub before : String
  pub behind : String
  pub whole : s ≡ before ++ m ++ behind

Occurs-self : (s : String) → Occurs s s
Occurs-self s = record {
  before = "";
  behind = "";
  whole = sym (nil-append (s ++ "") ∙ append-nil s);
}

Occurs-append_left : (a m s : String) → Occurs m s → Occurs m (a ++ s)
Occurs-append_left a m s o = record {
  before = a ++ o.before;
  behind = o.behind;
  whole = ap (λ (t : String). a ++ t) o.whole ∙ sym (append_assoc a o.before (m ++ o.behind));
}

Occurs-append_right : (m s b : String) → Occurs m s → Occurs m (s ++ b)
Occurs-append_right m s b o = record {
  before = o.before;
  behind = o.behind ++ b;
  whole =
      ap (λ (t : String). t ++ b) o.whole
      ∙ append_assoc o.before (m ++ o.behind) b
      ∙ ap (λ (t : String). o.before ++ t) (append_assoc m o.behind b);
}

trim_space-Occurs : (s : String) → Occurs (trim_space s) s
unfolding trim_space
trim_space-Occurs s =
    let (a, e) = trim_left-suffix s in
    let (b, f) = trim_right-prefix (trim_left s) in
    record { before = a; behind = b; whole = e ∙ ap (λ (t : String). a ++ t) f }

keep-All :
    (P : String → Type 0) (m : String) (rest : List String)
    → P (trim_space m)
    → All P rest
    → All P (keep m rest)
keep-All P m rest p h = elim (Bool-cases (trim_space m == "")) [
  | inl empty ↦ rw empty h
  | inr full ↦ rw full (p, h)
]

if-All :
    (P : String → Type 0) (b : Bool) (xs ys : List String)
    → All P xs
    → All P ys
    → All P (if b then xs else ys)
if-All P true xs ys p q = p
if-All P false xs ys p q = q

-- One more letter of the text has gone into the sentence at hand.
regroup : (cur s : String) (c : Char) → (cur ++ String.◌∷◌ c "") ++ s ≡ cur ++ String.◌∷◌ c s
regroup cur s c =
    append_assoc cur (String.◌∷◌ c "") s
    ∙ ap (λ (t : String). cur ++ t) (cons-append c "" s ∙ ap (String.◌∷◌ c) (nil-append s))

matches-Occurs :
    (skips : Bool) (cur s : String) → All (λ m. Occurs m (cur ++ s)) (matches skips cur s)
unfolding matches
matches-Occurs skips cur String.[] = tt
matches-Occurs skips cur (String.◌∷◌ c s) =
    let P : String → Type 0 = λ m. Occurs m (cur ++ String.◌∷◌ c s) in
    let whole = cur ++ String.◌∷◌ c "" in
    let later =
      All-map
        (λ m o.
          subst (Occurs m) (regroup cur s c)
            (Occurs-append_left whole m s (subst (Occurs m) (nil-append s) o)))
        (matches true "" s) (matches-Occurs true "" s) in
    if-All P (skips && is_blank c) _ _ later (
      if-All P (is_terminator c && ends s) _ _
        (keep-All P whole (matches true "" s)
          (subst (Occurs (trim_space whole)) (regroup cur s c)
            (Occurs-append_right (trim_space whole) whole s (trim_space-Occurs whole)))
          later)
        (All-map (λ m o. subst (Occurs m) (regroup cur s c) o) (matches false whole s)
          (matches-Occurs false whole s)))

or_whole-All :
    (P : String → Type 0) (text : String) (ss : List String)
    → P text
    → All P ss
    → All P (or_whole text ss)
or_whole-All P text [] p h = if-All P (text == "") [] (text ∷ []) tt (p, tt)
or_whole-All P text (s ∷ ss) p h = h

-- Every sentence of a text stands in it word for word.
split_sentences-Occurs : (text : String) → All (λ m. Occurs m text) (split_sentences text)
unfolding split_sentences
split_sentences-Occurs text =
    or_whole-All (λ m. Occurs m text) (trim_space text) (matches false "" text)
      (trim_space-Occurs text)
      (All-map (λ m o. subst (Occurs m) (nil-append text) o) (matches false "" text)
        (matches-Occurs false "" text))

or_whole-ne-nil : (text : String) (ss : List String) → text ≢ "" → or_whole text ss ≢ []
or_whole-ne-nil text [] full e = ground (arith, eq_iff text "")
or_whole-ne-nil text (s ∷ ss) full e = cc

-- A text that is not blank has a sentence.
split_sentences-ne-nil : (text : String) → trim_space text ≢ "" → split_sentences text ≢ []
unfolding split_sentences
split_sentences-ne-nil text full = or_whole-ne-nil (trim_space text) (matches false "" text) full
