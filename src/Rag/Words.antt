-- ===== src/Rag/Words.antt =====
-- internal/rag/rag.go and faithfulness.go: sentences, tokens and their overlap. The regular
-- expressions are written out as scanners: a lazy match ends at the first place where it can.
-- `to_lower` is `strings.ToLower`; a set is a list without repetitions.
pub mod Sentences
use Prim.Native.Char.{Char, code}
use Prim.Native.String.{◌++◌}
use search_and_retrieval_sys.Prelude.{
  ℕ, suc, String, Bool, true, false, ◌==◌, ◌&&◌, ◌||◌, not, eqb, leb, List, [], ◌∷◌, if◌then◌else◌,
}
use search_and_retrieval_sys.Prelude.Text.{trim_space}

-- `\s` of a regular expression.
unfoldable pub is_blank : Char → Bool
is_blank c = let n = code c in eqb n 9 || eqb n 10 || eqb n 12 || eqb n 13 || eqb n 32

-- `[.!?]`
unfoldable pub is_terminator : Char → Bool
is_terminator c = let n = code c in eqb n b'.' || eqb n b'!' || eqb n b'?'

-- `(\s+|$)` matches here.
unfoldable pub ends : String → Bool
unfolding is_blank
ends String.[] = true
ends (String.◌∷◌ c s) = is_blank c

-- A sentence is kept if something is left of it.
abbrev pub keep : String → List String → List String
keep m rest = if trim_space m == "" then rest else trim_space m ∷ rest

-- The matches of `(.*?[.!?])(\s+|$)`: `skips` is within the blanks behind a match, and `cur` is what
-- the next match has taken so far.
unfoldable pub matches : Bool → String → String → List String
unfolding is_terminator ends
matches skips cur String.[] = []
matches skips cur (String.◌∷◌ c s) =
    let skipped = matches true "" s in
    let ended = keep (cur ++ String.◌∷◌ c "") (matches true "" s) in
    let longer = matches false (cur ++ String.◌∷◌ c "") s in
    if skips && is_blank c then skipped else if is_terminator c && ends s then ended else longer

-- A text without a match is one sentence, unless it is blank.
abbrev pub or_whole : String → List String → List String
or_whole text [] = if text == "" then [] else text ∷ []
or_whole text (s ∷ ss) = s ∷ ss

unfoldable pub split_sentences : String → List String
unfolding matches
split_sentences text = or_whole (trim_space text) (matches false "" text)

-- `[a-z0-9]`
unfoldable pub is_word : Char → Bool
is_word c = let n = code c in (leb b'a' n && leb n b'z') || (leb b'0' n && leb n b'9')

unfoldable pub has : String → List String → Bool
has t [] = false
has t (u ∷ us) = u == t || has t us

unfoldable pub add : String → List String → List String
unfolding has
add t us = if has t us then us else t ∷ us

abbrev pub add_word : String → List String → List String
add_word t us = if t == "" then us else add t us

-- The set of the matches of `[a-z0-9]+`; `cur` is what the match at hand has taken so far.
unfoldable pub words_from : String → String → List String
unfolding is_word add
words_from cur String.[] = add_word cur []
words_from cur (String.◌∷◌ c s) =
    let longer = words_from (cur ++ String.◌∷◌ c "") s in
    let ended = add_word cur (words_from "" s) in if is_word c then longer else ended

unfoldable pub tokens : (String → String) → String → List String
unfolding words_from
tokens to_lower s = words_from "" (to_lower s)

abbrev pub stopwords : List String
stopwords =
    "the" ∷ "a" ∷ "an" ∷ "and" ∷ "or" ∷ "of" ∷ "to" ∷ "in" ∷ "is" ∷ "are" ∷ "it" ∷ "that" ∷ "this"
    ∷ "for" ∷ "on" ∷ "with" ∷ "as" ∷ "by" ∷ "be" ∷ "at" ∷ "from" ∷ "into" ∷ "so" ∷ "not" ∷ []

unfoldable pub drop_stopwords : List String → List String
unfolding has
drop_stopwords [] = []
drop_stopwords (t ∷ ts) = let rest = drop_stopwords ts in if has t stopwords then rest else t ∷ rest

unfoldable pub content_tokens : (String → String) → String → List String
unfolding tokens drop_stopwords
content_tokens to_lower s = drop_stopwords (tokens to_lower s)

unfoldable pub overlap : List String → List String → ℕ
unfolding has
overlap [] b = 0
overlap (t ∷ a) b = let n = overlap a b in if has t b then suc n else n
