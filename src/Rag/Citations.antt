-- ===== src/Rag/Citations.antt =====
-- internal/rag/cite.go and faithfulness.go: the markers in a text. The regular expressions are written
-- out as scanners; `skip` counts what is left of a match that the scan has passed.
pub mod Known
use Prim.Native.Char.{Char, code}
use Prim.Native.String.{◌++◌}
use search_and_retrieval_sys.Prelude.{
  ℕ, zero, suc, ◌-◌, String, Bool, ◌&&◌, leb, Option, none, some, List, [], ◌∷◌, if◌then◌else◌,
}
use search_and_retrieval_sys.Prelude.Text.{after?, trim_prefix}
use search_and_retrieval_sys.Prelude.Maps.{Map, lookup, insert}
use search_and_retrieval_sys.Sources.{Source}
use search_and_retrieval_sys.Server.{Citation}
use search_and_retrieval_sys.Rag.Words.{has}

-- `\d`
unfoldable pub is_digit : Char → Bool
is_digit c = leb b'0' (code c) && leb (code c) b'9'

-- `\d*`, as far as it goes.
unfoldable pub leading_digits : String → String
unfolding is_digit
leading_digits String.[] = ""
leading_digits (String.◌∷◌ c s) =
    let rest = leading_digits s in if is_digit c then String.◌∷◌ c rest else ""

-- `doc_(\d+)` at the start of a text.
unfoldable pub marker_here : String → Option String
unfolding leading_digits after?
marker_here s = elim (after? "doc_" s) [
  | none ↦ none
  | some rest ↦ elim (leading_digits rest) [
    | String.[] ↦ none
    | String.◌∷◌ c ds ↦ some ("doc_" ++ String.◌∷◌ c ds)
  ]
]

abbrev pub letters : String → ℕ
letters String.[] = 0
letters (String.◌∷◌ c s) = suc (letters s)

-- `markerRe.FindAllString(text, -1)`
unfoldable pub markers_in : ℕ → String → List String
unfolding marker_here
markers_in skip String.[] = []
markers_in (suc skip) (String.◌∷◌ c s) = markers_in skip s
markers_in zero (String.◌∷◌ c s) = elim (marker_here (String.◌∷◌ c s)) [
  | none ↦ markers_in zero s
  | some m ↦ m ∷ markers_in (letters m - 1) s
]

module _ {F : Type 0} (zero_score : F) where
  -- The sources by their markers; the last of equal markers stays.
  unfoldable pub by_marker : Map Source → List Source → Map Source
  by_marker m [] = m
  by_marker m (s ∷ ss) = by_marker (insert s.marker s m) ss

  -- The score of a source is never set.
  abbrev pub citation_of : String → Source → Citation F
  citation_of m s = record { marker = m; doc_id = s.doc_id; source = s.origin; score = zero_score }

  -- The loop over the markers, with those that it has seen.
  unfoldable pub cite : Map Source → List String → List String → List (Citation F)
  unfolding has
  cite sources seen [] = []
  cite sources seen (m ∷ ms) =
      let again = cite sources seen ms in
      let first = cite sources (m ∷ seen) ms in
      if has m seen
      then again
      else elim (lookup m sources) [ none ↦ first | some s ↦ citation_of m s ∷ first ]

  unfoldable pub citations_from_text : String → List Source → List (Citation F)
  unfolding markers_in by_marker cite
  citations_from_text text sources = cite (by_marker [] sources) [] (markers_in 0 text)
