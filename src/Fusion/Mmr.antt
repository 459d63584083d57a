-- ===== src/Fusion/Mmr.antt =====
-- internal/retrieve/fusion.go: `MMR` and `cosine`. A float64 is an abstract type with the operations that
-- the code uses, which are those of a float32 that is converted.
pub mod Selects
use search_and_retrieval_sys.Prelude.{
  ℕ, zero, suc, String, Bool, eqb, ◌||◌, Option, none, some, List, [], ◌∷◌, ◌++◌, length,
  if◌then◌else◌,
}
use search_and_retrieval_sys.Prelude.Int.{ℤ, pos, leb_ℤ, ltb_ℤ}
use search_and_retrieval_sys.Prelude.Maps.{Map, lookup}

-- `low` is -1e18.
pub record Real (F : Type 0) : Type 0 where
  pub zero_f : F
  pub one_f : F
  pub low : F
  pub add : F → F → F
  pub subtract : F → F → F
  pub multiply : F → F → F
  pub divide : F → F → F
  pub sqrt : F → F
  pub equal : F → F → Bool
  pub less : F → F → Bool

module _ {F : Type 0} (real : Real F) where
  -- The loop of `cosine`, over vectors of one length: the three sums.
  unfoldable pub sums : F → F → F → List F → List F → F × F × F
  sums dot na nb [] b = (dot, na, nb)
  sums dot na nb (x ∷ a) [] = (dot, na, nb)
  sums dot na nb (x ∷ a) (y ∷ b) =
      sums (real.add dot (real.multiply x y)) (real.add na (real.multiply x x))
        (real.add nb (real.multiply y y)) a b

  abbrev pub ratio : F × F × F → F
  ratio (dot, na, nb) =
      if real.equal na real.zero_f || real.equal nb real.zero_f
      then real.zero_f
      else real.divide dot (real.multiply (real.sqrt na) (real.sqrt nb))

  unfoldable pub cosine : List F → List F → F
  unfolding sums
  cosine a b =
      if eqb (length a) 0
        || eqb (length b) 0
        || (if eqb (length a) (length b) then Bool.false else Bool.true)
      then real.zero_f
      else ratio (sums real.zero_f real.zero_f real.zero_f a b)

  -- A missing key gives the zero value.
  abbrev pub or_zero : Option F → F
  or_zero none = real.zero_f
  or_zero (some x) = x

  abbrev pub or_nil : Option (List F) → List F
  or_nil none = []
  or_nil (some v) = v

  abbrev pub vector : Map (List F) → String → List F
  vector vectors id = or_nil (lookup id vectors)

  -- The loop over the selected ids.
  unfoldable pub max_sim : Map (List F) → String → F → List String → F
  unfolding cosine
  max_sim vectors id best [] = best
  max_sim vectors id best (s ∷ selected) =
      let sim = cosine (vector vectors id) (vector vectors s) in
      max_sim vectors id (if real.less best sim then sim else best) selected

  unfoldable pub mmr_score : Map F → Map (List F) → F → List String → String → F
  unfolding max_sim
  mmr_score relevance vectors lambda selected id =
      real.subtract (real.multiply lambda (or_zero (lookup id relevance)))
        (real.multiply (real.subtract real.one_f lambda) (max_sim vectors id real.zero_f selected))

  -- The loop over the remaining ids, from the index `i` on, with the best index and score so far.
  unfoldable pub best_index : (String → F) → ℕ → ℕ → F → List String → ℕ
  best_index score i best_idx best [] = best_idx
  best_index score i best_idx best (id ∷ ids) =
      best_index score (suc i) (if real.less best (score id) then i else best_idx)
        (if real.less best (score id) then score id else best) ids

  -- The entry at an index, and the others in their order; `none` is out of range.
  abbrev pub keep_first : String → Option (String × List String) → Option (String × List String)
  keep_first x none = none
  keep_first x (some (y, ys)) = some (y, x ∷ ys)

  unfoldable pub take_out : ℕ → List String → Option (String × List String)
  take_out n [] = none
  take_out zero (x ∷ xs) = some (x, xs)
  take_out (suc n) (x ∷ xs) = keep_first x (take_out n xs)

  -- The outer loop with `n` rounds left; `none` is an index out of range.
  unfoldable pub select_ids :
      Map F → Map (List F) → F → ℕ → List String → List String → Option (List String)
  unfolding mmr_score best_index take_out
  select_ids relevance vectors lambda zero selected remaining = some selected
  select_ids relevance vectors lambda (suc n) selected [] = some selected
  select_ids relevance vectors lambda (suc n) selected (r ∷ remaining) =
      let i =
        best_index (mmr_score relevance vectors lambda selected) 0 0 real.low (r ∷ remaining) in
      elim (take_out i (r ∷ remaining)) [
        | none ↦ none
        | some (x, rest) ↦ select_ids relevance vectors lambda n (selected ++ x ∷ []) rest
      ]

  -- How many ids are asked for.
  abbrev pub bounded : ℤ → ℕ → ℕ
  bounded (pos k) n = if eqb k 0 then n else if ltb_ℤ (pos n) (pos k) then n else k
  bounded (ℤ.negsuc k) n = n

  unfoldable pub mmr : List String → Map F → Map (List F) → F → ℤ → Option (List String)
  unfolding select_ids
  mmr candidates relevance vectors lambda top_k =
      select_ids relevance vectors lambda (bounded top_k (length candidates)) [] candidates
