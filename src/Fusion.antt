-- ===== src/Fusion.antt =====
-- internal/retrieve/fusion.go: `RRF`. A float64 is an abstract type with the operations that the code
-- uses; `order` is the order in which `range` visits the map of the scores.
pub mod Determined
pub mod Mmr
pub mod Complete
use search_and_retrieval_sys.Prelude.{
  ℕ, suc, String, Bool, Option, none, some, List, [], ◌∷◌, map, if◌then◌else◌,
}
use search_and_retrieval_sys.Prelude.Int.{ℤ, pos, ◌+ℤ◌, leb_ℤ}
use search_and_retrieval_sys.Prelude.Order.{before}
use search_and_retrieval_sys.Prelude.Sort.{sort}
use search_and_retrieval_sys.Prelude.Maps.{Map, lookup, insert}

-- `reciprocal n` is `1.0 / float64(n)`.
pub record Float (F : Type 0) : Type 0 where
  pub zero : F
  pub add : F → F → F
  pub reciprocal : ℤ → F
  pub equal : F → F → Bool
  pub less : F → F → Bool

pub record Scored (F : Type 0) : Type 0 where
  pub doc_id : String
  pub score : F

module _ {F : Type 0} (float : Float F) where
  -- `score[id] += share`, where a missing score is zero.
  abbrev pub raised : Option F → F → F
  raised none share = float.add float.zero share
  raised (some score) share = float.add score share

  -- The inner loop, over the ids of one list and their ranks.
  unfoldable pub score_list : ℤ → ℕ → Map F → List String → Map F
  score_list k rank scores [] = scores
  score_list k rank scores (id ∷ ids) =
      score_list k (suc rank)
        (insert id (raised (lookup id scores) (float.reciprocal (k +ℤ pos rank +ℤ pos 1))) scores)
        ids

  unfoldable pub score_lists : ℤ → Map F → List (List String) → Map F
  unfolding score_list
  score_lists k scores [] = scores
  score_lists k scores (list ∷ lists) = score_lists k (score_list k 0 scores list) lists

  -- The comparison of the sort: the greater score first, and the lesser id among equal scores.
  abbrev pub ranks_before : Scored F → Scored F → Bool
  ranks_before a b =
      if float.equal a.score b.score then before a.doc_id b.doc_id else float.less b.score a.score

  abbrev pub scored : String × F → Scored F
  scored entry = record { doc_id = entry.0; score = entry.1 }

  abbrev pub effective_k : ℤ → ℤ
  effective_k k = if leb_ℤ k (pos 0) then pos 60 else k

  unfoldable pub rrf : (Map F → Map F) → List (List String) → ℤ → List (Scored F)
  unfolding score_lists
  rrf order lists k = sort ranks_before (map scored (order (score_lists (effective_k k) [] lists)))
