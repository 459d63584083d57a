-- ===== src/Fusion/Mmr/Selects.antt =====
-- `MMR` selects as many of the candidates as it is asked for.
use mathlib.Core.List.{Permᴰ, append_assoc}
use mathlib.Core.List.Permᴰ
use search_and_retrieval_sys.Prelude.{
  ℕ, zero, suc, ◌+◌, ◌≤◌, ◌<◌, String, ◌≡◌, refl, sym, ap, ◌∙◌, subst, Option, none, some, List, [],
  ◌∷◌, ◌++◌, ◌||◌, length, length-append, if◌then◌else◌, arith,
}
use search_and_retrieval_sys.Prelude.Int.{ℤ, pos, negsuc, leb_ℤ, ltb_ℤ, pos_part}
use search_and_retrieval_sys.Prelude.Maps.{Map}
use search_and_retrieval_sys.Fusion.Mmr.{
  Real, best_index, keep_first, take_out, mmr_score, select_ids, bounded, mmr,
}

module _ {F : Type 0} (real : Real F) where
  best_index-lt :
      (score : String → F) (i best_idx : ℕ) (best : F) (ids : List String)
      → best_idx < i + length ids
      → best_index real score i best_idx best ids < i + length ids
  unfolding best_index
  best_index-lt score i best_idx best [] h = h
  best_index-lt score i best_idx best (id ∷ ids) h =
      let next : ℕ = if real.less best (score id) then i else best_idx in
      let bound : next < suc i + length ids = ground arith in
      omega (
        arith,
        best_index-lt score (suc i) next (if real.less best (score id) then score id else best) ids
            bound,
      )

  take_out-some :
      (n : ℕ) (xs : List String)
      → n < length xs
      → (y : String) × (ys : List String) × (take_out real n xs ≡ some (y, ys))
        × Permᴰ (y ∷ ys) xs
        × (suc (length ys) ≡ length xs)
  unfolding take_out
  take_out-some n [] h = absurd (omega arith)
  take_out-some zero (x ∷ xs) h = (x, xs, refl, Permᴰ.refl (x ∷ xs), refl)
  take_out-some (suc n) (x ∷ xs) h =
      let (y, ys, e, p, counted) = take_out-some n xs (omega arith) in
      (
        y,
        x ∷ ys,
        ap (keep_first real x) e,
        Permᴰ.trans (Permᴰ.swap refl refl) (Permᴰ.cons refl p),
        ap suc counted,
      )

  moved :
      (selected : List String) (x : String) (rest remaining : List String)
      → Permᴰ (x ∷ rest) remaining
      → Permᴰ ((selected ++ x ∷ []) ++ rest) (selected ++ remaining)
  moved selected x rest remaining p =
      subst (λ l. Permᴰ l (selected ++ remaining)) (sym (append_assoc selected (x ∷ []) rest))
        (Permᴰ.append_left selected p)

  -- The loop moves an entry from the remaining ones to the selected ones in each round.
  select_ids_lem :
      (relevance : Map F) (vectors : Map (List F)) (lambda : F) (n : ℕ)
      (selected remaining : List String)
      → n ≤ length remaining
      → (out : List String) × (select_ids real relevance vectors lambda n selected remaining
          ≡ some out)
        × (length out ≡ length selected + n)
        × (rest : List String) × Permᴰ (out ++ rest) (selected ++ remaining)
  unfolding select_ids
  select_ids_lem relevance vectors lambda zero selected remaining h =
      (selected, refl, omega arith, remaining, Permᴰ.refl (selected ++ remaining))
  select_ids_lem relevance vectors lambda (suc n) selected [] h = absurd (omega arith)
  select_ids_lem relevance vectors lambda (suc n) selected (r ∷ remaining) h =
      let i : ℕ =
        best_index real (mmr_score real relevance vectors lambda selected) 0 0 real.low
          (r ∷ remaining) in
      let bound : i < length (r ∷ remaining) = omega (
        arith,
        best_index-lt (mmr_score real relevance vectors lambda selected) 0 0 real.low
            (r ∷ remaining) (omega arith),
      ) in
      let (x, rest, e, p, counted) = take_out-some i (r ∷ remaining) bound in
      let (out, f, counted', left, q) =
        select_ids_lem relevance vectors lambda n (selected ++ x ∷ []) rest (omega arith) in
      let next : Option (String × List String) → Option (List String) = λ o. elim o [
        | none ↦ none
        | some (y, ys) ↦ select_ids real relevance vectors lambda n (selected ++ y ∷ []) ys
      ] in
      (
        out,
        ap next e ∙ f,
        omega (arith, length-append selected (x ∷ [])),
        left,
        Permᴰ.trans q (moved selected x rest (r ∷ remaining) p),
      )

  bounded-le : (top_k : ℤ) (n : ℕ) → bounded real top_k n ≤ n
  bounded-le (pos k) n = ground arith
  bounded-le (negsuc k) n = omega arith

  -- Of the candidates as many are selected as are asked for, all if that is not positive or too
  -- large; each is selected at most as often as it is a candidate, and no index is out of range.
  pub mmr_lem :
      (candidates : List String) (relevance : Map F) (vectors : Map (List F)) (lambda : F)
      (top_k : ℤ)
      → (out : List String) × (mmr real candidates relevance vectors lambda top_k ≡ some out)
        × (length out ≡ (
            if leb_ℤ top_k (pos 0) || ltb_ℤ (pos (length candidates)) top_k
            then length candidates
            else pos_part top_k))
        × (rest : List String) × Permᴰ (out ++ rest) candidates
  unfolding mmr
  mmr_lem candidates relevance vectors lambda top_k =
      let (out, e, counted, rest, p) =
        select_ids_lem relevance vectors lambda (bounded real top_k (length candidates)) []
          candidates (bounded-le top_k (length candidates)) in
      let size : bounded real top_k (length candidates) ≡ (
          if leb_ℤ top_k (pos 0) || ltb_ℤ (pos (length candidates)) top_k
          then length candidates
          else pos_part top_k) =
        asked top_k (length candidates) in
      (out, e, omega arith, rest, p)
    where
      asked :
          (k : ℤ) (n : ℕ)
          → bounded real k n ≡ (if leb_ℤ k (pos 0) || ltb_ℤ (pos n) k then n else pos_part k)
      asked (pos k) n = ground arith
      asked (negsuc k) n = ground arith
