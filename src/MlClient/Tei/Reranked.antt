-- ===== src/MlClient/Tei/Reranked.antt =====
-- The order and the scores that the reranker's client gives, and what they are to `retrieve`.

use mathlib.Core.List.{Permᴰ}
use mathlib.Core.List.Permᴰ
use search_and_retrieval_sys.Prelude.{
  ℕ, ◌<◌, String, ◌≡◌, ◌≢◌, refl, sym, ap, subst, ◌∙◌, inl, inr, ltb, Option, none, some, List, [],
  ◌∷◌, length, map, All, All-perm, Bool-cases, Option-cases, arith,
}
use search_and_retrieval_sys.Prelude.Int.{ℤ, pos, negsuc}
use search_and_retrieval_sys.Prelude.Sort.{sort, sort-perm, IsSorted, IsWeak, sort-IsSorted}
use search_and_retrieval_sys.Http.{Transport}
use search_and_retrieval_sys.Retrieval.{at_index}
use search_and_retrieval_sys.MlClient.Tei.{
  RankItem, TeiJson, zeros, scores_above, place, put_score, put_index, place_items, ranked,
  tei_rerank, rerank_items,
}
use search_and_retrieval_sys.MlClient.Tei.Scores.{
  Below, length-set, length-zeros, nth-set, nth-set_other,
}

module _ {F : Type 0} (json : TeiJson F) where
  length-put_score :
      (r : RankItem F) (scores : List F) (o : Option ℕ)
      → length (put_score json r scores o) ≡ length scores
  length-put_score r scores none = refl
  length-put_score r scores (some n) = length-set scores n r.score

  place_items-length :
      (res : List (RankItem F)) (scores : List F)
      → length (place_items json res scores).0 ≡ length scores
  unfolding place_items
  place_items-length [] scores = refl
  place_items-length (r ∷ res) scores =
      place_items-length res (put_score json r scores (place json r.index scores))
      ∙ length-put_score r scores (place json r.index scores)

  put_index-Below :
      (n : ℕ) (scores : List F) (i : ℤ) (order : List ℤ)
      → length scores ≡ n
      → All (Below n) order
      → All (Below n) (put_index json (place json i scores) i order)
  put_index-Below n scores (negsuc i) order e h = h
  put_index-Below n scores (pos i) order e h = elim (Bool-cases (ltb i (length scores))) [
    | inl within ↦ rw within (ground arith, h)
    | inr beyond ↦ rw beyond h
  ]

  place_items-Below :
      (n : ℕ) (res : List (RankItem F)) (scores : List F)
      → length scores ≡ n
      → All (Below n) (place_items json res scores).1
  unfolding place_items
  place_items-Below n [] scores e = tt
  place_items-Below n (r ∷ res) scores e =
      let next = put_score json r scores (place json r.index scores) in
      put_index-Below n scores r.index (place_items json res next).1 e
        (place_items-Below n res next (length-put_score r scores (place json r.index scores) ∙ e))

  -- No two entries have one index.
  abbrev pub IsOnce : List (RankItem F) → Type 0
  IsOnce [] = Unit
  IsOnce (r ∷ res) = All (λ (x : RankItem F). x.index ≢ r.index) res × IsOnce res

  IsOnce-swap : (a b : RankItem F) (l : List (RankItem F)) → IsOnce (a ∷ b ∷ l) → IsOnce (b ∷ a ∷ l)
  IsOnce-swap a b l ((n, h), (k, o)) = (((λ e. n (sym e)), k), (h, o))

  IsOnce-perm : {xs ys : List (RankItem F)} → Permᴰ xs ys → IsOnce xs → IsOnce ys
  IsOnce-perm Permᴰ.nil h = tt
  IsOnce-perm (Permᴰ.cons {l₁ = l} e p) (h, o) = (
    All-perm _ p (subst (λ (z : RankItem F). All (λ (x : RankItem F). x.index ≢ z.index) l) e h),
    IsOnce-perm p o,
  )
  IsOnce-perm (Permᴰ.swap {a = a} {b = b} {b' = b'} {l = l} e f) h =
      subst (λ x. IsOnce (x ∷ b' ∷ l)) f (subst (λ y. IsOnce (b ∷ y ∷ l)) e (IsOnce-swap a b l h))
  IsOnce-perm (Permᴰ.trans p q) h = IsOnce-perm q (IsOnce-perm p h)

  place-Below : (scores : List F) (i : ℕ) → i < length scores → place json (pos i) scores ≡ some i
  place-Below scores i h = ground arith

  put_index-in :
      (n : ℕ) (scores : List F) (i : ℤ) (order : List ℤ)
      → length scores ≡ n
      → Below n i
      → put_index json (place json i scores) i order ≡ i ∷ order
  put_index-in n scores (pos i) order e b = rw (place-Below scores i (omega arith))
  put_index-in n scores (negsuc i) order e b = absurd b

  put_score-at :
      (n : ℕ) (r : RankItem F) (scores : List F) (i : ℤ)
      → length scores ≡ n
      → Below n i
      → at_index (put_score json r scores (place json i scores)) i ≡ some r.score
  put_score-at n r scores (pos i) e b =
      rw (place-Below scores i (omega arith)) (nth-set scores i r.score (omega arith))
  put_score-at n r scores (negsuc i) e b = absurd b

  put_score-other :
      (r : RankItem F) (scores : List F) (i j : ℤ)
      → i ≢ j
      → at_index (put_score json r scores (place json i scores)) j ≡ at_index scores j
  put_score-other r scores i (negsuc j) h = refl
  put_score-other r scores (negsuc i) (pos j) h = refl
  put_score-other r scores (pos i) (pos j) h = elim (Bool-cases (ltb i (length scores))) [
    | inl within ↦ rw within (nth-set_other scores i j r.score (λ e. h (ap pos e)))
    | inr beyond ↦ rw beyond
  ]

  -- With every index in range, the order is that of the sorted entries.
  place_items-order :
      (n : ℕ) (res : List (RankItem F)) (scores : List F)
      → length scores ≡ n
      → All (λ (r : RankItem F). Below n r.index) res
      → (place_items json res scores).1 ≡ map (λ (r : RankItem F). r.index) res
  unfolding place_items
  place_items-order n [] scores e h = refl
  place_items-order n (r ∷ res) scores e (b, h) =
      let next = put_score json r scores (place json r.index scores) in
      put_index-in n scores r.index (place_items json res next).1 e b
      ∙ ap (λ o. r.index ∷ o)
          (place_items-order n res next (length-put_score r scores (place json r.index scores) ∙ e)
            h)

  place_items-other :
      (res : List (RankItem F)) (scores : List F) (i : ℤ)
      → All (λ (r : RankItem F). r.index ≢ i) res
      → at_index (place_items json res scores).0 i ≡ at_index scores i
  unfolding place_items
  place_items-other [] scores i h = refl
  place_items-other (r ∷ res) scores i (d, h) =
      place_items-other res (put_score json r scores (place json r.index scores)) i h
      ∙ put_score-other r scores r.index i d

  place_items-score :
      (n : ℕ) (res : List (RankItem F)) (scores : List F)
      → length scores ≡ n
      → IsOnce res
      → All (λ (r : RankItem F). Below n r.index) res
      → All
          (λ (r : RankItem F). at_index (place_items json res scores).0 r.index ≡ some r.score)
          res
  unfolding place_items
  place_items-score n [] scores e o h = tt
  place_items-score n (r ∷ res) scores e (d, o) (b, h) =
      let next = put_score json r scores (place json r.index scores) in
      (
        place_items-other res next r.index d ∙ put_score-at n r scores r.index e b,
        place_items-score n res next (length-put_score r scores (place json r.index scores) ∙ e) o
            h,
      )

  -- Whatever the server answers, each score stands for a text and the order names texts only.
  ranked-Below :
      (docs : List String) (res : List (RankItem F))
      → (length (ranked json docs res).0 ≡ length docs)
        × All (Below (length docs)) (ranked json docs res).1
  ranked-Below docs res =
      let sorted = sort (scores_above json) res in
      let start = zeros json.zero_f docs in
      (
        place_items-length sorted start ∙ length-zeros json.zero_f docs,
        place_items-Below (length docs) sorted start (length-zeros json.zero_f docs),
      )

  -- If scores compare as a weak order does, and the reranker names texts only, and each at most
  -- once: every text it names has its score in the place of the text, and the order is that of the
  -- entries, the best first.
  pub ranked_lem :
      (docs : List String) (res : List (RankItem F))
      → IsWeak (scores_above json)
      → IsOnce res
      → All (λ (r : RankItem F). Below (length docs) r.index) res
      → All (λ (r : RankItem F). at_index (ranked json docs res).0 r.index ≡ some r.score) res
        × ((sorted : List (RankItem F)) × Permᴰ sorted res
            × IsSorted (λ a b. json.less b.score a.score) sorted
            × ((ranked json docs res).1 ≡ map (λ (r : RankItem F). r.index) sorted))
  ranked_lem docs res weak once below =
      let sorted = sort (scores_above json) res in
      let start = zeros json.zero_f docs in
      let perm : Permᴰ sorted res = sort-perm (scores_above json) res in
      let below' : All (λ (r : RankItem F). Below (length docs) r.index) sorted =
        All-perm _ (Permᴰ.symm perm) below in
      (
        All-perm _ perm (
            place_items-score (length docs) sorted start (length-zeros json.zero_f docs)
              (IsOnce-perm (Permᴰ.symm perm) once) below'),
        (
          sorted,
          perm,
          sort-IsSorted (scores_above json) weak res,
          place_items-order (length docs) sorted start (length-zeros json.zero_f docs) below',
        ),
      )

  -- The client's answer names texts only: what `retrieve` needs to index the documents by it.
  pub tei_rerank-Below :
      (send : Transport) (embed_url rerank_url : String) (query : String) (docs : List String)
      (scores : List F) (order : List ℤ)
      → tei_rerank json send embed_url rerank_url query docs ≡ some (scores, order)
      → (length scores ≡ length docs) × All (Below (length docs)) order
  unfolding tei_rerank
  tei_rerank-Below send embed_url rerank_url query docs scores order h =
      elim (Option-cases (rerank_items json send embed_url rerank_url query docs)) [
        | inl failed ↦ absurd (ground arith)
        | inr (res, answered) ↦
            let (counted, below) = ranked-Below docs res in
            let same : ranked json docs res ≡ (scores, order) = ground arith in
            (
              ap (λ (r : List F × List ℤ). length r.0) (sym same) ∙ counted,
              subst (λ (r : List F × List ℤ). All (Below (length docs)) r.1) same below,
            )
      ]
