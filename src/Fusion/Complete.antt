-- ===== src/Fusion/Complete.antt =====
-- The fused ranking holds the ids of the lists, and no other.
use mathlib.Core.List.{Permᴰ}
use mathlib.Core.List.Permᴰ
use search_and_retrieval_sys.Prelude.{
  ℕ, suc, String, ◌≡◌, refl, ap, subst, ◌⊎◌, inl, inr, ◌↔◌, ◌==◌, eq_iff, List, [], ◌∷◌, map, arith,
  Elem, head, tail, Elem-perm, Bool-cases,
}
use search_and_retrieval_sys.Prelude.Int.{ℤ, pos, ◌+ℤ◌}
use search_and_retrieval_sys.Prelude.Sort.{sort, sort-perm}
use search_and_retrieval_sys.Prelude.Maps.{Map, lookup, insert, keys}
use search_and_retrieval_sys.Fusion.{
  Float, Scored, raised, score_list, score_lists, ranks_before, scored, effective_k, rrf,
}

-- The id stands in one of the lists.
abbrev pub IsListed : String → List (List String) → Type 0
IsListed id [] = ⊥
IsListed id (list ∷ lists) = Elem id list ⊎ IsListed id lists

Elem-cons_iff : (id j : String) (xs : List String) → Elem id (j ∷ xs) ↔ ((j ≡ id) ⊎ Elem id xs)
Elem-cons_iff id j xs = (split, join)
  where
    split : Elem id (j ∷ xs) → (j ≡ id) ⊎ Elem id xs
    split (head e) = inl e
    split (tail m) = inr m

    join : (j ≡ id) ⊎ Elem id xs → Elem id (j ∷ xs)
    join (inl e) = head e
    join (inr m) = tail m

keys-insert :
    {V : Type 0} (id k : String) (v : V) (m : Map V)
    → Elem id (keys (insert k v m)) ↔ ((k ≡ id) ⊎ Elem id (keys m))
unfolding insert
keys-insert id k v [] = Elem-cons_iff id k []
keys-insert id k v ((j, w) ∷ m) = elim (Bool-cases (j == k)) [
  | inl same ↦
      let e : j ≡ k = (eq_iff j k).0 same in
      rw same (
        ground (arith, Elem-cons_iff id k (keys m), Elem-cons_iff id j (keys m), e),
        ground (arith, Elem-cons_iff id k (keys m), Elem-cons_iff id j (keys m), e),
      )
  | inr other ↦ rw other (
    ground (
      arith,
      Elem-cons_iff id j (keys (insert k v m)),
      Elem-cons_iff id j (keys m),
      keys-insert id k v m,
    ),
    ground (
      arith,
      Elem-cons_iff id j (keys (insert k v m)),
      Elem-cons_iff id j (keys m),
      keys-insert id k v m,
    ),
  )
]

module _ {F : Type 0} (float : Float F) where
  score_list-keys :
      (k : ℤ) (rank : ℕ) (m : Map F) (id : String) (ids : List String)
      → Elem id (keys (score_list float k rank m ids)) ↔ (Elem id ids ⊎ Elem id (keys m))
  unfolding score_list
  score_list-keys k rank m id [] = (λ e. inr e, λ e. elim e [ inl m ↦ elim m [ ] | inr m ↦ m ])
  score_list-keys k rank m id (x ∷ ids) =
      let share = raised float (lookup x m) (float.reciprocal (k +ℤ pos rank +ℤ pos 1)) in
      (
        ground (
          arith,
          score_list-keys k (suc rank) (insert x share m) id ids,
          keys-insert id x share m,
          Elem-cons_iff id x ids,
        ),
        ground (
          arith,
          score_list-keys k (suc rank) (insert x share m) id ids,
          keys-insert id x share m,
          Elem-cons_iff id x ids,
        ),
      )

  score_lists-keys :
      (k : ℤ) (m : Map F) (id : String) (lists : List (List String))
      → Elem id (keys (score_lists float k m lists)) ↔ (IsListed id lists ⊎ Elem id (keys m))
  unfolding score_lists
  score_lists-keys k m id [] = (λ e. inr e, λ e. elim e [ inl m ↦ absurd m | inr m ↦ m ])
  score_lists-keys k m id (list ∷ lists) = (
    ground (
      arith,
      score_list-keys k 0 m id list,
      score_lists-keys k (score_list float k 0 m list) id lists,
    ),
    ground (
      arith,
      score_list-keys k 0 m id list,
      score_lists-keys k (score_list float k 0 m list) id lists,
    ),
  )

  abbrev pub ids_of : List (Scored F) → List String
  ids_of = map (λ (s : Scored F). s.doc_id)

  ids_of-scored : (m : Map F) → ids_of (map (scored float) m) ≡ keys m
  ids_of-scored [] = refl
  ids_of-scored ((k, x) ∷ m) = ap (λ (ks : List String). k ∷ ks) (ids_of-scored m)

  map-perm : {A B : Type 0} (f : A → B) {xs ys : List A} → Permᴰ xs ys → Permᴰ (map f xs) (map f ys)
  map-perm f Permᴰ.nil = Permᴰ.nil
  map-perm f (Permᴰ.cons e p) = Permᴰ.cons (ap f e) (map-perm f p)
  map-perm f (Permᴰ.swap e g) = Permᴰ.swap (ap f e) (ap f g)
  map-perm f (Permᴰ.trans p q) = Permᴰ.trans (map-perm f p) (map-perm f q)

  rrf-keys :
      (order : Map F → Map F)
      → ((m : Map F) → Permᴰ (order m) m)
      → (lists : List (List String)) (k : ℤ)
      → Permᴰ
          (ids_of (rrf float order lists k))
          (keys (score_lists float (effective_k float k) [] lists))
  unfolding rrf
  rrf-keys order fair lists k =
      let m = score_lists float (effective_k float k) [] lists in
      subst (Permᴰ (ids_of (sort (ranks_before float) (map (scored float) (order m)))))
        (ids_of-scored m)
        (Permᴰ.trans
          (map-perm (λ (s : Scored F). s.doc_id)
            (sort-perm (ranks_before float) (map (scored float) (order m))))
          (map-perm (λ (s : Scored F). s.doc_id) (map-perm (scored float) (fair m))))

  -- A document stands in the fused ranking exactly if it stands in one of the lists.
  pub Elem-rrf_iff :
      (order : Map F → Map F)
      → ((m : Map F) → Permᴰ (order m) m)
      → (lists : List (List String)) (k : ℤ) (id : String)
      → Elem id (ids_of (rrf float order lists k)) ↔ IsListed id lists
  Elem-rrf_iff order fair lists k id =
      let perm = rrf-keys order fair lists k in
      let listed = score_lists-keys (effective_k float k) [] id lists in
      (
        λ m. elim (listed.0 (Elem-perm perm m)) [ inl here ↦ here | inr there ↦ elim there [ ] ],
        λ m. Elem-perm (Permᴰ.symm perm) (listed.1 (inl m)),
      )
