-- ===== src/Fusion/Determined.antt =====
-- The fused ranking depends on the lists alone, not on the order in which Go visits a map.
use mathlib.Core.List.{Permᴰ}
use mathlib.Core.List.Permᴰ
use search_and_retrieval_sys.Prelude.{
  ℕ, suc, String, true, false, ◌≡◌, ap, ap₂, subst, ◌⊎◌, inl, inr, ◌↔◌, some, List, [], ◌∷◌, map,
  arith, All, All-perm, Bool-cases, ◌==◌, eq_iff, Option-cases,
}
use search_and_retrieval_sys.Prelude.Int.{ℤ, pos, ◌+ℤ◌, +ℤ_parts, ◌<ℤ◌}
use search_and_retrieval_sys.Prelude.Order.{before_irrefl, before_trans, before_total}
use search_and_retrieval_sys.Prelude.Sort.{IsStrict, sort-eq_of_perm}
use search_and_retrieval_sys.Prelude.Maps.{Map, lookup, insert}
use search_and_retrieval_sys.Fusion.{
  Float, Scored, raised, score_list, score_lists, ranks_before, scored, effective_k, rrf,
}

-- What the code relies on: among positive finite numbers, which reciprocals of positive integers and
-- their sums are, `==` and `<` are equality and a strict total order.
pub record IsFloat {F : Type 0} (float : Float F) : Type 1 where
  pub IsPositive : F → Type 0
  pub reciprocal : (n : ℤ) → pos 0 <ℤ n → IsPositive (float.reciprocal n)
  pub add_zero : (a : F) → IsPositive a → IsPositive (float.add float.zero a)
  pub add : (a b : F) → IsPositive a → IsPositive b → IsPositive (float.add a b)
  pub equal_iff : (a b : F) → IsPositive a → IsPositive b → (float.equal a b ≡ true) ↔ (a ≡ b)
  pub irrefl : (a : F) → IsPositive a → float.less a a ≡ false
  pub trans :
      (a b c : F)
      → IsPositive a
      → IsPositive b
      → IsPositive c
      → float.less a b ≡ true
      → float.less b c ≡ true
      → float.less a c ≡ true
  pub total :
      (a b : F)
      → IsPositive a
      → IsPositive b
      → (float.less a b ≡ true) ⊎ (float.less b a ≡ true) ⊎ (a ≡ b)

module _ {F : Type 0} {float : Float F} (laws : IsFloat float) where
  abbrev AllPositive : Map F → Type 0
  AllPositive = All (λ (e : String × F). laws.IsPositive e.1)

  abbrev Rankable : Scored F → Type 0
  Rankable s = laws.IsPositive s.score

  insert-AllPositive :
      (id : String) (x : F) (m : Map F)
      → laws.IsPositive x
      → AllPositive m
      → AllPositive (insert id x m)
  unfolding insert
  insert-AllPositive id x [] p h = (p, tt)
  insert-AllPositive id x ((j, y) ∷ m) p (q, h) = elim (Bool-cases (j == id)) [
    | inl same ↦ rw same (p, h)
    | inr other ↦ rw other (q, insert-AllPositive id x m p h)
  ]

  lookup-positive :
      (id : String) (m : Map F) (x : F) → AllPositive m → lookup id m ≡ some x → laws.IsPositive x
  unfolding lookup
  lookup-positive id [] x h e = cc
  lookup-positive id ((j, y) ∷ m) x (q, h) e = elim (Bool-cases (j == id)) [
    | inl same ↦ subst laws.IsPositive (ground arith) q
    | inr other ↦ lookup-positive id m x h (ground arith)
  ]

  raised-positive :
      (id : String) (m : Map F) (share : F)
      → AllPositive m
      → laws.IsPositive share
      → laws.IsPositive (raised float (lookup id m) share)
  raised-positive id m share h p = elim (Option-cases (lookup id m)) [
    | inl missing ↦ rw missing (laws.add_zero share p)
    | inr (x, found) ↦ rw found (laws.add x share (lookup-positive id m x h found) p)
  ]

  score_list-AllPositive :
      (k : ℤ) (rank : ℕ) (m : Map F) (ids : List String)
      → pos 0 <ℤ k
      → AllPositive m
      → AllPositive (score_list float k rank m ids)
  unfolding score_list
  score_list-AllPositive k rank m [] p h = h
  score_list-AllPositive k rank m (id ∷ ids) p h =
      score_list-AllPositive k (suc rank)
        (insert id (raised float (lookup id m) (float.reciprocal (k +ℤ pos rank +ℤ pos 1))) m) ids p
        (insert-AllPositive id _ m
          (raised-positive id m _ h (
            laws.reciprocal (k +ℤ pos rank +ℤ pos 1)
              (omega (arith, +ℤ_parts k (pos rank), +ℤ_parts (k +ℤ pos rank) (pos 1)))))
          h)

  score_lists-AllPositive :
      (k : ℤ) (m : Map F) (lists : List (List String))
      → pos 0 <ℤ k
      → AllPositive m
      → AllPositive (score_lists float k m lists)
  unfolding score_lists
  score_lists-AllPositive k m [] p h = h
  score_lists-AllPositive k m (list ∷ lists) p h =
      score_lists-AllPositive k (score_list float k 0 m list) lists p
        (score_list-AllPositive k 0 m list p h)

  scored-Rankable : (m : Map F) → AllPositive m → All Rankable (map (scored float) m)
  scored-Rankable [] h = tt
  scored-Rankable (e ∷ m) (p, h) = (p, scored-Rankable m h)

  scored-perm : {m n : Map F} → Permᴰ m n → Permᴰ (map (scored float) m) (map (scored float) n)
  scored-perm Permᴰ.nil = Permᴰ.nil
  scored-perm (Permᴰ.cons e p) = Permᴰ.cons (ap (scored float) e) (scored-perm p)
  scored-perm (Permᴰ.swap e f) = Permᴰ.swap (ap (scored float) e) (ap (scored float) f)
  scored-perm (Permᴰ.trans p q) = Permᴰ.trans (scored-perm p) (scored-perm q)

  same_scored : (a b : Scored F) → a.doc_id ≡ b.doc_id → a.score ≡ b.score → a ≡ b
  same_scored a b e f = ap₂ (λ (i : String) (x : F). record { doc_id = i; score = x }) e f

  rank_total :
      (a b : Scored F)
      → Rankable a
      → Rankable b
      → (ranks_before float a b ≡ true) ⊎ (ranks_before float b a ≡ true) ⊎ (a ≡ b)
  rank_total a b pa pb = ground (
    arith,
    laws.equal_iff a.score b.score pa pb,
    laws.equal_iff b.score a.score pb pa,
    laws.total a.score b.score pa pb,
    before_total a.doc_id b.doc_id,
    eq_iff a.doc_id b.doc_id,
    same_scored a b,
  )

  ranks_before-IsStrict : IsStrict (ranks_before float) Rankable
  ranks_before-IsStrict = record {
    irrefl = λ a pa. ground (arith, laws.equal_iff a.score a.score pa pa, before_irrefl a.doc_id);
    trans = λ a b c pa pb pc h k. ground (
      arith,
      laws.equal_iff a.score b.score pa pb,
      laws.equal_iff b.score c.score pb pc,
      laws.equal_iff a.score c.score pa pc,
      laws.irrefl a.score pa,
      laws.irrefl b.score pb,
      laws.trans c.score b.score a.score pc pb pa,
      before_trans a.doc_id b.doc_id c.doc_id,
    );
    total = λ a b pa pb. rank_total a b pa pb;
  }

  effective_k-positive : (k : ℤ) → pos 0 <ℤ effective_k float k
  effective_k-positive k = ground arith

  -- However Go visits the map of the scores, the fused ranking is the same.
  pub rrf-perm :
      (order order' : Map F → Map F)
      → ((m : Map F) → Permᴰ (order m) m)
      → ((m : Map F) → Permᴰ (order' m) m)
      → (lists : List (List String)) (k : ℤ) → rrf float order lists k ≡ rrf float order' lists k
  unfolding rrf
  rrf-perm order order' fair fair' lists k =
      let m = score_lists float (effective_k float k) [] lists in
      sort-eq_of_perm (ranks_before float) ranks_before-IsStrict
        (scored-perm (Permᴰ.trans (fair m) (Permᴰ.symm (fair' m))))
        (All-perm Rankable (scored-perm (Permᴰ.symm (fair m)))
          (scored-Rankable m (score_lists-AllPositive _ [] lists (effective_k-positive k) tt)))
