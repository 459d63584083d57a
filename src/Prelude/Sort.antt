-- ===== src/Prelude/Sort.antt =====
-- Go's stable sort, by insertion. Where the order tells any two entries apart, the result does not
-- depend on the order of the input.
use mathlib.Core.Path.{◌≡◌, refl, ap, ap₂, subst, sym, ◌∙◌}
use mathlib.Core.Logic.{◌⊎◌, inl, inr}
use mathlib.Core.Bool.{Bool, true, false}
use mathlib.Core.List.{List, [], ◌∷◌, Permᴰ}
use mathlib.Core.List.Permᴰ
use native.Mathlib.Omega.{arith}
use search_and_retrieval_sys.Prelude.Tests.{if◌then◌else◌, Bool-cases}
use search_and_retrieval_sys.Prelude.Lists.{All, All-perm, All-map}

module _ {ℓ} {A : Type ℓ} (less : A → A → Bool) where
  -- Before the entries that are not less.
  unfoldable pub insert_sorted : A → List A → List A
  insert_sorted x [] = x ∷ []
  insert_sorted x (y ∷ ys) = if less y x then y ∷ insert_sorted x ys else x ∷ y ∷ ys

  unfoldable pub sort : List A → List A
  unfolding insert_sorted
  sort [] = []
  sort (x ∷ xs) = insert_sorted x (sort xs)

  insert_sorted-perm : (x : A) (xs : List A) → Permᴰ (insert_sorted x xs) (x ∷ xs)
  unfolding insert_sorted
  insert_sorted-perm x [] = Permᴰ.refl (x ∷ [])
  insert_sorted-perm x (y ∷ ys) = elim (Bool-cases (less y x)) [
    | inl lt ↦
        rw lt (Permᴰ.trans (Permᴰ.cons refl (insert_sorted-perm x ys)) (Permᴰ.swap refl refl))
    | inr ge ↦ rw ge (Permᴰ.refl (x ∷ y ∷ ys))
  ]

  pub sort-perm : (xs : List A) → Permᴰ (sort xs) xs
  unfolding sort
  sort-perm [] = Permᴰ.nil
  sort-perm (x ∷ xs) = Permᴰ.trans (insert_sorted-perm x (sort xs)) (Permᴰ.cons refl (sort-perm xs))

  -- A strict order on the entries with `P` that tells different ones apart.
  pub record IsStrict {κ} (P : A → Type κ) : Type (ℓ ⊔ κ) where
    pub irrefl : (a : A) → P a → less a a ≡ false
    pub trans : (a b c : A) → P a → P b → P c → less a b ≡ true → less b c ≡ true → less a c ≡ true
    pub total : (a b : A) → P a → P b → (less a b ≡ true) ⊎ (less b a ≡ true) ⊎ (a ≡ b)

  module _ {κ} {P : A → Type κ} (strict : IsStrict P) where
    asym : (a b : A) → P a → P b → less a b ≡ true → less b a ≡ false
    asym a b pa pb h = elim (Bool-cases (less b a)) [
      | inl back ↦ ground (arith, strict.trans a b a pa pb pa h back, strict.irrefl a pa)
      | inr e ↦ e
    ]

    -- The case `a < b`.
    insert_sorted-swap :
        (a b : A) (l : List A)
        → P a
        → P b
        → All P l
        → less a b ≡ true
        → insert_sorted a (insert_sorted b l) ≡ insert_sorted b (insert_sorted a l)
    unfolding insert_sorted
    insert_sorted-swap a b [] pa pb h lt = ground (arith, asym a b pa pb)
    insert_sorted-swap a b (y ∷ l) pa pb (py, h) lt =
        ground
          (arith, asym a b pa pb, strict.trans y a b py pa pb, insert_sorted-swap a b l pa pb h)

    insert_sorted_comm :
        (a b : A) (l : List A)
        → P a
        → P b
        → All P l
        → insert_sorted a (insert_sorted b l) ≡ insert_sorted b (insert_sorted a l)
    insert_sorted_comm a b l pa pb h = elim (strict.total a b pa pb) [
      | inl lt ↦ insert_sorted-swap a b l pa pb h lt
      | inr (inl gt) ↦ sym (insert_sorted-swap b a l pb pa h gt)
      | inr (inr same) ↦
          subst (λ x. insert_sorted a (insert_sorted x l) ≡ insert_sorted x (insert_sorted a l))
            same refl
    ]

    pub sort-eq_of_perm : {xs ys : List A} → Permᴰ xs ys → All P xs → sort xs ≡ sort ys
    unfolding sort
    sort-eq_of_perm Permᴰ.nil h = refl
    sort-eq_of_perm (Permᴰ.cons {l₂ = l} e p) (pa, h) =
        ap (insert_sorted _) (sort-eq_of_perm p h) ∙ ap (λ x. insert_sorted x (sort l)) e
    sort-eq_of_perm (Permᴰ.swap {a = a} {b = b} {l = l} e f) (pa, (pb, h)) =
        insert_sorted_comm a b (sort l) pa pb (All-perm P (Permᴰ.symm (sort-perm l)) h)
        ∙ ap₂ (λ x y. insert_sorted x (insert_sorted y (sort l))) f e
    sort-eq_of_perm (Permᴰ.trans p q) h = sort-eq_of_perm p h ∙ sort-eq_of_perm q (All-perm P p h)

  -- No entry is less than one before it.
  abbrev pub IsSorted : List A → Type 0
  IsSorted [] = Unit
  IsSorted (x ∷ xs) = All (λ y. less y x ≡ false) xs × IsSorted xs

  -- An order that may leave entries apart that it does not tell apart, as Go's sort wants it.
  pub record IsWeak : Type ℓ where
    pub asym : (a b : A) → less a b ≡ true → less b a ≡ false
    pub steps : (a b c : A) → less a b ≡ false → less b c ≡ false → less a c ≡ false

  module _ (weak : IsWeak) where
    insert_sorted-IsSorted : (x : A) (xs : List A) → IsSorted xs → IsSorted (insert_sorted x xs)
    unfolding insert_sorted
    insert_sorted-IsSorted x [] h = (tt, tt)
    insert_sorted-IsSorted x (y ∷ ys) (hy, h) = elim (Bool-cases (less y x)) [
      | inl lt ↦ rw lt (
        All-perm (λ z. less z y ≡ false) (Permᴰ.symm (insert_sorted-perm x ys))
            (weak.asym y x lt, hy),
        insert_sorted-IsSorted x ys h,
      )
      | inr ge ↦ rw ge ((ge, All-map (λ z e. weak.steps z y x e ge) ys hy), (hy, h))
    ]

    pub sort-IsSorted : (xs : List A) → IsSorted (sort xs)
    unfolding sort
    sort-IsSorted [] = tt
    sort-IsSorted (x ∷ xs) = insert_sorted-IsSorted x (sort xs) (sort-IsSorted xs)
