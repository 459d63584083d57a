-- ===== src/Prelude/Lists.antt =====
-- Lists measured by native numbers, and predicates on all entries by recursion.
use Prim.Native.Nat.{ℕ, zero, suc, ◌+◌, min}
use mathlib.Core.Path.{◌≡◌, refl, ap, subst, sym, ◌∙◌}
use mathlib.Core.Logic.{◌⊎◌, inl, inr}
use mathlib.Core.List.{Permᴰ}
use mathlib.Core.List.{List, [], ◌∷◌, ◌++◌, map}
use native.Mathlib.Omega.{arith}

module _ {ℓ} {A : Type ℓ} where
  abbrev pub length : List A → ℕ
  length [] = 0
  length (x ∷ xs) = suc (length xs)

  abbrev pub take : ℕ → List A → List A
  take zero xs = []
  take (suc n) [] = []
  take (suc n) (x ∷ xs) = x ∷ take n xs

  pub length-append : (xs ys : List A) → length (xs ++ ys) ≡ length xs + length ys
  length-append [] ys = omega arith
  length-append (x ∷ xs) ys = omega (arith, length-append xs ys)

  pub length-take : (n : ℕ) (xs : List A) → length (take n xs) ≡ min n (length xs)
  length-take zero xs = omega arith
  length-take (suc n) [] = omega arith
  length-take (suc n) (x ∷ xs) = omega (arith, length-take n xs)

pub length-map {ℓ κ} :
    {A : Type ℓ} {B : Type κ} (f : A → B) (xs : List A) → length (map f xs) ≡ length xs
length-map f [] = refl
length-map f (x ∷ xs) = ap suc (length-map f xs)

-- `P` holds of every entry.
abbrev pub All {ℓ κ} : {A : Type ℓ} → (A → Type κ) → List A → Type κ
All P [] = Unit
All P (x ∷ xs) = P x × All P xs

module _ {ℓ κ} {A : Type ℓ} (P : A → Type κ) where
  pub All-append : (xs ys : List A) → All P xs → All P ys → All P (xs ++ ys)
  All-append [] ys _ k = k
  All-append (x ∷ xs) ys (p, h) k = (p, All-append xs ys h k)

  pub All-of : ((x : A) → P x) → (xs : List A) → All P xs
  All-of f [] = tt
  All-of f (x ∷ xs) = (f x, All-of f xs)

pub All-map {ℓ κ μ} :
    {A : Type ℓ} {P : A → Type κ} {Q : A → Type μ} (f : (x : A) → P x → Q x) (xs : List A)
    → All P xs
    → All Q xs
All-map f [] h = tt
All-map f (x ∷ xs) (p, h) = (f x p, All-map f xs h)

module _ {ℓ κ μ} {A : Type ℓ} (P : A → Type κ) (Q : A → Type μ) where
  -- One entry is replaced, and the others keep what they had or better.
  pub All-replace :
      (xs : List A) (x : A) {y : A} (ys : List A)
      → ((z : A) → P z → Q z)
      → All P (xs ++ x ∷ ys)
      → Q y
      → All Q (xs ++ y ∷ ys)
  All-replace [] x ys f (_, h) q = (q, All-map {Q = Q} f ys h)
  All-replace (z ∷ xs) x ys f (p, h) q = (f z p, All-replace xs x ys f h q)

module _ {ℓ κ} {A : Type ℓ} (P : A → Type κ) where
  pub All-at : (xs : List A) {x : A} (ys : List A) → All P (xs ++ x ∷ ys) → P x
  All-at [] ys h = h.0
  All-at (z ∷ xs) ys h = All-at xs ys h.1

-- Membership as a place in the list.
pub data Elem {ℓ} {A : Type ℓ} (a : A) : List A → Type ℓ where
  head : {b : A} {xs : List A} → b ≡ a → Elem a (b ∷ xs)
  tail : {b : A} {xs : List A} → Elem a xs → Elem a (b ∷ xs)

module _ {ℓ} {A : Type ℓ} where
  pub Elem-middle : (xs : List A) (x : A) (ys : List A) → Elem x (xs ++ x ∷ ys)
  Elem-middle [] x ys = head refl
  Elem-middle (z ∷ xs) x ys = tail (Elem-middle xs x ys)

module _ {ℓ} {A : Type ℓ} {a : A} where
  pub Elem-append_right : (xs : List A) {ys : List A} → Elem a ys → Elem a (xs ++ ys)
  Elem-append_right [] m = m
  Elem-append_right (x ∷ xs) m = tail (Elem-append_right xs m)

  pub Elem-append_left : {xs : List A} (ys : List A) → Elem a xs → Elem a (xs ++ ys)
  Elem-append_left ys (head e) = head e
  Elem-append_left ys (tail m) = tail (Elem-append_left ys m)

pub All-Elem {ℓ κ} :
    {A : Type ℓ} (P : A → Type κ) {a : A} {xs : List A} → All P xs → Elem a xs → P a
All-Elem P h (head e) = subst P e h.0
All-Elem P h (tail m) = All-Elem P h.1 m

pub Elem-map {ℓ κ} :
    {A : Type ℓ} {B : Type κ} (f : A → B) {a : A} {xs : List A} → Elem a xs → Elem (f a) (map f xs)
Elem-map f (head e) = head (ap f e)
Elem-map f (tail m) = tail (Elem-map f m)

pub Elem-perm {ℓ} : {A : Type ℓ} {a : A} {xs ys : List A} → Permᴰ xs ys → Elem a xs → Elem a ys
Elem-perm Permᴰ.nil m = m
Elem-perm (Permᴰ.cons e p) (head f) = head (sym e ∙ f)
Elem-perm (Permᴰ.cons e p) (tail m) = tail (Elem-perm p m)
Elem-perm (Permᴰ.swap e f) (head g) = tail (head (sym e ∙ g))
Elem-perm (Permᴰ.swap e f) (tail (head g)) = head (sym f ∙ g)
Elem-perm (Permᴰ.swap e f) (tail (tail m)) = tail (tail m)
Elem-perm (Permᴰ.trans p q) m = Elem-perm q (Elem-perm p m)

pub Elem-cons {ℓ} : {A : Type ℓ} {a b : A} {xs : List A} → Elem a (b ∷ xs) → (b ≡ a) ⊎ Elem a xs
Elem-cons (head e) = inl e
Elem-cons (tail m) = inr m

pub All-self {ℓ} : {A : Type ℓ} (xs : List A) → All (λ x. Elem x xs) xs
All-self [] = tt
All-self (x ∷ xs) = (head refl, All-map (λ y m. tail m) xs (All-self xs))

pub All-perm {ℓ κ} :
    {A : Type ℓ} (P : A → Type κ) {xs ys : List A} → Permᴰ xs ys → All P xs → All P ys
All-perm P Permᴰ.nil h = tt
All-perm P (Permᴰ.cons e p) (h, hs) = (subst P e h, All-perm P p hs)
All-perm P (Permᴰ.swap e f) (h, (k, hs)) = (subst P f k, (subst P e h, hs))
All-perm P (Permᴰ.trans p q) h = All-perm P q (All-perm P p h)
