-- ===== src/Rag/Faithfulness/Best.antt =====
-- The best share of a sentence's tokens is enough exactly if that of some source is.
use search_and_retrieval_sys.Prelude.{
  ℕ, ◌<◌, String, true, false, ◌≡◌, refl, sym, ap, subst, ◌⊎◌, inl, inr, ◌∙◌, length, List, [], ◌∷◌,
  map, Elem, head, tail, Bool-cases, if◌then◌else◌, arith,
}
use search_and_retrieval_sys.Sources.{Source}
use search_and_retrieval_sys.Rag.Words.{tokens, content_tokens, overlap}
use search_and_retrieval_sys.Rag.Faithfulness.{Fraction, best_of, is_supported}

-- What IEEE 754 gives for quotients with one denominator that is not zero: the comparison is that of
-- a linear order, whose upper part `>= 0.6` cuts off, without zero.
pub record IsLinear {F : Type 0} (fraction : Fraction F) : Type 0 where
  pub none_shared : (n : ℕ) → 0 < n → fraction.divide 0 n ≡ fraction.zero_f
  pub zero_low : fraction.enough fraction.zero_f ≡ false
  pub above :
      (a b n : ℕ)
      → 0 < n
      → fraction.less (fraction.divide a n) (fraction.divide b n) ≡ true
      → fraction.enough (fraction.divide a n) ≡ true
      → fraction.enough (fraction.divide b n) ≡ true
  pub below :
      (a b n : ℕ)
      → 0 < n
      → fraction.less (fraction.divide a n) (fraction.divide b n) ≡ false
      → fraction.enough (fraction.divide b n) ≡ true
      → fraction.enough (fraction.divide a n) ≡ true

module _ {F : Type 0} (fraction : Fraction F) where
  -- The share of the sentence's tokens that one source has is enough.
  abbrev pub Supports : (String → String) → List String → Source → Type 0
  Supports to_lower st s =
      fraction.enough (fraction.divide (overlap st (tokens to_lower s.text)) (length st)) ≡ true

  -- The sentence has no content, or one source has enough of it.
  abbrev pub IsSupported : (String → String) → List Source → String → Type 0
  IsSupported to_lower sources sent =
      (content_tokens to_lower sent ≡ [])
      ⊎ ((s : Source) × Elem s sources × Supports to_lower (content_tokens to_lower sent) s)

  module _ (linear : IsLinear fraction) (to_lower : String → String) where
    abbrev pub sets : List Source → List (List String)
    sets = map (λ (s : Source). tokens to_lower s.text)

    abbrev share : List String → Source → ℕ
    share st s = overlap st (tokens to_lower s.text)

    -- The best share is enough.
    abbrev Reaches : List String → F → List Source → Type 0
    Reaches st best sources = fraction.enough (best_of fraction st best (sets sources)) ≡ true

    -- What one source changes.
    best_of-cases :
        (st : List String) (a : ℕ) (s : Source) (sources : List Source)
        → let n : ℕ = length st in
          let next = best_of fraction st (fraction.divide a n) (sets (s ∷ sources)) in
          ((fraction.less (fraction.divide a n) (fraction.divide (share st s) n) ≡ true)
            × (next ≡ best_of fraction st (fraction.divide (share st s) n) (sets sources)))
          ⊎ ((fraction.less (fraction.divide a n) (fraction.divide (share st s) n) ≡ false)
              × (next ≡ best_of fraction st (fraction.divide a n) (sets sources)))
    unfolding best_of
    best_of-cases st a s sources =
        let n : ℕ = length st in
        let b : ℕ = share st s in
        let after : F → F = λ v. best_of fraction st v (sets sources) in
        elim (Bool-cases (fraction.less (fraction.divide a n) (fraction.divide b n))) [
          | inl more ↦
              inl (
                more,
                ap (λ t. after (if t then fraction.divide b n else fraction.divide a n)) more,
              )
          | inr most ↦
              inr (
                most,
                ap (λ t. after (if t then fraction.divide b n else fraction.divide a n)) most,
              )
        ]

    best_of_sound :
        (st : List String) (a : ℕ) (sources : List Source)
        → Reaches st (fraction.divide a (length st)) sources
        → (fraction.enough (fraction.divide a (length st)) ≡ true)
          ⊎ ((s : Source) × Elem s sources × Supports to_lower st s)
    best_of_sound st a [] e = inl (unfold best_of in e)
    best_of_sound st a (s ∷ sources) e = elim (best_of-cases st a s sources) [
      | inl (more, next) ↦
          elim (best_of_sound st (share st s) sources (sym (ap fraction.enough next) ∙ e)) [
            | inl here ↦ inr (s, head refl, here)
            | inr (t, l, p) ↦ inr (t, tail l, p)
          ]
      | inr (most, next) ↦ elim (best_of_sound st a sources (sym (ap fraction.enough next) ∙ e)) [
        | inl first ↦ inl first
        | inr (t, l, p) ↦ inr (t, tail l, p)
      ]
    ]

    best_of-keeps :
        (st : List String) (a : ℕ) (sources : List Source)
        → 0 < length st
        → fraction.enough (fraction.divide a (length st)) ≡ true
        → Reaches st (fraction.divide a (length st)) sources
    best_of-keeps st a [] h e = unfold best_of in e
    best_of-keeps st a (s ∷ sources) h e = elim (best_of-cases st a s sources) [
      | inl (more, next) ↦
          ap fraction.enough next
          ∙ best_of-keeps st (share st s) sources h
              (linear.above a (share st s) (length st) h more e)
      | inr (most, next) ↦ ap fraction.enough next ∙ best_of-keeps st a sources h e
    ]

    best_of_complete :
        (st : List String) (a : ℕ) (sources : List Source) (s : Source)
        → 0 < length st
        → Elem s sources
        → Supports to_lower st s
        → Reaches st (fraction.divide a (length st)) sources
    best_of_complete st a [] s h l p = elim l [ ]
    best_of_complete st a (x ∷ sources) s h (head e) p =
        let own = subst (Supports to_lower st) (sym e) p in
        elim (best_of-cases st a x sources) [
          | inl (more, next) ↦ ap fraction.enough next ∙ best_of-keeps st (share st x) sources h own
          | inr (most, next) ↦
              ap fraction.enough next
              ∙ best_of-keeps st a sources h (linear.below a (share st x) (length st) h most own)
        ]
    best_of_complete st a (x ∷ sources) s h (tail m) p = elim (best_of-cases st a x sources) [
      | inl (more, next) ↦
          ap fraction.enough next ∙ best_of_complete st (share st x) sources s h m p
      | inr (most, next) ↦ ap fraction.enough next ∙ best_of_complete st a sources s h m p
    ]

    -- The test of a sentence is what it stands for.
    pub supported_of_test :
        (st : List String) (sources : List Source)
        → is_supported fraction st (sets sources) ≡ true
        → (st ≡ []) ⊎ ((s : Source) × Elem s sources × Supports to_lower st s)
    supported_of_test [] sources h = inl refl
    supported_of_test (t ∷ ts) sources h =
        let none_shared = linear.none_shared (length (t ∷ ts)) (omega arith) in
        elim (best_of_sound (t ∷ ts) 0 sources
          (subst (λ v. Reaches (t ∷ ts) v sources) (sym none_shared) h)) [
            | inl zero_reaches ↦ absurd (cc (none_shared, linear.zero_low))
            | inr found ↦ inr found
          ]

    pub test_of_supported :
        (st : List String) (sources : List Source)
        → (st ≡ []) ⊎ ((s : Source) × Elem s sources × Supports to_lower st s)
        → is_supported fraction st (sets sources) ≡ true
    test_of_supported [] sources h = refl
    test_of_supported (t ∷ ts) sources (inl e) = absurd (cc)
    test_of_supported (t ∷ ts) sources (inr (s, l, p)) =
        subst (λ v. Reaches (t ∷ ts) v sources) (linear.none_shared (length (t ∷ ts)) (omega arith))
          (best_of_complete (t ∷ ts) 0 sources s (omega arith) l p)
