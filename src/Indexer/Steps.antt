-- ===== src/Indexer/Steps.antt =====
-- How the steps of `apply` compose: what each leaves of the guard, and what a success went through.
use search_and_retrieval_sys.Prelude.{
  String, Bool, ◌≡◌, ◌≢◌, refl, ap, ◌⊎◌, ◌∙◌, some, List, [], ◌∷◌, map, arith, Option-cases, inl,
  inr,
}
use search_and_retrieval_sys.Prelude.Maps.{Map}
use search_and_retrieval_sys.Contract.{CanonicalDoc}
use search_and_retrieval_sys.OpenSearch.{Item, applied, action, bulk_result}
use search_and_retrieval_sys.Indexer.{
  Outside, State, Result, ok, error, panic, M, continue, ◌>>=◌, Point, Ranges, bulk_docs,
  embed_upserts, upsert_points, delete_docs, finish, apply_due, embed_and_write, write_qdrant, ◌>>◌,
  upserts_of, deletes_of,
}

pub result-cases : (r : Result (Unit {0})) → (r ≡ ok tt) ⊎ (r ≢ ok tt)
result-cases (ok tt) = inl refl
result-cases error = inr (cc)
result-cases panic = inr (cc)

-- The step leaves the guard as it was, if it fails.
abbrev pub FailureKeeps : {Vector B : Type 0} → M Vector B → State Vector → Type 0
FailureKeeps {B = B} m s = ((b : B) → (m s).0 ≢ ok b) → (m s).1.guard ≡ s.guard

module _ {Vector A B : Type 0} where
  continue-ok :
      (r : Result A) (f : A → M Vector B) (s : State Vector) (b : B)
      → (continue r f s).0 ≡ ok b
      → (a : A) × (r ≡ ok a) × ((f a s).0 ≡ ok b) × (continue r f s ≡ f a s)
  continue-ok (ok a) f s b h = (a, refl, h, refl)
  continue-ok error f s b h = absurd (cc)
  continue-ok panic f s b h = absurd (cc)

  -- A bind that succeeds went through both of its parts.
  pub bind-ok :
      (m : M Vector A) (f : A → M Vector B) (s : State Vector) (b : B)
      → ((m >>= f) s).0 ≡ ok b
      → (a : A) × ((m s).0 ≡ ok a) × ((f a (m s).1).0 ≡ ok b) × ((m >>= f) s ≡ f a (m s).1)
  bind-ok m f s b h = continue-ok (m s).0 f (m s).1 b h

  continue-keeps :
      (r : Result A) (f : A → M Vector B) (s : State Vector)
      → ((a : A) → FailureKeeps (f a) s)
      → ((b : B) → (continue r f s).0 ≢ ok b)
      → (continue r f s).1.guard ≡ s.guard
  continue-keeps (ok a) f s later bad = later a bad
  continue-keeps error f s later bad = refl
  continue-keeps panic f s later bad = refl

  pub bind-FailureKeeps :
      (m : M Vector A) (f : A → M Vector B) (s : State Vector)
      → (m s).1.guard ≡ s.guard
      → ((a : A) → FailureKeeps (f a) (m s).1)
      → FailureKeeps (m >>= f) s
  bind-FailureKeeps m f s keeps later bad = continue-keeps (m s).0 f (m s).1 later bad ∙ keeps

module _ {Vector : Type 0} (out : Outside Vector) (s : State Vector) where
  pub guard-bulk_docs : (docs : List CanonicalDoc) → (bulk_docs out docs s).1.guard ≡ s.guard
  unfolding bulk_docs
  guard-bulk_docs docs = refl

  pub guard-embed_upserts :
      (docs : List CanonicalDoc) → (embed_upserts out docs s).1.guard ≡ s.guard
  unfolding embed_upserts
  guard-embed_upserts [] = refl
  guard-embed_upserts (d ∷ docs) = refl

  pub guard-upsert_points : (ps : List (Point Vector)) → (upsert_points out ps s).1.guard ≡ s.guard
  unfolding upsert_points
  guard-upsert_points [] = refl
  guard-upsert_points (p ∷ ps) = refl

  pub guard-delete_docs : (ids : List String) → (delete_docs out ids s).1.guard ≡ s.guard
  unfolding delete_docs
  guard-delete_docs [] = refl
  guard-delete_docs (id ∷ ids) = refl

  pub bulk_docs-ok :
      (docs : List CanonicalDoc) (written : Map Bool)
      → (bulk_docs out docs s).0 ≡ ok written
      → (items : List Item) × (out.bulk_answer s.calls (map action docs) ≡ some items)
        × (bulk_result docs (some items) ≡ applied written)
  unfolding bulk_docs bulk_result
  bulk_docs-ok docs written h = elim (Option-cases (out.bulk_answer s.calls (map action docs))) [
    | inl unanswered ↦ absurd (ground arith)
    | inr (items, answered) ↦ (items, answered, ground arith)
  ]

-- The way of a batch through `apply` when it returns no error.
pub record Succeeds {Vector : Type 0} (out : Outside Vector) (ranges : Ranges)
    (docs : List CanonicalDoc) (s : State Vector) : Type 0 where
  pub items : List Item
  pub written : Map Bool
  pub points : List (Point Vector)
  pub s₁ : State Vector
  pub s₂ : State Vector
  pub s₃ : State Vector
  pub s₄ : State Vector
  pub answered : out.bulk_answer s.calls (map action docs) ≡ some items
  pub collected : bulk_result docs (some items) ≡ applied written
  pub bulked : bulk_docs out docs s ≡ (ok written, s₁)
  pub embedded : embed_upserts out (upserts_of written docs) s₁ ≡ (ok points, s₂)
  pub upserted : upsert_points out points s₂ ≡ (ok tt, s₃)
  pub deleted : delete_docs out (deletes_of written docs) s₃ ≡ (ok tt, s₄)
  pub guard : s₄.guard ≡ s.guard
  pub finished : apply_due out ranges docs s ≡ finish ranges written docs s₄

pub with_result :
    {Vector A : Type 0} (x : Result A × State Vector) {r : Result A} → x.0 ≡ r → x ≡ (r, x.1)
with_result x e = ap (λ r. (r, x.1)) e

module _ {Vector : Type 0} (out : Outside Vector) (ranges : Ranges) (docs : List CanonicalDoc) where
  write_qdrant-Succeeds :
      (s s₁ s₂ : State Vector) (items : List Item) (written : Map Bool)
      (points : List (Point Vector))
      → out.bulk_answer s.calls (map action docs) ≡ some items
      → bulk_result docs (some items) ≡ applied written
      → bulk_docs out docs s ≡ (ok written, s₁)
      → embed_upserts out (upserts_of written docs) s₁ ≡ (ok points, s₂)
      → s₂.guard ≡ s.guard
      → apply_due out ranges docs s ≡ write_qdrant out ranges docs written points s₂
      → (write_qdrant out ranges docs written points s₂).0 ≡ ok tt
      → Succeeds out ranges docs s
  unfolding write_qdrant
  write_qdrant-Succeeds s s₁ s₂ items written points answered collected bulked embedded guard steps
        h =
      let delete_and_finish =
        delete_docs out (deletes_of written docs) >> finish ranges written docs in
      let (u, e₃, h₃, f₃) = bind-ok (upsert_points out points) (λ _. delete_and_finish) s₂ tt h in
      let s₃ = (upsert_points out points s₂).1 in
      let (v, e₄, h₄, f₄) =
        bind-ok (delete_docs out (deletes_of written docs)) (λ _. finish ranges written docs) s₃ tt
          h₃ in
      record {
        items = items;
        written = written;
        points = points;
        s₁ = s₁;
        s₂ = s₂;
        s₃ = s₃;
        s₄ = (delete_docs out (deletes_of written docs) s₃).1;
        answered = answered;
        collected = collected;
        bulked = bulked;
        embedded = embedded;
        upserted = with_result _ e₃;
        deleted = with_result _ e₄;
        guard =
            guard-delete_docs out s₃ (deletes_of written docs)
            ∙ guard-upsert_points out s₂ points
            ∙ guard;
        finished = steps ∙ f₃ ∙ f₄;
      }

  -- What a batch that succeeds went through.
  pub apply_due-Succeeds :
      (s : State Vector) → (apply_due out ranges docs s).0 ≡ ok tt → Succeeds out ranges docs s
  unfolding apply_due embed_and_write
  apply_due-Succeeds s h =
      let (written, e₁, h₁, f₁) =
        bind-ok (bulk_docs out docs) (embed_and_write out ranges docs) s tt h in
      let s₁ = (bulk_docs out docs s).1 in
      let (points, e₂, h₂, f₂) =
        bind-ok (embed_upserts out (upserts_of written docs)) (write_qdrant out ranges docs written)
          s₁ tt h₁ in
      let (items, answered, collected) = bulk_docs-ok out s docs written e₁ in
      write_qdrant-Succeeds s s₁ _ items written points answered collected (with_result _ e₁)
        (with_result _ e₂)
        (guard-embed_upserts out s₁ (upserts_of written docs) ∙ guard-bulk_docs out s docs)
        (f₁ ∙ f₂) h₂

  -- A batch that fails leaves the guard as it was.
  pub apply_due-FailureKeeps : (s : State Vector) → FailureKeeps (apply_due out ranges docs) s
  unfolding apply_due embed_and_write write_qdrant finish
  apply_due-FailureKeeps s =
      bind-FailureKeeps (bulk_docs out docs) (embed_and_write out ranges docs) s
        (guard-bulk_docs out s docs)
        λ written.
          bind-FailureKeeps (embed_upserts out (upserts_of written docs))
            (write_qdrant out ranges docs written) _ (guard-embed_upserts out _ _)
            λ points.
              bind-FailureKeeps (upsert_points out points)
                (λ _. delete_docs out (deletes_of written docs) >> finish ranges written docs) _
                (guard-upsert_points out _ points)
                λ _.
                  bind-FailureKeeps (delete_docs out (deletes_of written docs))
                    (λ _. finish ranges written docs) _ (guard-delete_docs out _ _)
                    λ _ bad. absurd (bad tt refl)
