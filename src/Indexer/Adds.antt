-- ===== src/Indexer/Adds.antt =====
-- Steps that only add calls to the history, and what holds of all upserts, deletes and tenants.
use mathlib.Core.List.{append_assoc}
use search_and_retrieval_sys.Prelude.{
  String, Bool, true, false, ◌≡◌, refl, ap, ◌∙◌, sym, List, [], ◌∷◌, ◌++◌, Bool-cases, inl, inr,
  All, All-append, ◌==◌,
}
use search_and_retrieval_sys.Prelude.Maps.{Map, insert}
use search_and_retrieval_sys.Prelude.Text.{decimal}
use search_and_retrieval_sys.Contract.{CanonicalDoc, op_delete}
use search_and_retrieval_sys.OpenSearch.{is_applied}
use search_and_retrieval_sys.Indexer.{
  State, History, Result, ok, error, panic, M, continue, ◌>>=◌, Call, bump_generation, upserts_of,
  deletes_of, tenants_changed, keys, bump_all,
}

module _ {Vector : Type 0} (P : Call Vector → Type 0) where
  -- The step adds calls to the history, each of which meets `P`.
  abbrev pub AddsAt : {A : Type 0} → M Vector A → State Vector → Type 0
  AddsAt m s = (new : History Vector) × ((m s).1.calls ≡ new ++ s.calls) × All P new

  pub continue-AddsAt :
      {A B : Type 0} (r : Result A) (f : A → M Vector B) (s : State Vector)
      (old new : History Vector)
      → s.calls ≡ new ++ old
      → All P new
      → ((a : A) → r ≡ ok a → AddsAt (f a) s)
      → (all : History Vector) × ((continue r f s).1.calls ≡ all ++ old) × All P all
  continue-AddsAt error f s old new e p later = (new, e, p)
  continue-AddsAt panic f s old new e p later = (new, e, p)
  continue-AddsAt (ok a) f s old new e p later =
      let (more, e', p') = later a refl in
      (
        more ++ new,
        e' ∙ ap (λ (h : History Vector). more ++ h) e ∙ sym (append_assoc more new old),
        All-append P more new p' p,
      )

  pub bind-AddsAt :
      {A B : Type 0} (m : M Vector A) (f : A → M Vector B) (s : State Vector)
      → AddsAt m s
      → ((a : A) → (m s).0 ≡ ok a → AddsAt (f a) (m s).1)
      → AddsAt (m >>= f) s
  bind-AddsAt m f s (new, e, p) later = continue-AddsAt (m s).0 f (m s).1 s.calls new e p later

  pub bump_all-AddsAt :
      (tenants : List String) (h : History Vector)
      → All (λ t. P (bump_generation t)) tenants
      → (new : History Vector) × (bump_all tenants h ≡ new ++ h) × All P new
  unfolding bump_all
  bump_all-AddsAt [] h p = ([], refl, tt)
  bump_all-AddsAt (t ∷ tenants) h (p, ps) =
      let (new, e, q) = bump_all-AddsAt tenants (bump_generation t ∷ h) ps in
      (
        new ++ bump_generation t ∷ [],
        e ∙ sym (append_assoc new (bump_generation t ∷ []) h),
        All-append P new (bump_generation t ∷ []) q (p, tt),
      )

pub keys-insert-All :
    (G : String → Type 0) (k : String) (v : Unit {0}) (m : Map (Unit {0}))
    → G k
    → All G (keys m)
    → All G (keys (insert k v m))
unfolding insert
keys-insert-All G k v [] g h = (g, tt)
keys-insert-All G k v ((j, w) ∷ m) g (h, hs) = elim (Bool-cases (j == k)) [
  | inl same ↦ rw same (g, hs)
  | inr other ↦ rw other (h, keys-insert-All G k v m g hs)
]

module _ (written : Map Bool) {Q : CanonicalDoc → Type 0} where
  pub upserts_of-All :
      (G : CanonicalDoc → Type 0)
      → ((d : CanonicalDoc)
          → Q d
          → is_applied written d.doc_id ≡ true
          → (d.op == op_delete) ≡ false
          → G d)
      → (docs : List CanonicalDoc) → All Q docs
      → All G (upserts_of written docs)
  unfolding upserts_of
  upserts_of-All G f [] q = tt
  upserts_of-All G f (d ∷ docs) (q, qs) = elim (Bool-cases (is_applied written d.doc_id)) [
    | inr skips ↦ rw skips (upserts_of-All G f docs qs)
    | inl applies ↦ elim (Bool-cases (d.op == op_delete)) [
      | inl deletes ↦ rw (applies, deletes) (upserts_of-All G f docs qs)
      | inr upserts ↦ rw (applies, upserts) (f d q applies upserts, upserts_of-All G f docs qs)
    ]
  ]

  pub deletes_of-All :
      (G : String → Type 0)
      → ((d : CanonicalDoc)
          → Q d
          → is_applied written d.doc_id ≡ true
          → (d.op == op_delete) ≡ true
          → G d.doc_id)
      → (docs : List CanonicalDoc) → All Q docs
      → All G (deletes_of written docs)
  unfolding deletes_of
  deletes_of-All G f [] q = tt
  deletes_of-All G f (d ∷ docs) (q, qs) = elim (Bool-cases (is_applied written d.doc_id)) [
    | inr skips ↦ rw skips (deletes_of-All G f docs qs)
    | inl applies ↦ elim (Bool-cases (d.op == op_delete)) [
      | inl deletes ↦ rw (applies, deletes) (f d q applies deletes, deletes_of-All G f docs qs)
      | inr upserts ↦ rw (applies, upserts) (deletes_of-All G f docs qs)
    ]
  ]

  pub tenants_changed-All :
      (G : String → Type 0)
      → ((d : CanonicalDoc) → Q d → is_applied written d.doc_id ≡ true → G (decimal d.tenant_id))
      → (docs : List CanonicalDoc) (m : Map (Unit {0})) → All Q docs
      → All G (keys m)
      → All G (keys (tenants_changed written m docs))
  unfolding tenants_changed
  tenants_changed-All G f [] m q h = h
  tenants_changed-All G f (d ∷ docs) m (q, qs) h = elim (Bool-cases (is_applied written d.doc_id)) [
    | inr skips ↦ rw skips (tenants_changed-All G f docs m qs h)
    | inl applies ↦ rw applies (
        tenants_changed-All G f docs (insert (decimal d.tenant_id) tt m) qs
          (keys-insert-All G (decimal d.tenant_id) tt m (f d q applies) h))
  ]
