-- ===== src/Setup/Again.antt =====
-- A second start finds what the first has made, and changes nothing.
use search_and_retrieval_sys.Prelude.{
  ℕ, String, true, ◌≡◌, inl, inr, Bool-cases, Option-cases, some, arith,
}
use search_and_retrieval_sys.Setup.{Stores, ensure_collection}

module _ {S : Type 0} (stores : Stores S) where
  -- What Qdrant documents: a collection that was created is there.
  abbrev pub Makes : Type 0
  Makes =
      (name : String) (dim : ℕ) (s : S)
      → (stores.create_collection name dim s).0 ≡ true
      → stores.has_collection name (stores.create_collection name dim s).1 ≡ some true

  -- A collection that was ensured is left as it is by every later start, whatever its vectors' size is
  -- then: a collection of another size is neither replaced nor reported.
  ensure_collection_again :
      Makes
      → (name : String) (dim dim' : ℕ) (s : S) → (ensure_collection stores name dim s).0 ≡ true
      → ensure_collection stores name dim' (ensure_collection stores name dim s).1
        ≡ (true, (ensure_collection stores name dim s).1)
  unfolding ensure_collection
  ensure_collection_again makes name dim dim' s h =
      elim (Option-cases (stores.has_collection name s)) [
        | inl failed ↦ absurd (ground arith)
        | inr (there, e) ↦ elim (Bool-cases there) [
          | inl found ↦ ground arith
          | inr missing ↦ ground (arith, makes name dim s)
        ]
      ]
