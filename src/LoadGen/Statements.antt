-- ===== src/LoadGen/Statements.antt =====
-- The statements of the load generator have an argument for each placeholder.
use search_and_retrieval_sys.Prelude.{
  ℕ, zero, suc, ◌+◌, ◌*◌, ◌≤◌, ◌<◌, String, Bool, true, ◌≡◌, ◌↔◌, ap, inl, inr, Bool-cases, length,
  All, arith,
}
use search_and_retrieval_sys.LoadGen.{Rng, body, row, insert_rows, update_batch}

module _ {R : Type 0} (rng : Rng R) (to_upper : String → String) (urgent_pct : ℕ) where
  insert_rows-args :
      (i n : ℕ) (r : R) → length (insert_rows rng to_upper urgent_pct i n r).1 ≡ n * 5
  unfolding insert_rows row
  insert_rows-args i zero r = omega arith
  insert_rows-args i (suc n) r =
      omega (arith, insert_rows-args (suc i) n (row rng to_upper urgent_pct r).1)

-- `Intn` gives a number below its bound.
abbrev pub IsRng : {R : Type 0} → Rng R → Type 0
IsRng {R} rng = (n : ℕ) (r : R) → 0 < n → (rng.intn n r).0 < n

module _ {R : Type 0} (rng : Rng R) (below : IsRng rng) (exec : String → ℕ → Bool)
    (max_id : ℕ) where
  -- An update names an id from 1 to the greatest one; the loop ends at the first statement that fails,
  -- and makes all updates otherwise.
  update_batch_lem :
      (n : ℕ) (r : R)
      → 0 < max_id
      → All
          (λ u. (1 ≤ u.1) × (u.1 ≤ max_id) × (exec u.0 u.1 ≡ true))
          (update_batch rng exec max_id n r).0
        × (length (update_batch rng exec max_id n r).0 ≤ n)
        × (((update_batch rng exec max_id n r).1 ≡ true)
            ↔ (length (update_batch rng exec max_id n r).0 ≡ n))
  unfolding update_batch
  update_batch_lem zero r h = ground arith
  update_batch_lem (suc n) r h =
      let (k, r1) = rng.intn max_id r in
      let (b, r2) = body rng r1 in
      let bound : k < max_id = below max_id r h in
      let (each, few, all) = update_batch_lem n r2 h in
      elim (Bool-cases (exec b (k + 1))) [
        | inl ok ↦ rw ok (
          ((omega arith, omega arith, ok), each),
          omega arith,
          ((λ e. ap suc (all.0 e)), (λ e. all.1 (ground arith))),
        )
        | inr failed ↦ rw failed (tt, omega arith, ground arith)
      ]
