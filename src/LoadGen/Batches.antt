-- ===== src/LoadGen/Batches.antt =====
-- The batches of a backfill, and when there is an end to them.
use search_and_retrieval_sys.Prelude.{
  ℕ, zero, suc, ◌+◌, ◌-◌, true, false, ◌≤◌, ◌<◌, ◌≡◌, refl, ap, none, some, List, [], ◌∷◌, All,
  if◌then◌else◌, arith,
}
use search_and_retrieval_sys.Prelude.Int.{ℤ, pos, ◌-ℤ◌, ltb_ℤ, ◌≤ℤ◌, ◌<ℤ◌, -ℤ_parts, pos_part}
use search_and_retrieval_sys.LoadGen.{batches}

-- The rows of the batches; those of a negative batch do not count.
abbrev pub rows : List ℤ → ℕ
rows [] = 0
rows (b ∷ bs) = pos_part b + rows bs

minus : (a b : ℕ) → b ≤ a → pos a -ℤ pos b ≡ pos (a - b)
unfolding ◌-ℤ◌
minus a b h = ground arith

-- A batch is sent, and the others have what it leaves.
batches-cons :
    (fuel batch total b : ℕ) (bs : List ℤ)
    → b ≡ (if ltb_ℤ (pos (suc total)) (pos batch) then suc total else batch)
    → b ≤ suc total
    → batches fuel (pos batch) (pos (suc total - b)) ≡ some bs
    → batches (suc fuel) (pos batch) (pos (suc total)) ≡ some (pos b ∷ bs)
unfolding batches
batches-cons fuel batch total b bs e h rest =
    let sent : (if ltb_ℤ (pos (suc total)) (pos batch) then pos (suc total) else pos batch)
        ≡ pos b =
      ground arith in
    let goes_on : ltb_ℤ (pos 0) (pos (suc total)) ≡ true = ground arith in
    rw (sent, minus (suc total) b h, rest, goes_on) (ap (λ (x : ℤ). some (x ∷ bs)) sent)

-- With a positive batch size the loop of a backfill ends: fuel beyond the rows is enough, every
-- batch has between one row and the batch size, and together they have all rows.
pub batches_total :
    (fuel batch total : ℕ)
    → total < fuel
    → 0 < batch
    → (bs : List ℤ) × (batches fuel (pos batch) (pos total) ≡ some bs)
      × (rows bs ≡ total)
      × All (λ b. (pos 1 ≤ℤ b) × (b ≤ℤ pos batch)) bs
batches_total zero batch total h k = elim h [ ]
batches_total (suc fuel) batch zero h k = ([], unfold batches in refl, refl, tt)
batches_total (suc fuel) batch (suc total) h k =
    let b : ℕ = if ltb_ℤ (pos (suc total)) (pos batch) then suc total else batch in
    let small : b ≤ suc total = ground arith in
    let positive : 0 < b = ground arith in
    let bounded : b ≤ batch = ground arith in
    let (bs, e, counted, each) = batches_total fuel batch (suc total - b) (omega arith) k in
    (
      pos b ∷ bs,
      batches-cons fuel batch total b bs refl small e,
      omega arith,
      ((omega arith, omega arith), each),
    )

-- With a batch size that is not positive the loop goes on whatever the fuel.
batches-none :
    (fuel : ℕ) (batch : ℤ) (total : ℤ)
    → pos 0 <ℤ total
    → batch ≤ℤ pos 0
    → batches fuel batch total ≡ none
unfolding batches
batches-none zero batch total h k = refl
batches-none (suc fuel) batch total h k =
    let same : ltb_ℤ total batch ≡ false = ground arith in
    let more : ltb_ℤ (pos 0) total ≡ true = ground arith in
    rw
      (same, more, batches-none fuel batch (total -ℤ batch) (omega (arith, -ℤ_parts total batch)) k)
