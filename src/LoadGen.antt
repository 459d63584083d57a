-- ===== src/LoadGen.antt =====
-- cmd/loadgen/main.go: the batches of a backfill and the statements of the writers. The random source
-- is a state with a draw below a bound; a draw stands where the code makes it. An index out of range of
-- a list, which `Intn` never gives, is an empty text.
pub mod Limiter
pub mod Batches
pub mod Statements
use Prim.Native.String.{◌++◌}
use search_and_retrieval_sys.Prelude.{
  ℕ, zero, suc, ◌+◌, ◌*◌, String, Bool, eqb, ltb, Option, none, some, List, [], ◌∷◌, length,
  if◌then◌else◌,
}
use search_and_retrieval_sys.Prelude.Int.{ℤ, pos, ◌-ℤ◌, ltb_ℤ}
use search_and_retrieval_sys.Prelude.Text.{decimal_ℕ}

-- The part of `backfill` that sends the jobs: `none` means that the fuel ran out.
unfoldable pub batches : ℕ → ℤ → ℤ → Option (List ℤ)
batches zero batch remaining = none
batches (suc fuel) batch remaining =
    let b = if ltb_ℤ remaining batch then remaining else batch in
    let rest = batches fuel batch (remaining -ℤ b) in
    if ltb_ℤ (pos 0) remaining then elim rest [ none ↦ none | some bs ↦ some (b ∷ bs) ] else some []

abbrev pub categories : List String
categories =
    "cdc" ∷ "streaming" ∷ "retrieval" ∷ "rag" ∷ "indexing" ∷ "observability" ∷ "vectors" ∷ "infra"
    ∷ []

abbrev pub words : List String
words =
    "debezium" ∷ "redpanda" ∷ "kafka" ∷ "opensearch" ∷ "qdrant" ∷ "vector" ∷ "bm25" ∷ "rrf"
    ∷ "rerank" ∷ "embedding" ∷ "faithfulness" ∷ "citation" ∷ "freshness" ∷ "lag" ∷ "idempotency"
    ∷ "dlq" ∷ "snapshot" ∷ "replication" ∷ "wal" ∷ "consumer" ∷ "partition" ∷ "throughput"
    ∷ "latency" ∷ "backpressure" ∷ "semantic" ∷ "hybrid" ∷ "retrieval" ∷ "grounded" ∷ "chunk"
    ∷ "tenant" ∷ "upsert" ∷ "tombstone" ∷ []

abbrev pub word_at : List String → ℕ → String
word_at [] i = ""
word_at (w ∷ ws) zero = w
word_at (w ∷ ws) (suc i) = word_at ws i

-- An argument of a statement.
pub data Arg : Type 0 where
  int_arg : ℕ → Arg
  text_arg : String → Arg

-- `rand.Rand`: `intn n r` is `Intn(n)` or `Int63n(n)`, and the state after it.
pub record Rng (R : Type 0) : Type 0 where
  pub intn : ℕ → R → ℕ × R

-- The first letter of a text, and the others.
abbrev pub first_letter : String → String
first_letter String.[] = ""
first_letter (String.◌∷◌ c s) = String.◌∷◌ c ""

abbrev pub other_letters : String → String
other_letters String.[] = ""
other_letters (String.◌∷◌ c s) = s

module _ {R : Type 0} (rng : Rng R) where
  unfoldable pub title : (String → String) → R → String × R
  title to_upper r =
      let (i, r1) = rng.intn (length words) r in
      let (j, r2) = rng.intn (length words) r1 in
      let w1 = word_at words i in
      (to_upper (first_letter w1) ++ other_letters w1 ++ " " ++ word_at words j, r2)

  -- The loop of `body`, at its round `i` with `n` left.
  unfoldable pub body_words : ℕ → ℕ → R → String × R
  body_words i zero r = ("", r)
  body_words i (suc n) r =
      let (k, r1) = rng.intn (length words) r in
      let (text, r2) = body_words (suc i) n r1 in
      ((if eqb i 0 then "" else " ") ++ word_at words k ++ text, r2)

  unfoldable pub body : R → String × R
  unfolding body_words
  body r = body_words 0 30 r

  -- The arguments of one row before `later`; the tier is drawn first.
  unfoldable pub row : (String → String) → ℕ → R → (List Arg → List Arg) × R
  unfolding title body
  row to_upper urgent_pct r =
      let (p, r1) = rng.intn 100 r in
      let (tenant, r2) = rng.intn 10 r1 in
      let (t, r3) = title to_upper r2 in
      let (b, r4) = body r3 in
      let (c, r5) = rng.intn (length categories) r4 in
      (
        λ later.
            int_arg (tenant + 1)
            ∷ text_arg t
            ∷ text_arg b
            ∷ text_arg (word_at categories c)
            ∷ text_arg (if ltb p urgent_pct then "urgent" else "bulk")
            ∷ later,
        r5,
      )

  abbrev pub dollar : ℕ → String
  dollar n = "$" ++ decimal_ℕ n

  abbrev pub placeholders : ℕ → String
  placeholders base =
      "("
      ++ dollar (base + 1)
      ++ ","
      ++ dollar (base + 2)
      ++ ","
      ++ dollar (base + 3)
      ++ ","
      ++ dollar (base + 4)
      ++ ","
      ++ dollar (base + 5)
      ++ ")"

  -- The loop of `insertBatch`, at its round `i` with `n` left: the text, the arguments and the source.
  unfoldable pub insert_rows : (String → String) → ℕ → ℕ → ℕ → R → String × List Arg × R
  unfolding row
  insert_rows to_upper urgent_pct i zero r = ("", [], r)
  insert_rows to_upper urgent_pct i (suc n) r =
      let (args, r1) = row to_upper urgent_pct r in
      let (text, more, r2) = insert_rows to_upper urgent_pct (suc i) n r1 in
      ((if eqb i 0 then "" else ",") ++ placeholders (i * 5) ++ text, args more, r2)

  -- The statement that `insertBatch` executes, with its arguments.
  unfoldable pub insert_batch : (String → String) → ℕ → ℕ → R → String × List Arg × R
  unfolding insert_rows
  insert_batch to_upper urgent_pct n r =
      let (text, args, r1) = insert_rows to_upper urgent_pct 0 n r in
      ("INSERT INTO documents (tenant_id,title,body,category,tier) VALUES " ++ text, args, r1)

  -- The loop of `updateBatch`: `exec` tells whether the statement with the body and the id succeeds. It
  -- gives the updates that succeeded, whether all did, and the source.
  unfoldable pub update_batch : (String → ℕ → Bool) → ℕ → ℕ → R → List (String × ℕ) × Bool × R
  update_batch exec max_id zero r = ([], Bool.true, r)
  update_batch exec max_id (suc n) r =
      let (k, r1) = rng.intn max_id r in
      let (b, r2) = body r1 in
      let (done, ok, r3) = update_batch exec max_id n r2 in
      if exec b (k + 1) then ((b, k + 1) ∷ done, ok, r3) else ([], Bool.false, r2)
