-- ===== src/Tests/Tools.antt =====
-- The model clients, the settings, the diversity of results and the load generator.
use mathlib.Core.List.{Permᴰ}
use search_and_retrieval_sys.Prelude.{
  inl, inr, leb, ◌/◌, ℕ, ◌+◌, ◌-◌, ◌*◌, ◌/◌, String, ◌≡◌, refl, eqb, ltb, none, some, List, [], ◌∷◌,
  ◌++◌, length, map, All, arith,
}
use search_and_retrieval_sys.Prelude.Int.{ℤ, pos, negsuc, ◌≤ℤ◌}
use search_and_retrieval_sys.Prelude.Sort.{IsSorted, IsWeak}
use search_and_retrieval_sys.Prelude.Text.{decimal, trim_space}
use search_and_retrieval_sys.Retrieval.{at_index}
use search_and_retrieval_sys.MlClient.Tei.{RankItem, TeiJson, scores_above, ranked}
use search_and_retrieval_sys.MlClient.Tei.Reranked.{ranked_lem}
use search_and_retrieval_sys.Config.{int}
use search_and_retrieval_sys.Config.Reads.{int_lem}
use search_and_retrieval_sys.Kafka.{brokers}
use search_and_retrieval_sys.Kafka.Brokers.{Names, ends, broker, blank, join_commas, brokers-join}
use search_and_retrieval_sys.Fusion.Mmr.{Real, mmr}
use search_and_retrieval_sys.Fusion.Mmr.Selects.{mmr_lem}
use search_and_retrieval_sys.LoadGen.{batches}
use search_and_retrieval_sys.LoadGen.Batches.{rows, batches_total}
use search_and_retrieval_sys.LoadGen.Limiter.{Float, Limiter, rounds, wait_n}
use search_and_retrieval_sys.LoadGen.Limiter.Grants.{IsCapped, rounds-IsCapped, wait_n-none}

abbrev items : List (RankItem ℕ)
items = record { index = pos 1; score = 5 } ∷ record { index = pos 0; score = 9 } ∷ []

abbrev tei_json : TeiJson ℕ
tei_json = record {
  embed_req = λ texts. "";
  rerank_req = λ query texts. "";
  decode_vectors = λ content. none;
  decode_items = λ content. some items;
  zero_f = 0;
  less = ltb;
}

scores-IsWeak : IsWeak (scores_above tei_json)
scores-IsWeak = record { asym = λ a b h. ground arith; steps = λ a b c h k. ground arith }

ranked_lem_example :
    All
      (λ (r : RankItem ℕ).
        at_index (ranked tei_json ("x" ∷ "y" ∷ []) items).0 r.index ≡ some r.score)
      items
    × ((sorted : List (RankItem ℕ)) × Permᴰ sorted items
        × IsSorted (λ a b. tei_json.less b.score a.score) sorted
        × ((ranked tei_json ("x" ∷ "y" ∷ []) items).1 ≡ map (λ (r : RankItem ℕ). r.index) sorted))
ranked_lem_example =
    ranked_lem tei_json ("x" ∷ "y" ∷ []) items scores-IsWeak ((((λ e. ground arith), tt), (tt, tt)))
      (omega arith, (omega arith, tt))

abbrev forty_two : String → String
forty_two key = "42"

forty_two-decimal : forty_two "RERANK_N" ≡ decimal (pos 42)
unfolding decimal
forty_two-decimal = refl

int_lem_example : int forty_two "RERANK_N" (pos 50) ≡ pos 42
int_lem_example =
    int_lem forty_two "RERANK_N" (pos 50) (some (pos 42))
      (omega arith, omega arith, forty_two-decimal)

-- A value that is no number leaves the default.
bad_test : int (λ k. "5x") "RERANK_N" (pos 50) ≡ pos 50
bad_test = int_lem (λ k. "5x") "RERANK_N" (pos 50) none (inr (inl (inr (omega arith))))

-- " a:9092,,b:9092 " names two brokers.
abbrev broker_parts : List String
broker_parts = " a:9092" ∷ "" ∷ "b:9092 " ∷ []

broker_names : Names broker_parts ("a:9092" ∷ "b:9092" ∷ [])
unfolding trim_space
broker_names = broker refl (λ e. cc) (blank refl (broker refl (λ e. cc) ends))

brokers-join_example : brokers (join_commas broker_parts) ≡ "a:9092" ∷ "b:9092" ∷ []
brokers-join_example =
    brokers-join broker_parts ("a:9092" ∷ "b:9092" ∷ [])
      (
        (refl, (refl, (refl, (refl, (refl, (refl, (refl, tt))))))),
        (tt, ((refl, (refl, (refl, (refl, (refl, (refl, (refl, tt))))))), tt)),
      )
      broker_names

abbrev naturals : Real ℕ
naturals = record {
  zero_f = 0;
  one_f = 1;
  low = 0;
  add = ◌+◌;
  subtract = ◌-◌;
  multiply = ◌*◌;
  divide = ◌/◌;
  sqrt = λ x. x;
  equal = eqb;
  less = ltb;
}

abbrev ids : List String
ids = "a" ∷ "b" ∷ "c" ∷ []

mmr_lem_example :
    (out : List String) × (mmr naturals ids (("b", 7) ∷ []) [] 1 (pos 2) ≡ some out)
    × (length out ≡ 2)
    × (rest : List String) × Permᴰ (out ++ rest) ids
mmr_lem_example = mmr_lem naturals ids (("b", 7) ∷ []) [] 1 (pos 2)

batches_total_example :
    (bs : List ℤ) × (batches 10 (pos 4) (pos 9) ≡ some bs)
    × (rows bs ≡ 9)
    × All (λ b. (pos 1 ≤ℤ b) × (b ≤ℤ pos 4)) bs
batches_total_example = batches_total 10 4 9 (omega arith) (omega arith)

-- Whole numbers in place of floating-point ones, with whole seconds.
abbrev nonneg : ℤ → ℕ
nonneg (pos n) = n
nonneg (negsuc n) = 0

abbrev whole : Float ℕ
whole = record {
  zero_f = 0;
  of_int = nonneg;
  seconds = λ d. nonneg d / 1000000000;
  duration = λ x. pos x;
  add = ◌+◌;
  subtract = ◌-◌;
  multiply = ◌*◌;
  divide = ◌/◌;
  less = ltb;
  at_most = leb;
}

abbrev limiter : Limiter ℕ
limiter = record { rate = 5; allow = 5; last = pos 0 }

abbrev later : List (ℤ × ℤ)
later = (pos 3, pos 0) ∷ (pos 4, pos 1000000000) ∷ (pos 4, pos 4000000000) ∷ []

rounds-IsCapped_example : IsCapped whole (rounds whole limiter later)
rounds-IsCapped_example =
    rounds-IsCapped whole (λ a. ground arith) limiter later refl
      ((λ a b h. ground arith), ((λ a b h. ground arith), ((λ a b h. ground arith), tt)))

wait_n-none_example : wait_n whole limiter (pos 6) (pos 0 ∷ pos 9000000000 ∷ []) ≡ none
wait_n-none_example =
    wait_n-none whole (λ a. ground arith) (λ a b c h k. ground arith) limiter (pos 6)
      (pos 0 ∷ pos 9000000000 ∷ []) refl refl
