-- ===== src/Kafka.antt =====
-- internal/kafka/kafka.go: the list of brokers, and the topics that are created. The Kafka client is a
-- parameter; `NewProducer` and `NewConsumer` only pass options to it.
pub mod Brokers
use Prim.Native.Char.{Char, code}
use search_and_retrieval_sys.Prelude.{
  String, Bool, ◌==◌, eqb, Option, none, some, List, [], ◌∷◌, if◌then◌else◌,
}
use search_and_retrieval_sys.Prelude.Text.{trim_space, has_prefix}

abbrev pub push_char : Char → List String → List String
push_char c [] = String.◌∷◌ c "" ∷ []
push_char c (p ∷ ps) = String.◌∷◌ c p ∷ ps

-- `strings.Split(csv, ",")`
unfoldable pub split_commas : String → List String
split_commas String.[] = "" ∷ []
split_commas (String.◌∷◌ c s) =
    let parts = split_commas s in if eqb (code c) b',' then "" ∷ parts else push_char c parts

unfoldable pub keep_parts : List String → List String
keep_parts [] = []
keep_parts (p ∷ parts) =
    let rest = keep_parts parts in if trim_space p == "" then rest else trim_space p ∷ rest

unfoldable pub brokers : String → List String
unfolding split_commas keep_parts
brokers csv = keep_parts (split_commas csv)

-- `strings.Contains(s, part)`
unfoldable pub contains : String → String → Bool
contains part String.[] = has_prefix "" part
contains part (String.◌∷◌ c s) =
    let later = contains part s in if has_prefix (String.◌∷◌ c s) part then Bool.true else later

-- The loop of `EnsureTopics` over the answers: does it end without an error?
unfoldable pub topics_created : List (Option String) → Bool
unfolding contains
topics_created [] = Bool.true
topics_created (none ∷ resp) = topics_created resp
topics_created (some err ∷ resp) =
    let rest = topics_created resp in if contains "already exists" err then rest else Bool.false

-- `EnsureTopics`: `create` is `CreateTopics` of a client of the brokers, `none` an error of either.
unfoldable pub ensure_topics :
    (List String → List String → Option (List (Option String))) → List String → List String → Bool
unfolding topics_created
ensure_topics create brokers topics = elim (create brokers topics) [
  | none ↦ Bool.false
  | some resp ↦ topics_created resp
]
