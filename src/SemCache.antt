-- ===== src/SemCache.antt =====
-- internal/semcache/semcache.go: the semantic cache. Qdrant answers a lookup from outside.
use search_and_retrieval_sys.Prelude.{
  String, Bool, ◌==◌, Option, none, some, List, [], ◌∷◌, ◌++◌, if◌then◌else◌,
}
use search_and_retrieval_sys.Prelude.Int.{ℤ}
use search_and_retrieval_sys.Prelude.Text.{decimal}
use search_and_retrieval_sys.Prelude.Maps.{Map}

-- A point that Qdrant returns: its score, and the answer in its payload, if it has one.
pub record Neighbour (F : Type 0) : Type 0 where
  pub score : F
  pub answer_json : Option String

-- The request for the nearest stored query under the conditions.
pub record Probe (F : Type 0) : Type 0 where
  pub vector : List F
  pub must : Map String

-- The point that `Store` writes.
pub record Entry (F : Type 0) : Type 0 where
  pub vector : List F
  pub tenant_id : String
  pub gen : String
  pub answer_json : String

pub record SemCache (F : Type 0) : Type 0 where
  pub enabled : Bool
  pub threshold : F
  pub less : F → F → Bool
  pub query : Probe F → Option (List (Neighbour F))

unfoldable pub scope : String → ℤ → Map String
scope tenant gen =
    ("gen", decimal gen) ∷ [] ++ (if tenant == "" then [] else ("tenant_id", tenant) ∷ [])

module _ {F : Type 0} (c : SemCache F) where
  -- The part of `Lookup` behind the score: `ok` is false for `none`.
  unfoldable pub answer_of : Neighbour F → Option (String × F)
  answer_of top = if c.less top.score c.threshold then none else elim top.answer_json [
    | none ↦ none
    | some json ↦ if json == "" then none else some (json, top.score)
  ]

  abbrev pub best : Option (List (Neighbour F)) → Option (String × F)
  best none = none
  best (some []) = none
  best (some (top ∷ rest)) = answer_of top

  -- The requests that `Lookup` sends.
  unfoldable pub probes : List F → String → ℤ → List (Probe F)
  unfolding scope
  probes [] tenant gen = []
  probes (x ∷ xs) tenant gen =
      if c.enabled then record { vector = x ∷ xs; must = scope tenant gen } ∷ [] else []

  -- The answer is found by the one request, if it is sent.
  unfoldable pub lookup_answer : List (Probe F) → Option (String × F)
  unfolding answer_of
  lookup_answer [] = none
  lookup_answer (p ∷ ps) = best (c.query p)

  -- The points that `Store` writes.
  unfoldable pub store : List F → String → ℤ → String → List (Entry F)
  store [] tenant gen json = []
  store (x ∷ xs) tenant gen json =
      if c.enabled
      then record { vector = x ∷ xs; tenant_id = tenant; gen = decimal gen; answer_json = json }
        ∷ []
      else []
