-- ===== src/Idempotency.antt =====
-- internal/idempotency/guard.go: the highest applied version of each doc_id. Each method holds the
-- mutex for its whole body, so a call is one step on the state.
pub mod Watermark
pub mod Workers
use search_and_retrieval_sys.Prelude.{String, Bool, true, Option, none, some, [], if◌then◌else◌}
use search_and_retrieval_sys.Prelude.Int.{ℤ, ltb_ℤ}
use search_and_retrieval_sys.Prelude.Maps.{Map, lookup, insert}

pub record Guard : Type 0 where
  pub seen : Map ℤ

abbrev pub new_guard : Guard
new_guard = record { seen = [] }

-- `none` is the pair `(0, false)` of the source.
unfoldable pub version : Guard → String → Option ℤ
version g doc_id = lookup doc_id g.seen

unfoldable pub should_apply : Guard → String → ℤ → Bool
should_apply g doc_id version = elim (lookup doc_id g.seen) [
  | none ↦ true
  | some stored ↦ ltb_ℤ stored version
]

-- `!ok || version > cur`
advances : Option ℤ → ℤ → Bool
advances none version = true
advances (some cur) version = ltb_ℤ cur version

unfoldable pub commit : Guard → String → ℤ → Guard
unfolding advances
commit g doc_id version =
    if advances (lookup doc_id g.seen) version
    then record { seen = insert doc_id version g.seen }
    else g
