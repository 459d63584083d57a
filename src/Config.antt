-- ===== src/Config.antt =====
-- internal/config/config.go. An environment gives the text of each variable, "" if it is not set;
-- `time.ParseDuration` and `strconv.ParseFloat` are parameters.
pub mod Reads
use search_and_retrieval_sys.Prelude.{
  ℕ, String, Bool, ◌-◌, ◌%◌, ◌^◌, ◌==◌, ltb, Option, none, some, if◌then◌else◌,
}
use search_and_retrieval_sys.Prelude.Int.{ℤ, pos, negsuc, ◌*ℤ◌}
use search_and_retrieval_sys.Prelude.Text.Parse.{atoi}

abbrev pub or_default : {A : Type 0} → A → Option A → A
or_default default none = default
or_default default (some v) = v

module _ (env : String → String) (key : String) where
  unfoldable pub str : String → String
  str default = if env key == "" then default else env key

  unfoldable pub int : ℤ → ℤ
  int default = if env key == "" then default else or_default default (atoi (env key))

  -- A product of int64 numbers.
  abbrev pub wrap64 : ℤ → ℤ
  wrap64 (pos n) =
      let m : ℕ = n % 2 ^ 64 in if ltb m (2 ^ 63) then pos m else negsuc (2 ^ 64 - 1 - m)
  wrap64 (negsuc n) =
      let m : ℕ = n % 2 ^ 64 in if ltb m (2 ^ 63) then negsuc m else pos (2 ^ 64 - 1 - m)

  abbrev pub millis : Option ℤ → Option ℤ
  millis none = none
  millis (some ms) = some (wrap64 (ms *ℤ pos 1000000))

  abbrev pub or_parsed : Option ℤ → Option ℤ → Option ℤ
  or_parsed none b = b
  or_parsed (some d) b = some d

  -- In nanoseconds.
  unfoldable pub dur : (String → Option ℤ) → ℤ → ℤ
  dur parse_duration default =
      if env key == ""
      then default
      else or_default default (or_parsed (parse_duration (env key)) (millis (atoi (env key))))

  unfoldable pub float : {F : Type 0} → (String → Option F) → F → F
  float parse_float default =
      if env key == "" then default else or_default default (parse_float (env key))
