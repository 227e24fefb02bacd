-- ===== src/Multitype.antt =====
-- pkg/multitype/boolstring.go and `isExcluded` of pkg/analyze/analyzer.go.
use troubleshoot.Prelude.{String, Bool, false, Option, none, some, ◌==◌, if◌then◌else◌}
use troubleshoot.Go.Result.{Result, ok, err, panic, wrap}
use troubleshoot.Go.Strconv.{parse_bool}

pub data BoolOrStringType : Type 0 where
  string bool : BoolOrStringType

pub record BoolOrString : Type 0 where
  pub type : BoolOrStringType
  pub bool_val : Bool
  pub str_val : String

abbrev pub from_bool : Bool → BoolOrString
from_bool val = record { type = bool; bool_val = val; str_val = "" }

abbrev pub from_string : String → BoolOrString
from_string val = record { type = string; bool_val = false; str_val = val }

by_type : BoolOrStringType → BoolOrString → Result Bool
by_type bool b = ok b.bool_val
by_type string b = wrap "failed to parse bool string" (parse_bool b.str_val)

-- the method `Bool`; `none` is the nil pointer
unfoldable pub bool_value : Option BoolOrString → Result Bool
unfolding by_type
bool_value none = ok false
bool_value (some b) = by_type b.type b

or_false : Result Bool → Bool
or_false (ok b) = b
or_false (err e) = false
or_false (panic s) = false

unfoldable pub bool_or_default_false : Option BoolOrString → Bool
unfolding or_false bool_value
bool_or_default_false b = or_false (bool_value b)

to_string_by : BoolOrStringType → BoolOrString → String
to_string_by string b = b.str_val
to_string_by bool b = if b.bool_val then "1" else "0"

-- the method `String`
unfoldable pub to_string : Option BoolOrString → String
unfolding to_string_by
to_string none = "0"
to_string (some b) = to_string_by b.type b

excluded_by : BoolOrStringType → BoolOrString → Result Bool
excluded_by bool b = ok b.bool_val
excluded_by string b =
    if b.str_val == "" then ok false else wrap "failed to parse bool string" (parse_bool b.str_val)

unfoldable pub is_excluded : Option BoolOrString → Result Bool
unfolding excluded_by
is_excluded none = ok false
is_excluded (some b) = excluded_by b.type b
