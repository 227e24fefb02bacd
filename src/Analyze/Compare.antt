-- ===== src/Analyze/Compare.antt =====
-- The conditions of outcomes: pkg/analyze/comparison.go and the comparisons of common_status.go.
pub mod RoundTrip
use troubleshoot.Prelude.{
  String, ◌≡◌, refl, Bool, true, false, ◌||◌, List, [], ◌∷◌, ◌==◌, if◌then◌else◌, ℤ, pos, ltb_ℤ,
  leb_ℤ, eqb_ℤ,
}
use Prim.Native.String.{◌++◌ as ◌⧺◌}
use troubleshoot.Go.Result.{Result, ok, err, message, wrap, ◌>>=◌}
use troubleshoot.Go.Text.{split, trim_space, quoted}
use troubleshoot.Go.Strconv.{atoi}

-- `ComparisonOperator`
pub data ComparisonOperator : Type 0 where
  unknown equal not_equal greater_than greater_than_or_equal less_than less_than_or_equal :
      ComparisonOperator

unfoldable pub parse_comparison_operator : String → Result ComparisonOperator
parse_comparison_operator s =
    if s == "=" || s == "==" || s == "==="
    then ok equal
    else if s == "!=" || s == "!=="
    then ok not_equal
    else if s == "<"
    then ok less_than
    else if s == ">"
    then ok greater_than
    else if s == "<="
    then ok less_than_or_equal
    else if s == ">="
    then ok greater_than_or_equal
    else err (message ("unknown operator: " ⧺ s))

-- the last `switch` of `compareActualToWhen`, `compareJobStatusToWhen` and
-- `compareReplicaSetStatusToWhen`
unfoldable pub compare_by : String → ℤ → ℤ → Result Bool
compare_by op actual value =
    if op == "=" || op == "==" || op == "==="
    then ok (eqb_ℤ actual value)
    else if op == "<"
    then ok (ltb_ℤ actual value)
    else if op == ">"
    then ok (ltb_ℤ value actual)
    else if op == "<="
    then ok (leb_ℤ actual value)
    else if op == ">="
    then ok (leb_ℤ value actual)
    else err (message ("unknown comparator: " ⧺ quoted op))

two_parts : ℤ → List String → Result Bool
two_parts actual (op ∷ number ∷ []) = do
  value ← wrap "failed to parse when value" (atoi number)
  compare_by op actual value
two_parts actual _ = err (message "unable to parse when range")

unfoldable pub compare_actual_to_when : String → ℤ → Result Bool
unfolding two_parts compare_by
compare_actual_to_when when actual = two_parts actual (split b' ' (trim_space when))

at_least_three : compare_actual_to_when " >= 3" (pos 4) ≡ ok true
unfolding compare_actual_to_when atoi split trim_space
at_least_three = refl

two_blanks : compare_actual_to_when ">=  3" (pos 4) ≡ err (message "unable to parse when range")
unfolding compare_actual_to_when atoi split trim_space
two_blanks = refl
