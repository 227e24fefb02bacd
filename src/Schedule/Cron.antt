-- ===== src/Schedule/Cron.antt =====
-- The cron fields: `validateCronSchedule` and `validateCronField` of pkg/schedule/job.go, and
-- `matchesCronField` of pkg/schedule/daemon.go.
pub mod Fires
use Prim.Native.String.{◌++◌ as ◌⧺◌}
use troubleshoot.Prelude.{
  ℕ, ◌%◌, String, ◌≡◌, refl, Bool, true, false, ◌||◌, ◌&&◌, Option, none, some, List, [], ◌∷◌, ◌==◌,
  if◌then◌else◌, ℤ, pos, negsuc, eqb, ltb_ℤ, leb_ℤ, eqb_ℤ, length,
}
use troubleshoot.Go.Result.{Result, ok, err, panic, message, ◌>>=◌}
use troubleshoot.Go.Text.{after_prefix, split, fields, trim_space}
use troubleshoot.Go.Strconv.{atoi, itoa}

-- one value of a comma-separated list
in_range : ℕ → ℕ → String → String → Result ℤ → Result (Unit {0})
in_range min max name val (ok v) =
    if ltb_ℤ v (pos min) || ltb_ℤ (pos max) v
    then err (
        message (
          name
          ⧺ " value "
          ⧺ itoa v
          ⧺ " out of range ["
          ⧺ itoa (pos min)
          ⧺ "-"
          ⧺ itoa (pos max)
          ⧺ "]"))
    else ok tt
in_range min max name val (err e) = err (message ("invalid " ⧺ name ⧺ " value: " ⧺ val))
in_range min max name val (panic s) = panic s

all_in_range : ℕ → ℕ → String → List String → Result (Unit {0})
all_in_range min max name [] = ok tt
all_in_range min max name (val ∷ rest) = do
  _ ← in_range min max name (trim_space val) (atoi (trim_space val))
  all_in_range min max name rest

positive : Result ℤ → Bool
positive (ok v) = ltb_ℤ (pos 0) v
positive _ = false

interval_field : String → String → Result (Unit {0})
unfolding positive
interval_field name interval =
    if positive (atoi interval)
    then ok tt
    else err (message ("invalid " ⧺ name ⧺ " interval: " ⧺ interval))

unfoldable pub validate_cron_field : String → ℕ → ℕ → String → Result (Unit {0})
unfolding in_range all_in_range interval_field
validate_cron_field field min max name =
    if field == "*" then ok tt else elim (after_prefix "*/" field) [
      | some interval ↦ interval_field name interval
      | none ↦ all_in_range min max name (split b',' field)
    ]

five_fields : List String → Result (Unit {0})
five_fields (minute ∷ hour ∷ day ∷ month ∷ weekday ∷ []) = do
  _ ← validate_cron_field minute 0 59 "minute"
  _ ← validate_cron_field hour 0 23 "hour"
  _ ← validate_cron_field day 1 31 "day-of-month"
  _ ← validate_cron_field month 1 12 "month"
  validate_cron_field weekday 0 6 "day-of-week"
five_fields parts = err (
    message (
      "expected 5 fields (minute hour day-of-month month day-of-week), got "
      ⧺ itoa (pos (length parts))))

unfoldable pub validate_cron_schedule : String → Result (Unit {0})
unfolding five_fields
validate_cron_schedule schedule = five_fields (fields schedule)

-- `currentValue % interval == 0` for an interval above 0
divides : ℕ → Result ℤ → Bool
divides current (ok (pos i)) = ltb_ℤ (pos 0) (pos i) && eqb (current % i) 0
divides current _ = false

equals : ℕ → Result ℤ → Bool
equals current (ok v) = eqb_ℤ (pos current) v
equals current _ = false

some_equals : ℕ → List String → Bool
some_equals current [] = false
some_equals current (val ∷ rest) =
    equals current (atoi (trim_space val)) || some_equals current rest

unfoldable pub matches_cron_field : String → ℕ → Bool
unfolding divides equals some_equals
matches_cron_field field current = if field == "*" then true else elim (after_prefix "*/" field) [
  | some interval ↦ divides current (atoi interval)
  | none ↦ some_equals current (split b',' field)
]

list_of_minutes : validate_cron_schedule "0,30 8 * */2 1" ≡ ok tt
unfolding validate_cron_schedule validate_cron_field fields after_prefix atoi split trim_space
list_of_minutes = refl

every_quarter : matches_cron_field "*/15" 45 ≡ true
unfolding matches_cron_field after_prefix atoi
every_quarter = refl
