-- ===== src/Host/KernelModules.antt =====
-- The analyzer of kernel modules: pkg/analyze/host_kernel_modules.go.
pub mod Listed
pub mod Expected
pub mod Defaults
mod Tests
use Prim.Native.String.{◌++◌ as ◌⧺◌}
use troubleshoot.Prelude.{
  String, ◌≡◌, refl, Bool, true, false, not, ◌&&◌, ◌||◌, Option, none, some, List, [], ◌∷◌, ◌++◌,
  ◌==◌, if◌then◌else◌, member, pos, length,
}
use troubleshoot.Go.Result.{Result, ok, err, panic, message, wrap, ◌>>=◌}
use troubleshoot.Go.Text.{split, quoted}
use troubleshoot.Go.Strconv.{itoa}
use troubleshoot.Go.Maps.{Map, lookup}
use troubleshoot.Analyze.Types.{
  SingleOutcome, Outcome, AnalyzeResult, Severity, failing, warning, passing, report, blank,
}
use troubleshoot.Host.Evaluate.{host_analyzer_title_or_default}

pub record KernelModuleInfo : Type 0 where
  pub status : String

-- the loop of "=": each module is there with one of the statuses
unfoldable pub all_listed : List String → List String → Map KernelModuleInfo → Bool
unfolding lookup member
all_listed [] statuses modules = true
all_listed (name ∷ names) statuses modules = elim (lookup name modules) [
  | none ↦ false
  | some m ↦ if member m.status statuses then all_listed names statuses modules else false
]

-- the loop of "!=", which ends at the first module that is not there
unfoldable pub none_listed : List String → List String → Map KernelModuleInfo → Bool
unfolding lookup member
none_listed [] statuses modules = true
none_listed (name ∷ names) statuses modules = elim (lookup name modules) [
  | none ↦ true
  | some m ↦ if member m.status statuses then false else none_listed names statuses modules
]

abbrev pub module_parts : List String → Map KernelModuleInfo → Result Bool
module_parts (names ∷ operator ∷ statuses ∷ []) modules =
    if operator == "=" || operator == "=="
    then ok (all_listed (split b',' names) (split b',' statuses) modules)
    else if operator == "!=" || operator == "<>"
    then ok (none_listed (split b',' names) (split b',' statuses) modules)
    else err (message ("unexpected operator " ⧺ quoted operator))
module_parts parts modules =
    err (message ("Expected exactly 3 parts in conditional, got " ⧺ itoa (pos (length parts))))

unfoldable pub compare_kernel_module_conditional_to_actual :
    String → Map KernelModuleInfo → Result Bool
unfolding split all_listed none_listed
compare_kernel_module_conditional_to_actual conditional modules =
    module_parts (split b' ' conditional) modules

-- the outcome, if it has a condition as the first argument says
abbrev pub if_when : Bool → Option SingleOutcome → Option SingleOutcome
if_when has none = none
if_when has (some s) =
    if s.when == "" then (if has then none else some s) else (if has then some s else none)

abbrev pub or_next :
    Severity
    → Option SingleOutcome
    → Option (Severity × SingleOutcome)
    → Option (Severity × SingleOutcome)
or_next severity none next = next
or_next severity (some s) next = some (severity, s)

-- the branch of the first loop
unfoldable pub conditional_of : Outcome → Option (Severity × SingleOutcome)
conditional_of o =
    or_next failing (if_when true o.fail)
      (or_next warning (if_when true o.warn) (or_next passing (if_when true o.pass) none))

abbrev pub when_allowed : Bool → Option SingleOutcome → Option SingleOutcome
when_allowed allowed s = if allowed then if_when false s else none

-- the branch of the second loop
unfoldable pub default_of : Bool → Bool → Outcome → Option (Severity × SingleOutcome)
default_of passed failed o = or_next failing (when_allowed (not passed) o.fail) (
    or_next warning (when_allowed (not passed && not failed) o.warn)
      (or_next passing (when_allowed (not failed) o.pass) none))

-- the variables of the loops; `results` are those of the collector
pub record Collected : Type 0 where
  pub results : List AnalyzeResult
  pub passed : Bool
  pub failed : Bool

abbrev pub is_pass_branch : Severity → Bool
is_pass_branch passing = true
is_pass_branch _ = false

abbrev pub is_fail_branch : Severity → Bool
is_fail_branch failing = true
is_fail_branch _ = false

abbrev pub reported : String → Severity → SingleOutcome → AnalyzeResult
reported title severity s = report severity s.message s.uri (blank title "" "")

-- `coll.push(result)`, with the flag of the branch
abbrev pub push : String → Severity → SingleOutcome → Collected → Collected
push title severity s c = record {
  results = c.results ++ reported title severity s ∷ [];
  passed = c.passed || is_pass_branch severity;
  failed = c.failed || is_fail_branch severity;
}

-- `compare` is the comparison with the modules.
module _ (compare : String → Result Bool) (title : String) where
  unfoldable pub conditions_loop : List Outcome → Collected → Result Collected
  unfolding conditional_of
  conditions_loop [] c = ok c
  conditions_loop (o ∷ rest) c = elim (conditional_of o) [
    | none ↦ conditions_loop rest c
    | some (severity, s) ↦ wrap ("failed to compare " ⧺ s.when) (compare s.when) >>= λ is_match.
        conditions_loop rest (if is_match then push title severity s c else c)
  ]

-- The loop breaks at the first default that it takes.
unfoldable pub defaults_loop : String → List Outcome → Collected → Collected
unfolding default_of
defaults_loop title [] c = c
defaults_loop title (o ∷ rest) c = elim (default_of c.passed c.failed o) [
  | none ↦ defaults_loop title rest c
  | some (severity, s) ↦ record c { results = c.results ++ reported title severity s ∷ [] }
]

-- `resultCollector.get`
abbrev pub get_results : String → List AnalyzeResult → List AnalyzeResult
get_results title [] = record (blank title "" "") { is_warn = true; message = "no results" } ∷ []
get_results title (r ∷ rs) = r ∷ rs

abbrev pub nothing_yet : Collected
nothing_yet = record { results = []; passed = false; failed = false }

-- the part after the modules are decoded
unfoldable pub analyze_modules :
    String → List Outcome → Map KernelModuleInfo → Result (List AnalyzeResult)
unfolding compare_kernel_module_conditional_to_actual conditions_loop defaults_loop
analyze_modules title outcomes modules = do
  c ←
      conditions_loop (λ when. compare_kernel_module_conditional_to_actual when modules) title
        outcomes nothing_yet
  ok (get_results title (defaults_loop title outcomes c).results)

-- `decode` is json.Unmarshal into the modules.
unfoldable pub analyze_host_kernel_modules :
    (String → Result String)
    → (String → Result (Map KernelModuleInfo))
    → String
    → List Outcome
    → Result (List AnalyzeResult)
unfolding analyze_modules
analyze_host_kernel_modules get_file decode check_name outcomes = do
  contents ←
      wrap "failed to get collected file" (get_file "host-collectors/system/kernel_modules.json")
  modules ← wrap "failed to unmarshal kernel modules" (decode contents)
  analyze_modules (host_analyzer_title_or_default check_name "Kernel Modules") outcomes modules
