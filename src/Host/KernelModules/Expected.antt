-- ===== src/Host/KernelModules/Expected.antt =====
-- What the comment on `Analyze` promises of the results, from the outcomes alone.
use troubleshoot.Prelude.{
  String, Bool, true, false, not, ◌&&◌, ◌||◌, Option, none, some, List, [], ◌∷◌, ◌++◌, ◌==◌,
  if◌then◌else◌,
}
use troubleshoot.Go.Result.{Result, ok}
use troubleshoot.Analyze.Types.{
  SingleOutcome, Outcome, AnalyzeResult, Severity, failing, warning, passing,
}

abbrev pub Branch : Type 0
Branch = Severity × SingleOutcome

abbrev pub branch_of : Severity → Option SingleOutcome → List Branch
branch_of severity none = []
branch_of severity (some s) = (severity, s) ∷ []

-- the branches that an outcome has, failures first
abbrev pub branches : Outcome → List Branch
branches o = branch_of failing o.fail ++ (branch_of warning o.warn ++ branch_of passing o.pass)

-- those of all the outcomes
unfoldable pub all_branches : List Outcome → List Branch
all_branches [] = []
all_branches (o ∷ os) = branches o ++ all_branches os

abbrev pub first_branch : (Branch → Bool) → List Branch → List Branch
first_branch test [] = []
first_branch test (b ∷ bs) = if test b then b ∷ [] else first_branch test bs

abbrev pub has_condition : Branch → Bool
has_condition b = not (b.1.when == "")

abbrev pub answers : Result Bool → Bool
answers (ok b) = b
answers _ = false

-- the branches whose condition holds
abbrev pub holding : (String → Result Bool) → List Branch → List Branch
holding compare [] = []
holding compare (b ∷ bs) =
    let rest = holding compare bs in if answers (compare b.1.when) then b ∷ rest else rest

-- Of each outcome the first branch with a condition counts, if the condition holds.
unfoldable pub fired : (String → Result Bool) → List Outcome → List Branch
fired compare [] = []
fired compare (o ∷ os) =
    holding compare (first_branch has_condition (branches o)) ++ fired compare os

abbrev pub is_pass : Severity → Bool
is_pass passing = true
is_pass _ = false

abbrev pub is_fail : Severity → Bool
is_fail failing = true
is_fail _ = false

abbrev pub some_pass : List Branch → Bool
some_pass [] = false
some_pass (b ∷ bs) = is_pass b.0 || some_pass bs

abbrev pub some_fail : List Branch → Bool
some_fail [] = false
some_fail (b ∷ bs) = is_fail b.0 || some_fail bs

-- A failure may be the default if no pass fired, a pass if no failure did, a warning if neither did.
abbrev pub may_default : Bool → Bool → Severity → Bool
may_default passed failed failing = not passed
may_default passed failed warning = not passed && not failed
may_default passed failed passing = not failed

abbrev pub is_default : Bool → Bool → Branch → Bool
is_default passed failed b = may_default passed failed b.0 && b.1.when == ""

-- a result with the severity, the message and the URI of the branch
abbrev pub shown : String → Branch → AnalyzeResult
shown title (severity, s) = record {
  is_pass = is_pass severity;
  is_fail = is_fail severity;
  is_warn = not (is_pass severity) && not (is_fail severity);
  strict = false;
  title = title;
  message = s.message;
  uri = s.uri;
  icon_key = "";
  icon_uri = "";
  involved_object = none;
}

abbrev pub all_shown : String → List Branch → List AnalyzeResult
all_shown title [] = []
all_shown title (b ∷ bs) = shown title b ∷ all_shown title bs

-- one warning in place of no result
abbrev pub or_no_results : String → List AnalyzeResult → List AnalyzeResult
or_no_results title [] =
    record {
      is_pass = false;
      is_fail = false;
      is_warn = true;
      strict = false;
      title = title;
      message = "no results";
      uri = "";
      icon_key = "";
      icon_uri = "";
      involved_object = none;
    }
    ∷ []
or_no_results title (r ∷ rs) = r ∷ rs

-- The results: the branches that fired, in the order of the outcomes; then, of all the branches in order, the first with no
-- condition that may be the default; and the warning if there are none of either.
unfoldable pub expected : (String → Result Bool) → String → List Outcome → List AnalyzeResult
unfolding fired all_branches
expected compare title outcomes =
    let fires = fired compare outcomes in
    or_no_results title (
      all_shown title (
        fires
        ++ first_branch (is_default (some_pass fires) (some_fail fires)) (all_branches outcomes)))
