-- ===== src/Analyze/Workload.antt =====
-- What the status analyzers of deployments, stateful sets, jobs and replica sets share: the fields
-- of their specs, their titles, the files that they ask for, and the loops over what comes back.
pub mod Scan
use Prim.Native.String.{◌++◌ as ◌⧺◌}
use troubleshoot.Prelude.{
  String, ◌≡◌, Bool, true, false, not, ◌&&◌, Option, none, some, List, [], ◌∷◌, ◌++◌, ◌==◌,
  if◌then◌else◌, map, is_nil,
}
use troubleshoot.Go.Result.{Result, ok, wrap, ◌>>=◌}
use troubleshoot.Go.Filepath.{join}
use troubleshoot.Multitype.{BoolOrString, bool_or_default_false}
use troubleshoot.Analyze.Types.{SingleOutcome, Outcome, AnalyzeResult, Severity, report}
use troubleshoot.Analyze.Outcomes.{Branch}

-- `DeploymentStatus`, `StatefulsetStatus`, `JobStatus` and `ReplicaSetStatus`; only the last has a
-- selector.
pub record StatusSpec : Type 0 where
  pub check_name : String
  pub name : String
  pub namespace : String
  pub namespaces : List String
  pub selector : List String
  pub outcomes : List Outcome
  pub strict : Option BoolOrString

unfoldable pub status_title : String → StatusSpec → String
status_title kind a =
    if not (a.check_name == "")
    then a.check_name
    else if not (a.name == "") && not (a.namespace == "")
    then a.namespace ⧺ "/" ⧺ a.name ⧺ " " ⧺ kind ⧺ " Status"
    else if not (a.name == "")
    then a.name ⧺ " " ⧺ kind ⧺ " Status"
    else if not (a.namespace == "")
    then a.namespace ⧺ " " ⧺ kind ⧺ " Status"
    else kind ⧺ " Status"

abbrev pub resource_file : String → String → String
resource_file dir stem = join ("cluster-resources" ∷ dir ∷ (stem ⧺ ".json") ∷ [])

-- the files of the namespaces that the spec names
abbrev pub named_files : String → StatusSpec → List String
named_files dir a =
    (if a.namespace == "" then [] else resource_file dir a.namespace ∷ [])
    ++ map (resource_file dir) a.namespaces

-- "no namespace specified, so we need to analyze all"
abbrev pub files_or_all : String → StatusSpec → List String
files_or_all dir a =
    if is_nil (named_files dir a) then resource_file dir "*" ∷ [] else named_files dir a

set_strict : Bool → AnalyzeResult → AnalyzeResult
set_strict b r = record r { strict = b }

unfoldable pub with_strict : StatusSpec → List AnalyzeResult → List AnalyzeResult
unfolding set_strict
with_strict a results = map (set_strict (bool_or_default_false a.strict)) results

abbrev pub as_list {ℓ} : {A : Type ℓ} → Option A → List A
as_list none = []
as_list (some a) = a ∷ []

-- `for _, collected := range files { … result = … }`: the last file's result stays
unfoldable pub last_of_files :
    {Data : Type 0}
    → (Data → Result (Option AnalyzeResult))
    → Option AnalyzeResult
    → List Data
    → Result (Option AnalyzeResult)
last_of_files f result [] = ok result
last_of_files f result (d ∷ files) = do r ← f d; last_of_files f r files

-- The branch of an analyzer whose outcomes have a condition or none: an empty condition holds.
unfoldable pub when_branch :
    (Severity → String) → (String → Result Bool) → AnalyzeResult → Branch AnalyzeResult
when_branch context test result severity s =
    let reported = report severity s.message s.uri result in
    if s.when == "" then ok (some reported) else do
      match ← wrap (context severity) (test s.when)
      ok (if match then some reported else none)
