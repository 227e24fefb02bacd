-- ===== src/Analyze/Types.antt =====
-- The data of the analyzers: pkg/apis/troubleshoot/v1beta2/outcome.go and the results of
-- pkg/analyze/analyzer.go.
use troubleshoot.Prelude.{ℕ, ◌+◌, String, Bool, true, false, Option, none, some, if◌then◌else◌}

pub record SingleOutcome : Type 0 where
  pub when : String
  pub message : String
  pub uri : String

pub record Outcome : Type 0 where
  pub fail : Option SingleOutcome
  pub warn : Option SingleOutcome
  pub pass : Option SingleOutcome

pub record ObjectReference : Type 0 where
  pub api_version : String
  pub kind : String
  pub namespace : String
  pub name : String

pub record AnalyzeResult : Type 0 where
  pub is_pass : Bool
  pub is_fail : Bool
  pub is_warn : Bool
  pub strict : Bool
  pub title : String
  pub message : String
  pub uri : String
  pub icon_key : String
  pub icon_uri : String
  pub involved_object : Option ObjectReference

-- a result in which only the title and the icon are set
abbrev pub blank : String → String → String → AnalyzeResult
blank title key uri = record {
  is_pass = false;
  is_fail = false;
  is_warn = false;
  strict = false;
  title = title;
  message = "";
  uri = "";
  icon_key = key;
  icon_uri = uri;
  involved_object = none;
}

-- the three branches of an outcome, which every analyzer tries in this order
pub data Severity : Type 0 where
  failing warning passing : Severity

-- the branch that `if outcome.Fail != nil … else if outcome.Warn != nil … else if outcome.Pass …`
-- takes
unfoldable pub chosen : Outcome → Option (Severity × SingleOutcome)
chosen o = elim o.fail [
  | some s ↦ some (failing, s)
  | none ↦ elim o.warn [
    | some s ↦ some (warning, s)
    | none ↦ elim o.pass [ some s ↦ some (passing, s) | none ↦ none ]
  ]
]

-- the flag, the message and the URI that a branch sets
unfoldable pub report : Severity → String → String → AnalyzeResult → AnalyzeResult
report failing message uri r = record r { is_fail = true; message = message; uri = uri }
report warning message uri r = record r { is_warn = true; message = message; uri = uri }
report passing message uri r = record r { is_pass = true; message = message; uri = uri }

abbrev flag : Bool → ℕ
flag b = if b then 1 else 0

-- how many of the three flags are set
abbrev pub flags : AnalyzeResult → ℕ
flags r = flag r.is_pass + flag r.is_fail + flag r.is_warn
