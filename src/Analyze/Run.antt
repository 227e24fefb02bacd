-- ===== src/Analyze/Run.antt =====
-- The runs of analyzers: `Analyze`, `HostAnalyze` and `NewAnalyzeResultError` of
-- pkg/analyze/analyzer.go. The dispatch on the kind of analyzer is an argument.
use Prim.Native.String.{◌++◌ as ◌⧺◌}
use troubleshoot.Prelude.{String, ◌≡◌, refl, Bool, true, false, Option, none, some, List, [], ◌∷◌}
use troubleshoot.Go.Result.{Result, ok, err, panic, Error, message, wrapped, ◌>>=◌}
use troubleshoot.Multitype.{BoolOrString, is_excluded}
use troubleshoot.Analyze.Types.{AnalyzeResult, Severity, report, blank}

-- the interface `Analyzer`, with the `Exclude` field that every analyzer's `IsExcluded` tests
pub record Analyzer : Type 0 where
  pub title : String
  pub exclude : Option BoolOrString
  pub run : Result (List AnalyzeResult)

-- `none` is a nil slice: nothing was analyzed.
excluded_or_run : Analyzer → Bool → Result (Option (List AnalyzeResult))
excluded_or_run a true = ok none
excluded_or_run a false = do results ← a.run; ok (some results)

-- The outer `none` is a nil spec, the inner one a spec of no known kind.
unfoldable pub analyze : Option (Option Analyzer) → Result (Option (List AnalyzeResult))
unfolding excluded_or_run
analyze none = err (message "nil analyzer")
analyze (some none) = ok none
analyze (some (some a)) = do excluded ← is_excluded a.exclude; excluded_or_run a excluded

-- `show` prints an error.
module _ (show : Error → String) where
  unfoldable pub new_analyze_result_error : Option Analyzer → Error → List AnalyzeResult
  unfolding report
  new_analyze_result_error (some a) e =
      report Severity.failing ("Analyzer Failed: " ⧺ show e) "" (blank a.title "" "") ∷ []
  new_analyze_result_error none e =
      report Severity.failing ("Analyzer Failed: " ⧺ show e) "" (blank "nil analyzer" "" "") ∷ []

  reported_or : Analyzer → Result (List AnalyzeResult) → Result (List AnalyzeResult)
  unfolding new_analyze_result_error
  reported_or a (ok results) = ok results
  reported_or a (err e) = ok (new_analyze_result_error (some a) (wrapped "analyze" e))
  reported_or a (panic s) = panic s

  -- An error of the test for exclusion is dropped, and the analyzer runs.
  unless_excluded : Analyzer → Result Bool → Result (List AnalyzeResult)
  unfolding reported_or
  unless_excluded a (ok true) = ok []
  unless_excluded a (ok false) = reported_or a a.run
  unless_excluded a (err e) = reported_or a a.run
  unless_excluded a (panic s) = panic s

  unfoldable pub host_analyze : Option Analyzer → Result (List AnalyzeResult)
  unfolding unless_excluded new_analyze_result_error
  host_analyze none = ok (new_analyze_result_error none (message "invalid host analyzer"))
  host_analyze (some a) = unless_excluded a (is_excluded a.exclude)

  abbrev or_empty : Option (List AnalyzeResult) → List AnalyzeResult
  or_empty none = []
  or_empty (some results) = results

  -- a result of `Analyze` as `HostAnalyze` gives it
  abbrev pub as_host : Analyzer → Result (Option (List AnalyzeResult)) → Result (List AnalyzeResult)
  as_host a (ok results) = ok (or_empty results)
  as_host a (err e) = ok (new_analyze_result_error (some a) (wrapped "analyze" e))
  as_host a (panic s) = panic s

  -- Where the exclusion of an analyzer can be read, the two runs agree: `HostAnalyze` gives the
  -- results of `Analyze`, none for an analyzer that is excluded, and one failure with the
  -- analyzer's title for its error.
  host_analyze-analyze :
      (a : Analyzer) (excluded : Bool)
      → is_excluded a.exclude ≡ ok excluded
      → host_analyze (some a) ≡ as_host a (analyze (some (some a)))
  unfolding host_analyze analyze
  host_analyze-analyze a excluded h = rw h (go excluded a.run)
    where
      go :
          (b : Bool) (r : Result (List AnalyzeResult))
          → unless_excluded (record { title = a.title; exclude = a.exclude; run = r }) (ok b)
            ≡ as_host a
                (excluded_or_run (record { title = a.title; exclude = a.exclude; run = r }) b)
      go true r = refl
      go false (ok results) = refl
      go false (err e) = refl
      go false (panic s) = refl
