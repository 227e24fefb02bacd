-- ===== src/Analyze/Text/Tests.antt =====
-- Runs of the analyzer of texts on small inputs, and its theorems at those inputs.
use troubleshoot.Prelude.{
  String, ◌≡◌, ◌≢◌, refl, true, false, none, some, [], ◌∷◌, ◌==◌, if◌then◌else◌,
}
use troubleshoot.Go.Result.{Result, ok}
use troubleshoot.Go.Strconv.{parse_bool}
use troubleshoot.Go.Maps.{Map}
use troubleshoot.Go.Ascii.{before_suffix}
use troubleshoot.Go.Text.{contains}
use troubleshoot.Go.Filepath.{join}
use troubleshoot.Redact.{Regex}
use troubleshoot.Analyze.Types.{SingleOutcome, Outcome, AnalyzeResult, failing, passing, chosen}
use troubleshoot.Analyze.Text.{
  TextAnalyze, collected_path, text_result, analyze_regex_pattern, analyze_texts,
}
use troubleshoot.Analyze.Text.Flags.{fires, warns_last, last_message, analyze_regex_pattern_flags}
use troubleshoot.Analyze.Text.Twice.{analyze_texts_fails}

-- an expression that matches one text
abbrev only : String → Regex
only word = record {
  matches = λ text. text == word;
  find_submatch = λ text. if text == word then some (text ∷ "3" ∷ []) else none;
  subexp_names = "" ∷ "count" ∷ [];
  replace_all = λ line template. line;
}

abbrev compile : String → Result Regex
compile pattern = ok (only pattern)

abbrev render : String → Map String → Result String
render message found = ok message

abbrev outcome : String → String → SingleOutcome
outcome when message = record { when = when; message = message; uri = "" }

abbrev passes : Outcome
passes = record { fail = none; warn = none; pass = some (outcome "" "found") }

abbrev fails : Outcome
fails = record { fail = some (outcome "true" "bad word"); warn = none; pass = none }

exec_output : collected_path "exec" "date-stdout.txt" ≡ "exec/*/*/date-stdout.txt"
unfolding collected_path before_suffix contains join
exec_output = refl

abbrev both : AnalyzeResult
both = record (text_result "Words") { is_pass = true; is_fail = true; message = "bad word" }

analyze_regex_pattern_flags_example :
    (true ≡ fires failing true (passes ∷ fails ∷ []))
    × (true ≡ fires passing true (passes ∷ fails ∷ []))
    × (false ≡ warns_last true (passes ∷ fails ∷ []))
    × ("bad word" ≡ last_message true (passes ∷ fails ∷ []) "")
unfolding analyze_regex_pattern chosen parse_bool
analyze_regex_pattern_flags_example =
    analyze_regex_pattern_flags compile "word" "word" "Words" (passes ∷ fails ∷ []) (only "word")
      both refl refl

abbrev words : TextAnalyze
words = record {
  check_name = "Words";
  collector_name = "logs";
  file_name = "pod.log";
  regex_pattern = "word";
  regex_groups = "word";
  ignore_if_no_files = false;
  exclude_files = [];
  outcomes = passes ∷ [];
  strict = none;
}

analyze_texts_fails_example :
    analyze_texts compile render words "Words" (("logs/pod.log", "word") ∷ []) ≢ ok []
unfolding chosen
analyze_texts_fails_example =
    analyze_texts_fails compile render words "Words" "logs/pod.log" "word" [] passes [] passing
      (outcome "" "found") [] refl refl refl refl refl
