-- ===== src/Analyze/Tests.antt =====
-- Runs of the status analyzers on small inputs, and their theorems at those inputs.
use troubleshoot.Prelude.{
  String, ◌≡◌, ◌≢◌, refl, Bool, true, false, none, some, List, [], ◌∷◌, arith, ℤ, pos, ◌==◌, eq_iff,
}
use troubleshoot.Go.Result.{err, Error, message, Result, ok}
use troubleshoot.Go.Text.{split, trim_space}
use troubleshoot.Go.Strconv.{atoi}
use troubleshoot.Analyze.Types.{SingleOutcome, Outcome, passing, chosen, report}
use troubleshoot.Analyze.Run.{Analyzer}
use troubleshoot.Analyze.Outcomes.{outcome_loop}
use troubleshoot.Analyze.Compare.{compare_actual_to_when}
use troubleshoot.Analyze.Compare.RoundTrip.{OperatorsMean, compare_actual_to_when_operators}
use troubleshoot.Analyze.Status.{Subject, untouched, status_branch, common_status}
use troubleshoot.Analyze.Status.Missing.{common_status_missing}
use troubleshoot.Analyze.Workload.{StatusSpec}
use troubleshoot.Analyze.Deployment.{Deployment}
use troubleshoot.Analyze.StatefulSet.{StatefulSet}
use troubleshoot.Analyze.Job.{Job}
use troubleshoot.Analyze.ReplicaSet.{ReplicaSet}

abbrev when_says : String → String → SingleOutcome
when_says w m = record { when = w; message = m; uri = "" }

abbrev fail_if : String → String → Outcome
fail_if w m = record { fail = some (when_says w m); warn = none; pass = none }

abbrev pass_if : String → String → Outcome
pass_if w m = record { fail = none; warn = none; pass = some (when_says w m) }

abbrev empty_outcome : Outcome
empty_outcome = record { fail = none; warn = none; pass = none }

abbrev api : ℤ → Bool → Subject
api ready exists = record {
  name = "api";
  icon_key = "icon";
  icon_uri = "uri";
  ready_replicas = ready;
  exists = exists;
  resource_type = "deployment";
}

abbrev outcomes : List Outcome
outcomes = fail_if "absent" "gone" ∷ fail_if "< 2" "too few" ∷ pass_if ">= 2" "enough" ∷ []

common_status_run :
    common_status outcomes (api (pos 2) true)
    ≡ ok (report passing "enough" "" (untouched (api (pos 2) true)))
unfolding common_status status_branch chosen report outcome_loop compare_actual_to_when atoi split
    trim_space
common_status_run = refl

common_status_missing_example :
    common_status (empty_outcome ∷ pass_if "absent" "gone" ∷ []) (api (pos 0) false)
    ≡ ok (report passing "gone" "" (untouched (api (pos 0) false)))
unfolding chosen
common_status_missing_example =
    common_status_missing (api (pos 0) false) (empty_outcome ∷ []) (pass_if "absent" "gone") []
      passing (when_says "absent" "gone") refl (refl, tt) refl

compare_actual_to_when_operators_example : OperatorsMean 3 (pos 4)
compare_actual_to_when_operators_example = compare_actual_to_when_operators 3 (pos 4) (omega arith)

-- The text of a file stands for itself, and a bundle is a list of files.
abbrev spec : String → String → StatusSpec
spec name namespace = record {
  check_name = "";
  name = name;
  namespace = namespace;
  namespaces = [];
  selector = [];
  outcomes = [];
  strict = none;
}

abbrev one_bundle : {A : Type 0} → List A → String → List String → Result (List (List A))
one_bundle items file excluded = ok (items ∷ [])

abbrev parsed : {A : Type 0} → List A → Result (List A)
parsed items = ok items

abbrev web : ℤ → Deployment
web available = record {
  namespace = "shop";
  name = "web";
  replicas = pos 3;
  ready_replicas = pos 3;
  available_replicas = available;
}

abbrev database : StatefulSet
database = record { namespace = "shop"; name = "db"; replicas = pos 3; ready_replicas = pos 1 }

abbrev backup : Job
backup = record {
  namespace = "shop";
  name = "backup";
  completions = some (pos 1);
  succeeded = pos 0;
  failed = pos 2;
}

shop_is_named : ◌≢◌ {A = String} "shop" ""
shop_is_named = ground (arith, eq_iff "shop" "")

abbrev front : ReplicaSet String
front = record {
  namespace = "shop";
  name = "front";
  labels = "app";
  spec_replicas = none;
  ready_replicas = pos 0;
  available_replicas = pos 0;
}

abbrev label_is : String → Result (String → Bool)
label_is selector = ok (λ label. label == "app")

abbrev failing_analyzer : Analyzer
failing_analyzer = record { title = "Nodes"; exclude = none; run = err (message "no file") }

abbrev show : Error → String
show e = "error"
