-- ===== src/Host/KernelModules/Tests.antt =====
-- Runs of the analyzer of kernel modules on small inputs, and its theorems at those inputs.
use troubleshoot.Prelude.{
  String, ◌≡◌, ◌↔◌, refl, true, false, none, some, List, [], ◌∷◌, All, member,
}
use troubleshoot.Go.Result.{ok}
use troubleshoot.Go.Text.{split, is_space}
use troubleshoot.Go.Maps.{Map, lookup}
use troubleshoot.Analyze.Types.{SingleOutcome, Outcome, AnalyzeResult, report}
use troubleshoot.Host.KernelModules.{
  KernelModuleInfo, compare_kernel_module_conditional_to_actual, analyze_modules, conditional_of,
  default_of,
}
use troubleshoot.Host.KernelModules.Listed.{
  Listed, compare_kernel_module_conditional_to_actual_equals,
  compare_kernel_module_conditional_to_actual_order,
}
use troubleshoot.Host.KernelModules.Expected.{expected}
use troubleshoot.Host.KernelModules.Defaults.{analyze_modules-expected}

abbrev loaded : KernelModuleInfo
loaded = record { status = "loaded" }

abbrev modules : Map KernelModuleInfo
modules = ("loop", loaded) ∷ ("nbd", record { status = "loadable" }) ∷ []

compare_kernel_module_conditional_to_actual_equals_example :
    (compare_kernel_module_conditional_to_actual "loop,nbd = loaded,loadable" modules ≡ ok true)
    ↔ All (Listed (split b',' "loaded,loadable") modules) (split b',' "loop,nbd")
unfolding is_space
compare_kernel_module_conditional_to_actual_equals_example =
    compare_kernel_module_conditional_to_actual_equals "loop,nbd" "loaded,loadable" modules
      (refl, (refl, (refl, (refl, (refl, (refl, (refl, (refl, tt))))))))
      (
        refl,
        (
          refl,
          (
            refl,
            (
              refl,
              (
                refl,
                (refl, (refl, (refl, (refl, (refl, (refl, (refl, (refl, (refl, (refl, tt)))))))))),
              ),
            ),
          ),
        ),
      )

compare_kernel_module_conditional_to_actual_order_example :
    (compare_kernel_module_conditional_to_actual "zfs,loop != loaded" modules ≡ ok true)
    × (compare_kernel_module_conditional_to_actual "loop,zfs != loaded" modules ≡ ok false)
unfolding is_space lookup member split
compare_kernel_module_conditional_to_actual_order_example =
    compare_kernel_module_conditional_to_actual_order "zfs" "loop" "loaded" modules loaded
      (refl, (refl, (refl, tt))) (refl, (refl, (refl, (refl, tt))))
      (refl, (refl, (refl, (refl, (refl, (refl, (refl, (refl, tt))))))))
      (refl, (refl, (refl, (refl, (refl, (refl, (refl, (refl, tt))))))))
      (refl, (refl, (refl, (refl, (refl, (refl, tt)))))) refl refl refl

abbrev when : String → String → SingleOutcome
when condition message = record { when = condition; message = message; uri = "" }

-- a default that passes, and a failure
abbrev outcomes : List Outcome
outcomes =
    record { fail = none; warn = none; pass = some (when "" "all there") }
    ∷ record { fail = some (when "zfs != loaded" "no zfs"); warn = none; pass = none }
    ∷ []

abbrev no_zfs : List AnalyzeResult
no_zfs =
    record {
      is_pass = false;
      is_fail = true;
      is_warn = false;
      strict = false;
      title = "Kernel Modules";
      message = "no zfs";
      uri = "";
      icon_key = "";
      icon_uri = "";
      involved_object = none;
    }
    ∷ []

analyze_modules-expected_example :
    no_zfs
    ≡ expected
        (λ when. compare_kernel_module_conditional_to_actual when modules)
        "Kernel Modules"
        outcomes
unfolding analyze_modules conditional_of default_of lookup report
analyze_modules-expected_example =
    analyze_modules-expected "Kernel Modules" outcomes modules no_zfs refl

-- A failure may not be the default after a pass.
only_passes :
    expected
      (λ when. ok true)
      "Kernel Modules"
      (record { fail = some (when "" "no"); warn = none; pass = some (when "nbd = loadable" "yes") }
        ∷ [])
    ≡ record {
      is_pass = true;
      is_fail = false;
      is_warn = false;
      strict = false;
      title = "Kernel Modules";
      message = "yes";
      uri = "";
      icon_key = "";
      icon_uri = "";
      involved_object = none;
    }
      ∷ []
unfolding expected
only_passes = refl
