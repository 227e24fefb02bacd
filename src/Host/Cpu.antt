-- ===== src/Host/Cpu.antt =====
-- The analyzer of CPUs, pkg/analyze/host_cpu.go.
pub mod Levels
pub mod Counts
use troubleshoot.Prelude.{
  ℕ, String, ◌≡◌, refl, Bool, true, false, not, ◌&&◌, ◌||◌, Option, none, some, List, [], ◌∷◌, ◌++◌,
  ◌==◌, if◌then◌else◌, ℤ, pos, ltb_ℤ, leb_ℤ, eqb_ℤ,
}
use Prim.Native.String.{◌++◌ as ◌⧺◌}
use troubleshoot.Go.Result.{Result, ok, err, panic, Error, message, wrapped, wrap, ◌>>=◌}
use troubleshoot.Go.Text.{split, quoted, lower_is}
use troubleshoot.Go.Strconv.{atoi}
use troubleshoot.Analyze.Types.{Outcome, AnalyzeResult}
use troubleshoot.Host.Contents.{CollectedContent, retrieve_collected_contents}
use troubleshoot.Host.Evaluate.{host_analyzer_title_or_default, analyze_host_collector_results}

-- `microarchs`
abbrev pub v1 : List String
v1 = "cmov" ∷ "cx8" ∷ "fpu" ∷ "fxsr" ∷ "mmx" ∷ "syscall" ∷ "sse" ∷ "sse2" ∷ []

abbrev pub v2 : List String
v2 = "cx16" ∷ "lahf_lm" ∷ "popcnt" ∷ "ssse3" ∷ "sse4_1" ∷ "sse4_2" ∷ "ssse3" ∷ []

abbrev pub v3 : List String
v3 = "avx" ∷ "avx2" ∷ "bmi1" ∷ "bmi2" ∷ "f16c" ∷ "fma" ∷ "lzcnt" ∷ "movbe" ∷ "xsave" ∷ []

abbrev pub v4 : List String
v4 = "avx512f" ∷ "avx512bw" ∷ "avx512cd" ∷ "avx512dq" ∷ "avx512vl" ∷ []

-- slices.Contains
unfoldable pub has_flag : List String → String → Bool
has_flag [] flag = false
has_flag (f ∷ flags) flag = f == flag || has_flag flags flag

-- the loop that returns false at the first flag that is missing
unfoldable pub has_all : List String → List String → Bool
unfolding has_flag
has_all flags [] = true
has_all flags (wanted ∷ rest) = if has_flag flags wanted then has_all flags rest else false

-- the cases fall through, so each level asks for the flags of those below it
unfoldable pub specifics : String → Option (List String)
specifics microarch =
    if microarch == "x86-64-v4"
    then some (v4 ++ (v3 ++ (v2 ++ v1)))
    else if microarch == "x86-64-v3"
    then some (v3 ++ (v2 ++ v1))
    else if microarch == "x86-64-v2"
    then some (v2 ++ v1)
    else if microarch == "x86-64"
    then some v1
    else none

unfoldable pub do_compare_host_cpu_micro_architecture : String → List String → Result Bool
unfolding specifics has_all
do_compare_host_cpu_micro_architecture microarch flags = elim (specifics microarch) [
  | none ↦ err (message ("troubleshoot does not yet support microarchitecture " ⧺ quoted microarch))
  | some wanted ↦ ok (has_all flags wanted)
]

-- The list of a split is never empty, so the error of the code for an empty one is out of reach.
unfoldable pub do_compare_host_cpu_flags : String → List String → Result Bool
unfolding has_all
do_compare_host_cpu_flags expected flags = elim (split b',' expected) [
  | [] ↦ err (message "expected flags cannot be empty")
  | f ∷ fs ↦ ok (has_all flags (f ∷ fs))
]

unfoldable pub do_compare_machine_arch : String → String → String → Result Bool
do_compare_machine_arch operator desired actual =
    if operator == "=" || operator == "==" || operator == "==="
    then ok (actual == desired)
    else if operator == "!=" || operator == "!=="
    then ok (not (actual == desired))
    else err (message "unknown operator")

cpu_operator : String → ℤ → ℤ → Result Bool
cpu_operator operator desired actual =
    if operator == "<"
    then ok (ltb_ℤ actual desired)
    else if operator == "<="
    then ok (leb_ℤ actual desired)
    else if operator == ">"
    then ok (ltb_ℤ desired actual)
    else if operator == ">="
    then ok (leb_ℤ desired actual)
    else if operator == "=" || operator == "==" || operator == "==="
    then ok (eqb_ℤ actual desired)
    else if operator == "!=" || operator == "!=="
    then ok (not (eqb_ℤ actual desired))
    else err (message "unknown operator")

-- strconv.ParseInt(desired, 10, 64) accepts what strconv.Atoi accepts.
unfoldable pub do_compare_host_cpu : String → String → ℤ → Result Bool
unfolding cpu_operator
do_compare_host_cpu operator desired actual = do
  number ← wrap "failed to parse" (atoi desired)
  cpu_operator operator number actual

-- what the condition asks about
pub data Asked : Type 0 where
  logical physical count machine_arch nothing : Asked

abbrev asked_by : String → Asked
asked_by word =
    if lower_is word "logical"
    then logical
    else if lower_is word "physical"
    then physical
    else if lower_is word "count"
    then count
    else if lower_is word "machinearch"
    then machine_arch
    else nothing

-- the subject, the comparator and the desired value
abbrev pub read_condition : List String → Asked × String × String
read_condition (word ∷ comparator ∷ desired ∷ []) = (asked_by word, comparator, desired)
read_condition (comparator ∷ desired ∷ []) = (count, comparator, desired)
read_condition _ = (nothing, "", "")

pub record CpuInfo : Type 0 where
  pub logical_count : ℤ
  pub physical_count : ℤ
  pub flags : List String
  pub machine_arch_name : String

ask : CpuInfo → Asked × String × String → Result Bool
unfolding do_compare_host_cpu do_compare_machine_arch
ask cpu (logical, op, desired) = do_compare_host_cpu op desired cpu.logical_count
ask cpu (physical, op, desired) = do_compare_host_cpu op desired cpu.physical_count
ask cpu (machine_arch, op, desired) = do_compare_machine_arch op desired cpu.machine_arch_name
ask cpu (count, op, desired) =
    do_compare_host_cpu op desired
      (if ltb_ℤ cpu.logical_count cpu.physical_count then cpu.physical_count else cpu.logical_count)
ask cpu (nothing, op, desired) = err (message "unable to parse conditional")

unfoldable pub compare_host_cpu_conditional_to_actual : String → CpuInfo → Result Bool
unfolding ask do_compare_host_cpu_micro_architecture do_compare_host_cpu_flags lower_is split
compare_host_cpu_conditional_to_actual conditional cpu = do
  let (asked, comparator, desired) = read_condition (split b' ' conditional)
  if lower_is comparator "supports"
      then do_compare_host_cpu_micro_architecture desired cpu.flags
      else if lower_is comparator "hasflags"
      then do_compare_host_cpu_flags desired cpu.flags
      else ask cpu (asked, comparator, desired)

-- `decode` is json.Unmarshal into the information on CPUs, and `decode_names` that into the names
-- of the nodes.
module _ {Data : Type 0} (read : String → Result Data) (decode : Data → Result CpuInfo)
    (decode_names : Data → Result (List String)) where
  unfoldable pub check_condition : Data → String → Result Bool
  check_condition d when = do
    cpu ← wrap "failed to unmarshal data into CPUInfo" (decode d)
    compare_host_cpu_conditional_to_actual when cpu

  unfoldable pub analyze_host_cpu : String → List Outcome → Result (List AnalyzeResult)
  unfolding check_condition
  analyze_host_cpu check_name outcomes = do
    let title = host_analyzer_title_or_default check_name "Number of CPUs"
    contents ←
        retrieve_collected_contents read decode_names "host-collectors/system/cpu.json"
          "host-collectors/system" "cpu.json"
    wrap "failed to analyze OS version"
        (analyze_host_collector_results check_condition outcomes title contents)
