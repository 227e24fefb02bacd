-- ===== src/Lib.antt =====
-- troubleshoot collects data of a cluster or a host into a bundle, redacts it and analyzes it. This
-- library models the parts with logic of their own, from the Go source under pkg/.
--
-- Parts and files
-- * Analyzers (pkg/analyze). An analyzer reads collected files, decodes them, and runs a loop over
--   the outcomes of its spec; the first outcome whose condition holds gives the result.
--   Analyze/Run holds the runs of one analyzer (analyzer.go); Analyze/Types and Analyze/Outcomes
--   hold the outcomes (pkg/apis/troubleshoot/v1beta2/outcome.go), the results (analyzer.go) and
--   the loop; Analyze/Compare the conditions (comparison.go, compareActualToWhen of
--   common_status.go); Analyze/Status commonStatus; Analyze/Workload what the four analyzers of
--   workloads share; Analyze/Deployment, StatefulSet, Job and ReplicaSet the analyzers themselves
--   (deployment_status.go, statefulset_status.go, job_status.go, replicaset_status.go), one
--   definition for each function of the file; Analyze/Text the analyzer of texts (text_analyze.go),
--   whose loop for one expression goes through all outcomes; and Analyze/Distribution that of
--   distributions (distribution.go), where the order of a list of labels is that in which the
--   loop over the map takes them.
-- * Host analyzers (pkg/analyze). They read one file, or one for each node, and run the loop for each.
--   Host/Contents models collected_contents.go, Host/Evaluate the loop of host_analyzer.go, Host/Cpu
--   host_cpu.go, Host/Memory host_memory.go and Host/DiskUsage host_disk_usage.go, with the
--   arithmetic of uint64 in Host/Bytes. Host/KernelModules models host_kernel_modules.go, which has
--   loops of its own for conditions and defaults, Host/Time host_time.go and Host/Services
--   host_services.go.
-- * Node resources (pkg/analyze/node_resources.go). Nodes holds the nodes and the interface of
--   quantities, Nodes/Filter nodeMatchesFilters, Nodes/Aggregate the sum, the least and the greatest,
--   and Nodes/Condition the conditions and the analyzer.
-- * Lists of specs. Dedup holds DedupAnalyzers (pkg/analyze/analyzer.go), and DedupCollectors,
--   EnsureClusterResourcesFirst and EnsureCopyLast (pkg/collect/collector.go).
-- * Multitype (pkg/multitype/boolstring.go): a field that is a Boolean or a text.
-- * Redactors (pkg/redact). A file passes through one redactor after another, and each records what
--   it changed. Redact holds the templates and tokens of redact.go; Redact/LineByLine the redactors of
--   literal.go and single_line.go; Redact/MultiLine that of multi_line.go; Redact/Yaml that of yaml.go;
--   Redact/Path redactMatchesPath and buildAdditionalRedactors; Redact/Builtin and Redact/Chain
--   getRedactors with its tables and Redact itself, where each redactor reads what the one before it
--   writes; Redact/Ledger the list of redactions
--   and the cache of expressions, which are the package's state.
-- * Tokenizer (pkg/redact/tokenizer.go). Redact/Tokens holds its state; Redact/Tokens/Classify,
--   Normalize, Generate and Track one step each of TokenizeValueWithPath, which is in
--   Redact/Tokens/Tokenize; Redact/Tokens/Run the calls one after another, as a step relation;
--   Redact/Tokens/Correlate and Report the correlations and GetRedactionMap; and Redact/Tokens/Files
--   the files of redaction maps with their encryption. The redactors take a tokenizer as two
--   functions of a value, a context and a path: whether the call panics, and the token. The
--   functions of a redactor say what it writes where no call panics, and one beside each whether
--   one does; Redact/Chain puts the two together.
-- * Scheduler (pkg/schedule). Schedule/Cron holds the validator of cron fields (job.go) and the matcher
--   (daemon.go); Schedule/Jobs the manager with its directory of jobs; Schedule/Daemon the daemon, as a
--   step relation on its table of running jobs, the directory and the goroutines at work.
--
-- Go in the model
-- Go/Result has values with an error or a panic; Go/Maps maps, as association lists; Go/Text,
-- Go/Ascii, Go/Bytes, Go/Hex, Go/Strconv and Go/Filepath the functions of the standard library that
-- the source calls. An int is unbounded where the code only compares it; strconv.Atoi has the limits
-- of 64 bits, and a conversion to int32 wraps. Texts are lists of characters; a length in bytes is
-- counted as UTF-8 takes them, and one in characters only where the text is ASCII. Loops are by
-- recursion on the list that they walk, so none needs fuel.
--
-- Parameters
-- What the source takes from elsewhere is an argument: reading a collected file and listing the
-- files that match a pattern, the JSON and YAML codecs, HMAC, AES-GCM, random bytes, float64, label
-- selectors, taints, quantities of resources, package regexp (a record of its operations),
-- gobwas/glob, filepath.Match, the tokenizer, the file system's answer to a write, the clock, and
-- whether the command of a job succeeded. strings.ToLower and strings.EqualFold are those of ASCII
-- texts.
--
-- Not modelled
-- The other analyzers, the collectors, the loader and the converters, lint, bundles and preflights,
-- the run of analyzers by kind; the generated clients and API code, the copy of the Longhorn
-- library, and the command line, which only parse, print or call services.
mod Prelude
mod Go
mod Multitype
mod Analyze
mod Host
mod Dedup
mod Nodes
mod Redact
mod Schedule
