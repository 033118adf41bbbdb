-- ===== src/Lib.antt =====
-- Creidhne: verification of the Go program.
--
-- `crei` evaluates quadlet definitions written in CUE, renders them to systemd unit files, and
-- keeps a quadlet directory in step with them. This library models the parts that decide.
--
-- - Kinds: the unit kinds and their extensions (internal/kinds/kinds.go).
-- - Eval: the evaluated units, quadlets and registry entries (internal/eval/eval.go, images.go).
--   They come from the CUE library and are inputs here. Decoded unit data is `Fields`.
-- - Render: `BuildFileSet` with the build artifacts (internal/render/render.go). The parsed template
--   set is two parameters: the names that it has, and the execution of a template on its root data.
--   Render/Project is what the commands make of it (internal/cli/root.go, state.go).
-- - Reconcile: `ComputePlan`, `Summarize` and `ListExisting` (internal/reconcile/reconcile.go).
--   `Disk` holds the system calls that read, as functions with errors. A map is an association
--   list, and the code's `sort.Strings` is `sort`. Reconcile/Write is `WriteFile` with `ensureDir`,
--   over the calls of package `os` (Reconcile/Os), each of which may fail: an action keeps the
--   states that it passed through, which are the instants at which a crash may cut it. An open
--   file is named by its path. The wrapping of errors is not modelled. Reconcile/Prune is
--   `PruneEmptyDirs`, whose fuel bounds the depth of the tree: Prune/Deep shows that any fuel above
--   a rank of the directories gives one run. Reconcile/Apply is the writing part of `crei apply`
--   (internal/cli/commands.go).
-- - State: `Build`, `InEffectAt`, `FileOwner`, `FileRecord` and `Equal` (internal/state/state.go).
--   Times are numbers; the hash and the serialisation of the standard library are parameters.
-- - Registry: `ParseAge`, `Parse`, `Classify`, `ParseVersion`, `Compare` and `PickVersion`
--   (internal/registry/registry.go). The name checks of go-containerregistry and the
--   constraints of the semver library are parameters.
-- - Eval/Unique: the checks that names, files and services are unique (internal/eval/eval.go).
-- - Graph: `buildGraph` (internal/cli/graph.go), over the decoded data of the units. It changes the
--   graph in nested loops, which are `each` here; the catalog maps filenames to nodes. Graph/Edges is
--   `sortedEdges`, and Graph/Reduce `reduceGraph` (internal/cli/graphreduce.go).
-- - Lint: the levels of the rules (internal/cli/lintconfig.go). Overrides are an association list
--   in the order in which `range` yields them. Lint/Wiring is the project graph of
--   `graphRuleFindings` with its rules on networks, and Lint/Names its rule on runtime names
--   (internal/cli/graphrules.go); Lint/Images is `imageRuleFindings` (internal/cli/imagerules.go).
--   Quoting by `%q` is a parameter.
-- - Importer: `envSet` and `parseVarToken` (internal/importer/vars.go). Warnings are part of
--   the state.
-- - Systemd: `Show` and the parser of its output (internal/systemd/systemd.go). The process that
--   runs, the scanner of lines and the parser of times are parameters.
-- - Lifecycle: the rows that `start` and `stop` select (internal/cli/startstop.go), and
--   `restartTracker` (internal/cli/lifecycle.go), which polls systemd until all units of a
--   transition have settled or used up their budget. Each poll gets its `Answers`: the instant, the
--   queued jobs, and the states as a function of the units asked for. The loop runs over a list of
--   answers, and is still waiting where the list ends.
-- - Status: `classifyRows` with all that it calls, `filterStatusInput` (internal/cli/status.go), and
--   what staleness means (internal/cli/stale.go). `StatusInput` holds the layers that the command
--   gathers; Status/Rows classifies a path, Status/Blocked adds the failed dependencies from the
--   graph, and Status/Applied is about the status after `Build` of State.
--
-- Strings are lists of bytes. Paths are lists of elements, deepest first. An `error` is a value of
-- a data type of its cause, not its text. Each loop follows a list or a number that it gets, except
-- the walk of `firstFailedDep`: its fuel is the number of all hard edges and of those from the unit
-- that it starts at, since it takes nothing else from its queue. Integers that cannot overflow are
-- natural numbers; `ParseAge` and `Atoi` have the bounds of 64 bits. A map is an association list,
-- whose order stands for the order in which `range` yields the keys.
--
-- Not modelled: CUE evaluation and its diagnostics, text templates, calls of podman and systemctl,
-- network access, prompts and printing, which belong to libraries or only produce output.
pub mod Base
pub mod Kinds
pub mod Eval
pub mod Render
pub mod Reconcile
pub mod State
pub mod Status
pub mod Graph
pub mod Lint
pub mod Importer
pub mod Systemd
pub mod Lifecycle
pub mod Registry
mod Tests
