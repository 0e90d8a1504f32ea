-- ===== src/Lib.antt =====
-- Verification library of zhi.
--
-- zhi is a configuration tool: an engine (internal/core) drives config, transform, store and ui
-- plugins over a workspace. A configuration tree (pkg/zhiplugin/config) maps slash-delimited paths
-- to values; components of the workspace claim parts of it by path prefixes, and FilterTree drops
-- the paths of disabled components before an export.
--
-- Common: what the parts share. Go strings are lists of bytes, a Go map is an association list
-- in the order of insertion, `(value, error)` is Result, and a loop that may fail is for_each.
--
-- Component: internal/core/component.go.
--   Paths: prefixOverlaps, pathHasPrefix. Manager: the state and the methods that only read it.
--   Cycles: detectCycles. Setup: NewComponentManager, checkOverlappingPaths.
--   Enable: Enable, EnableWithReport. Disable: Disable, DisableCascade, transitiveDependents.
--   Filter: FilterTree. Saving: theorems on LoadState, SaveState and ValidateDependencies.
--   Definitions, which copies the list, is not modelled.
-- The recursion over components has a fuel of the number of definitions plus one: each level turns
-- a component on or off or marks it. The queue of detectCycles has the seeds, the edges and one as
-- its fuel. `none` stands for a run that gets no result, also for a nil definition.
-- The order in which Go walks over the keys of a map is the argument `iterate`.
--
-- Config: pkg/zhiplugin/config.
--   Path: ValidatePath and pathSegment (config.go). Pattern: the language that they accept.
--   Tree: Value, Tree and its reader (config.go); the type of values and the calls of validators
--   are arguments. Writes through the pointer of GetPtr and the locks are not modelled.
--   Merged: MergedPlugin and its methods (compose.go); a child plugin is a record of functions on a
--   state of its own. The listings that the source makes in parallel are taken in order.
--
-- Diff: internal/core/diff.go.
--   Script: lcsMatrix and backtrack. Hunks: computeHunks. Export: DiffExport, formatNewFileDiff and
--   unifiedDiff; what os.ReadFile returns is an argument. Matrix, Replay, Edits, Ends, Headers,
--   Changes: the theorems. The loops have as fuel the number of lines
--   of both files, or of edits, plus one: each round moves an index.
--
-- Session: internal/core/session.go.
--   Manager: the methods of SessionManager on the session. History: sequences of calls.
--   What the store returns, the time parser, new identifiers and the time now are arguments. Each
--   method is one step; LoginInteractiveCallback does what Login does.
--
-- Numeric: internal/core/numeric.go.
--   Convert: tryNumericConvert and what it calls, for an int and a uint of 64 bits; what the source
--   asks of float64 is an argument. Lossless: which conversions between integers keep the number.
--   TryConvert: TryConvert of pkg/zhiplugin/config/convert.go. Converted: what it does to integers.
--
-- Drift: internal/core/drift.go.
--   Check: CheckDrift and what it calls. Found: what the check of exported files finds. The rendering
--   of an export and the preparation of the tree data are arguments.
--
-- Policy: pkg/sharing/verify/policy.go.
--   Blocked: IsBlocked and matchesSegments. Rules: the tests of publishers, registries and the level,
--   with extractRegistryHost of verify.go. Registries: the theorem on them.
--   The YAML files and signatures are not modelled.
--
-- Store: pkg/zhiplugin/store, pkg/providers/store/jsonfile and examples/zhi-store-memory/main.go.
--   Types, Plugin: the types, the errors and the interface; a plugin is a record of functions on its
--   state, and a call is a method with its arguments. Mirrored: the mirrored plugin of compose.go.
--   Contract: what a store promises of its values. Memory, Values, Storing: the memory store, and that
--   it keeps the contract. Disk, Json, Writing, Entries, JsonView, JsonMethods, JsonStoring: the file
--   store of pkg/providers/store/jsonfile, over a disk on which any call may fail. InSync, Refines: the
--   mirrored plugin against its primary. Mirrors are written in order, where the source writes them in
--   parallel: each has a state of its own.
--
-- Engine: internal/core/engine.go.
--   State: the engine, and what it does to a value. Load: LoadTree, LoadStoredTree, GetTreeVersion and
--   FilteredTree. Store: the other methods. Taken: what LoadTree should make of stored values.
--   Steps, Semantic, Merging, Loading, Saved: the theorems, over any store that keeps the contract.
--   The config plugin is a record of functions on its state, and sha256 with the
--   hexadecimal coding an argument. Apply: the apply targets of internal/core/workspace.go,
--   BuildApplyRunConfig and the transforms. NewEngine and extractStoreAuth are not modelled.
--
-- Sharing: pkg/sharing/client/ref.go and pkg/sharing/lockfile/lockfile.go.
--   Reference, Cutting, Parsed: references to artifacts, printed and parsed.
--   LockFile, Locked: lock files and their validation. The YAML coding is not modelled.
--
-- Mirror: cmd/zhi-mirror/server/policy.go.
--   Rules, Checked: the pull policy of the mirror. Its HTTP server and its storage are not modelled.
--
-- Not modelled: the gRPC transport, the Vault provider, plugin discovery, the export, the marketplace and
-- mirror servers, and the command line and terminal interfaces, which are mostly input and output.
pub mod Common
pub mod Component
pub mod Config
pub mod Diff
pub mod Session
pub mod Numeric
pub mod Drift
pub mod Policy
pub mod Store
pub mod Engine
pub mod Sharing
pub mod Mirror
