-- ===== src/Lib.antt =====
-- rules_typescript: the Go code of the ruleset, that is the Gazelle extension that writes BUILD files
-- from the compiler's listings, the readers it shares with the build tools, and two small tools.
--
-- The parts and how they interact. A tsconfig.json is read without its comments (ts/tools/jsonc)
-- and merged along its extends (ts/tools/tsconfig). The compiler lists a program's files and edges
-- (ts/tools/explainfiles); gazelle/listing_patch.go asks what the edges reach, and patches a
-- listing that gazelle/listing_cache.go kept from another run; gazelle/owner.go gives each listed
-- file to one package and sorts the package's sources into classes, and gazelle/npm.go turns an
-- edge into a package's label by what the pnpm lockfile (gazelle/pnpm_lock.go) says the nearest
-- importer declares. gazelle/resolve.go drops the dependencies that others supply.
-- gazelle/emission.go keeps the rules that were stored and the versions that let a registration be
-- skipped; gazelle/incremental lets a whole run be skipped. gazelle/labels.go and gazelle/keep.go
-- spell source labels and say what a merge takes away. tools/changelog and tools/lcov_merger stand
-- alone.
--
-- Which file models which part, with the functions in the source's words and in this spelling:
--   Base          texts as lists of code points with Go's strings and path functions (Base/Text,
--                 Base/GoPath), maps as association lists (Base/Map), sort.Strings (Base/Sort)
--   Jsonc         ts/tools/jsonc/jsonc.go: Strip is strip, a run of one step for each byte
--   TsConfig      ts/tools/tsconfig/tsconfig.go: resolve, override, ResolveExtends; Paths in
--                 TsConfig/Paths, the values of a chain in TsConfig/Override and TsConfig/Merged
--   ExplainFiles  ts/tools/explainfiles/explainfiles.go: a listing; Parse is a run of one step for each
--                 line in ExplainFiles/Parse and ExplainFiles/Traces, readReason and its forms
--                 are in ExplainFiles/Reasons
--   Program       gazelle/listing_patch.go: reachable, unreached
--   Patch         gazelle/listing_patch.go: patchListing, its edits in Patch/Edits and its guards in
--                 Patch/Refresh
--   ListingCache  gazelle/listing_cache.go: loadListing, listingFingerprint
--   Files         gazelle/owner.go and gazelle/generate.go: the tests on file names, target names
--   Owner         gazelle/owner.go, generate.go and manifest.go: owner, srcs, generationDisabled,
--                 nearestPackage, dataFiles (Owner/Data), findNearestManifest, packageScope
--   Npm           gazelle/pnpm_lock.go and gazelle/npm.go: Npm/Names for keys and names, Npm/Lock for
--                 the lines of the lockfile, Npm/Importers and Npm/Edges for importers and labels
--   Labels        gazelle/labels.go and gazelle/keep.go: srcLabel, attrKept, droppedAttrValues
--   Emission      gazelle/emission.go: the graph's versions and registrations; labels and aliases in
--                 Emission/Targets, export patterns in Emission/Exports, visibilities in
--                 Emission/Scope, runtime dependencies in Emission/Runtime
--   Minimize      gazelle/resolve.go: minimizeDependencies is exact_loop without a fixed supply, and
--                 minimize_loop in Minimize/Fixed with one
--   Incremental   gazelle/incremental/record.go: Unchanged, Changed, NewRecord
--   Runfiles      ts/tools/runtimeview/stage.go: ManifestEntry, ResolveNpmBindings
--   Launcher      tools/launcher/plan.go, vitest.go: parseShard, shardFiles
--   Scan          gazelle/incremental/signature.go: one round of scanJS, jsxElement and jsxChildren
--                 for each step of Scan/Steps; Specifiers and Signature in Scan/Facts
--   Proto         gazelle/proto_graph.go: loadProtoGraph, directOwners, providers, needsWrapper
--   Changelog     tools/changelog/main.go: ParseFragment, whose fenced blocks are in
--                 Changelog/Headings; Render and Splice in files of their own
--   Lcov          tools/lcov_merger/main.go: splitRecords, Key, Merge
--   Examples      the theorems at concrete inputs
--
-- How the code is modelled. A Go string is the list of its code points, a map an association list
-- whose keys are unique when it was built by insertion, a pointer that may be nil an Option, and a
-- loop with a cursor a function on the rest of its input. A range over a map visits the list's order.
-- A rule and a BUILD file are pointers in the source, so in Emission each has an identity.
--
-- Bounds and fuel. reachable takes fuel, and one round for each entry and each edge is enough; resolve
-- takes one round for each file on disk and one more, rule_target one for each rule and one more. The
-- scanner takes one for each code point of its source and one more, and the search for the owners of
-- a native target one for each node of the graph and one more.
-- The walks towards the root take the length of the directory's path, which every step shortens.
--
-- Not modelled: input and output, logging and the words of messages; decoding JSON, regular
-- expressions, and Gazelle's own labels and rules, which are parameters where they are used; the
-- caches of results within a run; the compiler, its workers and sockets; the Starlark rules and the
-- Rust compiler.
-- In minimizeDependencies, demanded package scopes and the rounds in which sourceOwner still changes
-- its answers are left out.
-- What other files of the extension answer (outputProducer, codegenWrites, metadataIdentity,
-- semanticRule, signFile, sourceOwner, programTarget) is a parameter of the definitions that ask.
pub mod Base
pub mod Changelog
pub mod Emission
pub mod Examples
pub mod ExplainFiles
pub mod Files
pub mod Incremental
pub mod Jsonc
pub mod Labels
pub mod Launcher
pub mod Lcov
pub mod ListingCache
pub mod Minimize
pub mod Npm
pub mod Owner
pub mod Patch
pub mod Program
pub mod Proto
pub mod Runfiles
pub mod Scan
pub mod TsConfig
