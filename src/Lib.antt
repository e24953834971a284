-- ===== src/Lib.antt =====
-- proef is a declarative end-to-end test runner; this library models its sans-IO core.
--
-- Text is the list of its code points, and `BTreeMap`s and `BTreeSet`s with text keys are lists in
-- key order (Base/Texts, Base/Maps). Base/Finding states what `strip_prefix` and `find` find.
--
-- Matcher (crates/proef-core/src/matcher.rs): `tokenize`, `match_pattern`, `shed_quotes`,
-- `literal_skeleton` and, in Matcher/Problems, `pattern_problems`. Matcher/Tokens is the writing of
-- the patterns that have no unclosed brace. `tokenize` takes one round of fuel more than the text
-- has characters; each round but the last removes a brace.
-- Distance (the same file): `levenshtein` with its rolling row, and `closest`.
-- Tags (crates/proef-core/src/tags.rs): the lexer and the recursive-descent parser of `--tags`
-- expressions, their evaluation and, in Tags/Glob, `atom_matches` with the loop of `glob_at`. The
-- nesting depth is modelled as the number of levels that are left; the loops of the parser take as
-- fuel the number of tokens, and those of the glob a product of the two lengths.
--
-- Resolve (crates/proef-core/src/resolve.rs): `first_reference`, `resolve_pass`, `resolve` and
-- `unescape` for any meaning of the names. Resolve/References says without the scan which reference
-- is the first. A pass takes one round of fuel more than the text has characters; each round takes
-- three at least. Resolve/Names is `lookup` with its namespaces and modes, and `resolve` with it;
-- the printing of a float is a parameter. Distance/Suggest is `suggest_or_enumerate`, which fills
-- the messages.
-- Binding (crates/proef-core/src/bind.rs): `bind_collect` and `bind` over the macros of a `PackSet`,
-- a list in the order of the names; Binding/Reports is the diagnostics, with their messages but
-- without the source text and the editor's quick fix.
-- Pack (crates/proef-core/src/pack/mod.rs): the macros and `find_use_target`. Pack/Visit and
-- Pack/Uses (crates/proef-core/src/pack/validate.rs) are `visit_uses` and `use_graph_passes`. The
-- loop over the frames takes as fuel the number of frames that can still be put on the work, one for
-- each macro without a color and one for each of its targets; each turn of the loop takes one off. A
-- diagnostic is the names that it shows.
-- Lowering (crates/proef-core/src/lower.rs): `segment`, whose last batch is an argument of the loop,
-- since only that one still grows; Lowering/Reported is its composition with `run_scenario`.
-- Lowering/Expansion is `expand_macro` with its depth as the number of levels that are left; what
-- the leaves of the expansion emit is the record Leaves. Lowering/Binds is the bindings in scope of
-- a `ref:` step, where resolving a text is a parameter, as it is in Leaves. Lowering/Options is the
-- check for secrets in bound values and the quoting of their option lines.
-- Artifact (crates/proef-core/src/emit.rs): `artifact_slug` of a path whose extension is taken off,
-- with Unicode's letter tables as the record Casing; Artifact/Tags is about the names that are cut.
-- Fingerprint (crates/proef-core/src/fingerprint.rs): the length-delimited buffer and its two FNV-1a
-- hashes in hexadecimal digits.
-- Fake (crates/proef-core/src/fake.rs): the generators of `${fake:*}` over SplitMix64, whose state
-- is passed on; Fake/Shapes says what each generator promises. A `usize` has 64 bits.
-- Shards (crates/proef-cli/src/timings.rs and exec.rs): the balanced split `assign`, `shard_bucket`
-- and the filter of `--shard`; Shards/Shuffle is `shuffle_specs` and Shards/Argument `parse_shard`
-- of crates/proef-cli/src/main.rs. The vectors `load` and `taken` are one list of pairs, the map
-- that `assign` returns a list of its insertions, the latest first.
-- Records (crates/proef-cli/src/record.rs): `parse_record` as a fold over the events of
-- crates/proef-core/src/event.rs (Records/Events), and in Records/Rerun `rerun_candidates` and
-- `RerunFilter`; Records/Carried is `carried_outcomes`. Records/Diff (crates/proef-cli/src/diff.rs)
-- is `Report::compute` and the exit code of `diff` for records that could be read; a line of the
-- report is the data that it shows. Maps with composite keys are lists in key order (Base/Keyed).
-- Records/Sla (crates/proef-cli/src/sla.rs) is the latency budget. Records/Flaky
-- (crates/proef-cli/src/flaky.rs) folds the records into histories and verdicts; whether a run is an
-- outage, which the code decides with a float, is a parameter.
-- Redaction (crates/proef-core/src/report.rs): `Redactions`, whose list of needles is an argument;
-- the deriving and sorting of the needles is not modelled. `taints` is shared with World.
-- World (crates/proef-core/src/world.rs): the scopes, the promotion gate and the write set, with the
-- end of `run_scenario` that merges it back. The needles that `guard_secrets` derives are an
-- argument, a float is a parameter.
-- Runner (crates/proef-core/src/runner.rs): Runner/Exit is the exit code of a run; Runner/Gate is
-- `RecordGate`, whose operations hold one lock, so that the threads make a sequence of calls.
-- Runner/Pool and Runner/Pool/Dispatch are the dispatch loop of `run` with `sweep_expired`: a list
-- of turns says what the clock, the cancellation token and the channel do, and takes the place of
-- fuel; a run whose list ends early is `again`. An instant is a number without an upper bound, so
-- that an overflow of a deadline is not modelled. Runner/Scenario and Runner/Scenario/Life are
-- `run_scenario`, with the engines as a parameter; its budgets, which only move the dispatcher's
-- deadlines, are the messages `batch_begin` there.
--
-- Not modelled: the rendering of messages outside Binding and Distance, the case-insensitive
-- completion ranks, the expansion of outlines, the loading of packs and their other validation
-- passes, the reports in HTML and JUnit, and what reads or writes files, starts processes or speaks
-- HTTP.
pub mod Base
pub mod Fingerprint
pub mod Matcher
pub mod Binding
pub mod Distance
pub mod Pack
pub mod Lowering
pub mod Tags
pub mod Redaction
pub mod World
pub mod Resolve
pub mod Runner
pub mod Fake
pub mod Artifact
pub mod Shards
pub mod Records
