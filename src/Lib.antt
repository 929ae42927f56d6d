-- ===== src/Lib.antt =====
-- oh-my-document (omd) tracks ranges of documents in a store of immutable commit records, and
-- tells which of them an edit, a withdrawal or a missing dependency has made dirty.
--
-- The parts of the program that are modelled, by the file of the repository:
--
-- src/relations/range.rs, `Range`: Relations/Range, its slices of texts in Range/Slice, laws in
-- Range/Laws. A text is the list of its Unicode scalar values (Prelude/Texts); the byte offsets
-- that Rust slices by are computed from the UTF-8 lengths, and a slice at a bad offset is the
-- value `panic`.
-- src/relations/coverage.rs: Relations/Coverage. The sets of positions are lists, of which only
-- the members are asked for.
-- src/relations/diff.rs: Relations/Diff, with what an edit script promises in Diff/Script, the
-- mapping of ranges in Diff/Mapping, dirtied ranges in Diff/Dirtied and the search for moved
-- fragments in Diff/Candidates. The crate `similar` computes the script, which is a parameter:
-- its operations follow each other in both texts, and its equal blocks hold equal characters.
-- src/relations/dirty.rs: Relations/Dirty, laws in Dirty/Laws, the walk along dependencies in
-- Dirty/Reachable.
-- src/relations/node.rs: Relations/Node for keys, mounts and locations, Node/Position for ranges
-- as payload values, Node/Decimal for their decimal texts.
-- src/relations/identity.rs: Relations/Identity for references, Identity/Ancestry for commit
-- ids, the walks along ancestry and the facts derived from it; what the walks do without fuel is
-- in Identity/Walks, what they find in Identity/Roots, Identity/Prefixes, Identity/Named and
-- Identity/Resolve. Identity/Effective has
-- the effective state of ranges, and the resolution of references; Identity/Bodies is about the
-- bodies of ranges.
-- src/relations/atomic.rs: Relations/Atomic.
-- src/relations/linkhealth.rs: Relations/LinkHealth, the judgement in LinkHealth/Strata, the
-- walk to a pinned version in LinkHealth/Liveness.
-- src/records/commit.rs: Records/Commit, laws in Commit/Laws. src/records/id.rs: Records/Id, the
-- framing of the hashed bytes in Id/Framing. Records/Json holds the payload values. The canonical
-- payload, its bytes and `derive_id` are in Records/Canonical.
-- src/records/store.rs: Records/Store, the state as a record and `read_commit` over the parsed
-- records by their ids.
-- src/records/pipeline.rs, the functions on resets: Records/Reset. Reset/Dyck describes matching
-- markers, Reset/Blocks relates the walks to them, Reset/Landing is about landings and refusals,
-- Reset/Children about the children of a file, Reset/Applied about the state that a reset leaves.
-- src/records/store.rs, `publish` and `write_immutable`: Records/Publish, over a disk that holds
-- files by their paths; Publish/Atomicity and Publish/Steps are about single steps, Publish/Prepare
-- about those before the rename, Publish/Swap
-- about the whole. src/records/version.rs: Records/Version.
-- src/records/store.rs, a store in use with its context, the struct `Store`: Records/Session, with
-- the versions, the bindings (src/records/binding.rs), the registrations
-- (src/records/registration.rs), the placements and authorities of src/sources/projects.rs, and the
-- recovery of content. Session/Identity has the identity and the write authority, Session/Observe
-- `Expected::observe`, Session/Evidence the checks of `Expected`: Evidence/Current is about those of
-- the metadata, Evidence/Observed and Evidence/Fresh about those of the sources, Observe/Taken and
-- Observe/Accepted about evidence that was just taken. Session/Acquire has
-- `persist_observation`, `command_observation` and `verify_exact_git_recovery`, Session/Changes `publish_binding`,
-- `register_project` and `set_state_expected`, Changes/Copy `publish_copy_activation`, with
-- Changes/Bound, Changes/Registered and Changes/Activated about them, Session/Index `validate_identity_index`, with
-- Index/Sound.
-- src/records/pipeline.rs, the commands that write records: Records/Pipeline has what they share,
-- Pipeline/Source `commit_source`, Pipeline/Marker `commit_marker`, Pipeline/Lifecycle
-- `commit_lifecycle`, Pipeline/Links `commit_link`, `plan_xlink` and `commit_adapt`,
-- Pipeline/Journal `commit_journal`. A command answers what it hands to `publish`, or its error.
-- Pipeline/Grows and Pipeline/Sourced are about the chains of records that they build,
-- Pipeline/Log and Log/History about whole histories, Pipeline/Conflict about evidence that another
-- command has made old, Pipeline/Effects, Pipeline/Pending and Pipeline/Owed about links, their
-- pending changes, blocks and obligations.
-- src/sources/reference.rs: Sources/Reference, paths in Reference/Paths, the command-line fields
-- in Reference/Closed. Paths are those of Unix. src/sources/scope.rs, `seg_match`: Sources/Scope,
-- whose fuel is one more than the turns that its loop can take, as Scope/Segment shows; `included`
-- and `glob_match`: Scope/Included.
--
-- Parameters. Records/Crates gathers the calls of the crates `time`, `hex` and `sha2` that the
-- store and the validation of records make, `Toml` of Records/Publish those of `toml`. Resets
-- take the function that reads a record. What `require_write_authority` answers is an argument of
-- `publish`. `Env` of Records/Pipeline holds the random bytes by their draw, the formatted time, the
-- quoting of texts by `serde_json` and the texts of errors; `Gate` what `lock`,
-- `require_write_authority` and `check_expected` answer to a command, which is given the store that
-- `lock` has read; `Reader` of Pipeline/Source the crate `encoding_rs` and `normalize_descriptor`.
-- `World` of Records/Session is the machine: the lock, the placements and authorities of projects,
-- the files and git. A file that cannot be read, though it is there, is not modelled, and what git
-- prints of a remote is the one URL or a message. The debug form of a value and the text of another
-- error are left out of messages.
--
-- Numbers are natural numbers; the wrap-around of machine words is written where the code can
-- reach it. Maps and sets are lists in the order of their keys (Prelude/Maps).
--
-- Fuel. The walks of Identity/Ancestry read a stored record at most once, so one turn more than
-- there are records is enough; the fuel of Dirty/Reachable is the number of all dependencies and
-- one more. The walks that the code itself stops after about 100000 commits (resets, liveness, the
-- content that a tip selects) stop there in the model too.
--
-- A publication may be aborted at each stage, as its probe answers; a call of the file system
-- inside a stage succeeds, so a half-written file is not modelled.
--
-- Not modelled: the command line (src/main.rs) and printing, the reading of sources and the
-- programs they run (src/sources, src/difftastic.rs), the opening of a store, the
-- machine-local lists of projects, the protection of links across stores, `link_strata`, the
-- assessment of ranges and `verify`, and the float `coverage_percent`.
pub mod Prelude
pub mod Relations
pub mod Records
pub mod Sources
