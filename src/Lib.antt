-- ===== src/Lib.antt =====
-- gnoci: git-remote-oci, a Git remote helper that keeps a Git repository in an OCI registry.
--
-- Git talks to the helper by lines. The action (internal/actions/run_git.go) looks at the next
-- command and runs its handler (internal/cmd). The handlers read requests and write responses with a
-- communicator (pkg/protocol/git/comms), which parses and prints the types of pkg/protocol/git. The
-- repository in the registry is a manifest whose layers are packfiles and a config that maps each
-- branch and tag to a commit and the layer that holds it; the modeler (internal/model) fetches,
-- changes and pushes both, and takes the LFS manifest that refers to them along. The push handler
-- asks the comparer (internal/refcomp) what each request needs.
--
-- git-lfs starts a second program for the files of one upload or download, and talks to it by lines
-- of JSON (pkg/protocol/lfs). Its action (internal/actions/run_git_lfs.go) answers the request to
-- start, moves one file per request with the modeler, writes a message for each tick of a progress
-- ticker (internal/progress), and pushes the LFS manifest at the end of an upload. Both actions
-- connect to the registry in the same way (internal/actions/init.go, internal/ociutil), over a
-- transport that logs the requests without their secrets (internal/logutil).
--
-- Files:
--   Base, Outcome: shared names; texts as lists of code points, Go's strings functions, maps as
--     association lists; errors, results, and methods as functions on the state of their object
--     (Outcome.Effects), with a rule per combinator for the predicates that a method keeps
--     (Outcome.Keeps).
--   Plumbing, Oci: go-git and oras as parameters, and pkg/oci/types.go.
--   Protocol: pkg/protocol/git, one file per request: Parse is parse_..., String is ..._text.
--   Comms: pkg/protocol/git/comms/comms.go: LookAhead is look_ahead, Parse...RequestBatch is
--     receive_..._batch, Write...Response is write_..._response. Comms.Reverse:
--     internal/testutils/revcomms.go, the other side of the protocol.
--   Pipe: what one side writes, as the lines that the other side scans.
--   Model: internal/model/modeler.go: the fields of `model` are the record Modeler, and the methods
--     that do not talk to the registry are functions on it. Model.Session adds the states of the
--     registry and of the file store, with Fetch, FetchOrDefault, Push and AddPack; Model.Layers has
--     the reading of packfiles, Model.Lfs internal/model/modeler_lfs.go and referrers.go, and
--     Model.Refine the references as a map from names.
--   Refcomp: internal/refcomp/refcompare.go: Compare is compare_cached, compare is compare.
--   Cmd: internal/cmd: HandlePush is handle_push (Cmd.Push), compareRefs is compare_refs
--     (Cmd.Compare), HandleList, HandleFetch, HandleOption and HandleCapabilities likewise.
--   Connect: internal/ociutil/remote.go, internal/actions/init.go and repoOptsFromConfig; HttpClient
--     has the parts of the HTTP client that newHTTPClientWithOps puts together.
--   HttpLog: internal/logutil/httplog.go: RoundTrip is round_trip, redactHTTPHeaders and redactURL are
--     redact_http_headers and redact_url; HttpLog.Memory has the objects behind pointers.
--   Transfer: pkg/protocol/lfs/types.go: Validate is validate_...; Transfer.Wire:
--     pkg/protocol/lfs/comms/comms.go; Transfer.Reverse: internal/testutils/revcomms_lfs.go, the other
--     side of the protocol.
--   Progress: internal/progress: the reader, and the ticker with its steps.
--   Actions.Git: internal/actions/run_git.go: Run is run_git (Actions.Git.Start), its loop is run;
--     handleCmd is handle_cmd.
--   Actions.GitLfs: internal/actions/run_git_lfs.go: init and resolveAddress in Setup, runUpload,
--     runDownload and what they call in Transfers, Run in Serve.
--   Tests: a small repository and registry, and each theorem at an input.
--
-- A method that fails keeps the changes made before the failure, as the code does. A panic of the
-- runtime is the result `crash`. The errors of Go keep what they wrap, so that errors.Is is a
-- function on them. Calls of go-git, of oras, of encoding/json and of the file system are parameters;
-- what a theorem needs of them is a hypothesis with a name, such as Model.Session.Atomic.IsRegistry.
--
-- Fuel: batch_loop, run_loop, run_upload and run_download have one unit more than there are lines left
-- in the input. Each of their rounds but the last reads a line.
--
-- Modelled with less than the code has: the uploads of Push, which run in a pool, run in the order of
-- the slice, and all of them run, as the pool does; a range over a map is in the order of the list;
-- a digest or a time is a text; a value that Go returns beside an error is dropped; log output is
-- left out, but for the level that an option sets and the log of HTTP; the messages that a progress
-- ticker sends during a transfer are a parameter of the LFS action, which cannot end if its ticker was
-- not started, and Progress has the ticker alone.
--
-- Not modelled: the command line, the interface over go-git (internal/git), generated code, and the
-- mocks and the build, which are not part of the programs.
pub mod Base
pub mod Outcome
pub mod Plumbing
pub mod Protocol
pub mod Comms
pub mod Oci
pub mod Model
pub mod Refcomp
pub mod Cmd
pub mod Connect
pub mod Pipe
pub mod HttpClient
pub mod HttpLog
pub mod Transfer
pub mod Progress
pub mod Actions
mod Tests
