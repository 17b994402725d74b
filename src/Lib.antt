-- ===== src/Lib.antt =====
-- curator-run, the launcher of curator-agent-launcher, modelled and verified.
--
-- The program composes a managed environment and starts a tool, natively or through a session
-- manager. This library models the parts that decide: what a command line asks for, which
-- untrusted bytes of the member protocol are accepted and what they mean, which native arguments a
-- filtering gateway lets pass to the tool, which route a request takes through the session manager
-- and what the manager must offer for it, and which changes of the record of a workplace are
-- committed. In the program a command line names the environment and carries the native arguments;
-- the route decision reads the parsed request and the manager's description; the decoder stands
-- between the member processes and everything that reads their records.
--
-- Files and the code they are about (paths from the repository's root):
--   Base, Base/*           Shared names, tests on numbers and texts, lists, and the results of loops.
--   Cli, Cli/*             internal/cli/cli.go and gateway_recover.go: Parse (parse and parse_loop), one
--                          round of its loop (step), the flags (on_flag) and their values (set).
--   Cli/Manager            internal/cli/session_manager.go: parseSessionManager, with ValidID of
--                          internal/sessionmanager/registry.go.
--   Cli/Station            internal/werkstattcommand/command.go: ParseCommand.
--   Defaults, Defaults/*   internal/defaults/defaults.go: parse behind ParseJSON (parse_root), Resolve,
--                          PermissionDefault and ResolveHost.
--   Execution, Execution/* internal/execution/permission.go: ResolvePermission.
--   Fragment/Value         internal/fragment/json.go: the JSON values; fragment.go: HomeVariable.
--   Fragment/Quoted, Fragment/Reader
--                          internal/fragment/json.go: ParseJSON (parse_json), the strict reader.
--   Fragment/Canonical     internal/fragment/ccj1.go: Canonical and appendCanonical.
--   Fragment/Rules, Channels, Sections, Policy, Services, Document
--                          internal/fragment/fragment.go, v4.go and launch.go: the checks on texts and
--                          objects, the channels and their registry, the sections of fromValue,
--                          v4Policy, and Parse, CheckLaunchRevision and legacyMuseUpgrade.
--   MemberWire/*           internal/memberwire/lex.go and decode.go, the strict decoder of
--                          member-protocol bytes: Number (numberToken), Quoted (hexQuad and
--                          stringToken), Tokens (tokenize), Grammar (grammar), Build (buildValue),
--                          Decode (parseObject and decode). Json holds the values, their token lists
--                          and the faults of a value; Runes the encoding of a rune.
--   MemberWire/Shapes      internal/memberwire/schema.go: the predicates of the record shapes (closed,
--                          is, integer, lowerHex, name, reference).
--   MemberWire/Descriptor  internal/memberwire/descriptor.go: ParseDescriptorArgs.
--   MemberWire/Requests, Compatibility, Lifecycle, Snapshots, Outcomes, Bindings
--                          internal/memberwire/schema.go, compatibility.go, lifecycle.go (two files),
--                          outcomes.go and bindings.go: the shape of every record, and its decoder.
--   SessionManager/Routes  internal/sessionmanager/client/capabilities.go, Required: the routes, the
--                          capabilities and operations that a request needs, and the refusals.
--   SessionManager/Store   internal/sessionmanager/client/store_unix.go, compareAndSwap, and
--                          store_edit_unix.go, edit, EditDispatch and Rebind: the transactions on the
--                          liveness record of a workplace.
--   SessionManager/Pending internal/sessionmanager/client/store_unix.go: Pending, WritePending and
--                          clearTerminal.
--   SessionManager/HomeLease
--                          internal/sessionmanager/client/homelease_unix.go: Allocation, and Acquire
--                          behind the call of the lease tool.
--   SessionManager/LeaseJournal
--                          internal/sessionmanager/client/lease_journal_unix.go: updateLease,
--                          settleLease and validateLeaseCorrelation.
--   SessionManager/Abandon internal/sessionmanager/client/store_edit_unix.go: Abandon.
--   SessionManager/Reconciler, SessionManager/Reconciler/*
--                          internal/sessionmanager/client/reconcile_unix.go: Submit, Recover,
--                          recoverOwned, finish and ReconcilePlain, over the replies of a manager.
--   Tried                  The value-and-error results of Go.
--   NativeArgs             internal/network/native_args.go: the tables of words and options of the
--                          tool, and both loops of nativeArgsConflict.
--   Examples/*             Tests by evaluation, and each theorem at a concrete input.
--
-- How the code is modelled. Bytes are numbers below 256, positions are the remaining input, and an
-- out-of-range read or a failed type assertion is a result of its own (panicked, panic). Loops
-- recur on the input where each round takes a part of it; tokenize and buildValue, whose rounds
-- take an unknown part, recur on fuel, and get one more than the length of their input; a round
-- takes at least one byte, or one token, so the fuel never runs out, which is proved. Numbers of
-- the decoder are at most 2^53 - 1, and it checks this before each step, so the 64-bit arithmetic
-- of the code does not wrap. The reader of fragments takes twice
-- its bytes and one more as fuel, since each call behind a bracket, a comma or a colon costs a unit
-- and each takes a byte; that this is enough is proved too. The loop over a command line recurs on
-- the tokens. Maps of which only
-- the entries matter are association lists. A refusal keeps its code and its details, and the text
-- of a message is not spelled out. In the store, a transaction is a function of the record that
-- was read and returns the record that it commits; an int64 is its residue modulo 2 ^ 64; whether
-- a record meets the published JSON schema, whether a lease belongs to its request, and whether a
-- file can be replaced, removed or synchronised are parameters. In the reconciler the manager is
-- the list of its replies before the deadline, the end of the list is the deadline, and what an
-- operation with a lease goes through is a parameter. Records of the store stand for what their JSON
-- says; neither the bytes of the files nor their decoding are modelled.
--
-- Not modelled: the invocation that Parse returns beside an error, the digest of a decoded record
-- (crypto/sha256), the reading of a request into the arguments of the route decision, the lock of
-- the store, the flows over the journal of the leases (SubmitLeased, runLeased), the composition of
-- an environment (the subprocess that prints a fragment included), the network policy, the gateway,
-- and the parts of the program that are files, locks, processes and HTTP calls.
pub mod Base
pub mod Cli
pub mod Defaults
pub mod Examples
pub mod Execution
pub mod Fragment
pub mod MemberWire
pub mod NativeArgs
pub mod SessionManager
pub mod Tried
