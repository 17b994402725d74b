-- ===== src/MemberWire/Snapshots.antt =====
-- internal/memberwire/lifecycle.go: the shapes of the snapshots of an invocation, of its head and of a
-- cancellation.
pub mod Phases
use curator_agent_launcher.MemberWire.Lifecycle.{
  lifecycle_error_valid, scope_valid, writer_valid, source_error_valid, lifecycle_signal,
}
use curator_agent_launcher.MemberWire.Decode.{Outcome, UntrustedRecord, decode}
use curator_agent_launcher.Base.{
  ℕ, ◌*◌, Bytes, Bool, true, false, ◌&&◌, not, [], ◌∷◌, if◌then◌else◌, String,
}
use curator_agent_launcher.MemberWire.Json.{Value, Members}
use curator_agent_launcher.MemberWire.Shapes.{
  at, closed, fields, is_nil, equals, one_of, integer, id, digest, optional, reference,
}
use curator_agent_launcher.MemberWire.Requests.{identity}
use curator_agent_launcher.MemberWire.Number.{safe_integer}

unfoldable pub native_valid : Value → Bool
native_valid v =
    let o = fields v in
    if one_of (at o "status") ("not_started" ∷ "running" ∷ "unknown" ∷ [])
    then closed o ("status" ∷ [])
    else if equals (at o "status") "exit"
    then closed o ("status" ∷ "code" ∷ "evidence" ∷ [])
      && integer (at o "code") 0 255
      && reference (at o "evidence")
    else if equals (at o "status") "signal"
    then closed o ("status" ∷ "number" ∷ "name" ∷ "core_dumped" ∷ "evidence" ∷ [])
      && lifecycle_signal o
      && reference (at o "evidence")
    else false

unfoldable pub start_valid : Value → Bool
start_valid v =
    let o = fields v in
    if one_of (at o "status") ("not_attempted" ∷ "attempted_unknown" ∷ [])
    then closed o ("status" ∷ [])
    else if one_of (at o "status") ("spawned" ∷ "exec_confirmed" ∷ [])
    then closed o ("status" ∷ "process_incarnation_sha256" ∷ [])
      && digest (at o "process_incarnation_sha256")
    else if equals (at o "status") "spawn_failed"
    then closed o ("status" ∷ "os_error" ∷ []) && source_error_valid (at o "os_error")
    else false

unfoldable pub cleanup_valid : Value → Bool
cleanup_valid v =
    let o = fields v in
    if one_of (at o "status") ("not_started" ∷ "pending" ∷ "unknown" ∷ [])
    then closed o ("status" ∷ [])
    else if equals (at o "status") "failed"
    then closed o ("status" ∷ "evidence" ∷ []) && optional reference (at o "evidence")
    else if equals (at o "status") "confirmed_absent"
    then closed o ("status" ∷ "evidence" ∷ []) && reference (at o "evidence")
    else false

unfoldable pub allocation_valid : Value → Bool
allocation_valid v =
    let o = fields v in
    if equals (at o "status") "not_requested"
    then closed o ("status" ∷ [])
    else if one_of (at o "status") ("intent" ∷ "known" ∷ "unknown" ∷ [])
    then closed o ("status" ∷ "allocation_id" ∷ []) && id (at o "allocation_id")
    else false

unfoldable pub stop_valid : Value → Bool
stop_valid v =
    let o = fields v in
    closed o (
      "stop_id" ∷ "reason" ∷ "boot_sha256" ∷ "begun_ms" ∷ "term_deadline_ms" ∷ "kill_deadline_ms"
      ∷ "term_action_id" ∷ "kill_action_id" ∷ "stage" ∷ [])
    && id (at o "stop_id")
    && one_of (at o "reason") (
        "controller_request" ∷ "deadline" ∷ "controller_lost" ∷ "supervisor_signal"
        ∷ "descendants_remaining" ∷ "overflow" ∷ [])
    && digest (at o "boot_sha256")
    && integer (at o "begun_ms") 0 safe_integer
    && integer (at o "term_deadline_ms") 1 safe_integer
    && integer (at o "kill_deadline_ms") 1 safe_integer
    && id (at o "term_action_id")
    && id (at o "kill_action_id")
    && one_of (at o "stage") (
        "term_intent" ∷ "term_observe" ∷ "kill_intent" ∷ "kill_observe" ∷ "complete" ∷ "unknown"
        ∷ [])

unfoldable pub cancel_valid : Members → Bool
cancel_valid o =
    closed o ("kind" ∷ "invocation_id" ∷ "cancel_id" ∷ "source" ∷ "requested_at_ms" ∷ [])
    && one_of (at o "kind") ("curator-run member-cancel/1" ∷ [])
    && id (at o "invocation_id")
    && id (at o "cancel_id")
    && one_of (at o "source")
        ("controller_request" ∷ "deadline" ∷ "controller_lost" ∷ "supervisor_signal" ∷ [])
    && integer (at o "requested_at_ms") 1 safe_integer

unfoldable pub head_valid : Members → Bool
head_valid o =
    closed o ("kind" ∷ "invocation_id" ∷ "generation" ∷ "snapshot" ∷ [])
    && one_of (at o "kind") ("curator-run member-head/1" ∷ [])
    && id (at o "invocation_id")
    && integer (at o "generation") 1 256
    && reference (at o "snapshot")

-- The statuses that the phase is checked against.
abbrev pub status_of : Members → String → Value
status_of o key = at (fields (at o key)) "status"

-- `a == b` on Booleans.
abbrev pub xnor : Bool → Bool → Bool
xnor a true = a
xnor a false = not a

unfoldable pub allocation_phase_valid : Bool → Members → Bool
allocation_phase_valid allocated o =
    equals (status_of o "allocation") (if allocated then "known" else "intent")
    && xnor (not (is_nil (at o "scope"))) allocated
    && equals (status_of o "start") "not_attempted"
    && equals (status_of o "native") "not_started"
    && equals (status_of o "cleanup") "pending"
    && is_nil (at o "result")
    && is_nil (at o "stop")
    && equals (at o "gate") "not_created"

-- The published conditionals of the phases.
unfoldable pub phase_valid : Members → Bool
phase_valid o =
    if equals (at o "phase") "admitted"
    then equals (status_of o "start") "not_attempted"
      && equals (status_of o "native") "not_started"
      && equals (status_of o "cleanup") "not_started"
      && is_nil (at o "scope")
      && is_nil (at o "result")
      && equals (status_of o "allocation") "not_requested"
    else if one_of (at o "phase") ("allocating" ∷ "allocated" ∷ [])
    then allocation_phase_valid (equals (at o "phase") "allocated") o
    else if equals (at o "phase") "start_intent"
    then equals (status_of o "start") "attempted_unknown"
      && equals (status_of o "native") "unknown"
      && not (is_nil (at o "scope"))
      && equals (status_of o "cleanup") "pending"
      && is_nil (at o "result")
    else if equals (at o "phase") "spawned"
    then equals (status_of o "start") "spawned"
      && equals (status_of o "native") "unknown"
      && not (is_nil (at o "scope"))
      && equals (status_of o "cleanup") "pending"
      && is_nil (at o "result")
    else if equals (at o "phase") "running"
    then equals (status_of o "start") "exec_confirmed"
      && equals (status_of o "native") "running"
      && not (is_nil (at o "scope"))
      && equals (status_of o "cleanup") "pending"
      && is_nil (at o "result")
    else if equals (at o "phase") "stopping"
    then not (is_nil (at o "stop")) && is_nil (at o "result")
    else if equals (at o "phase") "terminal"
    then one_of (status_of o "native") ("not_started" ∷ "exit" ∷ "signal" ∷ [])
      && one_of (status_of o "cleanup") ("not_started" ∷ "confirmed_absent" ∷ [])
      && not (is_nil (at o "result"))
    else equals (at o "phase") "uncertain"

unfoldable pub snapshot_valid : Members → Bool
snapshot_valid o =
    closed o (
      "kind" ∷ "store_id" ∷ "identity" ∷ "request_sha256" ∷ "tuple_sha256" ∷ "authorization_sha256"
      ∷ "generation" ∷ "phase" ∷ "writer" ∷ "scope" ∷ "boot_sha256" ∷ "deadline_monotonic_ms"
      ∷ "start" ∷ "native" ∷ "cleanup" ∷ "result" ∷ "error" ∷ "allocation" ∷ "gate" ∷ "stop" ∷ [])
    && one_of (at o "kind") ("curator-run member-snapshot/1" ∷ [])
    && id (at o "store_id")
    && identity (at o "identity")
    && digest (at o "request_sha256")
    && digest (at o "tuple_sha256")
    && digest (at o "authorization_sha256")
    && integer (at o "generation") 1 256
    && writer_valid (at o "writer")
    && optional scope_valid (at o "scope")
    && digest (at o "boot_sha256")
    && integer (at o "deadline_monotonic_ms") 1 safe_integer
    && start_valid (at o "start")
    && native_valid (at o "native")
    && cleanup_valid (at o "cleanup")
    && optional reference (at o "result")
    && optional lifecycle_error_valid (at o "error")
    && allocation_valid (at o "allocation")
    && one_of (at o "gate")
        ("not_created" ∷ "held" ∷ "release_intent" ∷ "released_or_unknown" ∷ "closed" ∷ [])
    && optional stop_valid (at o "stop")
    && phase_valid o

abbrev pub snapshot_limit : ℕ
snapshot_limit = 16 * 1024

unfoldable pub decode_snapshot : Bytes → Outcome UntrustedRecord
decode_snapshot raw = decode raw snapshot_limit snapshot_valid

abbrev pub head_limit : ℕ
head_limit = 16 * 1024

unfoldable pub decode_head : Bytes → Outcome UntrustedRecord
decode_head raw = decode raw head_limit head_valid

abbrev pub cancel_limit : ℕ
cancel_limit = 4 * 1024

unfoldable pub decode_cancel : Bytes → Outcome UntrustedRecord
decode_cancel raw = decode raw cancel_limit cancel_valid
