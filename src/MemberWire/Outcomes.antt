-- ===== src/MemberWire/Outcomes.antt =====
-- internal/memberwire/outcomes.go: the shapes of the results, responses and marks of consumption.
pub mod Exclusive
use curator_agent_launcher.MemberWire.Snapshots.{native_valid, cleanup_valid}
use curator_agent_launcher.MemberWire.Decode.{Outcome, UntrustedRecord, decode}
use curator_agent_launcher.Base.{
  ℕ, ◌*◌, Bytes, Bool, false, ◌&&◌, ◌||◌, not, [], ◌∷◌, if◌then◌else◌,
}
use curator_agent_launcher.MemberWire.Json.{Value, Members}
use curator_agent_launcher.MemberWire.Shapes.{
  at, closed, fields, is_nil, equals, one_of, integer, id, digest, list_of, optional,
  lifecycle_bool, reference,
}
use curator_agent_launcher.MemberWire.Requests.{identity}
use curator_agent_launcher.MemberWire.Lifecycle.{
  writer_valid, scope_valid, lifecycle_error_valid, arguments,
}

unfoldable pub stream_valid : Value → Bool
stream_valid v =
    let o = fields v in
    closed o ("length" ∷ "sha256" ∷ "truncated" ∷ [])
    && integer (at o "length") 0 1048576
    && digest (at o "sha256")
    && lifecycle_bool (at o "truncated")

unfoldable pub result_valid : Members → Bool
result_valid o =
    closed o (
      "kind" ∷ "store_id" ∷ "identity" ∷ "request_sha256" ∷ "tuple_sha256" ∷ "writer" ∷ "scope"
      ∷ "actual_tuple" ∷ "argv" ∷ "native" ∷ "cleanup" ∷ "cancel" ∷ "worker_output" ∷ "outputs"
      ∷ "stdout" ∷ "stderr" ∷ "error" ∷ "final_generation" ∷ [])
    && one_of (at o "kind") ("curator-run member-result/1" ∷ [])
    && id (at o "store_id")
    && identity (at o "identity")
    && digest (at o "request_sha256")
    && digest (at o "tuple_sha256")
    && writer_valid (at o "writer")
    && optional scope_valid (at o "scope")
    && optional reference (at o "actual_tuple")
    && arguments (at o "argv")
    && native_valid (at o "native")
    && cleanup_valid (at o "cleanup")
    && optional reference (at o "cancel")
    && one_of (at o "worker_output")
        ("complete" ∷ "missing" ∷ "partial" ∷ "invalid" ∷ "overflow" ∷ [])
    && stream_valid (at o "stdout")
    && stream_valid (at o "stderr")
    && optional lifecycle_error_valid (at o "error")
    && integer (at o "final_generation") 1 256
    && list_of reference 0 128 (at o "outputs")

unfoldable pub replay_valid : Value → Bool
replay_valid v =
    let o = fields v in
    closed o (
      "kind" ∷ "key" ∷ "classification" ∷ "original_request_sha256" ∷ "current_request_sha256"
      ∷ "original_result_sha256" ∷ [])
    && one_of (at o "kind") ("curator-run member-replay/1" ∷ [])
    && one_of (at o "key") ("invocation" ∷ "cancel" ∷ "effect" ∷ "none" ∷ [])
    && one_of (at o "classification") ("new" ∷ "identical" ∷ "conflict" ∷ "none" ∷ [])
    && optional digest (at o "original_request_sha256")
    && optional digest (at o "current_request_sha256")
    && optional digest (at o "original_result_sha256")

-- The published conditionals of the outcomes.
unfoldable pub outcome_valid : Members → Bool
outcome_valid o =
    if one_of (at o "outcome") ("refused" ∷ "conflict" ∷ [])
    then not (is_nil (at o "error"))
      && is_nil (at o "result")
      && is_nil (at o "reservation")
      && is_nil (at o "ack")
    else if equals (at o "outcome") "snapshot"
    then not (is_nil (at o "snapshot"))
      && is_nil (at o "result")
      && is_nil (at o "error")
      && is_nil (at o "reservation")
      && is_nil (at o "ack")
    else if equals (at o "outcome") "result"
    then not (is_nil (at o "result"))
      && not (is_nil (at o "snapshot"))
      && is_nil (at o "error")
      && is_nil (at o "reservation")
      && is_nil (at o "ack")
    else if equals (at o "outcome") "consumption"
    then not (is_nil (at o "reservation"))
      && not (is_nil (at o "result"))
      && not (is_nil (at o "snapshot"))
      && is_nil (at o "error")
    else false

unfoldable pub response_valid : Members → Bool
response_valid o =
    closed o (
      "kind" ∷ "request_id" ∷ "request_sha256" ∷ "operation" ∷ "outcome" ∷ "snapshot" ∷ "result"
      ∷ "reservation" ∷ "ack" ∷ "error" ∷ "replay" ∷ [])
    && one_of (at o "kind") ("curator-run member-response/1" ∷ [])
    && optional id (at o "request_id")
    && optional digest (at o "request_sha256")
    && (is_nil (at o "operation")
        || one_of (at o "operation")
            ("submit" ∷ "inspect" ∷ "cancel" ∷ "reconcile" ∷ "consume" ∷ []))
    && optional lifecycle_error_valid (at o "error")
    && replay_valid (at o "replay")
    && optional reference (at o "snapshot")
    && optional reference (at o "result")
    && optional reference (at o "reservation")
    && optional reference (at o "ack")
    && outcome_valid o

unfoldable pub reservation_valid : Members → Bool
reservation_valid o =
    closed o (
      "kind" ∷ "store_id" ∷ "assignment_id" ∷ "invocation_id" ∷ "consumer_id" ∷ "effect_id"
      ∷ "result_sha256" ∷ "assignment_sha256" ∷ "attempt_ordinal" ∷ [])
    && one_of (at o "kind") ("curator-run member-reservation/1" ∷ [])
    && id (at o "store_id")
    && id (at o "assignment_id")
    && id (at o "invocation_id")
    && id (at o "consumer_id")
    && id (at o "effect_id")
    && digest (at o "result_sha256")
    && digest (at o "assignment_sha256")
    && integer (at o "attempt_ordinal") 1 256

unfoldable pub ack_valid : Members → Bool
ack_valid o =
    closed o ("kind" ∷ "reservation_sha256" ∷ "receipt" ∷ [])
    && one_of (at o "kind") ("curator-run member-ack/1" ∷ [])
    && digest (at o "reservation_sha256")
    && reference (at o "receipt")

unfoldable pub conflict_valid : Members → Bool
conflict_valid o =
    closed o (
      "kind" ∷ "store_id" ∷ "invocation_id" ∷ "category" ∷ "original_sha256" ∷ "conflicting_sha256"
      ∷ "writer" ∷ [])
    && one_of (at o "kind") ("curator-run member-conflict/1" ∷ [])
    && id (at o "store_id")
    && id (at o "invocation_id")
    && one_of (at o "category")
        ("request" ∷ "result" ∷ "cancel" ∷ "consumption" ∷ "observation" ∷ "assignment" ∷ [])
    && digest (at o "original_sha256")
    && digest (at o "conflicting_sha256")
    && writer_valid (at o "writer")

abbrev pub result_limit : ℕ
result_limit = 64 * 1024

unfoldable pub decode_result : Bytes → Outcome UntrustedRecord
decode_result raw = decode raw result_limit result_valid

abbrev pub response_limit : ℕ
response_limit = 16 * 1024

unfoldable pub decode_response : Bytes → Outcome UntrustedRecord
decode_response raw = decode raw response_limit response_valid

abbrev pub reservation_limit : ℕ
reservation_limit = 16 * 1024

unfoldable pub decode_reservation : Bytes → Outcome UntrustedRecord
decode_reservation raw = decode raw reservation_limit reservation_valid

abbrev pub ack_limit : ℕ
ack_limit = 16 * 1024

unfoldable pub decode_ack : Bytes → Outcome UntrustedRecord
decode_ack raw = decode raw ack_limit ack_valid

abbrev pub conflict_limit : ℕ
conflict_limit = 16 * 1024

unfoldable pub decode_conflict : Bytes → Outcome UntrustedRecord
decode_conflict raw = decode raw conflict_limit conflict_valid
