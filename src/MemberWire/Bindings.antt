-- ===== src/MemberWire/Bindings.antt =====
-- internal/memberwire/bindings.go: the shapes of assignments, attempts and operations.
use curator_agent_launcher.MemberWire.Decode.{Outcome, UntrustedRecord, decode}
use curator_agent_launcher.Base.{ℕ, ◌*◌, Bytes, Bool, false, ◌&&◌, [], ◌∷◌, if◌then◌else◌}
use curator_agent_launcher.MemberWire.Json.{Members}
use curator_agent_launcher.MemberWire.Shapes.{
  at, closed, is_nil, equals, one_of, integer, id, digest, optional, reference,
}
use curator_agent_launcher.MemberWire.Requests.{artifacts, effects, deadlines}

unfoldable pub assignment_valid : Members → Bool
assignment_valid o =
    closed o (
      "kind" ∷ "store_id" ∷ "controller_id" ∷ "assignment_id" ∷ "member_id" ∷ "consumer_id" ∷ "role"
      ∷ "producer_member_id" ∷ "tuple" ∷ "artifacts" ∷ "effects" ∷ "deadlines" ∷ [])
    && one_of (at o "kind") ("curator-run member-assignment/1" ∷ [])
    && id (at o "store_id")
    && id (at o "controller_id")
    && id (at o "assignment_id")
    && id (at o "member_id")
    && id (at o "consumer_id")
    && one_of (at o "role") ("development" ∷ "source_review" ∷ "recipient_assessment" ∷ [])
    && optional id (at o "producer_member_id")
    && reference (at o "tuple")
    && artifacts (at o "artifacts")
    && effects (at o "effects")
    && deadlines (at o "deadlines")

unfoldable pub attempt_valid : Members → Bool
attempt_valid o =
    closed o (
      "kind" ∷ "store_id" ∷ "assignment_id" ∷ "assignment_sha256" ∷ "ordinal" ∷ "invocation_id"
      ∷ "predecessor_invocation_id" ∷ "request_sha256" ∷ [])
    && one_of (at o "kind") ("curator-run member-attempt/1" ∷ [])
    && id (at o "store_id")
    && id (at o "assignment_id")
    && digest (at o "assignment_sha256")
    && integer (at o "ordinal") 1 256
    && id (at o "invocation_id")
    && optional id (at o "predecessor_invocation_id")
    && digest (at o "request_sha256")

unfoldable pub operation_intent_valid : Members → Bool
operation_intent_valid o =
    closed o (
      "kind" ∷ "store_id" ∷ "controller_id" ∷ "sequence" ∷ "operation" ∷ "invocation_id"
      ∷ "candidate_sha256" ∷ [])
    && one_of (at o "kind") ("curator-run member-operation-intent/1" ∷ [])
    && id (at o "store_id")
    && id (at o "controller_id")
    && integer (at o "sequence") 1 4096
    && one_of (at o "operation")
        ("submit" ∷ "cancel" ∷ "reconcile" ∷ "reserve" ∷ "ack" ∷ "publish" ∷ [])
    && id (at o "invocation_id")
    && digest (at o "candidate_sha256")

unfoldable pub operation_completion_valid : Members → Bool
operation_completion_valid o =
    closed o ("kind" ∷ "store_id" ∷ "sequence" ∷ "intent" ∷ "disposition" ∷ "conflict" ∷ [])
    && one_of (at o "kind") ("curator-run member-operation-completion/1" ∷ [])
    && id (at o "store_id")
    && integer (at o "sequence") 1 4096
    && reference (at o "intent")
    && (if equals (at o "disposition") "clear"
        then is_nil (at o "conflict")
        else if equals (at o "disposition") "conflict"
        then reference (at o "conflict")
        else false)

abbrev pub assignment_limit : ℕ
assignment_limit = 64 * 1024

unfoldable pub decode_assignment : Bytes → Outcome UntrustedRecord
decode_assignment raw = decode raw assignment_limit assignment_valid

abbrev pub attempt_limit : ℕ
attempt_limit = 16 * 1024

unfoldable pub decode_attempt : Bytes → Outcome UntrustedRecord
decode_attempt raw = decode raw attempt_limit attempt_valid

abbrev pub operation_intent_limit : ℕ
operation_intent_limit = 16 * 1024

unfoldable pub decode_operation_intent : Bytes → Outcome UntrustedRecord
decode_operation_intent raw = decode raw operation_intent_limit operation_intent_valid

abbrev pub operation_completion_limit : ℕ
operation_completion_limit = 16 * 1024

unfoldable pub decode_operation_completion : Bytes → Outcome UntrustedRecord
decode_operation_completion raw = decode raw operation_completion_limit operation_completion_valid
