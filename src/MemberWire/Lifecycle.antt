-- ===== src/MemberWire/Lifecycle.antt =====
-- internal/memberwire/lifecycle.go: the shapes of the records of an invocation. The texts that are
-- read by rune are read by byte: a byte of no ASCII character is refused either way.
use curator_agent_launcher.MemberWire.Decode.{Outcome, UntrustedRecord, decode}
use curator_agent_launcher.Base.{
  ℕ, ◌*◌, Bytes, ◌==◌, Bool, true, false, ◌&&◌, ◌||◌, [], ◌∷◌, if◌then◌else◌, within, leb, length,
}
use curator_agent_launcher.MemberWire.Json.{Value, Members, string}
use curator_agent_launcher.MemberWire.Shapes.{
  at, closed, fields, equals, one_of, integer, id, digest, name, is_alpha, list_of, optional,
  lifecycle_bool, text_length, reference,
}
use curator_agent_launcher.MemberWire.Number.{safe_integer}
use curator_agent_launcher.MemberWire.Compatibility.{revision}

unfoldable pub scope_valid : Value → Bool
scope_valid v =
    let o = fields v in
    closed o (
      "adapter_id" ∷ "adapter_revision" ∷ "scope_id" ∷ "identity_sha256" ∷ "boot_sha256"
      ∷ "namespace_sha256" ∷ "root_incarnation_sha256" ∷ [])
    && name (at o "adapter_id")
    && revision (at o "adapter_revision")
    && id (at o "scope_id")
    && digest (at o "identity_sha256")
    && digest (at o "boot_sha256")
    && digest (at o "namespace_sha256")
    && optional digest (at o "root_incarnation_sha256")

unfoldable pub writer_valid : Value → Bool
writer_valid v =
    let o = fields v in
    closed o ("role" ∷ "id" ∷ "incarnation_sha256" ∷ "supervisor_id" ∷ [])
    && one_of (at o "role") ("supervisor" ∷ "reconciler" ∷ [])
    && id (at o "id")
    && digest (at o "incarnation_sha256")
    && id (at o "supervisor_id")

-- The bytes of a signal's name.
unfoldable pub signal_bytes : Bytes → Bool
signal_bytes [] = true
signal_bytes (c ∷ s) = (within b'A' b'Z' c || within b'0' b'9' c) && signal_bytes s

unfoldable pub signal_name : Value → Bool
signal_name (string s) = leb 1 (length s) && leb (length s) 32 && signal_bytes s
signal_name _ = false

unfoldable pub lifecycle_signal : Members → Bool
lifecycle_signal o =
    signal_name (at o "name")
    && integer (at o "number") 1 255
    && lifecycle_bool (at o "core_dumped")

unfoldable pub wait_valid : Value → Bool
wait_valid v =
    let o = fields v in
    integer (at o "raw_status") 0 4294967295
    && (if equals (at o "status") "exit"
        then closed o ("status" ∷ "code" ∷ "raw_status" ∷ []) && integer (at o "code") 0 255
        else if equals (at o "status") "signal"
        then closed o ("status" ∷ "number" ∷ "name" ∷ "core_dumped" ∷ "raw_status" ∷ [])
          && lifecycle_signal o
        else false)

-- `argv`: nil, or arguments of 1 to 4096 runes.
unfoldable pub argument : Value → Bool
argument v = text_length v 4096

unfoldable pub arguments : Value → Bool
arguments v = optional (list_of argument 0 128) v

unfoldable pub observation_valid : Members → Bool
observation_valid o =
    closed o (
      "kind" ∷ "invocation_id" ∷ "supervisor_id" ∷ "scope" ∷ "process_incarnation_sha256"
      ∷ "boot_sha256" ∷ "observed_monotonic_ms" ∷ "wait" ∷ "actual_tuple" ∷ "argv" ∷ [])
    && one_of (at o "kind") ("curator-run member-observation/1" ∷ [])
    && id (at o "invocation_id")
    && id (at o "supervisor_id")
    && scope_valid (at o "scope")
    && digest (at o "process_incarnation_sha256")
    && digest (at o "boot_sha256")
    && integer (at o "observed_monotonic_ms") 0 safe_integer
    && wait_valid (at o "wait")
    && optional reference (at o "actual_tuple")
    && arguments (at o "argv")

unfoldable pub scope_proof_valid : Members → Bool
scope_proof_valid o =
    closed o (
      "kind" ∷ "invocation_id" ∷ "scope" ∷ "observer" ∷ "observed_monotonic_ms" ∷ "method_sha256"
      ∷ "observation_complete" ∷ "scope_matches" ∷ "empty" ∷ [])
    && one_of (at o "kind") ("curator-run member-scope-proof/1" ∷ [])
    && id (at o "invocation_id")
    && scope_valid (at o "scope")
    && writer_valid (at o "observer")
    && integer (at o "observed_monotonic_ms") 0 safe_integer
    && digest (at o "method_sha256")
    && lifecycle_bool (at o "observation_complete")
    && lifecycle_bool (at o "scope_matches")
    && lifecycle_bool (at o "empty")

unfoldable pub code_bytes : Bytes → Bool
code_bytes [] = true
code_bytes (c ∷ s) =
    (is_alpha c || c == b'_' || c == b'.' || c == b':' || c == b'-') && code_bytes s

unfoldable pub error_code : Value → Bool
error_code (string s) = leb 1 (length s) && leb (length s) 128 && code_bytes s
error_code _ = false

unfoldable pub source_error_valid : Value → Bool
source_error_valid v =
    let o = fields v in
    closed o ("component" ∷ "namespace" ∷ "code" ∷ [])
    && name (at o "component")
    && name (at o "namespace")
    && error_code (at o "code")

unfoldable pub lifecycle_error_valid : Value → Bool
lifecycle_error_valid v =
    let o = fields v in
    closed o ("stage" ∷ "code" ∷ "source" ∷ "evidence" ∷ [])
    && optional source_error_valid (at o "source")
    && optional reference (at o "evidence")
    && (if equals (at o "stage") "bootstrap"
        then one_of (at o "code") ("transport_unavailable" ∷ "descriptor_invalid" ∷ [])
        else if equals (at o "stage") "parse"
        then one_of (at o "code") ("encoding_invalid" ∷ "schema_invalid" ∷ "bounds_exceeded" ∷ [])
        else if equals (at o "stage") "admission"
        then one_of (at o "code") (
            "authorization_invalid" ∷ "authorization_expired" ∷ "input_mismatch"
            ∷ "identity_mismatch" ∷ "invocation_conflict" ∷ "assignment_conflict" ∷ [])
        else if equals (at o "stage") "compatibility"
        then one_of (at o "code") (
            "compatibility_unpublished" ∷ "compatibility_mismatch" ∷ "configuration_unknown"
            ∷ "presence_contamination" ∷ "history_contamination" ∷ [])
        else if equals (at o "stage") "store"
        then one_of (at o "code")
            ("store_busy" ∷ "store_unreadable" ∷ "store_full" ∷ "store_interlocked" ∷ [])
        else if equals (at o "stage") "start"
        then one_of (at o "code") ("spawn_failed" ∷ [])
        else if equals (at o "stage") "runtime"
        then one_of (at o "code") ("supervisor_lost" ∷ [])
        else if equals (at o "stage") "result"
        then one_of (at o "code") ("result_invalid" ∷ "result_overflow" ∷ "result_conflict" ∷ [])
        else if equals (at o "stage") "cleanup"
        then one_of (at o "code") ("scope_unknown" ∷ "cleanup_failed" ∷ [])
        else if equals (at o "stage") "consume"
        then one_of (at o "code") ("consumption_conflict" ∷ "effect_unknown" ∷ [])
        else if equals (at o "stage") "cancel"
        then one_of (at o "code") ("cancel_conflict" ∷ [])
        else false)

abbrev pub observation_limit : ℕ
observation_limit = 64 * 1024

unfoldable pub decode_observation : Bytes → Outcome UntrustedRecord
decode_observation raw = decode raw observation_limit observation_valid

abbrev pub scope_proof_limit : ℕ
scope_proof_limit = 16 * 1024

unfoldable pub decode_scope_proof : Bytes → Outcome UntrustedRecord
decode_scope_proof raw = decode raw scope_proof_limit scope_proof_valid
