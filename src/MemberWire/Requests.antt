-- ===== src/MemberWire/Requests.antt =====
-- internal/memberwire/schema.go: the shapes of a request and of an authorization.
pub mod Named
use curator_agent_launcher.MemberWire.Decode.{
  Outcome, UntrustedRecord, decode, request_limit, authorization_limit,
}
use curator_agent_launcher.Base.{
  ℕ, Bytes, ◌++◌, Bool, true, false, ◌&&◌, not, List, [], ◌∷◌, if◌then◌else◌, String, leb,
}
use curator_agent_launcher.MemberWire.Json.{
  contains, Value, Members, Items, array, string, end, item,
}
use curator_agent_launcher.MemberWire.Shapes.{
  at, closed, fields, is_nil, equals, one_of, integer, id, digest, name, list_of, count, optional,
  reference,
}

unfoldable pub identity : Value → Bool
identity v =
    let o = fields v in
    closed o (
      "controller_id" ∷ "assignment_id" ∷ "invocation_id" ∷ "member_id" ∷ "consumer_id" ∷ "role"
      ∷ "producer_member_id" ∷ "predecessor_invocation_id" ∷ [])
    && id (at o "controller_id")
    && id (at o "assignment_id")
    && id (at o "invocation_id")
    && id (at o "member_id")
    && id (at o "consumer_id")
    && one_of (at o "role") ("development" ∷ "source_review" ∷ "recipient_assessment" ∷ [])
    && optional id (at o "producer_member_id")
    && optional id (at o "predecessor_invocation_id")

unfoldable pub artifact : Value → Bool
artifact v =
    let o = fields v in
    closed o ("object" ∷ "role" ∷ [])
    && reference (at o "object")
    && one_of (at o "role") (
        "instruction" ∷ "source" ∷ "tuple" ∷ "owner_input" ∷ "profile_input" ∷ "receipt"
        ∷ "assignment" ∷ [])

unfoldable pub artifacts : Value → Bool
artifacts v = list_of artifact 1 128 v

-- The names of `seen` do not come again.
unfoldable pub fresh_names : List Bytes → Items → Bool
fresh_names seen end = true
fresh_names seen (item (string s) xs) =
    name (string s) && not (contains seen s) && fresh_names (s ∷ seen) xs
fresh_names seen (item _ xs) = false

unfoldable pub names : Value → ℕ → Bool
names (array xs) maximum = leb (count xs) maximum && fresh_names [] xs
names _ maximum = false

unfoldable pub effects : Value → Bool
effects v =
    let o = fields v in
    closed o (
      "tools" ∷ "read_objects" ∷ "output_names" ∷ "network" ∷ "provider_binding_sha256"
      ∷ "max_processes" ∷ "max_provider_requests" ∷ "max_provider_tokens" ∷ [])
    && names (at o "tools") 32
    && names (at o "read_objects") 128
    && names (at o "output_names") 128
    && integer (at o "max_processes") 1 64
    && (if equals (at o "network") "disabled"
        then is_nil (at o "provider_binding_sha256")
          && integer (at o "max_provider_requests") 0 0
          && integer (at o "max_provider_tokens") 0 0
        else if equals (at o "network") "admitted_provider"
        then digest (at o "provider_binding_sha256")
          && integer (at o "max_provider_requests") 1 64
          && integer (at o "max_provider_tokens") 1 65536
        else false)

unfoldable pub deadlines : Value → Bool
deadlines v =
    let o = fields v in
    closed o (
      "startup_ms" ∷ "runtime_ms" ∷ "term_ms" ∷ "kill_observation_ms" ∷ "result_ms"
      ∷ "state_budget_bytes" ∷ [])
    && integer (at o "startup_ms") 1 60000
    && integer (at o "runtime_ms") 1 3600000
    && integer (at o "term_ms") 1 6000
    && integer (at o "kill_observation_ms") 1 6000
    && integer (at o "result_ms") 1 6000
    && integer (at o "state_budget_bytes") 1 67108864

-- The keys of a consumption.
abbrev pub consume_keys : List String
consume_keys =
    "kind" ∷ "request_id" ∷ "operation" ∷ "action" ∷ "invocation_id" ∷ "consumer_id" ∷ "effect_id"
    ∷ "result_sha256" ∷ []

unfoldable pub consume_valid : Members → Bool
consume_valid o =
    (if one_of (at o "action") ("ack" ∷ [])
      then reference (at o "receipt") && closed o (consume_keys ++ ("receipt" ∷ []))
      else one_of (at o "action") ("reserve" ∷ []) && closed o consume_keys)
    && id (at o "invocation_id")
    && id (at o "consumer_id")
    && id (at o "effect_id")
    && digest (at o "result_sha256")

unfoldable pub request_valid : Members → Bool
request_valid o =
    one_of (at o "kind") ("curator-run member-request/1" ∷ [])
    && id (at o "request_id")
    && (if equals (at o "operation") "submit"
        then closed o (
            "kind" ∷ "request_id" ∷ "operation" ∷ "identity" ∷ "tuple" ∷ "artifacts" ∷ "effects"
            ∷ "deadlines" ∷ "assignment" ∷ [])
          && identity (at o "identity")
          && reference (at o "tuple")
          && artifacts (at o "artifacts")
          && effects (at o "effects")
          && deadlines (at o "deadlines")
          && reference (at o "assignment")
        else if one_of (at o "operation") ("inspect" ∷ "reconcile" ∷ [])
        then closed o ("kind" ∷ "request_id" ∷ "operation" ∷ "invocation_id" ∷ [])
          && id (at o "invocation_id")
        else if equals (at o "operation") "cancel"
        then closed o
            ("kind" ∷ "request_id" ∷ "operation" ∷ "invocation_id" ∷ "cancel_id" ∷ "reason" ∷ [])
          && id (at o "invocation_id")
          && id (at o "cancel_id")
          && one_of (at o "reason") ("controller_request" ∷ "deadline" ∷ [])
        else if equals (at o "operation") "consume"
        then consume_valid o
        else false)

unfoldable pub authorization_valid : Members → Bool
authorization_valid o =
    closed o (
      "kind" ∷ "controller_id" ∷ "store_id" ∷ "request_length" ∷ "request_sha256" ∷ "expires_at_ms"
      ∷ [])
    && one_of (at o "kind") ("curator-run member-authorization/1" ∷ [])
    && id (at o "controller_id")
    && id (at o "store_id")
    && integer (at o "request_length") 1 65536
    && digest (at o "request_sha256")
    && integer (at o "expires_at_ms") 1 9007199254740991

unfoldable pub decode_request : Bytes → Outcome UntrustedRecord
decode_request raw = decode raw request_limit request_valid

unfoldable pub decode_authorization : Bytes → Outcome UntrustedRecord
decode_authorization raw = decode raw authorization_limit authorization_valid
