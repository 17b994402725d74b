-- ===== src/MemberWire/Compatibility.antt =====
-- internal/memberwire/compatibility.go: the shapes of an owner, of a catalog and of a tuple.
use curator_agent_launcher.MemberWire.Decode.{Outcome, UntrustedRecord, decode}
use curator_agent_launcher.Base.{
  ℕ, ◌*◌, Bytes, none, some, Option, ◌==◌, Bool, true, false, ◌&&◌, ◌||◌, not, [], ◌∷◌,
  if◌then◌else◌, String, leb, length, codes,
}
use curator_agent_launcher.MemberWire.Json.{Value, Members, Items, array, string, end, item}
use curator_agent_launcher.MemberWire.Shapes.{
  at, closed, fields, equals, one_of, integer, lower_hex, id, digest, name, is_alpha, list_of,
  text_length, reference,
}

unfoldable pub revision : Value → Bool
revision v = lower_hex v 40 || lower_hex v 64

unfoldable pub repository_bytes : Bytes → Bool
repository_bytes [] = true
repository_bytes (c ∷ s) =
    (is_alpha c || c == b'.' || c == b'/' || c == b'_' || c == b'-') && repository_bytes s

-- What is behind a prefix, if it is one.
unfoldable pub behind_prefix : Bytes → Bytes → Option Bytes
behind_prefix [] s = some s
behind_prefix (c ∷ p) [] = none
behind_prefix (c ∷ p) (e ∷ s) = let rest = behind_prefix p s in if c == e then rest else none

abbrev pub is_location : Option Bytes → Bool
is_location none = false
is_location (some rest) = leb 1 (length rest) && repository_bytes rest

unfoldable pub repository : Value → Bool
repository (string s) = leb (length s) 2048 && is_location (behind_prefix (codes "https://") s)
repository _ = false

unfoldable pub component_valid : Value → Bool
component_valid v =
    let o = fields v in
    closed o ("repository" ∷ "revision" ∷ "binary_sha256" ∷ "release" ∷ [])
    && repository (at o "repository")
    && revision (at o "revision")
    && digest (at o "binary_sha256")
    && text_length (at o "release") 128

unfoldable pub owner_input_valid : Value → Bool
owner_input_valid v =
    let o = fields v in
    closed o ("owner" ∷ "repository" ∷ "revision" ∷ "document" ∷ [])
    && one_of (at o "owner") ("curator" ∷ "runtime" ∷ "launcher" ∷ [])
    && repository (at o "repository")
    && revision (at o "revision")
    && reference (at o "document")

-- One of the items is of the owner.
unfoldable pub any_owner : String → Items → Bool
any_owner owner end = false
any_owner owner (item v xs) = equals (at (fields v) "owner") owner || any_owner owner xs

unfoldable pub each_owner : Value → Bool
each_owner (array xs) = any_owner "curator" xs && any_owner "runtime" xs && any_owner "launcher" xs
each_owner _ = false

unfoldable pub owner_inputs_valid : Value → Bool → Bool
owner_inputs_valid v require_each_owner =
    list_of owner_input_valid 3 16 v && (not require_each_owner || each_owner v)

unfoldable pub manager_valid : Value → Bool
manager_valid v =
    let o = fields v in
    if equals (at o "mode") "required"
    then closed o (
        "mode" ∷ "id" ∷ "registration_sha256" ∷ "transport_binding_sha256" ∷ "capabilities_sha256"
        ∷ "protocol" ∷ "compatibility_sha256" ∷ [])
      && name (at o "id")
      && digest (at o "registration_sha256")
      && digest (at o "transport_binding_sha256")
      && digest (at o "capabilities_sha256")
      && text_length (at o "protocol") 128
      && digest (at o "compatibility_sha256")
    else if equals (at o "mode") "compatible_absence"
    then closed o ("mode" ∷ "compatibility_sha256" ∷ []) && digest (at o "compatibility_sha256")
    else false

unfoldable pub effort_valid : Value → Bool
effort_valid v =
    let o = fields v in
    if equals (at o "mode") "named"
    then closed o ("mode" ∷ "value" ∷ []) && text_length (at o "value") 64
    else if equals (at o "mode") "not_applicable"
    then closed o ("mode" ∷ "evidence_sha256" ∷ []) && digest (at o "evidence_sha256")
    else false

unfoldable pub runtime_valid : Value → Bool
runtime_valid v =
    let o = fields v in
    closed o (
      "id" ∷ "vendor" ∷ "release" ∷ "binary_sha256" ∷ "model" ∷ "effort" ∷ "os" ∷ "architecture"
      ∷ "adapter_id" ∷ "adapter_revision" ∷ [])
    && name (at o "id")
    && name (at o "vendor")
    && text_length (at o "release") 128
    && digest (at o "binary_sha256")
    && text_length (at o "model") 128
    && effort_valid (at o "effort")
    && one_of (at o "os") ("linux" ∷ "darwin" ∷ [])
    && one_of (at o "architecture") ("amd64" ∷ "arm64" ∷ [])
    && name (at o "adapter_id")
    && revision (at o "adapter_revision")

unfoldable pub profile_valid : Value → Bool
profile_valid v =
    let o = fields v in
    closed o (
      "id" ∷ "revision" ∷ "source_closure_sha256" ∷ "config_sha256" ∷ "lock_sha256"
      ∷ "fragment_kind" ∷ "fragment_sha256" ∷ "effective_config_sha256" ∷ "permission_posture"
      ∷ "permission_policy_sha256" ∷ [])
    && name (at o "id")
    && revision (at o "revision")
    && digest (at o "source_closure_sha256")
    && digest (at o "config_sha256")
    && digest (at o "lock_sha256")
    && text_length (at o "fragment_kind") 128
    && digest (at o "fragment_sha256")
    && digest (at o "effective_config_sha256")
    && text_length (at o "permission_posture") 64
    && digest (at o "permission_policy_sha256")

unfoldable pub home_valid : Value → Bool
home_valid v =
    let o = fields v in
    closed o
      ("uid" ∷ "mode" ∷ "provenance_sha256" ∷ "native_origin_sha256" ∷ "auth_binding_sha256" ∷ [])
    && integer (at o "uid") 1 4294967295
    && one_of (at o "mode") ("managed_snapshot" ∷ "native_strict" ∷ [])
    && digest (at o "provenance_sha256")
    && digest (at o "native_origin_sha256")
    && digest (at o "auth_binding_sha256")

unfoldable pub tuple_valid : Members → Bool
tuple_valid o =
    let sam = fields (at o "agents_management") in
    closed o (
      "kind" ∷ "launcher" ∷ "curator" ∷ "agents_management" ∷ "runtime" ∷ "profile" ∷ "home"
      ∷ "manager" ∷ "owner_inputs" ∷ [])
    && one_of (at o "kind") ("curator-run member-tuple/1" ∷ [])
    && component_valid (at o "launcher")
    && component_valid (at o "curator")
    && closed sam ("module" ∷ "version" ∷ "revision" ∷ [])
    && one_of (at sam "module") ("github.com/relux-works/skill-agents-management" ∷ [])
    && text_length (at sam "version") 128
    && revision (at sam "revision")
    && runtime_valid (at o "runtime")
    && profile_valid (at o "profile")
    && home_valid (at o "home")
    && manager_valid (at o "manager")
    && owner_inputs_valid (at o "owner_inputs") true

unfoldable pub owner_valid : Members → Bool
owner_valid o =
    closed o ("kind" ∷ "controller_id" ∷ "store_id" ∷ "uid" ∷ "catalog_sha256" ∷ [])
    && one_of (at o "kind") ("curator-run member-owner/1" ∷ [])
    && id (at o "controller_id")
    && id (at o "store_id")
    && integer (at o "uid") 1 4294967295
    && digest (at o "catalog_sha256")

unfoldable pub catalog_entry : Value → Bool
catalog_entry v =
    let o = fields v in
    closed o (
      "tuple" ∷ "owner_inputs" ∷ "construction_contract_sha256"
      ∷ "private_verification_contract_sha256" ∷ "scope_contract_sha256" ∷ [])
    && reference (at o "tuple")
    && owner_inputs_valid (at o "owner_inputs") false
    && digest (at o "construction_contract_sha256")
    && digest (at o "private_verification_contract_sha256")
    && digest (at o "scope_contract_sha256")

unfoldable pub catalog_valid : Members → Bool
catalog_valid o =
    closed o ("kind" ∷ "controller_id" ∷ "store_id" ∷ "entries" ∷ [])
    && one_of (at o "kind") ("curator-run member-catalog/1" ∷ [])
    && id (at o "controller_id")
    && id (at o "store_id")
    && list_of catalog_entry 0 32 (at o "entries")

abbrev pub owner_limit : ℕ
owner_limit = 4 * 1024

unfoldable pub decode_owner : Bytes → Outcome UntrustedRecord
decode_owner raw = decode raw owner_limit owner_valid

abbrev pub catalog_limit : ℕ
catalog_limit = 64 * 1024

unfoldable pub decode_catalog : Bytes → Outcome UntrustedRecord
decode_catalog raw = decode raw catalog_limit catalog_valid

abbrev pub tuple_limit : ℕ
tuple_limit = 64 * 1024

unfoldable pub decode_tuple : Bytes → Outcome UntrustedRecord
decode_tuple raw = decode raw tuple_limit tuple_valid
