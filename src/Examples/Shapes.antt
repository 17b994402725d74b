-- ===== src/Examples/Shapes.antt =====
-- The shapes of the records: tests, and the theorems at concrete inputs.
use curator_agent_launcher.MemberWire.Snapshots.Phases.{decode_snapshot-phases}
use curator_agent_launcher.MemberWire.Outcomes.Exclusive.{decode_response-exclusive}
use curator_agent_launcher.MemberWire.Shapes.Closed.{closed-only, differs, only, distinct}
use curator_agent_launcher.Base.{
  List, not, ◌&&◌, ◌||◌, true, ◌≡◌, refl, [], ◌∷◌, codes, Bytes, String, bytes_eq,
}
use curator_agent_launcher.MemberWire.Number.{number_token, accumulate, all_digits}
use curator_agent_launcher.MemberWire.Quoted.{string_token, escape}
use curator_agent_launcher.MemberWire.Runes.{valid_from}
use curator_agent_launcher.MemberWire.Tokens.{
  tokenize, next_token, word, word_token, number_word, split_word, is_delimiter, punctuation,
  comment, quoted, drop_line, after_comment,
}
use curator_agent_launcher.MemberWire.Json.{
  Value, Members, object, array, string, uint, null, nil, member, end, item, contains,
}
use curator_agent_launcher.MemberWire.Grammar.{grammar}
use curator_agent_launcher.MemberWire.Build.{build_value, set_member, add_item}
use curator_agent_launcher.MemberWire.Decode.{parse_object, decode, ok, has_nul, UntrustedRecord}
use curator_agent_launcher.MemberWire.Shapes.{
  at, has, size, has_all, closed, fields, is_nil, equals, one_of, integer, hex_bytes, lower_hex, id,
  digest, name_bytes, name, count, every, list_of, lifecycle_bool, text_length, rune_count,
  optional, reference,
}
use curator_agent_launcher.MemberWire.Requests.{identity, effects, names, fresh_names}
use curator_agent_launcher.MemberWire.Lifecycle.{writer_valid, lifecycle_error_valid}
use curator_agent_launcher.MemberWire.Snapshots.{
  status_of, decode_snapshot, snapshot_valid, phase_valid, allocation_phase_valid, start_valid,
  native_valid, cleanup_valid, allocation_valid,
}
use curator_agent_launcher.MemberWire.Outcomes.{
  decode_response, response_valid, outcome_valid, replay_valid,
}

abbrev snapshot_text : Bytes
snapshot_text =
    (codes
      "{\"kind\":\"curator-run member-snapshot/1\",\"store_id\":\"bbbbbbbbbbbbbbbbbbbbbbbbbbbbbbbb\",\"identity\":{\"controller_id\":\"bbbbbbbbbbbbbbbbbbbbbbbbbbbbbbbb\",\"assignment_id\":\"bbbbbbbbbbbbbbbbbbbbbbbbbbbbbbbb\",\"invocation_id\":\"bbbbbbbbbbbbbbbbbbbbbbbbbbbbbbbb\",\"member_id\":\"bbbbbbbbbbbbbbbbbbbbbbbbbbbbbbbb\",\"consumer_id\":\"bbbbbbbbbbbbbbbbbbbbbbbbbbbbbbbb\",\"role\":\"development\",\"producer_member_id\":null,\"predecessor_invocation_id\":null},\"request_sha256\":\"aaaaaaaaaaaaaaaaaaaaaaaaaaaaaaaaaaaaaaaaaaaaaaaaaaaaaaaaaaaaaaaa\",\"tuple_sha256\":\"aaaaaaaaaaaaaaaaaaaaaaaaaaaaaaaaaaaaaaaaaaaaaaaaaaaaaaaaaaaaaaaa\",\"authorization_sha256\":\"aaaaaaaaaaaaaaaaaaaaaaaaaaaaaaaaaaaaaaaaaaaaaaaaaaaaaaaaaaaaaaaa\",\"generation\":1,\"phase\":\"admitted\",\"writer\":{\"role\":\"supervisor\",\"id\":\"bbbbbbbbbbbbbbbbbbbbbbbbbbbbbbbb\",\"incarnation_sha256\":\"aaaaaaaaaaaaaaaaaaaaaaaaaaaaaaaaaaaaaaaaaaaaaaaaaaaaaaaaaaaaaaaa\",\"supervisor_id\":\"bbbbbbbbbbbbbbbbbbbbbbbbbbbbbbbb\"},\"scope\":null,\"boot_sha256\":\"aaaaaaaaaaaaaaaaaaaaaaaaaaaaaaaaaaaaaaaaaaaaaaaaaaaaaaaaaaaaaaaa\",\"deadline_monotonic_ms\":5,\"start\":{\"status\":\"not_attempted\"},\"native\":{\"status\":\"not_started\"},\"cleanup\":{\"status\":\"not_started\"},\"result\":null,\"error\":null,\"allocation\":{\"status\":\"not_requested\"},\"gate\":\"not_created\",\"stop\":null}")

abbrev snapshot_record : UntrustedRecord
snapshot_record = record {
  raw = snapshot_text;
  value =
      (member (codes "kind") (string (codes "curator-run member-snapshot/1")) (
        member (codes "store_id") (string (codes "bbbbbbbbbbbbbbbbbbbbbbbbbbbbbbbb")) (
          member (codes "identity")
            (object (
              member (codes "controller_id") (string (codes "bbbbbbbbbbbbbbbbbbbbbbbbbbbbbbbb")) (
                member (codes "assignment_id") (string (codes "bbbbbbbbbbbbbbbbbbbbbbbbbbbbbbbb")) (
                  member (codes "invocation_id") (string (codes "bbbbbbbbbbbbbbbbbbbbbbbbbbbbbbbb"))
                    (member (codes "member_id") (string (codes "bbbbbbbbbbbbbbbbbbbbbbbbbbbbbbbb"))
                      (member (codes "consumer_id")
                        (string (codes "bbbbbbbbbbbbbbbbbbbbbbbbbbbbbbbb"))
                        (member (codes "role") (string (codes "development")) (
                          member (codes "producer_member_id") null
                            (member (codes "predecessor_invocation_id") null nil)))))))))
            (member (codes "request_sha256")
              (string (codes "aaaaaaaaaaaaaaaaaaaaaaaaaaaaaaaaaaaaaaaaaaaaaaaaaaaaaaaaaaaaaaaa"))
              (member (codes "tuple_sha256")
                (string (codes "aaaaaaaaaaaaaaaaaaaaaaaaaaaaaaaaaaaaaaaaaaaaaaaaaaaaaaaaaaaaaaaa"))
                (member (codes "authorization_sha256")
                  (string
                    (codes "aaaaaaaaaaaaaaaaaaaaaaaaaaaaaaaaaaaaaaaaaaaaaaaaaaaaaaaaaaaaaaaa"))
                  (member (codes "generation") (uint 1) (
                    member (codes "phase") (string (codes "admitted")) (
                      member (codes "writer")
                        (object (
                          member (codes "role") (string (codes "supervisor")) (
                            member (codes "id") (string (codes "bbbbbbbbbbbbbbbbbbbbbbbbbbbbbbbb"))
                              (member (codes "incarnation_sha256")
                                (string (
                                  codes
                                    "aaaaaaaaaaaaaaaaaaaaaaaaaaaaaaaaaaaaaaaaaaaaaaaaaaaaaaaaaaaaaaaa"))
                                (member (codes "supervisor_id")
                                  (string (codes "bbbbbbbbbbbbbbbbbbbbbbbbbbbbbbbb")) nil)))))
                        (member (codes "scope") null (
                          member (codes "boot_sha256")
                            (string (
                              codes
                                "aaaaaaaaaaaaaaaaaaaaaaaaaaaaaaaaaaaaaaaaaaaaaaaaaaaaaaaaaaaaaaaa"))
                            (member (codes "deadline_monotonic_ms") (uint 5) (
                              member (codes "start")
                                (object
                                  (member (codes "status") (string (codes "not_attempted")) nil))
                                (member (codes "native")
                                  (object
                                    (member (codes "status") (string (codes "not_started")) nil))
                                  (member (codes "cleanup")
                                    (object
                                      (member (codes "status") (string (codes "not_started")) nil))
                                    (member (codes "result") null (
                                      member (codes "error") null (
                                        member (codes "allocation")
                                          (object (
                                            member (codes "status") (string (codes "not_requested"))
                                              nil))
                                          (member (codes "gate") (string (codes "not_created"))
                                            (member (codes "stop") null nil))))))))))))))))))));
}

snapshot_decodes : decode_snapshot snapshot_text ≡ ok snapshot_record
unfolding decode_snapshot snapshot_valid phase_valid allocation_phase_valid identity writer_valid
    start_valid native_valid cleanup_valid allocation_valid lifecycle_error_valid parse_object
    tokenize next_token punctuation quoted string_token escape word split_word is_delimiter
    word_token number_word number_token accumulate all_digits grammar build_value set_member
    add_item has_nul valid_from contains comment bytes_eq drop_line after_comment decode at has size
    has_all closed fields is_nil equals one_of integer hex_bytes lower_hex id digest name_bytes name
    count every list_of lifecycle_bool text_length rune_count optional reference
snapshot_decodes = refl

abbrev response_text : Bytes
response_text =
    (codes
      "{\"kind\":\"curator-run member-response/1\",\"request_id\":null,\"request_sha256\":null,\"operation\":null,\"outcome\":\"refused\",\"snapshot\":null,\"result\":null,\"reservation\":null,\"ack\":null,\"error\":{\"stage\":\"start\",\"code\":\"spawn_failed\",\"source\":null,\"evidence\":null},\"replay\":{\"kind\":\"curator-run member-replay/1\",\"key\":\"none\",\"classification\":\"none\",\"original_request_sha256\":null,\"current_request_sha256\":null,\"original_result_sha256\":null}}")

abbrev response_record : UntrustedRecord
response_record = record {
  raw = response_text;
  value =
      (member (codes "kind") (string (codes "curator-run member-response/1")) (
        member (codes "request_id") null (
          member (codes "request_sha256") null (
            member (codes "operation") null (
              member (codes "outcome") (string (codes "refused")) (
                member (codes "snapshot") null (
                  member (codes "result") null (
                    member (codes "reservation") null (
                      member (codes "ack") null (
                        member (codes "error")
                          (object (
                            member (codes "stage") (string (codes "start")) (
                              member (codes "code") (string (codes "spawn_failed")) (
                                member (codes "source") null
                                  (member (codes "evidence") null nil)))))
                          (member (codes "replay")
                            (object (
                              member (codes "kind") (string (codes "curator-run member-replay/1")) (
                                member (codes "key") (string (codes "none")) (
                                  member (codes "classification") (string (codes "none")) (
                                    member (codes "original_request_sha256") null (
                                      member (codes "current_request_sha256") null
                                        (member (codes "original_result_sha256") null nil)))))))
                            nil)))))))))));
}

response_decodes : decode_response response_text ≡ ok response_record
unfolding decode_response response_valid outcome_valid replay_valid lifecycle_error_valid
    parse_object tokenize next_token punctuation quoted string_token escape word split_word
    is_delimiter word_token number_word number_token accumulate all_digits grammar build_value
    set_member add_item has_nul valid_from contains comment bytes_eq drop_line after_comment decode
    at has size has_all closed fields is_nil equals one_of integer hex_bytes lower_hex id digest
    name_bytes name count every list_of lifecycle_bool text_length rune_count optional reference
response_decodes = refl

abbrev offline : Value
offline =
    (object (
      member (codes "tools") (array (item (string (codes "git")) (item (string (codes "go")) end)))
        (member (codes "read_objects") (array end) (
          member (codes "output_names") (array (item (string (codes "out")) end)) (
            member (codes "network") (string (codes "disabled")) (
              member (codes "provider_binding_sha256") null (
                member (codes "max_processes") (uint 1) (
                  member (codes "max_provider_requests") (uint 0)
                    (member (codes "max_provider_tokens") (uint 0) nil)))))))))

offline_accepted : effects offline ≡ true
unfolding effects names fresh_names contains bytes_eq at has size has_all closed fields is_nil
    equals one_of integer hex_bytes lower_hex id digest name_bytes name count every list_of
    lifecycle_bool text_length rune_count optional reference
offline_accepted = refl

abbrev held_reference : Members
held_reference = member (codes "name") (string (codes "in.json")) (
    member (codes "length") (uint 12) (
      member (codes "sha256")
        (string (codes "aaaaaaaaaaaaaaaaaaaaaaaaaaaaaaaaaaaaaaaaaaaaaaaaaaaaaaaaaaaaaaaa")) nil))

abbrev reference_keys : List String
reference_keys = "name" ∷ "length" ∷ "sha256" ∷ []

reference_accepted : reference (object held_reference) ≡ true
unfolding reference closed has size has_all at fields integer hex_bytes lower_hex digest name_bytes
    name bytes_eq
reference_accepted = refl

reference_closed : closed held_reference reference_keys ≡ true
unfolding closed has size has_all bytes_eq
reference_closed = refl

keys_apart : distinct reference_keys ≡ true
unfolding distinct differs bytes_eq
keys_apart = refl

closed-only_example :
    (has_all held_reference reference_keys ≡ true) × (only held_reference reference_keys ≡ true)
closed-only_example = closed-only held_reference reference_keys keys_apart reference_closed

decode_snapshot-phases_example :
    ((is_nil (at snapshot_record.value "result")
        || equals (at snapshot_record.value "phase") "terminal"
        || equals (at snapshot_record.value "phase") "uncertain")
      ≡ true)
    × ((not (is_nil (at snapshot_record.value "scope"))
          || one_of
              (at snapshot_record.value "phase")
              ("admitted" ∷ "allocating" ∷ "stopping" ∷ "terminal" ∷ "uncertain" ∷ []))
        ≡ true)
    × ((not (equals (status_of snapshot_record.value "native") "running")
          || one_of (at snapshot_record.value "phase") ("running" ∷ "stopping" ∷ "uncertain" ∷ []))
        ≡ true)
decode_snapshot-phases_example =
    decode_snapshot-phases snapshot_text snapshot_record snapshot_decodes

decode_response-exclusive_example :
    ((is_nil (at response_record.value "error")
        || is_nil (at response_record.value "result")
          && is_nil (at response_record.value "reservation")
          && is_nil (at response_record.value "ack"))
      ≡ true)
    × ((is_nil (at response_record.value "result")
          || not (is_nil (at response_record.value "snapshot")))
        ≡ true)
    × ((is_nil (at response_record.value "reservation") && is_nil (at response_record.value "ack")
          || equals (at response_record.value "outcome") "consumption")
        ≡ true)
    × ((is_nil (at response_record.value "result") || reference (at response_record.value "result"))
        ≡ true)
decode_response-exclusive_example =
    decode_response-exclusive response_text response_record response_decodes
