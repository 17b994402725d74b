-- ===== src/Examples/Fragment.antt =====
-- Fragments: tests of the definitions, and each theorem at a concrete input.
use curator_agent_launcher.Base.{
  arith, Bool, true, false, [], ◌∷◌, Bytes, ◌≡◌, refl, codes, none, some, Scan, done, refused,
  out_of_fuel, Ends, ◌↔◌, bytes_eq, is_text,
}
use curator_agent_launcher.Fragment.Reader.Admissible.{IsAdmissible}
use curator_agent_launcher.Fragment.Reader.Sound.{parse_json-Ends}
use curator_agent_launcher.Fragment.Canonical.Printed.{HasUtf8}
use curator_agent_launcher.Fragment.Canonical.Order.{ordered}
use curator_agent_launcher.Fragment.Canonical.RoundTrip.{parse_json-canonical, canonical_iff}
use curator_agent_launcher.Fragment.Document.Agreed.{IsAgreed, parse-IsAgreed, parse-muse_upgraded}
use curator_agent_launcher.Fragment.Document.{parse, from_value, needs_upgrade, Fragment}
use curator_agent_launcher.Fragment.Services.{
  system_prompt_at, system_prompt_of, env_name_list, mcp_at, mcp_of, trim_slashes, before_slash,
  environments_root, path_prepend_of,
}
use curator_agent_launcher.Fragment.Policy.{
  CredentialStore, root_context_of, overrides_of, credential_store_at, credential_store_of,
  v4_policy,
}
use curator_agent_launcher.Fragment.Sections.{
  is_muse, is_v4, environment_of, permissions_at, permissions_of, profile_of, precedence_of,
  env_entries, env_at, trim_suffix, home, shares_home, env_of,
}
use curator_agent_launcher.Fragment.Channels.{
  name_of, companion_flags, companions_of, flag_channel, channel, channel_list, same_texts,
  same_channel, same_channels, prompt_registry, mcp_registry,
}
use curator_agent_launcher.Fragment.Rules.{
  closed_object, string_member, enum_member, one_of_texts, only_allowed, has_required,
  matches_identifier, name_tail, before_dot, windows_reserved, is_identifier, is_lock_hash,
  has_byte, segments, any_text, is_absolute_path, has_blank, is_flag_token, has_bytes_prefix,
  is_reserved_name,
}
use curator_agent_launcher.Fragment.Reader.{
  parse_json, value, by_first, literal, number, integer, whole_digits, digit_run, in_range,
  digits_value, is_seen, skip_space,
}
use curator_agent_launcher.Fragment.Quoted.{str, str_loop, unescape, escaped_rune, low_half, hex4}
use curator_agent_launcher.Fragment.Canonical.{
  canonical, unsigned, append_canonical, without_sig, sort_keys, insert_key, by_key, entries,
  more_entries, quoted_bytes, escaped, decimal_text, numeral, bytes_le,
}
use curator_agent_launcher.Fragment.Value.{
  Value, null, boolean, int, string, array, object, no_more, element, nil, member, get,
  home_variable,
}
use curator_agent_launcher.MemberWire.Quoted.{hex_digit}
use curator_agent_launcher.MemberWire.Runes.{write_rune, valid_from}
use curator_agent_launcher.MemberWire.Number.{is_empty}
use curator_agent_launcher.MemberWire.Shapes.{hex_bytes, rune_count}

abbrev no_hash : Bytes → Bytes
no_hash s = codes "0"

abbrev muse_text : Bytes
muse_text =
    codes
      "{\"fragment\":\"launch-env-fragment-v4\",\"environment\":\"muse\",\"profile\":{\"name\":\"a\",\"lock_sha256\":\"aaaaaaaaaaaaaaaaaaaaaaaaaaaaaaaaaaaaaaaaaaaaaaaaaaaaaaaaaaaaaaaa\"},\"precedence\":{\"winner\":\"higher-weight\",\"placement\":\"winner-last\"},\"permissions\":{\"mode\":\"native\",\"locked\":false,\"source\":\"default\"},\"env\":{\"XDG_CONFIG_HOME\":\"/e/p/muse/config\",\"XDG_DATA_HOME\":\"/e/p/muse/data\",\"XDG_STATE_HOME\":\"/e/p/muse/state\",\"XDG_CACHE_HOME\":\"/e/p/muse/cache\",\"TBH_CREDENTIAL_BACKEND\":\"file\"},\"credential_store\":{\"selection\":\"file\"}}"

abbrev claude_text : Bytes
claude_text =
    codes
      "{\"fragment\":\"launch-env-fragment-v2\",\"environment\":\"claude_code\",\"profile\":{\"name\":\"a\",\"lock_sha256\":\"aaaaaaaaaaaaaaaaaaaaaaaaaaaaaaaaaaaaaaaaaaaaaaaaaaaaaaaaaaaaaaaa\"},\"precedence\":{\"winner\":\"higher-weight\",\"placement\":\"winner-last\"},\"permissions\":{\"mode\":\"native\",\"locked\":true,\"source\":\"global\"},\"env\":{\"CLAUDE_CONFIG_DIR\":\"/e/p/claude_code\"},\"mcp\":{\"path\":\"/e/m\",\"env_names\":[\"A\",\"B\"],\"channels\":[{\"kind\":\"flag\",\"flag\":\"--mcp-config\",\"argument\":\"path\",\"with\":[\"--strict-mcp-config\"]}]},\"path_prepend\":\"/e/bin\"}"

-- The fragment of an outcome, and whether there is one.
abbrev accepted : Scan (Fragment × Bytes × Bytes) → Bool
accepted (done x) = true
accepted _ = false

abbrev muse_outcome : Scan (Fragment × Bytes × Bytes)
muse_outcome = parse no_hash muse_text

claude_accepted : accepted (parse no_hash claude_text) ≡ true
unfolding parse from_value parse_json value by_first literal number integer whole_digits digit_run
    in_range digits_value is_seen skip_space str str_loop unescape escaped_rune low_half hex4
    hex_digit write_rune valid_from is_empty closed_object string_member enum_member one_of_texts
    only_allowed has_required get matches_identifier name_tail before_dot windows_reserved
    is_identifier is_lock_hash hex_bytes has_byte segments any_text is_absolute_path rune_count
    has_blank is_flag_token has_bytes_prefix is_reserved_name name_of companion_flags companions_of
    flag_channel channel channel_list same_texts same_channel same_channels prompt_registry
    mcp_registry environment_of permissions_at permissions_of profile_of precedence_of env_entries
    env_at trim_suffix home shares_home env_of root_context_of overrides_of credential_store_at
    credential_store_of v4_policy system_prompt_at system_prompt_of env_name_list mcp_at mcp_of
    trim_slashes before_slash environments_root path_prepend_of home_variable bytes_eq bytes_le
    needs_upgrade
claude_accepted = refl

muse_accepted : accepted muse_outcome ≡ true
unfolding parse from_value parse_json value by_first literal number integer whole_digits digit_run
    in_range digits_value is_seen skip_space str str_loop unescape escaped_rune low_half hex4
    hex_digit write_rune valid_from is_empty closed_object string_member enum_member one_of_texts
    only_allowed has_required get matches_identifier name_tail before_dot windows_reserved
    is_identifier is_lock_hash hex_bytes has_byte segments any_text is_absolute_path rune_count
    has_blank is_flag_token has_bytes_prefix is_reserved_name name_of companion_flags companions_of
    flag_channel channel channel_list same_texts same_channel same_channels prompt_registry
    mcp_registry environment_of permissions_at permissions_of profile_of precedence_of env_entries
    env_at trim_suffix home shares_home env_of root_context_of overrides_of credential_store_at
    credential_store_of v4_policy system_prompt_at system_prompt_of env_name_list mcp_at mcp_of
    trim_slashes before_slash environments_root path_prepend_of home_variable bytes_eq bytes_le
    needs_upgrade
muse_accepted = refl

abbrev Parts : Type 0
Parts = Fragment × Bytes × Bytes

unaccepted : false ≡ true → ⊥
unaccepted h = cc

abbrev parts : (r : Scan Parts) → accepted r ≡ true → Parts
parts (done x) h = x
parts refused h = absurd (unaccepted h)
parts out_of_fuel h = absurd (unaccepted h)

done-parts : (r : Scan Parts) (h : accepted r ≡ true) → r ≡ done (parts r h)
done-parts (done x) h = refl
done-parts refused h = cc
done-parts out_of_fuel h = cc

abbrev muse_parts : Parts
muse_parts = parts muse_outcome muse_accepted

-- {"b": -5, "sig": null, "a": ["\"\n", {"y": true, "x": 10}]}
abbrev unordered : Value
unordered = object (
    member (codes "b") (int true 5) (
      member (codes "sig") null (
        member (codes "a")
          (array (
            element (string (34 ∷ 10 ∷ [])) (
              element
                (object (member (codes "y") (boolean true) (member (codes "x") (int false 10) nil)))
                no_more)))
          nil)))

abbrev in_order : Value
in_order = object (
    member (codes "a")
      (array (
        element (string (34 ∷ 10 ∷ [])) (
          element
            (object (member (codes "x") (int false 10) (member (codes "y") (boolean true) nil)))
            no_more)))
      (member (codes "b") (int true 5) nil))

canonical_text : canonical unordered ≡ codes "{\"a\":[\"\\\"\\n\",{\"x\":10,\"y\":true}],\"b\":-5}"
unfolding canonical append_canonical without_sig sort_keys insert_key bytes_le by_key entries
    more_entries quoted_bytes escaped decimal_text numeral bytes_eq
canonical_text = refl

unordered-IsAdmissible : IsAdmissible 0 unordered
unfolding IsAdmissible is_seen bytes_eq
unordered-IsAdmissible = ground arith

in_order-IsAdmissible : IsAdmissible 0 in_order
unfolding IsAdmissible is_seen bytes_eq
in_order-IsAdmissible = ground arith

parse_json-Ends_example : Ends (IsAdmissible 0) (parse_json claude_text)
parse_json-Ends_example = parse_json-Ends claude_text

unordered-HasUtf8 : HasUtf8 unordered
unfolding HasUtf8 valid_from
unordered-HasUtf8 = ground arith

parse_json-canonical_example :
    parse_json (canonical unordered) ≡ done (ordered (unsigned unordered))
parse_json-canonical_example =
    parse_json-canonical unordered unordered-IsAdmissible unordered-HasUtf8

canonical_iff_example :
    (canonical unordered ≡ canonical in_order)
    ↔ (ordered (unsigned unordered) ≡ ordered (unsigned in_order))
canonical_iff_example =
    canonical_iff unordered in_order unordered-IsAdmissible in_order-IsAdmissible

parse-IsAgreed_example : Ends (λ (f, bytes, digest). IsAgreed f) (parse no_hash claude_text)
parse-IsAgreed_example = parse-IsAgreed no_hash claude_text

muse_is_muse : is_muse muse_parts.0.environment ≡ true
unfolding parse from_value parse_json value by_first literal number integer whole_digits digit_run
    in_range digits_value is_seen skip_space str str_loop unescape escaped_rune low_half hex4
    hex_digit write_rune valid_from is_empty closed_object string_member enum_member one_of_texts
    only_allowed has_required get matches_identifier name_tail before_dot windows_reserved
    is_identifier is_lock_hash hex_bytes has_byte segments any_text is_absolute_path rune_count
    has_blank is_flag_token has_bytes_prefix is_reserved_name name_of companion_flags companions_of
    flag_channel channel channel_list same_texts same_channel same_channels prompt_registry
    mcp_registry environment_of permissions_at permissions_of profile_of precedence_of env_entries
    env_at trim_suffix home shares_home env_of root_context_of overrides_of credential_store_at
    credential_store_of v4_policy system_prompt_at system_prompt_of env_name_list mcp_at mcp_of
    trim_slashes before_slash environments_root path_prepend_of home_variable bytes_eq bytes_le
    needs_upgrade
muse_is_muse = refl

muse_needs_none : needs_upgrade muse_parts.0.environment muse_parts.0.revision ≡ false
unfolding parse from_value parse_json value by_first literal number integer whole_digits digit_run
    in_range digits_value is_seen skip_space str str_loop unescape escaped_rune low_half hex4
    hex_digit write_rune valid_from is_empty closed_object string_member enum_member one_of_texts
    only_allowed has_required get matches_identifier name_tail before_dot windows_reserved
    is_identifier is_lock_hash hex_bytes has_byte segments any_text is_absolute_path rune_count
    has_blank is_flag_token has_bytes_prefix is_reserved_name name_of companion_flags companions_of
    flag_channel channel channel_list same_texts same_channel same_channels prompt_registry
    mcp_registry environment_of permissions_at permissions_of profile_of precedence_of env_entries
    env_at trim_suffix home shares_home env_of root_context_of overrides_of credential_store_at
    credential_store_of v4_policy system_prompt_at system_prompt_of env_name_list mcp_at mcp_of
    trim_slashes before_slash environments_root path_prepend_of home_variable bytes_eq bytes_le
    needs_upgrade
muse_needs_none = refl

parse-muse_upgraded_example :
    (is_v4 muse_parts.0.revision ≡ true)
    × ((c : CredentialStore) × (muse_parts.0.credential_store ≡ some c)
        × (is_text c.selection "file" ≡ true))
    × (muse_parts.0.system_prompt ≡ none)
    × (muse_parts.0.mcp ≡ none)
parse-muse_upgraded_example =
    parse-muse_upgraded no_hash muse_text muse_parts.0 muse_parts.1 muse_parts.2
      (done-parts muse_outcome muse_accepted) muse_is_muse muse_needs_none
