-- ===== src/Examples/Manager.antt =====
-- The session manager commands: tests, and the theorem at a concrete input.
use curator_agent_launcher.Base.{String, refl, ◌≡◌, true, List, [], ◌∷◌, has_prefix, member_of}
use curator_agent_launcher.Tried.{granted, denied}
use curator_agent_launcher.Cli.Flags.{all_chars, count_chars, cut_prefix}
use curator_agent_launcher.Cli.Manager.{
  Command, blank, fail, json_twice, manifest_value, bad_id, scope_twice, unknown_operation,
  parse_session_manager, register, register_flags, show_manager, list_managers, observe,
  observe_flags, filter_scope, is_handle, valid_id,
}
use curator_agent_launcher.Cli.Manager.Shape.{IsCommand, parse_session_manager-IsCommand}

abbrev registration : Command
registration = record (blank "register") { manifest = "-"; scope = "user"; select = true }

abbrev line : List String
line = "register" ∷ "--select" ∷ "--manifest" ∷ "-" ∷ "--scope" ∷ "user" ∷ []

test_register : parse_session_manager line ≡ granted registration
unfolding parse_session_manager register register_flags member_of has_prefix
test_register = refl

test_commands :
    (parse_session_manager ("use" ∷ "--scope" ∷ "system" ∷ "m-1" ∷ [])
      ≡ granted (record (blank "use") { id = "m-1"; scope = "system" }))
    × (parse_session_manager ("observe" ∷ "m1" ∷ "--json" ∷ "--session" ∷ "SES-a1" ∷ [])
        ≡ granted (record (blank "observe") { id = "m1"; session = "SES-a1"; json = true }))
    × (parse_session_manager ("list" ∷ "--json" ∷ [])
        ≡ granted (record (blank "list") { json = true }))
    × (parse_session_manager ("observe" ∷ "m1" ∷ "--json" ∷ "--json" ∷ [])
        ≡ denied (fail "observe" json_twice))
    × (parse_session_manager ("show" ∷ "-m" ∷ []) ≡ denied (fail "show" bad_id))
    × (parse_session_manager ("register" ∷ "--manifest" ∷ "--select" ∷ [])
        ≡ denied (fail "register" manifest_value))
    × (parse_session_manager ("use" ∷ "--scope" ∷ "user" ∷ "m" ∷ "--scope" ∷ [])
        ≡ denied (fail "use" scope_twice))
    × (parse_session_manager ("start" ∷ []) ≡ denied unknown_operation)
unfolding parse_session_manager register register_flags show_manager list_managers observe
    observe_flags filter_scope is_handle valid_id all_chars count_chars cut_prefix member_of
    has_prefix
test_commands = (refl, refl, refl, refl, refl, refl, refl, refl)

parse_session_manager-IsCommand_example : IsCommand registration
parse_session_manager-IsCommand_example =
    parse_session_manager-IsCommand line registration test_register
