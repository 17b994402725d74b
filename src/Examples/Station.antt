-- ===== src/Examples/Station.antt =====
-- The Werkstatt commands: tests, and the theorem at a concrete input.
use curator_agent_launcher.Base.{
  String, refl, ◌≡◌, true, some, List, [], ◌∷◌, has_prefix, member_of,
}
use curator_agent_launcher.Tried.{granted, denied}
use curator_agent_launcher.Cli.Flags.{all_chars, count_chars}
use curator_agent_launcher.Cli.Station.{
  Command, blank, update, list, status, recover, down, bad, bad_depth, list_with_id, wrong_action,
  nothing_to_recover, needs_value, unknown_action, given_twice, parse_command, completed,
  parse_words, store_value, plain_flag, operand, depth_of, digits, dispatch_value, valid_id,
  action_of,
}
use curator_agent_launcher.Cli.Station.Admissible.{IsAdmissible, parse_command-IsAdmissible}

abbrev line : List String
line = "update" ∷ "w-1" ∷ "--set-task" ∷ "T-9" ∷ "--queue-depth" ∷ "+12" ∷ "--json" ∷ []

abbrev updated : Command
updated = record (blank update) {
  id = "w-1";
  set_task = true;
  task = some "T-9";
  queue_depth = some 12;
  json = true;
}

test_update : parse_command line ≡ granted updated
unfolding parse_command completed parse_words store_value plain_flag operand depth_of digits
    dispatch_value valid_id action_of all_chars count_chars has_prefix member_of
test_update = refl

test_commands :
    (parse_command ("status" ∷ []) ≡ granted (blank status))
    × (parse_command ("list" ∷ "w1" ∷ []) ≡ denied (bad list list_with_id))
    × (parse_command ("down" ∷ "w1" ∷ "--attach" ∷ [])
        ≡ denied (bad down (wrong_action "--attach")))
    × (parse_command ("update" ∷ "w1" ∷ "--queue-depth" ∷ "-1" ∷ [])
        ≡ denied (bad update bad_depth))
    × (parse_command ("update" ∷ "w1" ∷ "--set-task" ∷ "--json" ∷ [])
        ≡ denied (bad update (needs_value "--set-task")))
    × (parse_command ("list" ∷ "--json" ∷ "--json" ∷ []) ≡ denied (bad list (given_twice "--json")))
    × (parse_command ("recover" ∷ "w1" ∷ []) ≡ denied (bad recover nothing_to_recover))
    × (parse_command ("start" ∷ []) ≡ denied unknown_action)
unfolding parse_command completed parse_words store_value plain_flag operand depth_of digits
    dispatch_value valid_id action_of all_chars count_chars has_prefix member_of
test_commands = (refl, refl, refl, refl, refl, refl, refl, refl)

parse_command-IsAdmissible_example : IsAdmissible updated
parse_command-IsAdmissible_example = parse_command-IsAdmissible line updated test_update
