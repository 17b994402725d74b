-- ===== src/Examples/Defaults.antt =====
-- The defaults files and the permission ladder: tests, and the theorems at concrete inputs.
use curator_agent_launcher.Execution.Mode.{
  resolve_permission-unlocked, resolve_permission-yolo, Preferred,
}
use curator_agent_launcher.Defaults.Layers.{
  resolve_refines, resolve-permission_default, IsResolved, value_of,
}
use curator_agent_launcher.Execution.{
  transport_unsupported, locked_decision, choice, profile_locked, resolve_permission,
  PermissionDecision, PermissionRequest,
}
use curator_agent_launcher.Defaults.Loaded.{
  resolve_host-FromFile, no_files, parse_root-IsLoaded, IsLoaded, parsed,
}
use curator_agent_launcher.Base.{
  not, ◌&&◌, is_text, ◌⊎◌, ◌↔◌, ◌≡◌, refl, true, false, none, some, [], ◌∷◌, codes, Bytes, bytes_eq,
}
use curator_agent_launcher.Tried.{granted, denied}
use curator_agent_launcher.Fragment.Value.{
  get, home_variable, Value, string, boolean, object, member, nil, null,
}
use curator_agent_launcher.Defaults.{
  host_withdrawn, set_entry, names_host, pair_member, pair_members, environments, overrides_locked,
  root_member, entry, root_members, resolve_row, schema_of, operator_pair, flag, permission_default,
  resolve, machine, resolve_host, is_locked, parse_root, Pair, empty_pair, File, Files, Partial,
}

abbrev claude : Bytes
claude = codes "claude_code"

abbrev machine_text : Value
machine_text = object (
    member (codes "schema") (string (codes "curator-run-defaults-v2")) (
      member (codes "locked") (boolean true) (
        member (codes "defaults")
          (object (
            member claude
              (object (
                member (codes "permissions") (string (codes "native"))
                  (member (codes "model") (string (codes "m1")) nil)))
              nil))
          nil)))

abbrev machine_file : File
machine_file = record {
  locked = true;
  entries =
      (
        claude,
        record {
          model = some (codes "m1");
          effort = none;
          permissions = some (codes "native");
          host = none;
        },
      )
      ∷ [];
}

test_parse : parse_root machine_text ≡ granted machine_file
unfolding parse_root get schema_of root_members root_member environments pair_members pair_member
    names_host home_variable set_entry bytes_eq
test_parse = refl

abbrev with_host : Value
with_host = object (
    member (codes "schema") (string (codes "curator-run-defaults-v3")) (
      member (codes "defaults")
        (object (member claude (object (member (codes "host") null nil)) nil)) nil))

test_withdrawn : parse_root with_host ≡ denied host_withdrawn
unfolding parse_root get schema_of root_members root_member environments pair_members pair_member
    names_host home_variable set_entry bytes_eq
test_withdrawn = refl

parse_root-IsLoaded_example : IsLoaded machine_file
parse_root-IsLoaded_example = parse_root-IsLoaded machine_text machine_file test_parse

abbrev operator_file : File
operator_file = record {
  locked = false;
  entries =
      (
        claude,
        record empty_pair { effort = some (codes "high"); permissions = some (codes "yolo") },
      )
      ∷ [];
}

abbrev operator_text : Value
operator_text = object (
    member (codes "schema") (string (codes "curator-run-defaults-v2")) (
      member (codes "defaults")
        (object (
          member claude
            (object (
              member (codes "effort") (string (codes "high"))
                (member (codes "permissions") (string (codes "yolo")) nil)))
            nil))
        nil))

test_operator : parse_root operator_text ≡ granted operator_file
unfolding parse_root get schema_of root_members root_member environments pair_members pair_member
    names_host home_variable set_entry bytes_eq
test_operator = refl

abbrev files : Files
files = record { machine = machine_file; operator = operator_file }

resolve_host-FromFile_example :
    resolve_host files claude "--hosted" ≡ resolve_host no_files claude "--hosted"
resolve_host-FromFile_example =
    resolve_host-FromFile files claude "--hosted" (parsed machine_text test_parse)
      (parsed operator_text test_operator)

abbrev flags : Pair
flags = record empty_pair { effort = some (codes "low") }

abbrev resolved : Partial
resolved = record {
  model = some (codes "m1", machine);
  effort = some (codes "low", flag);
  permissions = some (codes "native", machine);
}

test_resolve : resolve files claude flags ≡ granted resolved
unfolding resolve operator_pair resolve_row is_locked entry home_variable bytes_eq
test_resolve = refl

test_locked :
    resolve files claude (record flags { model = some (codes "m2") })
    ≡ denied (overrides_locked "model")
unfolding resolve operator_pair resolve_row is_locked entry home_variable bytes_eq
test_locked = refl

resolve_refines_example :
    (resolve files claude flags ≡ granted resolved) ↔ IsResolved files claude flags resolved
resolve_refines_example = resolve_refines files claude flags resolved

resolve-permission_default_example :
    permission_default files claude ≡ granted (value_of resolved.permissions)
resolve-permission_default_example =
    resolve-permission_default files claude flags resolved refl test_resolve

abbrev request : PermissionRequest
request = record { flag = none; profile = none; global = none; headless = true; transport = true }

abbrev yolo_decision : PermissionDecision
yolo_decision = record { mode = codes "yolo"; source = "default-interactive" }

test_permission : resolve_permission request ≡ granted yolo_decision
unfolding resolve_permission choice locked_decision bytes_eq
test_permission = refl

yolo_is_yolo : is_text (codes "yolo") "yolo" ≡ true
unfolding bytes_eq
yolo_is_yolo = refl

resolve_permission-yolo_example :
    (request.transport ≡ true) × (profile_locked request.profile ≡ false)
resolve_permission-yolo_example =
    resolve_permission-yolo request yolo_decision test_permission yolo_is_yolo

-- The profile speaks before the global default.
abbrev asked : PermissionRequest
asked = record {
  flag = none;
  profile = some (record { mode = codes "native"; locked = false; source = codes "profile" });
  global = some (codes "yolo");
  headless = true;
  transport = false;
}

resolve_permission-unlocked_example :
    (d : PermissionDecision) × Preferred asked d
    × (((resolve_permission asked ≡ granted d)
          × ((is_text d.mode "yolo" && not asked.transport) ≡ false))
        ⊎ ((resolve_permission asked ≡ denied transport_unsupported)
            × (is_text d.mode "yolo" ≡ true)
            × (asked.transport ≡ false)))
resolve_permission-unlocked_example = resolve_permission-unlocked asked refl
