-- ===== src/Execution.antt =====
-- internal/execution/permission.go, `ResolvePermission`: the permission mode of a launch.
pub mod Mode
use curator_agent_launcher.Base.{
  is_text, Bool, true, false, not, ◌&&◌, ◌||◌, Option, none, some, if◌then◌else◌, String, Bytes,
  codes,
}
use curator_agent_launcher.Tried.{Tried, granted, denied}
use curator_agent_launcher.Fragment.Value.{}

-- `fragment.Permissions`.
pub record Permissions : Type 0 where
  pub mode : Bytes
  pub locked : Bool
  pub source : Bytes

-- `PermissionRequest`; an absent flag or default is `none`.
pub record PermissionRequest : Type 0 where
  pub flag : Option Bytes
  pub profile : Option Permissions
  pub global : Option Bytes
  pub headless : Bool
  pub transport : Bool

pub record PermissionDecision : Type 0 where
  pub mode : Bytes
  pub source : String

-- The codes of `PermissionError`.
pub data PermissionFault : Type 0 where
  yolo_under_lock transport_unsupported : PermissionFault

abbrev pub is_yolo : Option Bytes → Bool
is_yolo none = false
is_yolo (some m) = is_text m "yolo"

abbrev pub has_value : Option Bytes → Bool
has_value none = false
has_value (some m) = true

abbrev pub profile_locked : Option Permissions → Bool
profile_locked none = false
profile_locked (some p) = p.locked

-- Under a lock.
unfoldable pub locked_decision : PermissionRequest → Tried PermissionFault PermissionDecision
locked_decision req =
    if is_yolo req.flag || is_yolo req.global
    then denied yolo_under_lock
    else if has_value req.flag
    then granted (record { mode = codes "native"; source = "flag" })
    else if has_value req.global
    then granted (record { mode = codes "native"; source = "global" })
    else granted (record { mode = codes "native"; source = "default-headless" })

abbrev pub global_choice : Option Bytes → PermissionDecision
global_choice (some m) = record { mode = m; source = "global" }
global_choice none = record { mode = codes "yolo"; source = "default-interactive" }

abbrev pub profile_choice : Option Permissions → Option Bytes → PermissionDecision
profile_choice none global = global_choice global
profile_choice (some p) global =
    if is_text p.source "profile"
    then record { mode = p.mode; source = "profile" }
    else global_choice global

-- The switch of the unlocked case.
unfoldable pub choice : PermissionRequest → PermissionDecision
choice req = elim req.flag [
  | some m ↦ record { mode = m; source = "flag" }
  | none ↦ profile_choice req.profile req.global
]

abbrev pub transported : Bool → PermissionDecision → Tried PermissionFault PermissionDecision
transported transport d =
    if is_text d.mode "yolo" && not transport then denied transport_unsupported else granted d

unfoldable pub resolve_permission : PermissionRequest → Tried PermissionFault PermissionDecision
resolve_permission req =
    if profile_locked req.profile
    then locked_decision req
    else transported req.transport (choice req)
