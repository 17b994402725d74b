-- ===== src/SessionManager/Pending.antt =====
-- internal/sessionmanager/client/store_unix.go: the pending operation of a workplace, `Pending`,
-- `WritePending` and `clearTerminal`. The lock is held. Records stand for what their JSON says: neither
-- the bytes of the file nor their decoding are modelled.
pub mod SingleFlight
use Prim.Native.String.{◌++◌ as str_append}
use curator_agent_launcher.Base.{
  is_some, Bool, true, false, not, ◌&&◌, ◌||◌, Option, none, some, List, [], ◌∷◌, if◌then◌else◌,
  String, str_eq,
}
use curator_agent_launcher.Tried.{Tried, granted, denied, ◌>>=◌}
use curator_agent_launcher.SessionManager.Routes.{Refusal, refusal}
use curator_agent_launcher.SessionManager.Store.{Binding}

-- `Pending`, over the types of its request and of its lease admission. `Request` stands for the value that
-- the raw request spells: `json.Marshal` drops its white space and escapes its HTML characters, and keeps
-- that value. `MarshalJSON` writes an empty admission key as null for a lease, which is read as empty.
pub record Pending (Request Lease : Type 0) : Type 0 where
  pub phase : String
  pub cwd : String
  pub request : Request
  pub lease : Option Lease
  pub profile : String
  pub operation_id : String
  pub kind : String
  pub submitted_at : String
  pub admission_key : String
  pub manager : Binding

-- What is read: no file, one that cannot be read or decoded as a record, or the record that it spells.
pub data PendingFile (Request Lease : Type 0) : Type 0 where
  absent unreadable : PendingFile Request Lease
  holding : Pending Request Lease → PendingFile Request Lease

unfoldable pub is_terminal : String → Bool
is_terminal outcome =
    str_eq outcome "started"
    || (str_eq outcome "failed"
        || (str_eq outcome "cancelled"
            || (str_eq outcome "not_started" || str_eq outcome "abandoned")))

abbrev pub busy : Refusal
busy = refusal "werkstatt_busy" (("operation", "in_progress") ∷ [])

-- `id` and `plain` are those of the transaction; `valid` is the check against the published schema and
-- `correlated` that of the lease against its request.
module _ {Request Lease : Type 0} (id : String) (plain : Bool)
    (valid correlated : Pending Request Lease → Bool) where
  abbrev pub invalid : Refusal
  invalid = refusal "werkstatt_record_invalid" (("id", id) ∷ [])

  -- `matches`.
  unfoldable pub matches : Pending Request Lease → Bool
  matches p =
      if plain
      then is_some p.lease && (str_eq p.operation_id id && str_eq p.admission_key "")
      else str_eq p.admission_key (str_append "werkstatt:" id)

  abbrev pub is_sound : Pending Request Lease → Bool
  is_sound p = valid p && (matches p && correlated p)

  -- `Pending`.
  unfoldable pub pending :
      PendingFile Request Lease → Tried Refusal (Option (Pending Request Lease))
  pending absent = granted none
  pending unreadable = denied invalid
  pending (holding p) = if is_sound p then granted (some p) else denied invalid

  abbrev pub write_over :
      Bool
      → Pending Request Lease
      → Option (Pending Request Lease)
      → Tried Refusal (Pending Request Lease)
  write_over writes p (some current) = denied busy
  write_over writes p none =
      if not (is_sound p) then denied invalid else if not writes then denied invalid else granted p

  -- `WritePending`: the record that is written; `writes` whether the file can be replaced.
  unfoldable pub write_pending :
      PendingFile Request Lease
      → Bool
      → Pending Request Lease
      → Tried Refusal (Pending Request Lease)
  write_pending file writes p = pending file >>= write_over writes p

  -- The removal of a record: whether it is removed, the directory synchronised and, if not, the record
  -- written again.
  unfoldable pub remove_pending :
      Bool
      → Bool
      → Bool
      → Pending Request Lease
      → PendingFile Request Lease × Tried Refusal (Unit {0})
  remove_pending removes syncs restores p =
      if not removes
      then (holding p, denied invalid)
      else if syncs
      then (absent, granted tt)
      else ((if restores then holding p else absent), denied invalid)

  abbrev pub clear_found :
      Bool
      → Bool
      → Bool
      → String
      → PendingFile Request Lease
      → Tried Refusal (Option (Pending Request Lease))
      → PendingFile Request Lease × Tried Refusal (Unit {0})
  clear_found removes syncs restores op file (denied r) = (file, denied r)
  clear_found removes syncs restores op file (granted none) = (file, denied invalid)
  clear_found removes syncs restores op file (granted (some p)) =
      if str_eq p.operation_id op
      then remove_pending removes syncs restores p
      else (file, denied invalid)

  -- `clearTerminal`: the file behind it, and its result.
  unfoldable pub clear_terminal :
      Bool
      → Bool
      → Bool
      → PendingFile Request Lease
      → String
      → String
      → PendingFile Request Lease × Tried Refusal (Unit {0})
  clear_terminal removes syncs restores file op outcome =
      if not (is_terminal outcome)
      then (file, denied invalid)
      else clear_found removes syncs restores op file (pending file)
