-- ===== src/SessionManager/HomeLease.antt =====
-- internal/sessionmanager/client/homelease_unix.go: the records of home leases, what `Acquire` takes from
-- a reply of the lease tool, and `Allocation`. What stands in `Process` is only compared, as a text.
pub mod Exclusive
use curator_agent_launcher.Base.{
  ℕ, Bool, true, false, not, ◌&&◌, ◌||◌, ◌==◌, Option, none, some, List, [], ◌∷◌, if◌then◌else◌,
  String, str_eq,
}
use curator_agent_launcher.Tried.{Tried, granted, denied}
use curator_agent_launcher.SessionManager.Routes.{Refusal, lease_failure}
use curator_agent_launcher.SessionManager.Pending.{Pending}

pub record PreparedHolder : Type 0 where
  pub kind : String
  pub launcher : String
  pub manager_id : String
  pub manager_registered_at : String
  pub request_id : String
  pub werkstatt : Option String
  pub session : Option String
  pub generation : Option ℕ
  pub process : Option String

pub record LeaseRecord : Type 0 where
  pub kind : String
  pub lease_id : String
  pub manager_root_id : String
  pub home_id : String
  pub environment : String
  pub profile : String
  pub lock_sha256 : String
  pub revision : ℕ
  pub phase : String
  pub acquired_at : String
  pub holder : PreparedHolder
  pub observed_state : String
  pub observed_at : Option String

pub record LeaseAdmission : Type 0 where
  pub request_id : String
  pub route : String
  pub environment : String
  pub lock_sha256 : String
  pub holder : PreparedHolder
  pub capabilities : List String
  pub operations : List String
  pub record_held : Option LeaseRecord

-- `reflect.DeepEqual` on pointers to values that are compared so.
abbrev pub same_option : {A : Type 0} → (A → A → Bool) → Option A → Option A → Bool
same_option same none none = true
same_option same (some a) (some b) = same a b
same_option same _ _ = false

unfoldable pub same_texts : List String → List String → Bool
same_texts [] [] = true
same_texts (s ∷ ss) (t ∷ ts) = str_eq s t && same_texts ss ts
same_texts _ _ = false

abbrev pub same_number : ℕ → ℕ → Bool
same_number a b = a == b

unfoldable pub same_holder : PreparedHolder → PreparedHolder → Bool
same_holder a b =
    str_eq a.kind b.kind
    && str_eq a.launcher b.launcher
    && str_eq a.manager_id b.manager_id
    && str_eq a.manager_registered_at b.manager_registered_at
    && str_eq a.request_id b.request_id
    && same_option str_eq a.werkstatt b.werkstatt
    && same_option str_eq a.session b.session
    && same_option same_number a.generation b.generation
    && same_option str_eq a.process b.process

abbrev pub protocol_error : Refusal
protocol_error = lease_failure "curator_lease_protocol_error"

unfoldable pub blocking : LeaseRecord → Bool
blocking r = str_eq r.phase "prepared" || str_eq r.phase "active" || str_eq r.phase "unknown"

abbrev pub of_home : LeaseRecord → Option LeaseRecord → Bool
of_home r none = false
of_home r (some held) =
    str_eq r.manager_root_id held.manager_root_id && str_eq r.home_id held.home_id

abbrev pub holds_record : Option LeaseRecord → Bool
holds_record none = false
holds_record (some r) = true

abbrev pub in_lane : PreparedHolder → Bool
in_lane h = elim h.werkstatt [ none ↦ false | some w ↦ true ]

unfoldable pub same_lane : PreparedHolder → PreparedHolder → Bool
same_lane a b = same_option str_eq a.werkstatt b.werkstatt

-- The record is of the environment and the profile of the admission.
abbrev pub selected : LeaseAdmission → String → LeaseRecord → Bool
selected l profile r = str_eq r.environment l.environment && str_eq r.profile profile

-- One round of the loop of `Allocation` finds a conflict.
unfoldable pub conflicts : LeaseAdmission → String → LeaseRecord → Bool
conflicts l profile r =
    (of_home r l.record_held || selected l profile r) && not (same_lane r.holder l.holder)
    || in_lane l.holder
      && same_lane r.holder l.holder
      && (not (selected l profile r)
          || not (str_eq r.lock_sha256 l.lock_sha256)
          || holds_record l.record_held && not (of_home r l.record_held))

unfoldable pub allocation : List LeaseRecord → LeaseAdmission → String → Tried Refusal (Unit {0})
allocation [] l profile = granted tt
allocation (r ∷ records) l profile =
    if not (blocking r)
    then allocation records l profile
    else if conflicts l profile r
    then denied (lease_failure "allocation_conflict")
    else allocation records l profile

-- What `call` returned for `acquire`: the reason and the lease.
pub record Acquired : Type 0 where
  pub reason : String
  pub lease : Option LeaseRecord

-- The reply is about the lease that was asked for.
unfoldable pub answers : Pending String LeaseAdmission → LeaseAdmission → LeaseRecord → Bool
answers p l r =
    str_eq r.environment l.environment
    && str_eq r.profile p.profile
    && str_eq r.lock_sha256 l.lock_sha256
    && str_eq r.holder.request_id l.request_id
    && str_eq r.holder.manager_id p.manager.id
    && str_eq r.holder.manager_registered_at p.manager.registered_at
    && same_lane r.holder l.holder

abbrev pub same_lease : LeaseRecord → Option LeaseRecord → Bool
same_lease r none = true
same_lease r (some held) =
    str_eq r.lease_id held.lease_id
    && str_eq r.manager_root_id held.manager_root_id
    && str_eq r.home_id held.home_id

abbrev pub acquire_record :
    Pending String LeaseAdmission
    → LeaseAdmission
    → String
    → Option LeaseRecord
    → Tried Refusal (LeaseRecord × String)
acquire_record p l reason none = denied protocol_error
acquire_record p l reason (some r) =
    if not (answers p l r) || not (same_lease r l.record_held)
    then denied protocol_error
    else if str_eq reason "already_released" || str_eq reason "already_broken"
    then granted (r, reason)
    else if not (str_eq reason "acquired")
        || not (str_eq r.phase "prepared")
        || not (same_holder r.holder l.holder)
    then denied protocol_error
    else granted (r, reason)

-- `Acquire`, behind the call of the lease tool.
unfoldable pub acquire :
    Pending String LeaseAdmission
    → LeaseAdmission
    → Tried Refusal Acquired
    → Tried Refusal (LeaseRecord × String)
acquire p l (denied e) = denied e
acquire p l (granted a) = acquire_record p l a.reason a.lease
