-- ===== src/SessionManager/LeaseJournal.antt =====
-- internal/sessionmanager/client/lease_journal_unix.go: `updateLease`, `settleLease` and
-- `validateLeaseCorrelation`. The raw request is a text, and is compared as one. A nil and
-- an empty slice are one list here; `reflect.DeepEqual`, which compares the members that may not change,
-- tells them apart.
pub mod Phases
use curator_agent_launcher.Base.{
  ℕ, ◌+◌, Bool, true, false, not, ◌&&◌, ◌||◌, ltb, Option, none, some, List, [], ◌∷◌, if◌then◌else◌,
  String, str_eq,
}
use Prim.Native.String.{◌++◌ as str_append}
use curator_agent_launcher.Tried.{Tried, granted, denied, ◌>>=◌}
use curator_agent_launcher.SessionManager.Routes.{Refusal, refusal}
use curator_agent_launcher.SessionManager.Store.{Binding, binding_eq}
use curator_agent_launcher.SessionManager.Pending.{
  Pending, PendingFile, pending, invalid, clear_terminal,
}
use curator_agent_launcher.SessionManager.HomeLease.{
  LeaseAdmission, LeaseRecord, PreparedHolder, same_holder, same_texts,
}

abbrev pub Admitted : Type 0
Admitted = Pending String LeaseAdmission

-- Two admissions but for their records.
unfoldable pub same_admission : LeaseAdmission → LeaseAdmission → Bool
same_admission a b =
    str_eq a.request_id b.request_id
    && str_eq a.route b.route
    && str_eq a.environment b.environment
    && str_eq a.lock_sha256 b.lock_sha256
    && same_holder a.holder b.holder
    && same_texts a.capabilities b.capabilities
    && same_texts a.operations b.operations

-- `reflect.DeepEqual`, behind the phases and the records being cleared; the leases come apart.
unfoldable pub same_but_phase : Admitted → Admitted → Bool
same_but_phase a b =
    str_eq a.cwd b.cwd
    && str_eq a.request b.request
    && str_eq a.profile b.profile
    && str_eq a.operation_id b.operation_id
    && str_eq a.kind b.kind
    && str_eq a.submitted_at b.submitted_at
    && str_eq a.admission_key b.admission_key
    && binding_eq a.manager b.manager

-- The map `phases`, with 0 for a missing key.
unfoldable pub phase_rank : String → ℕ
phase_rank phase =
    if str_eq phase "lease_prepared"
    then 1
    else if str_eq phase "possibly_submitted"
    then 2
    else if str_eq phase "bind_pending"
    then 3
    else 0

-- What `validateLeaseCorrelation` reads of a request.
pub record LeaseRequest : Type 0 where
  pub operation_id : String
  pub submitted_at : String
  pub runtime : String
  pub cwd : String
  pub scope_cwd : String
  pub admission_key : Option String
  pub profile_name : String
  pub profile_lock : String

abbrev pub text_or_empty : Option String → String
text_or_empty none = ""
text_or_empty (some s) = s

-- The holder's lane is the one of the admission key.
unfoldable pub lane_matches : String → Option String → Bool
lane_matches key none = str_eq key ""
lane_matches key (some w) = not (str_eq key "") && str_eq key (str_append "werkstatt:" w)

unfoldable pub record_matches : Admitted → LeaseAdmission → Option LeaseRecord → Bool
record_matches p l none = str_eq p.phase "lease_requested"
record_matches p l (some r) =
    str_eq r.environment l.environment
    && str_eq r.profile p.profile
    && str_eq r.lock_sha256 l.lock_sha256
    && same_holder r.holder l.holder
    && str_eq r.phase "prepared"

abbrev pub request_cwd : Admitted → LeaseRequest → String
request_cwd p q = if str_eq p.kind "resume" then q.scope_cwd else q.cwd

-- `validate` is `ValidateRequest`, `read` the reading of a request, and `is_clean` whether a path is
-- absolute and clean.
module _ (validate : String → String → Bool) (read : String → Option LeaseRequest)
    (is_clean : String → Bool) where
  unfoldable pub lease_matches : Admitted → LeaseAdmission → LeaseRequest → Bool
  lease_matches p l q =
      str_eq (request_cwd p q) p.cwd
      && is_clean p.cwd
      && str_eq q.operation_id p.operation_id
      && str_eq q.submitted_at p.submitted_at
      && str_eq (text_or_empty q.admission_key) p.admission_key
      && str_eq q.runtime l.environment
      && str_eq q.profile_name p.profile
      && str_eq q.profile_lock l.lock_sha256
      && str_eq l.request_id p.operation_id
      && str_eq l.route "delegated"
      && str_eq l.holder.kind "prepared"
      && str_eq l.holder.launcher "curator-run"
      && str_eq l.holder.request_id l.request_id
      && str_eq l.holder.manager_id p.manager.id
      && str_eq l.holder.manager_registered_at p.manager.registered_at
      && lane_matches p.admission_key l.holder.werkstatt
      && record_matches p l l.record_held

  abbrev pub correlates_with : Admitted → LeaseAdmission → Option LeaseRequest → Bool
  correlates_with p l none = false
  correlates_with p l (some q) = lease_matches p l q

  abbrev pub correlates_lease : Admitted → Option LeaseAdmission → Bool
  correlates_lease p none = str_eq p.phase ""
  correlates_lease p (some l) = validate p.kind p.request && correlates_with p l (read p.request)

  -- `validateLeaseCorrelation`.
  unfoldable pub validate_lease_correlation : Admitted → Bool
  validate_lease_correlation p = correlates_lease p p.lease

-- `id` and `plain` are those of the transaction; `valid` is the check against the published schema and
-- `correlated` that of the lease against its request.
module _ (id : String) (plain : Bool) (valid correlated : Admitted → Bool) where
  abbrev pub update_over :
      Bool
      → Admitted
      → Admitted
      → Option LeaseAdmission
      → Option LeaseAdmission
      → Tried Refusal Admitted
  update_over writes p old (some a) (some b) =
      if not (same_but_phase old p && same_admission a b)
      then denied (invalid id plain valid correlated)
      else if ltb (phase_rank p.phase) (phase_rank old.phase)
          || ltb (phase_rank old.phase + 1) (phase_rank p.phase)
      then denied (invalid id plain valid correlated)
      else if not (valid p) || not writes
      then denied (invalid id plain valid correlated)
      else granted p
  update_over writes p old _ _ = denied (invalid id plain valid correlated)

  abbrev pub update_found : Bool → Admitted → Option Admitted → Tried Refusal Admitted
  update_found writes p none = denied (invalid id plain valid correlated)
  update_found writes p (some old) = update_over writes p old old.lease p.lease

  -- `updateLease`: the record that is written; `writes` whether the file can be replaced.
  unfoldable pub update_lease :
      PendingFile String LeaseAdmission → Bool → Admitted → Tried Refusal Admitted
  update_lease file writes p = pending id plain valid correlated file >>= update_found writes p

  -- `settleLease`; `owned` whether both directories are owned, `kept` whether the evidence meets its
  -- schema and is written.
  unfoldable pub settle_lease :
      Bool
      → Bool
      → Bool
      → Bool
      → Bool
      → PendingFile String LeaseAdmission
      → Admitted
      → String
      → PendingFile String LeaseAdmission × Tried Refusal (Unit {0})
  settle_lease owned kept removes syncs restores file p outcome =
      if not owned || not kept
      then (file, denied (invalid id plain valid correlated))
      else clear_terminal id plain valid correlated removes syncs restores file p.operation_id
          outcome
