-- ===== src/SessionManager/Reconciler.antt =====
-- internal/sessionmanager/client/reconcile_unix.go: `Submit`, `Recover` and `ReconcilePlain`. The
-- manager is the list of the replies that it gives before the deadline; where the list is over, the
-- deadline is. The calls are recorded, the last one first.
pub mod Exchange
pub mod Conversation
pub mod Follows
pub mod Leases
pub mod Durable
pub mod Launches
pub use curator_agent_launcher.SessionManager.Reconciler.Exchange.{
  Session, Outcome, Reply, Call, Settled, Verdict, own_session, unresolved, unavailable, Answer,
  failure, Entry, Correlation, operation_unresolved, plain_answer, first_reply, failed_call,
  session_reply, outcome_reply, no_reply, start_call, status_call, cancel_call, started, failed,
  cancelled, give_up, settle, cancel_it, ask_again,
}
unfoldable pub use curator_agent_launcher.SessionManager.Reconciler.Exchange.{
  judge, plain_loop, reconcile_plain, registered,
}
use curator_agent_launcher.Base.{
  Bool, true, false, not, ◌&&◌, ◌||◌, Option, none, some, List, [], ◌∷◌, if◌then◌else◌, String,
  str_eq, ℕ,
}
use curator_agent_launcher.Tried.{Tried, granted, denied}
use curator_agent_launcher.SessionManager.Routes.{Refusal, refusal}
use curator_agent_launcher.SessionManager.Store.{
  Binding, Liveness, Expected, expected_of, compare_and_swap, liveness,
}
use curator_agent_launcher.SessionManager.Store
use curator_agent_launcher.SessionManager.Pending.{
  Pending, PendingFile, pending, write_pending, clear_terminal,
}

-- The files of a workplace and the calls so far.
pub record World (Request Lease : Type 0) : Type 0 where
  pub pending : PendingFile Request Lease
  pub live : Store.File
  pub calls : List Call

-- The disk: whether the pending operation and the record can be written, and the former removed, its
-- directory synchronised, and it written again.
pub record Disk : Type 0 where
  pub writes : Bool
  pub swaps : Bool
  pub removes : Bool
  pub syncs : Bool
  pub restores : Bool

abbrev pub has_lease : {Request Lease : Type 0} → Pending Request Lease → Bool
has_lease p = elim p.lease [ none ↦ false | some l ↦ true ]

-- What a reconciler works with: `id` and `plain` are the transaction's; `now` is the clock;
-- `valid_pending`, `correlated` and `valid_live` are the checks of the two files; `validate` and
-- `correlation` read a request; `run_leased` is the recovery of an operation with a lease, and
-- `settle_leased` the end of one.
pub record Setting (Request Lease : Type 0) : Type 0 where
  pub id : String
  pub plain : Bool
  pub now : String
  pub valid_pending : Pending Request Lease → Bool
  pub correlated : Pending Request Lease → Bool
  pub valid_live : Liveness → Bool
  pub disk : Disk
  pub registry : List (String × Entry)
  pub validate : String → Request → Tried Refusal (Unit {0})
  pub correlation : Request → Option Correlation
  pub run_leased : Pending Request Lease → World Request Lease → World Request Lease × Answer
  pub settle_leased :
      Pending Request Lease → Settled → World Request Lease → World Request Lease × Answer

module _ {Request Lease : Type 0} (h : Setting Request Lease) where
  -- `owner`: whether the registry still names the manager of the operation.
  abbrev pub owned_by : Pending Request Lease → Option Entry → Tried Refusal (Unit {0})
  owned_by p none = denied (operation_unresolved "manager_missing" p.operation_id)
  owned_by p (some e) =
      if not (str_eq e.executable p.manager.executable)
        || (has_lease p && not (str_eq e.registered_at p.manager.registered_at))
      then denied (operation_unresolved "manager_changed" p.operation_id)
      else granted tt

  unfoldable pub owner : Pending Request Lease → Tried Refusal (Unit {0})
  owner p = owned_by p (registered p.manager.id h.registry)

  abbrev pub calling : Call → World Request Lease → World Request Lease
  calling c w = record w { calls = c ∷ w.calls }

  -- The record of a started session.
  unfoldable pub session_record : Pending Request Lease → Session → Liveness
  session_record p s = record {
    profile = p.profile;
    id = h.id;
    state = s.state;
    manager = p.manager;
    operation_id = some p.operation_id;
    state_source = "manager";
    session = s.session;
    generation = s.generation;
    started_at = s.started_at;
    last_heartbeat_at = h.now;
    last_activity_at = s.last_activity_at;
    doorbell = s.doorbell_state;
    doorbell_uncertain = s.doorbell_uncertain;
    current_task = none;
    queue_depth = 0;
    abandoned_operations = [];
  }

  -- The end of `finish`: a lease has its own, and otherwise the pending operation is cleared.
  abbrev pub cleared :
      PendingFile Request Lease × Tried Refusal (Unit {0})
      → Answer
      → World Request Lease
      → World Request Lease × Answer
  cleared (f, granted u) a w = (record w { pending = f }, a)
  cleared (f, denied r) a w = (record w { pending = f }, record a { error = some r })

  unfoldable pub close :
      Pending Request Lease
      → Settled
      → String
      → Answer
      → World Request Lease
      → World Request Lease × Answer
  close p s outcome a w =
      if has_lease p
      then h.settle_leased p s w
      else cleared
          (clear_terminal h.id h.plain h.valid_pending h.correlated h.disk.removes h.disk.syncs
            h.disk.restores w.pending p.operation_id outcome)
          a w

  abbrev pub write_failed : Session → Answer
  write_failed s = record {
    session = some s;
    error = some (refusal "werkstatt_liveness_write_failed" (("session", s.session) ∷ []));
  }

  abbrev pub after_swap :
      Pending Request Lease
      → Session
      → World Request Lease
      → Tried Refusal (Option Liveness)
      → World Request Lease × Answer
  after_swap p s w (denied r) = (w, write_failed s)
  after_swap p s w (granted none) = (w, write_failed s)
  after_swap p s w (granted (some l)) =
      close p (started s) "started" (plain_answer (started s)) (record w { live = Store.holds l })

  -- `finish`.
  unfoldable pub finish :
      Pending Request Lease
      → Expected
      → Settled
      → World Request Lease
      → World Request Lease × Answer
  finish p expected (started s) w =
      if h.plain
      then close p (started s) "started" (plain_answer (started s)) w
      else after_swap p s w (
          compare_and_swap h.id h.valid_live h.disk.swaps false w.live expected
            (session_record p s))
  finish p expected (failed code) w = close p (failed code) "failed" (plain_answer (failed code)) w
  finish p expected cancelled w = close p cancelled "cancelled" (plain_answer cancelled) w

  -- The loop of `recoverOwned`, behind a reply.
  unfoldable pub recover_loop :
      Pending Request Lease
      → Expected
      → Reply
      → List Reply
      → World Request Lease
      → World Request Lease × Answer
  recover_loop p expected reply [] w = elim (judge p.operation_id reply) [
    | settle s ↦ finish p expected s w
    | give_up ↦ (w, failure (unresolved p.operation_id))
    | cancel_it ↦ (calling (cancel_call p.operation_id) w, failure (unresolved p.operation_id))
    | ask_again ↦ (w, failure (unresolved p.operation_id))
  ]
  recover_loop p expected reply (next ∷ replies) w = elim (judge p.operation_id reply) [
    | settle s ↦ finish p expected s w
    | give_up ↦ (w, failure (unresolved p.operation_id))
    | cancel_it ↦ recover_loop p expected next replies (calling (cancel_call p.operation_id) w)
    | ask_again ↦ recover_loop p expected next replies (calling (status_call p.operation_id) w)
  ]

  abbrev pub recover_from :
      Pending Request Lease
      → List Reply
      → World Request Lease
      → Tried Refusal (Option Liveness)
      → World Request Lease × Answer
  recover_from p replies w (denied r) = (w, failure r)
  recover_from p replies w (granted live) =
      let (r, rs) = first_reply replies in
      recover_loop p (expected_of live) r rs (calling (status_call p.operation_id) w)

  -- `recoverOwned`.
  unfoldable pub recover_owned :
      Pending Request Lease → List Reply → World Request Lease → World Request Lease × Answer
  recover_owned p replies w =
      recover_from p replies w (liveness h.id h.valid_live h.disk.swaps w.live)

  -- Behind the owner.
  abbrev pub recover_by :
      Pending Request Lease
      → List Reply
      → World Request Lease
      → Tried Refusal (Unit {0})
      → World Request Lease × Answer
  recover_by p replies w (denied r) = (w, failure r)
  recover_by p replies w (granted u) = recover_owned p replies w

  -- Behind the pending operation.
  abbrev pub recover_pending :
      List Reply
      → World Request Lease
      → Tried Refusal (Option (Pending Request Lease))
      → World Request Lease × Answer
  recover_pending replies w (denied r) = (w, failure r)
  recover_pending replies w (granted none) = (w, record { session = none; error = none })
  recover_pending replies w (granted (some p)) =
      if has_lease p then h.run_leased p w else recover_by p replies w (owner p)

  -- `Recover`.
  unfoldable pub recover : List Reply → World Request Lease → World Request Lease × Answer
  recover replies w =
      recover_pending replies w (pending h.id h.plain h.valid_pending h.correlated w.pending)

  abbrev pub correlates : Correlation → Pending Request Lease → Bool
  correlates c p =
      str_eq c.operation_id p.operation_id
      && (str_eq c.submitted_at p.submitted_at && str_eq c.admission_key p.admission_key)

  -- Behind the reply to the launch.
  unfoldable pub launched :
      Pending Request Lease
      → Expected
      → Reply
      → List Reply
      → World Request Lease
      → World Request Lease × Answer
  launched p expected (failed_call r) replies w =
      if str_eq r.code "session_host_unavailable" || str_eq r.code "session_host_protocol_error"
      then recover replies w
      else cleared
          (clear_terminal h.id h.plain h.valid_pending h.correlated h.disk.removes h.disk.syncs
            h.disk.restores w.pending p.operation_id "failed")
          (failure r) w
  launched p expected (session_reply s) replies w =
      if str_eq s.operation_id p.operation_id
      then finish p expected (started s) w
      else recover replies w
  launched p expected (outcome_reply o) replies w = recover replies w
  launched p expected no_reply replies w = recover replies w

  -- Behind the write of the pending operation.
  abbrev pub send :
      Pending Request Lease
      → List Reply
      → World Request Lease
      → Tried Refusal (Option Liveness)
      → World Request Lease × Answer
  send p replies w (denied r) = (w, failure r)
  send p replies w (granted live) =
      let (r, rs) = first_reply replies in
      launched p (expected_of live) r rs (calling (start_call p.operation_id) w)

  abbrev pub written :
      List Reply
      → World Request Lease
      → Tried Refusal (Pending Request Lease)
      → World Request Lease × Answer
  written replies w (denied r) = (w, failure r)
  written replies w (granted p) =
      send p replies (record w { pending = PendingFile.holding p })
        (liveness h.id h.valid_live h.disk.swaps w.live)

  abbrev pub submit_by :
      Pending Request Lease
      → List Reply
      → World Request Lease
      → Tried Refusal (Unit {0})
      → World Request Lease × Answer
  submit_by p replies w (denied r) = (w, failure r)
  submit_by p replies w (granted u) =
      written replies w
        (write_pending h.id h.plain h.valid_pending h.correlated w.pending h.disk.writes p)

  -- The new operation, with the profile that its request names.
  unfoldable pub submit_new :
      Pending Request Lease
      → Option Correlation
      → List Reply
      → World Request Lease
      → World Request Lease × Answer
  submit_new p none replies w = (w, failure (refusal "launch_plan_invalid" []))
  submit_new p (some c) replies w =
      if not (correlates c p)
      then (w, failure (refusal "launch_plan_invalid" []))
      else submit_by (record p { profile = c.profile }) replies w
          (owner (record p { profile = c.profile }))

  abbrev pub submit_valid :
      Pending Request Lease
      → Request
      → List Reply
      → World Request Lease
      → Tried Refusal (Unit {0})
      → World Request Lease × Answer
  submit_valid p request replies w (denied r) = (w, failure r)
  submit_valid p request replies w (granted u) = submit_new p (h.correlation request) replies w

  abbrev pub submit_pending :
      Pending Request Lease
      → Request
      → List Reply
      → World Request Lease
      → Tried Refusal (Option (Pending Request Lease))
      → World Request Lease × Answer
  submit_pending p request replies w (denied r) = (w, failure r)
  submit_pending p request replies w (granted (some existing)) = recover replies w
  submit_pending p request replies w (granted none) =
      submit_valid p request replies w (h.validate p.kind request)

  -- `Submit`.
  unfoldable pub submit :
      Pending Request Lease
      → Request
      → List Reply
      → World Request Lease
      → World Request Lease × Answer
  submit p request replies w =
      submit_pending p request replies w
        (pending h.id h.plain h.valid_pending h.correlated w.pending)
