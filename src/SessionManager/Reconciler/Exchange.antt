-- ===== src/SessionManager/Reconciler/Exchange.antt =====
-- internal/sessionmanager/client/reconcile_unix.go: the replies of a manager, what they mean, and the
-- loop of `ReconcilePlain`.
use curator_agent_launcher.Base.{
  Bool, ◌||◌, Option, none, some, List, [], ◌∷◌, if◌then◌else◌, String, str_eq, ℕ,
}
use curator_agent_launcher.SessionManager.Routes.{Refusal, refusal}

-- The members of `Session` that are read.
pub record Session : Type 0 where
  pub session : String
  pub operation_id : String
  pub state : String
  pub generation : ℕ
  pub started_at : String
  pub last_activity_at : Option String
  pub doorbell_state : String
  pub doorbell_uncertain : Bool

pub record Outcome : Type 0 where
  pub outcome : String
  pub session : Option Session
  pub code : String

-- What a call returns: an error with its code, a session, an outcome, or none of these.
pub data Reply : Type 0 where
  failed_call : Refusal → Reply
  session_reply : Session → Reply
  outcome_reply : Outcome → Reply
  no_reply : Reply

-- A call of the manager, on an operation.
pub data Call : Type 0 where
  start_call status_call cancel_call : String → Call

-- An outcome that `finish` settles.
pub data Settled : Type 0 where
  started : Session → Settled
  failed : String → Settled
  cancelled : Settled

-- What a reply means for the loop: give up, settle, cancel the operation, or wait and ask again.
pub data Verdict : Type 0 where
  give_up : Verdict
  settle : Settled → Verdict
  cancel_it : Verdict
  ask_again : Verdict

-- A session of the operation itself.
abbrev pub own_session : String → Option Session → Verdict
own_session op none = give_up
own_session op (some s) = if str_eq s.operation_id op then settle (started s) else give_up

-- The switch of both loops.
unfoldable pub judge : String → Reply → Verdict
judge op (outcome_reply o) =
    if str_eq o.outcome "started"
    then own_session op o.session
    else if str_eq o.outcome "failed"
    then settle (failed o.code)
    else if str_eq o.outcome "cancelled"
    then settle cancelled
    else if str_eq o.outcome "not_found" || str_eq o.outcome "prepared"
    then cancel_it
    else if str_eq o.outcome "admitted"
    then ask_again
    else give_up
judge op (failed_call r) = give_up
judge op (session_reply s) = give_up
judge op no_reply = give_up

abbrev pub unresolved : String → Refusal
unresolved op = refusal "session_liveness_unknown" (("operation", op) ∷ [])

abbrev pub unavailable : String → Refusal
unavailable reason = refusal "session_host_unavailable" (("reason", reason) ∷ [])

-- The two results of a method.
pub record Answer : Type 0 where
  pub session : Option Session
  pub error : Option Refusal

abbrev pub failure : Refusal → Answer
failure r = record { session = none; error = some r }

-- `Entry`, as far as it is compared.
pub record Entry : Type 0 where
  pub executable : String
  pub registered_at : String

pub record Correlation : Type 0 where
  pub operation_id : String
  pub submitted_at : String
  pub admission_key : String
  pub profile : String

unfoldable pub registered : String → List (String × Entry) → Option Entry
registered id [] = none
registered id ((j, e) ∷ registry) = if str_eq j id then some e else registered id registry

abbrev pub operation_unresolved : String → String → Refusal
operation_unresolved reason op =
    refusal "werkstatt_operation_unresolved" (("reason", reason) ∷ ("operation", op) ∷ [])

-- `ReconcilePlain`, behind a reply.
abbrev pub plain_answer : Settled → Answer
plain_answer (started s) = record { session = some s; error = none }
plain_answer (failed code) = failure (refusal code [])
plain_answer cancelled = failure (unavailable "cancelled")

unfoldable pub plain_loop : String → Reply → List Reply → Answer
plain_loop op reply [] = elim (judge op reply) [
  | settle s ↦ plain_answer s
  | give_up ↦ failure (unresolved op)
  | cancel_it ↦ failure (unresolved op)
  | ask_again ↦ failure (unresolved op)
]
plain_loop op reply (next ∷ replies) = elim (judge op reply) [
  | settle s ↦ plain_answer s
  | give_up ↦ failure (unresolved op)
  | cancel_it ↦ plain_loop op next replies
  | ask_again ↦ plain_loop op next replies
]

-- The reply to a first call, and the replies behind it.
abbrev pub first_reply : List Reply → Reply × List Reply
first_reply [] = (no_reply, [])
first_reply (r ∷ rs) = (r, rs)

unfoldable pub reconcile_plain : String → List Reply → Answer
reconcile_plain op replies = let (r, rs) = first_reply replies in plain_loop op r rs
