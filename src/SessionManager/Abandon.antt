-- ===== src/SessionManager/Abandon.antt =====
-- internal/sessionmanager/client/store_edit_unix.go: `Abandon`, the operator's end of an operation.
pub mod Final
use curator_agent_launcher.Base.{
  zero, suc, ℕ, ◌-◌, Bool, true, false, not, ltb, length, Option, none, some, List, [], ◌∷◌, ◌++◌,
  if◌then◌else◌, String, str_eq,
}
use curator_agent_launcher.Tried.{Tried, granted, denied}
use curator_agent_launcher.SessionManager.Routes.{Refusal, refusal}
use curator_agent_launcher.SessionManager.Store.{Liveness, Abandoned, Binding, liveness, commit}
use curator_agent_launcher.SessionManager.Store
use curator_agent_launcher.SessionManager.Pending.{Pending, PendingFile, pending, remove_pending}
use curator_agent_launcher.SessionManager.HomeLease.{LeaseAdmission}
use curator_agent_launcher.SessionManager.LeaseJournal.{Admitted, settle_lease}

-- The two files of a workplace.
pub record Files : Type 0 where
  pub pending : PendingFile String LeaseAdmission
  pub live : Store.File

-- Whether the record can be written, the directories of the evidence are owned, the evidence is written,
-- and the pending operation can be removed, its directory synchronised, and it written again.
pub record Actions : Type 0 where
  pub writes : Bool
  pub owned : Bool
  pub kept : Bool
  pub removes : Bool
  pub syncs : Bool
  pub restores : Bool

abbrev pub text_of : Option String → String
text_of none = ""
text_of (some s) = s

unfoldable pub operation : Option Admitted → Option Liveness → String
operation (some p) l = p.operation_id
operation none (some l) = text_of l.operation_id
operation none none = ""

-- `s[n:]`.
unfoldable pub behind : ℕ → List Abandoned → List Abandoned
behind zero olds = olds
behind (suc n) [] = []
behind (suc n) (a ∷ olds) = behind n olds

-- The last 16.
unfoldable pub recent : List Abandoned → List Abandoned
recent olds = if ltb 16 (length olds) then behind (length olds - 16) olds else olds

abbrev pub no_manager : Binding
no_manager = record { id = ""; executable = ""; registered_at = "" }

abbrev pub manager_of : Option Admitted → Binding
manager_of none = no_manager
manager_of (some p) = p.manager

-- The record that is there, or the one that stands in for it. Without a record there is a pending
-- operation.
abbrev pub record_or_new : String → Option Admitted → Option Liveness → Liveness
record_or_new id p (some l) = l
record_or_new id p none = record {
  profile = "";
  id = id;
  state = "";
  manager = manager_of p;
  operation_id = none;
  state_source = "";
  session = "";
  generation = 0;
  started_at = "";
  last_heartbeat_at = "";
  last_activity_at = none;
  doorbell = "off";
  doorbell_uncertain = false;
  current_task = none;
  queue_depth = 0;
  abandoned_operations = [];
}

unfoldable pub abandoned : String → String → Liveness → Liveness
abandoned op now l = record l {
  state = "down";
  state_source = "operator_override";
  abandoned_operations =
      recent (l.abandoned_operations ++ (record { operation_id = op; abandoned_at = now } ∷ []));
}

-- `id` and `plain` are the transaction's, `now` is the clock; `valid_pending`, `correlated` and
-- `valid_live` are the checks of the two files.
module _ (id : String) (plain : Bool) (now : String) (valid_pending correlated : Admitted → Bool)
    (valid_live : Liveness → Bool) (act : Actions) where
  abbrev pub with_pending :
      Files
      → PendingFile String LeaseAdmission × Tried Refusal (Unit {0})
      → Files × Tried Refusal (Unit {0})
  with_pending f (p, t) = (record f { pending = p }, t)

  abbrev pub end_lease : Files → Admitted → Option LeaseAdmission → Files × Tried Refusal (Unit {0})
  end_lease f p (some l) = with_pending f (
      settle_lease id plain valid_pending correlated act.owned act.kept act.removes act.syncs
        act.restores f.pending p "abandoned")
  end_lease f p none =
      with_pending f
        (remove_pending id plain valid_pending correlated act.removes act.syncs act.restores p)

  abbrev pub end_pending : Files → Option Admitted → Files × Tried Refusal (Unit {0})
  end_pending f none = (f, granted tt)
  end_pending f (some p) = end_lease f p p.lease

  abbrev pub after_write :
      Files → Option Admitted → Tried Refusal (Option Liveness) → Files × Tried Refusal (Unit {0})
  after_write f p (denied r) = (f, denied r)
  after_write f p (granted none) = end_pending f p
  after_write f p (granted (some l)) = end_pending (record f { live = Store.holds l }) p

  abbrev pub abandon_read :
      Files → Option Admitted → Tried Refusal (Option Liveness) → Files × Tried Refusal (Unit {0})
  abandon_read f p (denied r) = (f, denied r)
  abandon_read f p (granted l) =
      if str_eq (operation p l) ""
      then (f, granted tt)
      else after_write f p (
          commit id valid_live act.writes (refusal "werkstatt_liveness_write_failed" [])
            (abandoned (operation p l) now (record_or_new id p l)))

  abbrev pub abandon_pending :
      Files → Tried Refusal (Option Admitted) → Files × Tried Refusal (Unit {0})
  abandon_pending f (denied r) = (f, denied r)
  abandon_pending f (granted p) = abandon_read f p (liveness id valid_live act.writes f.live)

  -- `Abandon`.
  unfoldable pub abandon : Files → Files × Tried Refusal (Unit {0})
  abandon f = abandon_pending f (pending id plain valid_pending correlated f.pending)
