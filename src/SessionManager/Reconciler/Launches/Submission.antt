-- ===== src/SessionManager/Reconciler/Launches/Submission.antt =====
-- How many launches a submission sends.
use curator_agent_launcher.SessionManager.Store
use curator_agent_launcher.SessionManager.Reconciler
use curator_agent_launcher.Base.{
  ◌∷◌, [], ◌||◌, refl, none, str_eq, inr, inl, some, Bool-cases, subst, false, Option, List, ◌+◌,
  ◌⊎◌, ◌≡◌,
}
use curator_agent_launcher.SessionManager.Pending.SingleFlight.{write_pending-pending}
use curator_agent_launcher.SessionManager.Reconciler.{
  Setting, no_reply, outcome_reply, session_reply, compare_and_swap, write_pending, liveness,
  clear_terminal, failed_call, pending, denied, Expected, granted, Tried, Liveness, PendingFile,
  Pending, String, ℕ, Session, Answer, Settled, Disk, Entry, Correlation, World, Reply, Refusal,
  started, failed, cancelled, finish, close, has_lease,
}
use curator_agent_launcher.SessionManager.Reconciler.Follows.{launches}
use curator_agent_launcher.SessionManager.Reconciler.Leases.{write_pending-unleased, holds_lease}
use curator_agent_launcher.SessionManager.Reconciler.Launches.{
  Sends, Sends-SendsOnce, Sends-refl, SendsOnce, SendsOnce-refl, cleared-Sends, finish-Sends,
  first-SendsOnce, recover-Sends,
}

module _ {Request Lease : Type 0} (h : Setting Request Lease) where
  launched-Sends :
      (p : Pending Request Lease) (expected : Expected) (r : Reply) (replies : List Reply)
      (w : World Request Lease)
      → has_lease p ≡ false
      → holds_lease w.pending ≡ false
      → Sends (launches w.calls) (Reconciler.launched h p expected r replies w)
  unfolding Reconciler.launched
  launched-Sends p expected (failed_call r) replies w free none_held =
      elim (Bool-cases
        (str_eq r.code "session_host_unavailable" || str_eq r.code "session_host_protocol_error")) [
          | inl e ↦ subst (Sends _) (rw e) (recover-Sends h replies w none_held)
          | inr e ↦ subst (Sends _) (rw e) (
              cleared-Sends h
                (clear_terminal h.id h.plain h.valid_pending h.correlated h.disk.removes
                  h.disk.syncs h.disk.restores w.pending p.operation_id "failed")
                (Reconciler.failure r) w)
        ]
  launched-Sends p expected (session_reply s) replies w free none_held =
      elim (Bool-cases (str_eq s.operation_id p.operation_id)) [
        | inl e ↦ subst (Sends _) (rw e) (finish-Sends h p expected (started s) w free)
        | inr e ↦ subst (Sends _) (rw e) (recover-Sends h replies w none_held)
      ]
  launched-Sends p expected (outcome_reply o) replies w free none_held =
      recover-Sends h replies w none_held
  launched-Sends p expected no_reply replies w free none_held = recover-Sends h replies w none_held

  -- The launch itself.
  send-SendsOnce :
      (p : Pending Request Lease) (replies : List Reply) (w : World Request Lease)
      (c : Tried Refusal (Option Liveness))
      → has_lease p ≡ false
      → w.pending ≡ PendingFile.absent
      → SendsOnce w (Reconciler.send h p replies (record w { pending = PendingFile.holding p }) c)
  send-SendsOnce p replies w (denied r) free clear =
      Sends-SendsOnce w _
        (Sends-refl (record w { pending = PendingFile.holding p }) (Reconciler.failure r))
  send-SendsOnce p replies w (granted live) free clear =
      let (r, rs) = Reconciler.first_reply replies in
      first-SendsOnce w _
        (launched-Sends p (Store.expected_of live) r rs
          (record w {
            pending = PendingFile.holding p;
            calls = Reconciler.start_call p.operation_id ∷ w.calls;
          })
          free free)
        clear

  written-SendsOnce :
      (replies : List Reply) (w : World Request Lease) (c : Tried Refusal (Pending Request Lease))
      → ((p : Pending Request Lease)
          → c ≡ granted p
          → (has_lease p ≡ false) × (w.pending ≡ PendingFile.absent))
      → SendsOnce w (Reconciler.written h replies w c)
  written-SendsOnce replies w (denied r) g = SendsOnce-refl w _
  written-SendsOnce replies w (granted p) g =
      send-SendsOnce p replies w (liveness h.id h.valid_live h.disk.swaps w.live) (g p refl).0
        (g p refl).1

  submit_by-SendsOnce :
      (p : Pending Request Lease) (replies : List Reply) (w : World Request Lease)
      (c : Tried Refusal (Unit {0}))
      → has_lease p ≡ false
      → SendsOnce w (Reconciler.submit_by h p replies w c)
  submit_by-SendsOnce p replies w (denied r) free = SendsOnce-refl w _
  submit_by-SendsOnce p replies w (granted u) free =
      written-SendsOnce replies w
        (write_pending h.id h.plain h.valid_pending h.correlated w.pending h.disk.writes p)
        (λ q e. (
          write_pending-unleased h.id h.plain h.valid_pending h.correlated w.pending h.disk.writes p
              q free e,
          (write_pending-pending h.id h.plain h.valid_pending h.correlated w.pending h.disk.writes p
              q e).0,
        ))

  submit_new-SendsOnce :
      (p : Pending Request Lease) (c : Option Correlation) (replies : List Reply)
      (w : World Request Lease)
      → has_lease p ≡ false
      → SendsOnce w (Reconciler.submit_new h p c replies w)
  unfolding Reconciler.submit_new
  submit_new-SendsOnce p none replies w free = SendsOnce-refl w _
  submit_new-SendsOnce p (some c) replies w free = elim (Bool-cases (Reconciler.correlates h c p)) [
    | inl e ↦ subst (SendsOnce w) (rw e) (
        submit_by-SendsOnce (record p { profile = c.profile }) replies w
          (Reconciler.owner h (record p { profile = c.profile })) free)
    | inr e ↦
        subst (SendsOnce w) (rw e)
          (SendsOnce-refl w (Reconciler.failure (Reconciler.refusal "launch_plan_invalid" [])))
  ]

  submit_valid-SendsOnce :
      (p : Pending Request Lease) (request : Request) (replies : List Reply)
      (w : World Request Lease) (c : Tried Refusal (Unit {0}))
      → has_lease p ≡ false
      → SendsOnce w (Reconciler.submit_valid h p request replies w c)
  submit_valid-SendsOnce p request replies w (denied r) free = SendsOnce-refl w _
  submit_valid-SendsOnce p request replies w (granted u) free =
      submit_new-SendsOnce p (h.correlation request) replies w free

  submit_pending-SendsOnce :
      (p : Pending Request Lease) (request : Request) (replies : List Reply)
      (w : World Request Lease) (c : Tried Refusal (Option (Pending Request Lease)))
      → has_lease p ≡ false
      → holds_lease w.pending ≡ false
      → SendsOnce w (Reconciler.submit_pending h p request replies w c)
  submit_pending-SendsOnce p request replies w (denied r) free none_held = SendsOnce-refl w _
  submit_pending-SendsOnce p request replies w (granted (some q)) free none_held =
      Sends-SendsOnce w _ (recover-Sends h replies w none_held)
  submit_pending-SendsOnce p request replies w (granted none) free none_held =
      submit_valid-SendsOnce p request replies w (h.validate p.kind request) free

  submit-SendsOnce :
      (p : Pending Request Lease) (request : Request) (replies : List Reply)
      (w : World Request Lease)
      → has_lease p ≡ false
      → holds_lease w.pending ≡ false
      → SendsOnce w (Reconciler.submit h p request replies w)
  unfolding Reconciler.submit
  submit-SendsOnce p request replies w free none_held =
      submit_pending-SendsOnce p request replies w
        (pending h.id h.plain h.valid_pending h.correlated w.pending) free none_held

  -- Without leases, `Submit` sends as many launches as before or one more, and one more only where no
  -- operation was pending.
  pub submit-launches :
      (p : Pending Request Lease) (request : Request) (replies : List Reply)
      (w : World Request Lease)
      → has_lease p ≡ false
      → holds_lease w.pending ≡ false
      → (launches ((Reconciler.submit h p request replies w).0).calls ≡ launches w.calls)
        ⊎ ((launches ((Reconciler.submit h p request replies w).0).calls ≡ 1 + launches w.calls)
            × (w.pending ≡ PendingFile.absent))
  unfolding SendsOnce
  submit-launches p request replies w free none_held =
      submit-SendsOnce p request replies w free none_held
