-- ===== src/SessionManager/Reconciler/Durable/Submission.antt =====
-- What stands on the disk when a submission returns a session without an error.
use curator_agent_launcher.SessionManager.Reconciler
use curator_agent_launcher.SessionManager.Reconciler.Leases.{write_pending-unleased, holds_lease}
use curator_agent_launcher.Base.{
  ◌∷◌, inr, inl, subst, ◌≡◌, refl, some, none, false, Bool-cases, Option, List, str_eq, ◌||◌, [],
}
use curator_agent_launcher.Tried.{granted, denied, Tried}
use curator_agent_launcher.SessionManager.Store
use curator_agent_launcher.SessionManager.Store.{
  Liveness, Expected, compare_and_swap, liveness, swap, commit, carried, may_follow, still_holds,
  resurrects,
}
use curator_agent_launcher.SessionManager.Pending.{write_pending, Pending, PendingFile, pending}
use curator_agent_launcher.SessionManager.Reconciler.{
  Setting, no_reply, outcome_reply, session_reply, failed_call, recover_loop, Session, Answer,
  Settled, Disk, Entry, Correlation, World, Reply, Refusal, started, failed, cancelled,
  session_record, finish, close, has_lease,
}
use curator_agent_launcher.SessionManager.Reconciler.Durable.{
  recover-IsDurable, IsDurable, Stands, cleared-IsDurable, failure-IsDurable, finish-IsDurable,
}

module _ {Request Lease : Type 0} (h : Setting Request Lease) (on_disk : h.plain ≡ false) where
  launched-IsDurable :
      (p : Pending Request Lease) (expected : Expected) (r : Reply) (replies : List Reply)
      (w : World Request Lease)
      → has_lease p ≡ false
      → holds_lease w.pending ≡ false
      → IsDurable (Reconciler.launched h p expected r replies w)
  unfolding Reconciler.launched
  launched-IsDurable p expected (failed_call r) replies w free none_held =
      elim (Bool-cases
        (str_eq r.code "session_host_unavailable" || str_eq r.code "session_host_protocol_error")) [
          | inl e ↦ subst IsDurable (rw e) (recover-IsDurable h on_disk replies w none_held)
          | inr e ↦ subst IsDurable (rw e) (
              cleared-IsDurable h on_disk w p.operation_id "failed" (Reconciler.failure r)
                (λ s e. cc))
        ]
  launched-IsDurable p expected (session_reply s) replies w free none_held =
      elim (Bool-cases (str_eq s.operation_id p.operation_id)) [
        | inl e ↦ subst IsDurable (rw e) (finish-IsDurable h on_disk p expected (started s) w free)
        | inr e ↦ subst IsDurable (rw e) (recover-IsDurable h on_disk replies w none_held)
      ]
  launched-IsDurable p expected (outcome_reply o) replies w free none_held =
      recover-IsDurable h on_disk replies w none_held
  launched-IsDurable p expected no_reply replies w free none_held =
      recover-IsDurable h on_disk replies w none_held

  send-IsDurable :
      (p : Pending Request Lease) (replies : List Reply) (w : World Request Lease)
      (c : Tried Refusal (Option Liveness))
      → has_lease p ≡ false
      → holds_lease w.pending ≡ false
      → IsDurable (Reconciler.send h p replies w c)
  send-IsDurable p replies w (denied r) free none_held = failure-IsDurable w r
  send-IsDurable p replies w (granted live) free none_held =
      let (r, rs) = Reconciler.first_reply replies in
      launched-IsDurable p (Store.expected_of live) r rs
        (record w { calls = Reconciler.start_call p.operation_id ∷ w.calls }) free none_held

  written-IsDurable :
      (replies : List Reply) (w : World Request Lease) (c : Tried Refusal (Pending Request Lease))
      → ((p : Pending Request Lease) → c ≡ granted p → has_lease p ≡ false)
      → IsDurable (Reconciler.written h replies w c)
  written-IsDurable replies w (denied r) free = failure-IsDurable w r
  written-IsDurable replies w (granted p) free =
      send-IsDurable p replies (record w { pending = PendingFile.holding p })
        (liveness h.id h.valid_live h.disk.swaps w.live) (free p refl) (free p refl)

  submit_by-IsDurable :
      (p : Pending Request Lease) (replies : List Reply) (w : World Request Lease)
      (c : Tried Refusal (Unit {0}))
      → has_lease p ≡ false
      → IsDurable (Reconciler.submit_by h p replies w c)
  submit_by-IsDurable p replies w (denied r) free = failure-IsDurable w r
  submit_by-IsDurable p replies w (granted u) free =
      written-IsDurable replies w
        (write_pending h.id h.plain h.valid_pending h.correlated w.pending h.disk.writes p)
        (λ q e.
          write_pending-unleased h.id h.plain h.valid_pending h.correlated w.pending h.disk.writes p
            q free e)

  submit_new-IsDurable :
      (p : Pending Request Lease) (c : Option Correlation) (replies : List Reply)
      (w : World Request Lease)
      → has_lease p ≡ false
      → IsDurable (Reconciler.submit_new h p c replies w)
  unfolding Reconciler.submit_new
  submit_new-IsDurable p none replies w free = failure-IsDurable w _
  submit_new-IsDurable p (some c) replies w free = elim (Bool-cases (Reconciler.correlates h c p)) [
    | inl e ↦ subst IsDurable (rw e) (
        submit_by-IsDurable (record p { profile = c.profile }) replies w
          (Reconciler.owner h (record p { profile = c.profile })) free)
    | inr e ↦
        subst IsDurable (rw e) (failure-IsDurable w (Reconciler.refusal "launch_plan_invalid" []))
  ]

  submit_valid-IsDurable :
      (p : Pending Request Lease) (request : Request) (replies : List Reply)
      (w : World Request Lease) (c : Tried Refusal (Unit {0}))
      → has_lease p ≡ false
      → IsDurable (Reconciler.submit_valid h p request replies w c)
  submit_valid-IsDurable p request replies w (denied r) free = failure-IsDurable w r
  submit_valid-IsDurable p request replies w (granted u) free =
      submit_new-IsDurable p (h.correlation request) replies w free

  submit_pending-IsDurable :
      (p : Pending Request Lease) (request : Request) (replies : List Reply)
      (w : World Request Lease) (c : Tried Refusal (Option (Pending Request Lease)))
      → has_lease p ≡ false
      → holds_lease w.pending ≡ false
      → IsDurable (Reconciler.submit_pending h p request replies w c)
  submit_pending-IsDurable p request replies w (denied r) free none_held = failure-IsDurable w r
  submit_pending-IsDurable p request replies w (granted (some q)) free none_held =
      recover-IsDurable h on_disk replies w none_held
  submit_pending-IsDurable p request replies w (granted none) free none_held =
      submit_valid-IsDurable p request replies w (h.validate p.kind request) free

  submit-IsDurable :
      (p : Pending Request Lease) (request : Request) (replies : List Reply)
      (w : World Request Lease)
      → has_lease p ≡ false
      → holds_lease w.pending ≡ false
      → IsDurable (Reconciler.submit h p request replies w)
  unfolding Reconciler.submit
  submit-IsDurable p request replies w free none_held =
      submit_pending-IsDurable p request replies w
        (pending h.id h.plain h.valid_pending h.correlated w.pending) free none_held

  -- When `Submit`, at a workplace and without leases, returns a session and no error, the record on the
  -- disk names that session and no operation is pending.
  pub submit-Stands :
      (p : Pending Request Lease) (request : Request) (replies : List Reply)
      (w after : World Request Lease) (s : Session)
      → has_lease p ≡ false
      → holds_lease w.pending ≡ false
      → Reconciler.submit h p request replies w ≡ (after, record { session = some s; error = none })
      → Stands s after
  unfolding IsDurable
  submit-Stands p request replies w after s free none_held e =
      subst IsDurable e (submit-IsDurable p request replies w free none_held) s refl refl
