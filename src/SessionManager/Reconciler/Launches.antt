-- ===== src/SessionManager/Reconciler/Launches.antt =====
-- How many launches a recovery sends.
pub mod Submission
use curator_agent_launcher.Base.{
  arith, ◌∷◌, [], ◌||◌, ◌∙◌, refl, none, str_eq, sym, inr, inl, some, Bool-cases, subst, false,
  Option, List, ◌+◌, Bool, ◌⊎◌, ◌≡◌,
}
use curator_agent_launcher.SessionManager.Store
use curator_agent_launcher.SessionManager.Reconciler
use curator_agent_launcher.SessionManager.Pending.SingleFlight.{write_pending-pending}
use curator_agent_launcher.SessionManager.Reconciler.{
  Setting, no_reply, outcome_reply, session_reply, compare_and_swap, write_pending, liveness,
  clear_terminal, failed_call, pending, denied, Expected, granted, Tried, Liveness, PendingFile,
  Pending, String, ℕ, Session, Answer, Settled, Disk, Entry, Correlation, World, Reply, Refusal,
  started, failed, cancelled, finish, close, has_lease,
}
use curator_agent_launcher.SessionManager.Reconciler.Follows.{
  launches, settled_with, recover_loop-verdict, verdict,
}
use curator_agent_launcher.SessionManager.Reconciler.Leases.{
  write_pending-unleased, pending-unleased, holds_lease,
}

-- As many launches as `n`.
unfoldable pub Sends : {Request Lease : Type 0} → ℕ → World Request Lease × Answer → Type 0
Sends n (w, a) = launches w.calls ≡ n

-- At most one more, and that only where no operation was pending.
unfoldable pub SendsOnce :
    {Request Lease : Type 0} → World Request Lease → World Request Lease × Answer → Type 0
SendsOnce w (v, a) =
    (launches v.calls ≡ launches w.calls)
    ⊎ ((launches v.calls ≡ 1 + launches w.calls) × (w.pending ≡ PendingFile.absent))

pub Sends-refl :
    {Request Lease : Type 0} (w : World Request Lease) (a : Answer)
    → Sends (launches w.calls) (w, a)
unfolding Sends
Sends-refl w a = refl

Sends-trans :
    {Request Lease : Type 0} {m n : ℕ} (v : World Request Lease × Answer)
    → Sends m v
    → m ≡ n
    → Sends n v
unfolding Sends
Sends-trans (w, a) h e = h ∙ e

pub SendsOnce-refl :
    {Request Lease : Type 0} (w : World Request Lease) (a : Answer) → SendsOnce w (w, a)
unfolding SendsOnce
SendsOnce-refl w a = inl refl

pub Sends-SendsOnce :
    {Request Lease : Type 0} (w : World Request Lease) (v : World Request Lease × Answer)
    → Sends (launches w.calls) v
    → SendsOnce w v
unfolding Sends SendsOnce
Sends-SendsOnce w (v, a) e = inl e

pub first-SendsOnce :
    {Request Lease : Type 0} (w : World Request Lease) (v : World Request Lease × Answer)
    → Sends (1 + launches w.calls) v
    → w.pending ≡ PendingFile.absent
    → SendsOnce w v
unfolding Sends SendsOnce
first-SendsOnce w (v, a) e clear = inr (e, clear)

module _ {Request Lease : Type 0} (h : Setting Request Lease) where
  pub cleared-Sends :
      (c : PendingFile Request Lease × Tried Refusal (Unit {0})) (a : Answer)
      (w : World Request Lease)
      → Sends (launches w.calls) (Reconciler.cleared h c a w)
  cleared-Sends (f, granted tt) a w = Sends-refl (record w { pending = f }) a
  cleared-Sends (f, denied r) a w =
      Sends-refl (record w { pending = f }) (record a { error = some r })

  close-Sends :
      (p : Pending Request Lease) (x : Settled) (outcome : String) (a : Answer)
      (w : World Request Lease)
      → has_lease p ≡ false
      → Sends (launches w.calls) (Reconciler.close h p x outcome a w)
  unfolding close
  close-Sends p x outcome a w free = subst (Sends _) (rw free) (
      cleared-Sends
        (clear_terminal h.id h.plain h.valid_pending h.correlated h.disk.removes h.disk.syncs
          h.disk.restores w.pending p.operation_id outcome)
        a w)

  after_swap-Sends :
      (p : Pending Request Lease) (s : Session) (w : World Request Lease)
      (c : Tried Refusal (Option Liveness))
      → has_lease p ≡ false
      → Sends (launches w.calls) (Reconciler.after_swap h p s w c)
  after_swap-Sends p s w (denied r) free = Sends-refl w _
  after_swap-Sends p s w (granted none) free = Sends-refl w _
  after_swap-Sends p s w (granted (some l)) free =
      close-Sends p (started s) "started" (Reconciler.plain_answer (started s))
        (record w { live = Store.holds l }) free

  pub finish-Sends :
      (p : Pending Request Lease) (expected : Expected) (x : Settled) (w : World Request Lease)
      → has_lease p ≡ false
      → Sends (launches w.calls) (Reconciler.finish h p expected x w)
  unfolding finish
  finish-Sends p expected (started s) w free = elim (Bool-cases h.plain) [
    | inl e ↦
        subst (Sends _) (rw e)
          (close-Sends p (started s) "started" (Reconciler.plain_answer (started s)) w free)
    | inr e ↦ subst (Sends _) (rw e) (
        after_swap-Sends p s w
          (compare_and_swap h.id h.valid_live h.disk.swaps false w.live expected
            (Reconciler.session_record h p s))
          free)
  ]
  finish-Sends p expected (failed code) w free =
      close-Sends p (failed code) "failed" (Reconciler.plain_answer (failed code)) w free
  finish-Sends p expected cancelled w free =
      close-Sends p cancelled "cancelled" (Reconciler.plain_answer cancelled) w free

  settled_with-Sends :
      (p : Pending Request Lease) (expected : Expected) (x : Option Settled)
      (w : World Request Lease)
      → has_lease p ≡ false
      → Sends (launches w.calls) (settled_with h p expected x w)
  settled_with-Sends p expected none w free = Sends-refl w _
  settled_with-Sends p expected (some x) w free = finish-Sends p expected x w free

  recover_loop-Sends :
      (p : Pending Request Lease) (expected : Expected) (reply : Reply) (replies : List Reply)
      (w : World Request Lease)
      → has_lease p ≡ false
      → Sends (launches w.calls) (Reconciler.recover_loop h p expected reply replies w)
  recover_loop-Sends p expected reply replies w free =
      let (cs, e, same) = recover_loop-verdict h p expected reply replies w in
      subst (Sends _) (sym e) (
        Sends-trans
          (settled_with h p expected (verdict p.operation_id reply replies)
            (record w { calls = cs }))
          (settled_with-Sends p expected (verdict p.operation_id reply replies)
            (record w { calls = cs }) free)
          same)

  recover_from-Sends :
      (p : Pending Request Lease) (replies : List Reply) (w : World Request Lease)
      (c : Tried Refusal (Option Liveness))
      → has_lease p ≡ false
      → Sends (launches w.calls) (Reconciler.recover_from h p replies w c)
  recover_from-Sends p replies w (denied r) free = Sends-refl w _
  recover_from-Sends p replies w (granted live) free =
      let (r, rs) = Reconciler.first_reply replies in
      Sends-trans _
        (recover_loop-Sends p (Store.expected_of live) r rs
          (record w { calls = Reconciler.status_call p.operation_id ∷ w.calls }) free)
        (omega arith)

  recover_by-Sends :
      (p : Pending Request Lease) (replies : List Reply) (w : World Request Lease)
      (c : Tried Refusal (Unit {0}))
      → has_lease p ≡ false
      → Sends (launches w.calls) (Reconciler.recover_by h p replies w c)
  unfolding Reconciler.recover_owned
  recover_by-Sends p replies w (denied r) free = Sends-refl w _
  recover_by-Sends p replies w (granted u) free =
      recover_from-Sends p replies w (liveness h.id h.valid_live h.disk.swaps w.live) free

  recover_pending-Sends :
      (replies : List Reply) (w : World Request Lease)
      (c : Tried Refusal (Option (Pending Request Lease)))
      → ((p : Pending Request Lease) → c ≡ granted (some p) → has_lease p ≡ false)
      → Sends (launches w.calls) (Reconciler.recover_pending h replies w c)
  recover_pending-Sends replies w (denied r) free = Sends-refl w _
  recover_pending-Sends replies w (granted none) free = Sends-refl w _
  recover_pending-Sends replies w (granted (some p)) free =
      subst (Sends _) (rw (free p refl))
        (recover_by-Sends p replies w (Reconciler.owner h p) (free p refl))

  -- A recovery without a lease sends no launch.
  pub recover-Sends :
      (replies : List Reply) (w : World Request Lease)
      → holds_lease w.pending ≡ false
      → Sends (launches w.calls) (Reconciler.recover h replies w)
  unfolding Reconciler.recover
  recover-Sends replies w free =
      recover_pending-Sends replies w (pending h.id h.plain h.valid_pending h.correlated w.pending)
        (λ p e. pending-unleased h.id h.plain h.valid_pending h.correlated w.pending p free e)
