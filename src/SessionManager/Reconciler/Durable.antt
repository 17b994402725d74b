-- ===== src/SessionManager/Reconciler/Durable.antt =====
-- What stands on the disk when a recovery returns a session without an error.
pub mod Submission
use curator_agent_launcher.SessionManager.Reconciler.Leases.{
  pending-unleased, write_pending-unleased, holds_lease,
}
use curator_agent_launcher.Base.{
  ◌∷◌, inr, inl, sym, subst, ◌≡◌, refl, some, none, false, Bool, Bool-cases, arith, String, Option,
  List, str_eq, ◌||◌, [],
}
use curator_agent_launcher.Tried.{granted, denied, Tried}
use curator_agent_launcher.SessionManager.Store
use curator_agent_launcher.SessionManager.Store.{
  Liveness, Expected, compare_and_swap, liveness, swap, commit, carried, may_follow, still_holds,
  resurrects,
}
use curator_agent_launcher.SessionManager.Reconciler.Follows.{
  verdict, settled_with, recover_loop-verdict,
}
use curator_agent_launcher.SessionManager.Pending.{
  write_pending, Pending, PendingFile, clear_terminal, pending, remove_pending,
}
use curator_agent_launcher.SessionManager.Reconciler
use curator_agent_launcher.SessionManager.Reconciler.{
  Setting, no_reply, outcome_reply, session_reply, failed_call, recover_loop, Session, Answer,
  Settled, Disk, Entry, Correlation, World, Reply, Refusal, started, failed, cancelled,
  session_record, finish, close, has_lease,
}

-- A committed record is the proposed one, as far as the session and the operation go.
compare_and_swap-proposed :
    (id : String) (valid : Liveness → Bool) (writes : Bool) (file : Store.File)
    → (expected : Expected) (next l : Liveness)
    → compare_and_swap id valid writes false file expected next ≡ granted (some l)
    → (l.session ≡ next.session) × (l.operation_id ≡ next.operation_id)
unfolding compare_and_swap liveness commit carried
compare_and_swap-proposed id valid writes Store.absent expected next l e = ground arith
compare_and_swap-proposed id valid writes Store.broken expected next l e = ground arith
compare_and_swap-proposed id valid writes (Store.holds old) expected next l e = ground arith

-- A pending operation that was cleared is gone.
pub clear_terminal-absent :
    {Request Lease : Type 0} (id : String) (plain : Bool)
    → (valid correlated : Pending Request Lease → Bool) (removes syncs restores : Bool)
    → (file f : PendingFile Request Lease) (op outcome : String)
    → clear_terminal id plain valid correlated removes syncs restores file op outcome
      ≡ (f, granted tt)
    → f ≡ PendingFile.absent
unfolding clear_terminal pending remove_pending
clear_terminal-absent id plain valid correlated removes syncs restores PendingFile.absent f op
      outcome e =
    ground arith
clear_terminal-absent id plain valid correlated removes syncs restores PendingFile.unreadable f op
      outcome e =
    ground arith
clear_terminal-absent id plain valid correlated removes syncs restores (PendingFile.holding p) f op
      outcome e =
    ground arith

-- A session without an error: the record names it, and no operation is pending.
unfoldable pub Stands : {Request Lease : Type 0} → Session → World Request Lease → Type 0
Stands s w =
    ((l : Liveness) × (w.live ≡ Store.holds l) × (l.session ≡ s.session))
    × (w.pending ≡ PendingFile.absent)

unfoldable pub IsDurable : {Request Lease : Type 0} → World Request Lease × Answer → Type 0
IsDurable (w, a) = (s : Session) → a.session ≡ some s → a.error ≡ none → Stands s w

pub failure-IsDurable :
    {Request Lease : Type 0} (w : World Request Lease) (r : Refusal)
    → IsDurable (w, Reconciler.failure r)
unfolding IsDurable
failure-IsDurable w r s e f = cc

module _ {Request Lease : Type 0} (h : Setting Request Lease) (on_disk : h.plain ≡ false) where
  abbrev finishes :
      Pending Request Lease
      → Expected
      → Settled
      → World Request Lease
      → World Request Lease × Answer
  finishes = finish h

  abbrev closes :
      Pending Request Lease
      → Settled
      → String
      → Answer
      → World Request Lease
      → World Request Lease × Answer
  closes = close h

  abbrev clears :
      World Request Lease → String → String → PendingFile Request Lease × Tried Refusal (Unit {0})
  clears w op outcome =
      clear_terminal h.id h.plain h.valid_pending h.correlated h.disk.removes h.disk.syncs
        h.disk.restores w.pending op outcome

  pub cleared-IsDurable :
      (w : World Request Lease) (op outcome : String) (a : Answer)
      → ((s : Session)
          → a.session ≡ some s
          → (l : Liveness) × (w.live ≡ Store.holds l) × (l.session ≡ s.session))
      → IsDurable (Reconciler.cleared h (clears w op outcome) a w)
  unfolding IsDurable Stands
  cleared-IsDurable w op outcome a kept = by_result (clears w op outcome) (λ f e.
      clear_terminal-absent h.id h.plain h.valid_pending h.correlated h.disk.removes h.disk.syncs
        h.disk.restores w.pending f op outcome e)
    where
      by_result :
          (c : PendingFile Request Lease × Tried Refusal (Unit {0}))
          → ((f : PendingFile Request Lease) → c ≡ (f, granted tt) → f ≡ PendingFile.absent)
          → IsDurable (Reconciler.cleared h c a w)
      by_result (f, granted tt) k s e g = (kept s e, k f refl)
      by_result (f, denied r) k s e g = cc

  close-IsDurable :
      (p : Pending Request Lease) (x : Settled) (outcome : String) (a : Answer)
      (w : World Request Lease)
      → has_lease p ≡ false
      → ((s : Session)
          → a.session ≡ some s
          → (l : Liveness) × (w.live ≡ Store.holds l) × (l.session ≡ s.session))
      → IsDurable (closes p x outcome a w)
  unfolding close
  close-IsDurable p x outcome a w free kept =
      subst IsDurable (rw free) (cleared-IsDurable w p.operation_id outcome a kept)

  after_swap-IsDurable :
      (p : Pending Request Lease) (s : Session) (w : World Request Lease)
      (c : Tried Refusal (Option Liveness))
      → has_lease p ≡ false
      → ((l : Liveness) → c ≡ granted (some l) → l.session ≡ s.session)
      → IsDurable (Reconciler.after_swap h p s w c)
  unfolding IsDurable
  after_swap-IsDurable p s w (denied r) free named = λ t e g. cc
  after_swap-IsDurable p s w (granted none) free named = λ t e g. cc
  after_swap-IsDurable p s w (granted (some l)) free named =
      close-IsDurable p (started s) "started" (Reconciler.plain_answer (started s))
        (record w { live = Store.holds l }) free (λ t e. (l, refl, cc (named l refl)))

  pub finish-IsDurable :
      (p : Pending Request Lease) (expected : Expected) (x : Settled) (w : World Request Lease)
      → has_lease p ≡ false
      → IsDurable (finishes p expected x w)
  unfolding finish session_record
  finish-IsDurable p expected (started s) w free =
      let next = session_record h p s in
      subst IsDurable (rw on_disk) (
        after_swap-IsDurable p s w
          (compare_and_swap h.id h.valid_live h.disk.swaps false w.live expected next) free
          (λ l e.
            (compare_and_swap-proposed h.id h.valid_live h.disk.swaps w.live expected next l e).0))
  finish-IsDurable p expected (failed code) w free =
      close-IsDurable p (failed code) "failed" _ w free (λ s e. cc)
  finish-IsDurable p expected cancelled w free =
      close-IsDurable p cancelled "cancelled" _ w free (λ s e. cc)

  settled_with-IsDurable :
      (p : Pending Request Lease) (expected : Expected) (x : Option Settled)
      (w : World Request Lease)
      → has_lease p ≡ false
      → IsDurable (settled_with h p expected x w)
  settled_with-IsDurable p expected none w free = failure-IsDurable w _
  settled_with-IsDurable p expected (some x) w free = finish-IsDurable p expected x w free

  recover_loop-IsDurable :
      (p : Pending Request Lease) (expected : Expected) (reply : Reply) (replies : List Reply)
      (w : World Request Lease)
      → has_lease p ≡ false
      → IsDurable (recover_loop h p expected reply replies w)
  recover_loop-IsDurable p expected reply replies w free =
      let (cs, e, _) = recover_loop-verdict h p expected reply replies w in
      subst IsDurable (sym e) (
        settled_with-IsDurable p expected (verdict p.operation_id reply replies)
          (record w { calls = cs }) free)

  recover_from-IsDurable :
      (p : Pending Request Lease) (replies : List Reply) (w : World Request Lease)
      (c : Tried Refusal (Option Liveness))
      → has_lease p ≡ false
      → IsDurable (Reconciler.recover_from h p replies w c)
  recover_from-IsDurable p replies w (denied r) free = failure-IsDurable w r
  recover_from-IsDurable p replies w (granted live) free =
      let (r, rs) = Reconciler.first_reply replies in
      recover_loop-IsDurable p (Store.expected_of live) r rs
        (record w { calls = Reconciler.status_call p.operation_id ∷ w.calls }) free

  recover_by-IsDurable :
      (p : Pending Request Lease) (replies : List Reply) (w : World Request Lease)
      (c : Tried Refusal (Unit {0}))
      → has_lease p ≡ false
      → IsDurable (Reconciler.recover_by h p replies w c)
  unfolding Reconciler.recover_owned
  recover_by-IsDurable p replies w (denied r) free = failure-IsDurable w r
  recover_by-IsDurable p replies w (granted u) free =
      recover_from-IsDurable p replies w (liveness h.id h.valid_live h.disk.swaps w.live) free

  recover_pending-IsDurable :
      (replies : List Reply) (w : World Request Lease)
      (c : Tried Refusal (Option (Pending Request Lease)))
      → ((p : Pending Request Lease) → c ≡ granted (some p) → has_lease p ≡ false)
      → IsDurable (Reconciler.recover_pending h replies w c)
  unfolding IsDurable
  recover_pending-IsDurable replies w (denied r) free = failure-IsDurable w r
  recover_pending-IsDurable replies w (granted none) free = λ s e g. cc
  recover_pending-IsDurable replies w (granted (some p)) free =
      subst IsDurable (rw (free p refl))
        (recover_by-IsDurable p replies w (Reconciler.owner h p) (free p refl))

  -- A workplace without a lease.
  pub recover-IsDurable :
      (replies : List Reply) (w : World Request Lease)
      → holds_lease w.pending ≡ false
      → IsDurable (Reconciler.recover h replies w)
  unfolding Reconciler.recover
  recover-IsDurable replies w free =
      recover_pending-IsDurable replies w
        (pending h.id h.plain h.valid_pending h.correlated w.pending)
        (λ p e. pending-unleased h.id h.plain h.valid_pending h.correlated w.pending p free e)
