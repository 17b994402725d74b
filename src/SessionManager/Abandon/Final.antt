-- ===== src/SessionManager/Abandon/Final.antt =====
-- An abandoned operation is over.
use curator_agent_launcher.SessionManager.Reconciler.Durable.{clear_terminal-absent}
use curator_agent_launcher.Base.{
  ap, ◌∙◌, ◌⊎◌, zero, subst, suc, ℕ, ◌-◌, ◌≤◌, ◌≡◌, ◌≢◌, refl, sym, Bool, true, false, ltb, length,
  Option, none, some, List, [], ◌∷◌, ◌++◌, String, str_eq, str_eq_refl, Bool-cases, inl, inr, arith,
  length-append,
}
use curator_agent_launcher.Tried.{Tried, granted, denied}
use curator_agent_launcher.SessionManager.Store
use curator_agent_launcher.SessionManager.Store.{
  Liveness, Abandoned, Expected, liveness, commit, is_abandoned, compare_and_swap, swap,
  still_holds, may_follow,
}
use curator_agent_launcher.SessionManager.Store.Retired.{Course, Course-abandoned}
use curator_agent_launcher.SessionManager.Pending.{PendingFile, pending, remove_pending}
use curator_agent_launcher.SessionManager.LeaseJournal.{Admitted, settle_lease}
use curator_agent_launcher.SessionManager.Abandon
use curator_agent_launcher.SessionManager.Abandon.{
  Refusal, LeaseAdmission, Files, Actions, behind, recent, abandoned, operation, abandon,
}

is_abandoned-append :
    (op : String) (olds news : List Abandoned)
    → is_abandoned (some op) news ≡ true
    → is_abandoned (some op) (olds ++ news) ≡ true
unfolding is_abandoned
is_abandoned-append op [] news e = e
is_abandoned-append op (a ∷ olds) news e = ground (arith, is_abandoned-append op olds news e)

is_abandoned-behind :
    (op : String) (n : ℕ) (olds news : List Abandoned)
    → n ≤ length olds
    → is_abandoned (some op) news ≡ true
    → is_abandoned (some op) (behind n (olds ++ news)) ≡ true
unfolding behind
is_abandoned-behind op zero olds news short e = is_abandoned-append op olds news e
is_abandoned-behind op (suc n) [] news short e = ground arith
is_abandoned-behind op (suc n) (a ∷ olds) news short e =
    is_abandoned-behind op n olds news (omega (arith, short)) e

is_abandoned-new :
    (op now : String)
    → is_abandoned (some op) (record { operation_id = op; abandoned_at = now } ∷ []) ≡ true
unfolding is_abandoned
is_abandoned-new op now = ground (arith, str_eq_refl op)

-- Of the last 16, the new one is one.
recent-new :
    (op now : String) (olds : List Abandoned)
    → is_abandoned
        (some op)
        (recent (olds ++ (record { operation_id = op; abandoned_at = now } ∷ [])))
      ≡ true
unfolding recent
recent-new op now olds =
    let a : Abandoned = record { operation_id = op; abandoned_at = now } in
    elim (Bool-cases (ltb 16 (length (olds ++ (a ∷ []))))) [
      | inl long ↦ rw long (
          is_abandoned-behind op (length (olds ++ (a ∷ [])) - 16) olds (a ∷ [])
            (omega (arith, length-append olds (a ∷ []))) (is_abandoned-new op now))
      | inr short ↦ rw short (is_abandoned-append op olds (a ∷ []) (is_abandoned-new op now))
    ]

-- A swap never brings an abandoned operation back.
compare_and_swap-abandoned :
    (id : String) (valid : Liveness → Bool) (writes : Bool) (old : Liveness) (expected : Expected)
    (next l : Liveness) (op : String)
    → is_abandoned (some op) old.abandoned_operations ≡ true
    → next.operation_id ≡ some op
    → compare_and_swap id valid writes false (Store.holds old) expected next ≢ granted (some l)
unfolding compare_and_swap liveness
compare_and_swap-abandoned id valid writes old expected next l op gone named e =
    let gone' : is_abandoned next.operation_id old.abandoned_operations ≡ true =
      subst (λ x. is_abandoned x old.abandoned_operations ≡ true) (sym named) gone in
    ground arith

module _ (id : String) (plain : Bool) (now : String) (valid_pending correlated : Admitted → Bool)
    (valid_live : Liveness → Bool) (act : Actions) where
  pending-none :
      (f : PendingFile String LeaseAdmission)
      → pending id plain valid_pending correlated f ≡ granted none
      → f ≡ PendingFile.absent
  unfolding pending
  pending-none PendingFile.absent e = refl
  pending-none PendingFile.unreadable e = cc
  pending-none (PendingFile.holding p) e = ground arith

  remove_pending-absent :
      (p : Admitted) (f : PendingFile String LeaseAdmission)
      → remove_pending id plain valid_pending correlated act.removes act.syncs act.restores p
        ≡ (f, granted tt)
      → f ≡ PendingFile.absent
  unfolding remove_pending
  remove_pending-absent p f e = ground arith

  settle_lease-absent :
      (file f : PendingFile String LeaseAdmission) (p : Admitted)
      → settle_lease id plain valid_pending correlated act.owned act.kept act.removes act.syncs
          act.restores file p "abandoned"
        ≡ (f, granted tt)
      → f ≡ PendingFile.absent
  unfolding settle_lease
  settle_lease-absent file f p e = ground (
    arith,
    clear_terminal-absent id plain valid_pending correlated act.removes act.syncs act.restores file
        f p.operation_id "abandoned",
  )

  with_pending-granted :
      (f f' : Files) (c : PendingFile String LeaseAdmission × Tried Refusal (Unit {0}))
      → ((g : PendingFile String LeaseAdmission) → c ≡ (g, granted tt) → g ≡ PendingFile.absent)
      → Abandon.with_pending id plain now valid_pending correlated valid_live act f c
        ≡ (f', granted tt)
      → (f'.pending ≡ PendingFile.absent) × (f'.live ≡ f.live)
  with_pending-granted f f' (g, denied r) gone e = cc
  with_pending-granted f f' (g, granted tt) gone e =
      let same : record f { pending = g } ≡ f' = cc e in
      subst (λ x. (x.pending ≡ PendingFile.absent) × (x.live ≡ f.live)) same (gone g refl, refl)

  end_lease-granted :
      (f f' : Files) (p : Admitted) (l : Option LeaseAdmission)
      → Abandon.end_lease id plain now valid_pending correlated valid_live act f p l
        ≡ (f', granted tt)
      → (f'.pending ≡ PendingFile.absent) × (f'.live ≡ f.live)
  end_lease-granted f f' p (some l) e =
      with_pending-granted f f' _ (λ g. settle_lease-absent f.pending g p) e
  end_lease-granted f f' p none e = with_pending-granted f f' _ (remove_pending-absent p) e

  end_pending-granted :
      (f f' : Files) (p : Option Admitted)
      → (p ≡ none → f.pending ≡ PendingFile.absent)
      → Abandon.end_pending id plain now valid_pending correlated valid_live act f p
        ≡ (f', granted tt)
      → (f'.pending ≡ PendingFile.absent) × (f'.live ≡ f.live)
  end_pending-granted f f' none clear e =
      let same : f ≡ f' = cc e in
      subst (λ x. (x.pending ≡ PendingFile.absent) × (x.live ≡ f.live)) same (clear refl, refl)
  end_pending-granted f f' (some p) clear e = end_lease-granted f f' p p.lease e

  commit-next :
      (unwritten : Refusal) (next : Liveness)
      → ((r : Refusal) × (commit id valid_live act.writes unwritten next ≡ denied r))
        ⊎ (commit id valid_live act.writes unwritten next ≡ granted (some next))
  unfolding commit
  commit-next unwritten next = ground arith

  -- Behind the two files.
  abandon_read-granted :
      (f f' : Files) (p : Option Admitted) (l : Option Liveness)
      → (p ≡ none → f.pending ≡ PendingFile.absent)
      → str_eq (operation p l) "" ≡ false
      → Abandon.abandon_read id plain now valid_pending correlated valid_live act f p (granted l)
        ≡ (f', granted tt)
      → (f'.pending ≡ PendingFile.absent)
        × (f'.live ≡ Store.holds (abandoned (operation p l) now (Abandon.record_or_new id p l)))
  abandon_read-granted f f' p l clear some_op e =
      let next = abandoned (operation p l) now (Abandon.record_or_new id p l) in
      elim (commit-next (Abandon.refusal "werkstatt_liveness_write_failed" []) next) [
        | inl (r, bad) ↦ cc (rw (some_op, bad) at e)
        | inr good ↦
            end_pending-granted (record f { live = Store.holds next }) f' p clear
              (rw (some_op, good) at e)
      ]

  -- When `Abandon` succeeds over an operation, no operation is pending, and whatever swaps, session
  -- reads (`RefreshSession`), task edits and rebinds follow on the record that it wrote, no
  -- `CompareAndSwap` over the record they lead to commits one that names that operation. Further calls of
  -- `Abandon` are not among these steps: they keep the last 16 operations only.
  pub abandon-final :
      (f f' : Files) (p : Option Admitted) (l : Option Liveness) (writes : Bool)
      (expected : Expected) (first last next committed : Liveness)
      → pending id plain valid_pending correlated f.pending ≡ granted p
      → liveness id valid_live act.writes f.live ≡ granted l
      → str_eq (operation p l) "" ≡ false
      → abandon id plain now valid_pending correlated valid_live act f ≡ (f', granted tt)
      → f'.live ≡ Store.holds first
      → Course id valid_live first last
      → next.operation_id ≡ some (operation p l)
      → (f'.pending ≡ PendingFile.absent)
        × (compare_and_swap id valid_live writes false (Store.holds last) expected next
            ≢ granted (some committed))
  unfolding abandon abandoned
  abandon-final f f' p l writes expected first last next committed held read some_op e wrote course
        named =
      let (clear, stands) =
        abandon_read-granted f f' p l
          (λ none_held. pending-none f.pending (held ∙ ap granted none_held)) some_op
          (rw (held, read, abandon) at e) in
      let old = abandoned (operation p l) now (Abandon.record_or_new id p l) in
      let same : old ≡ first = cc (sym stands ∙ wrote) in
      let gone =
        subst (λ x. is_abandoned (some (operation p l)) x.abandoned_operations ≡ true) same
          (recent-new (operation p l) now (Abandon.record_or_new id p l).abandoned_operations) in
      (
        clear,
        compare_and_swap-abandoned id valid_live writes last expected next committed (operation p l)
            (Course-abandoned id valid_live (operation p l) course gone) named,
      )
