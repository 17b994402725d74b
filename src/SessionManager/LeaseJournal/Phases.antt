-- ===== src/SessionManager/LeaseJournal/Phases.antt =====
-- The phases of an operation with a lease, along any sequence of updates.
use curator_agent_launcher.Base.{
  subst, ℕ, suc, ◌+◌, ◌≤◌, ◌≡◌, refl, Bool, true, String, str_eq_iff, arith, sym, ◌∙◌, some, none,
  Option,
}
use curator_agent_launcher.Tried.{granted}
use curator_agent_launcher.SessionManager.Pending.{PendingFile, pending}
use curator_agent_launcher.SessionManager.HomeLease.{LeaseAdmission}
use curator_agent_launcher.SessionManager.LeaseJournal.{
  Admitted, same_but_phase, phase_rank, update_lease, update_over,
}

-- What no update changes.
pub record Kept (old next : Admitted) : Type 0 where
  pub operation_id : next.operation_id ≡ old.operation_id
  pub request : next.request ≡ old.request
  pub profile : next.profile ≡ old.profile
  pub admission_key : next.admission_key ≡ old.admission_key
  pub kind : next.kind ≡ old.kind

Kept-trans : {a b c : Admitted} → Kept a b → Kept b c → Kept a c
Kept-trans k m = record {
  operation_id = m.operation_id ∙ k.operation_id;
  request = m.request ∙ k.request;
  profile = m.profile ∙ k.profile;
  admission_key = m.admission_key ∙ k.admission_key;
  kind = m.kind ∙ k.kind;
}

same_but_phase-Kept : (old next : Admitted) → same_but_phase old next ≡ true → Kept old next
unfolding same_but_phase
same_but_phase-Kept old next e = record {
  operation_id = sym ((str_eq_iff _ _).0 (ground arith));
  request = sym ((str_eq_iff _ _).0 (ground arith));
  profile = sym ((str_eq_iff _ _).0 (ground arith));
  admission_key = sym ((str_eq_iff _ _).0 (ground arith));
  kind = sym ((str_eq_iff _ _).0 (ground arith));
}

module _ (id : String) (plain : Bool) (valid correlated : Admitted → Bool) where
  update_over-Kept :
      (writes : Bool) (p old next : Admitted) (a b : Option LeaseAdmission)
      → update_over id plain valid correlated writes p old a b ≡ granted next
      → Kept old next
        × (phase_rank old.phase ≤ phase_rank next.phase)
        × (phase_rank next.phase ≤ 1 + phase_rank old.phase)
  update_over-Kept writes p old next none b e = cc
  update_over-Kept writes p old next (some a) none e = cc
  update_over-Kept writes p old next (some a) (some b) e =
      let same : p ≡ next = ground arith in
      subst
        (λ x.
          Kept old x
          × (phase_rank old.phase ≤ phase_rank x.phase)
          × (phase_rank x.phase ≤ 1 + phase_rank old.phase))
        same (same_but_phase-Kept old p (ground arith), ground arith, ground arith)

  update_lease-Kept :
      (writes : Bool) (p old next : Admitted)
      → update_lease id plain valid correlated (PendingFile.holding old) writes p ≡ granted next
      → Kept old next
        × (phase_rank old.phase ≤ phase_rank next.phase)
        × (phase_rank next.phase ≤ 1 + phase_rank old.phase)
  unfolding update_lease pending
  update_lease-Kept writes p old next e =
      ground (arith, update_over-Kept writes p old next old.lease p.lease)

  -- A number of successful updates, one behind the other.
  pub data Journal : ℕ → Admitted → Admitted → Type 0 where
    untouched : {p : Admitted} → Journal 0 p p
    updated :
        {n : ℕ} {p old next : Admitted} (writes : Bool) (asked : Admitted)
        → Journal n p old
        → update_lease id plain valid correlated (PendingFile.holding old) writes asked
          ≡ granted next
        → Journal (suc n) p next

  -- Along any sequence of updates, the operation, its request, profile, admission key and kind stay; the
  -- phase never goes back, and it advances by one with an update at most.
  pub Journal-Kept :
      {n : ℕ} {p q : Admitted}
      → Journal n p q
      → Kept p q
        × (phase_rank p.phase ≤ phase_rank q.phase)
        × (phase_rank q.phase ≤ n + phase_rank p.phase)
  Journal-Kept untouched = (
    record {
      operation_id = refl;
      request = refl;
      profile = refl;
      admission_key = refl;
      kind = refl;
    },
    omega arith,
    omega arith,
  )
  Journal-Kept (updated {n} {p} {old} {next} writes asked before step) =
      let (kept, low, high) = Journal-Kept before in
      let (kept', low', high') = update_lease-Kept writes asked old next step in
      (Kept-trans kept kept', omega (arith, low, low'), omega (arith, high, high'))
