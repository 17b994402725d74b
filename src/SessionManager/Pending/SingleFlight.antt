-- ===== src/SessionManager/Pending/SingleFlight.antt =====
-- One pending operation at a time, and none forgotten before its end.
use curator_agent_launcher.Base.{
  refl, ◌≡◌, ◌⊎◌, inl, inr, Bool, true, ◌&&◌, some, String, str_eq, subst, arith, Bool-cases,
}
use curator_agent_launcher.Tried.{granted, denied}
use curator_agent_launcher.SessionManager.Routes.{Refusal}
use curator_agent_launcher.SessionManager.Pending.{
  Pending, PendingFile, absent, unreadable, holding, is_terminal, invalid, is_sound, pending,
  write_pending, clear_terminal, remove_pending,
}

module _ {Request Lease : Type 0} (id : String) (plain : Bool)
    (valid correlated : Pending Request Lease → Bool) where
  -- A pending operation is written only where there is none, and the record that is written is one that
  -- `pending` does not refuse.
  pub write_pending-pending :
      (file : PendingFile Request Lease) (writes : Bool) (p q : Pending Request Lease)
      → write_pending id plain valid correlated file writes p ≡ granted q
      → (file ≡ absent) × (pending id plain valid correlated (holding q) ≡ granted (some p))
  unfolding write_pending pending
  write_pending-pending absent writes p q e =
      elim (Bool-cases (is_sound id plain valid correlated p)) [
        | inr bad ↦ cc (rw bad at e)
        | inl good ↦ elim (Bool-cases writes) [
          | inr full ↦ cc (rw (good, full) at e)
          | inl free ↦
              let same : p ≡ q = cc (rw (good, free) at e) in
              (
                refl,
                subst (λ x. pending id plain valid correlated (holding x) ≡ granted (some p)) same
                    (rw good),
              )
        ]
      ]
  write_pending-pending unreadable writes p q e = cc
  write_pending-pending (holding r) writes p q e =
      elim (Bool-cases (is_sound id plain valid correlated r)) [
        | inr bad ↦ cc (rw bad at e)
        | inl good ↦ cc (rw good at e)
      ]

  -- What `clear_terminal` leaves: if it succeeds, the outcome was a terminal one, the operation was the
  -- pending one, and it is gone; if it fails and what was removed can be written again, the file is as
  -- before.
  pub clear_terminal-cases :
      (removes syncs : Bool) (file : PendingFile Request Lease) (op outcome : String)
      → ((clear_terminal id plain valid correlated removes syncs true file op outcome
            ≡ (absent, granted tt))
          × (is_terminal outcome ≡ true)
          × ((p : Pending Request Lease) × (file ≡ holding p) × (str_eq p.operation_id op ≡ true)))
        ⊎ ((r : Refusal) × (clear_terminal id plain valid correlated removes syncs true file op
                outcome
              ≡ (file, denied r)))
  unfolding clear_terminal pending remove_pending
  clear_terminal-cases removes syncs file op outcome = elim (Bool-cases (is_terminal outcome)) [
    | inr early ↦ inr (invalid id plain valid correlated, rw early)
    | inl ended ↦ of_file file ended
  ]
    where
      of_file :
          (f : PendingFile Request Lease)
          → is_terminal outcome ≡ true
          → ((clear_terminal id plain valid correlated removes syncs true f op outcome
                ≡ (absent, granted tt))
              × (is_terminal outcome ≡ true)
              × ((p : Pending Request Lease) × (f ≡ holding p) × (str_eq p.operation_id op ≡ true)))
            ⊎ ((r : Refusal) × (clear_terminal id plain valid correlated removes syncs true f op
                    outcome
                  ≡ (f, denied r)))
      of_file absent ended = inr (invalid id plain valid correlated, rw ended)
      of_file unreadable ended = inr (invalid id plain valid correlated, rw ended)
      of_file (holding p) ended = elim (Bool-cases (is_sound id plain valid correlated p)) [
        | inr bad ↦ inr (invalid id plain valid correlated, rw (ended, bad))
        | inl good ↦ elim (Bool-cases (str_eq p.operation_id op)) [
          | inr other ↦ inr (invalid id plain valid correlated, rw (ended, good, other))
          | inl own ↦ elim (Bool-cases (removes && syncs)) [
            | inl gone ↦ inl (ground arith, ended, (p, refl, own))
            | inr kept ↦ inr (invalid id plain valid correlated, ground arith)
          ]
        ]
      ]
