-- ===== src/SessionManager/Reconciler/Follows.antt =====
-- The loop of the recovery follows the verdict of the replies, and what it calls.
use curator_agent_launcher.Base.{
  ◌⊎◌, ◌≡◌, refl, none, some, [], ◌∷◌, List, arith, ◌+◌, Option, inl, inr, String, ℕ,
}
use curator_agent_launcher.SessionManager.Store.{Expected}
use curator_agent_launcher.SessionManager.Pending.{Pending}
use curator_agent_launcher.SessionManager.Reconciler.{
  Setting, recover_loop, finish, unresolved, failure, Reply, Settled, Call, start_call, status_call,
  cancel_call, Answer, World, Verdict, give_up, settle, cancel_it, ask_again, judge,
}

abbrev pub settled_by : Verdict → Option Settled → Option Settled
settled_by give_up later = none
settled_by (settle s) later = some s
settled_by cancel_it later = later
settled_by ask_again later = later

-- The first reply that settles, when only replies to cancel and to ask again stand before it.
unfoldable pub verdict : String → Reply → List Reply → Option Settled
verdict op reply [] = settled_by (judge op reply) none
verdict op reply (next ∷ replies) = settled_by (judge op reply) (verdict op next replies)

pub Verdict-cases :
    (v : Verdict)
    → ((s : Settled) × (v ≡ settle s)) ⊎ ((v ≡ give_up) ⊎ ((v ≡ cancel_it) ⊎ (v ≡ ask_again)))
Verdict-cases (settle s) = inl (s, refl)
Verdict-cases give_up = inr (inl refl)
Verdict-cases cancel_it = inr (inr (inl refl))
Verdict-cases ask_again = inr (inr (inr refl))

abbrev pub is_start : Call → ℕ
is_start (start_call op) = 1
is_start _ = 0

-- How many launches were sent.
abbrev pub launches : List Call → ℕ
launches [] = 0
launches (c ∷ cs) = is_start c + launches cs

module _ {Request Lease : Type 0} (h : Setting Request Lease) where
  abbrev pub finishes :
      Pending Request Lease
      → Expected
      → Settled
      → World Request Lease
      → World Request Lease × Answer
  finishes = finish h

  abbrev pub loops :
      Pending Request Lease
      → Expected
      → Reply
      → List Reply
      → World Request Lease
      → World Request Lease × Answer
  loops = recover_loop h

  -- What the loop does with a verdict.
  abbrev pub settled_with :
      Pending Request Lease
      → Expected
      → Option Settled
      → World Request Lease
      → World Request Lease × Answer
  settled_with p expected none w = (w, failure (unresolved p.operation_id))
  settled_with p expected (some s) w = finishes p expected s w

  -- The loop finishes with the verdict of the replies, in a world that differs by its calls only, and
  -- none of these is a launch.
  pub recover_loop-verdict :
      (p : Pending Request Lease) (expected : Expected) (reply : Reply) (replies : List Reply)
      → (w : World Request Lease)
      → (cs : List Call) × (loops p expected reply replies w
          ≡ settled_with p expected
              (verdict p.operation_id reply replies)
              (record w { calls = cs }))
        × (launches cs ≡ launches w.calls)
  unfolding recover_loop verdict
  recover_loop-verdict p expected reply [] w = elim (Verdict-cases (judge p.operation_id reply)) [
    | inl (s, e) ↦ (w.calls, rw (e, recover_loop, verdict), refl)
    | inr (inl e) ↦ (w.calls, rw (e, recover_loop, verdict), refl)
    | inr (inr (inl e)) ↦
        (cancel_call p.operation_id ∷ w.calls, rw (e, recover_loop, verdict), omega arith)
    | inr (inr (inr e)) ↦ (w.calls, rw (e, recover_loop, verdict), refl)
  ]
  recover_loop-verdict p expected reply (next ∷ replies) w =
      let op = p.operation_id in
      let by_cancel =
        recover_loop-verdict p expected next replies
          (record w { calls = cancel_call op ∷ w.calls }) in
      let by_status =
        recover_loop-verdict p expected next replies
          (record w { calls = status_call op ∷ w.calls }) in
      elim (Verdict-cases (judge op reply)) [
        | inl (s, e) ↦ (w.calls, rw (e, recover_loop, verdict), refl)
        | inr (inl e) ↦ (w.calls, rw (e, recover_loop, verdict), refl)
        | inr (inr (inl e)) ↦
            (by_cancel.0, rw (e, recover_loop, verdict) by_cancel.1, omega (arith, by_cancel.2))
        | inr (inr (inr e)) ↦
            (by_status.0, rw (e, recover_loop, verdict) by_status.1, omega (arith, by_status.2))
      ]
