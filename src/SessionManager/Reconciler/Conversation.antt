-- ===== src/SessionManager/Reconciler/Conversation.antt =====
-- What the replies of a manager settle, and the calls between them, told without the switch of the
-- loops.
use curator_agent_launcher.Base.{
  ◌∙◌, ◌⊎◌, ◌≡◌, ◌≢◌, refl, sym, subst, false, Bool-cases, none, some, [], ◌∷◌, List, Option, inl,
  inr, String, str_eq, str_eq_iff,
}
use curator_agent_launcher.SessionManager.Routes.{Refusal}
use curator_agent_launcher.SessionManager.Store.{Expected}
use curator_agent_launcher.SessionManager.Pending.{Pending}
use curator_agent_launcher.SessionManager.Reconciler.{
  Setting, Session, Outcome, recover_loop, plain_loop, Reply, failed_call, session_reply,
  outcome_reply, no_reply, Settled, started, failed, cancelled, Call, status_call, cancel_call,
  World, Answer, failure, plain_answer, unresolved, Verdict, give_up, settle, cancel_it, ask_again,
  judge, own_session,
}
use curator_agent_launcher.SessionManager.Reconciler.Follows.{Verdict-cases, settled_with}

-- A reply that ends the operation: a session of its own, a failure or a cancellation.
pub data Concludes (op : String) : Reply → Settled → Type 0 where
  by_start :
      {o : Outcome} {s : Session}
      → o.outcome ≡ "started"
      → o.session ≡ some s
      → s.operation_id ≡ op
      → Concludes op (outcome_reply o) (started s)
  by_failure : {o : Outcome} → o.outcome ≡ "failed" → Concludes op (outcome_reply o) (failed o.code)
  by_cancel : {o : Outcome} → o.outcome ≡ "cancelled" → Concludes op (outcome_reply o) cancelled

-- A reply of an operation that has not begun.
pub data IsUnbegun : Reply → Type 0 where
  not_begun :
      {o : Outcome}
      → (o.outcome ≡ "not_found") ⊎ (o.outcome ≡ "prepared")
      → IsUnbegun (outcome_reply o)

-- A reply of an operation under way.
pub data IsUnderWay : Reply → Type 0 where
  under_way : {o : Outcome} → o.outcome ≡ "admitted" → IsUnderWay (outcome_reply o)

-- No session of the operation.
abbrev pub IsForeign : String → Option Session → Type 0
IsForeign op none = Unit
IsForeign op (some s) = s.operation_id ≢ op

-- A reply that says nothing of the operation: an error, no outcome, a start without a session of its
-- own, or an unknown outcome.
pub data IsUnclear (op : String) : Reply → Type 0 where
  of_failure : (r : Refusal) → IsUnclear op (failed_call r)
  of_session : (s : Session) → IsUnclear op (session_reply s)
  of_nothing : IsUnclear op no_reply
  foreign :
      {o : Outcome}
      → o.outcome ≡ "started"
      → IsForeign op o.session
      → IsUnclear op (outcome_reply o)
  unknown :
      {o : Outcome}
      → o.outcome ≢ "started"
      → o.outcome ≢ "failed"
      → o.outcome ≢ "cancelled"
      → o.outcome ≢ "not_found"
      → o.outcome ≢ "prepared"
      → o.outcome ≢ "admitted"
      → IsUnclear op (outcome_reply o)

-- The replies before the deadline, what they settle if anything, and the calls between them, the first
-- one first. An operation that has not begun is cancelled at once; one under way is asked for again,
-- behind a pause in which the deadline may pass.
pub data Conversation (op : String) : List Reply → Option Settled → List Call → Type 0 where
  silent : Conversation op [] none []
  settles :
      {r : Reply} {rs : List Reply} {s : Settled}
      → Concludes op r s
      → Conversation op (r ∷ rs) (some s) []
  stuck : {r : Reply} {rs : List Reply} → IsUnclear op r → Conversation op (r ∷ rs) none []
  cancels :
      {r : Reply} {rs : List Reply} {e : Option Settled} {cs : List Call}
      → IsUnbegun r
      → Conversation op rs e cs
      → Conversation op (r ∷ rs) e (cancel_call op ∷ cs)
  waits :
      {r next : Reply} {rs : List Reply} {e : Option Settled} {cs : List Call}
      → IsUnderWay r
      → Conversation op (next ∷ rs) e cs
      → Conversation op (r ∷ next ∷ rs) e (status_call op ∷ cs)
  late : {r : Reply} → IsUnderWay r → Conversation op (r ∷ []) none []

abbrev Judged : String → Reply → Verdict → Type 0
Judged op r (settle s) = Concludes op r s
Judged op r give_up = IsUnclear op r
Judged op r cancel_it = IsUnbegun r
Judged op r ask_again = IsUnderWay r

differs : (a b : String) → str_eq a b ≡ false → a ≢ b
differs a b e same = cc (sym e ∙ (str_eq_iff a b).1 same)

own_session-Judged :
    (op : String) (o : Outcome) (found : Option Session)
    → o.outcome ≡ "started"
    → o.session ≡ found
    → Judged op (outcome_reply o) (own_session op found)
own_session-Judged op o none e k = foreign e (subst (IsForeign op) (sym k) tt)
own_session-Judged op o (some s) e k = elim (Bool-cases (str_eq s.operation_id op)) [
  | inl own ↦ rw own (by_start e k ((str_eq_iff s.operation_id op).0 own))
  | inr other ↦
      rw other (foreign e (subst (IsForeign op) (sym k) (differs s.operation_id op other)))
]

outcome-Judged :
    (op : String) (o : Outcome) → Judged op (outcome_reply o) (judge op (outcome_reply o))
unfolding judge
outcome-Judged op o = elim (Bool-cases (str_eq o.outcome "started")) [
  | inl a ↦ rw a (own_session-Judged op o o.session ((str_eq_iff o.outcome "started").0 a) refl)
  | inr a ↦ elim (Bool-cases (str_eq o.outcome "failed")) [
    | inl b ↦ rw (a, b) (by_failure ((str_eq_iff o.outcome "failed").0 b))
    | inr b ↦ elim (Bool-cases (str_eq o.outcome "cancelled")) [
      | inl c ↦ rw (a, b, c) (by_cancel ((str_eq_iff o.outcome "cancelled").0 c))
      | inr c ↦ elim (Bool-cases (str_eq o.outcome "not_found")) [
        | inl d ↦ rw (a, b, c, d) (not_begun (inl ((str_eq_iff o.outcome "not_found").0 d)))
        | inr d ↦ elim (Bool-cases (str_eq o.outcome "prepared")) [
          | inl f ↦ rw (a, b, c, d, f) (not_begun (inr ((str_eq_iff o.outcome "prepared").0 f)))
          | inr f ↦ elim (Bool-cases (str_eq o.outcome "admitted")) [
            | inl g ↦ rw (a, b, c, d, f, g) (under_way ((str_eq_iff o.outcome "admitted").0 g))
            | inr g ↦
                rw (a, b, c, d, f, g)
                  (unknown (differs o.outcome "started" a) (differs o.outcome "failed" b)
                    (differs o.outcome "cancelled" c) (differs o.outcome "not_found" d)
                    (differs o.outcome "prepared" f) (differs o.outcome "admitted" g))
          ]
        ]
      ]
    ]
  ]
]

judge-Judged : (op : String) (r : Reply) → Judged op r (judge op r)
unfolding judge
judge-Judged op (outcome_reply o) = outcome-Judged op o
judge-Judged op (failed_call r) = of_failure r
judge-Judged op (session_reply s) = of_session s
judge-Judged op no_reply = of_nothing

-- The calls of a world, the last one first.
abbrev pub made : List Call → List Call → List Call
made [] before = before
made (c ∷ cs) before = made cs (c ∷ before)

-- What `ReconcilePlain` says of what is settled.
abbrev pub plain_of : String → Option Settled → Answer
plain_of op none = failure (unresolved op)
plain_of op (some s) = plain_answer s

module _ {Request Lease : Type 0} (h : Setting Request Lease) where
  -- Behind the first reply, the two loops hold one conversation: the recovery makes its calls, which are
  -- no launches, and finishes with what it settles, `ReconcilePlain` answers by that, and if it settles
  -- nothing, both say that the operation is unresolved.
  pub loops-Conversation :
      (p : Pending Request Lease) (expected : Expected) (reply : Reply) (replies : List Reply)
      → (w : World Request Lease)
      → (e : Option Settled) × (cs : List Call) × Conversation p.operation_id (reply ∷ replies) e cs
        × (recover_loop h p expected reply replies w
            ≡ settled_with h p expected e (record w { calls = made cs w.calls }))
        × (plain_loop p.operation_id reply replies ≡ plain_of p.operation_id e)
  unfolding recover_loop plain_loop
  loops-Conversation p expected reply [] w =
      let op = p.operation_id in
      elim (Verdict-cases (judge op reply)) [
        | inl (s, e) ↦ (
          some s,
          [],
          settles (subst (Judged op reply) e (judge-Judged op reply)),
          rw (e, recover_loop),
          rw (e, plain_loop),
        )
        | inr (inl e) ↦ (
          none,
          [],
          stuck (subst (Judged op reply) e (judge-Judged op reply)),
          rw (e, recover_loop),
          rw (e, plain_loop),
        )
        | inr (inr (inl e)) ↦ (
          none,
          cancel_call op ∷ [],
          cancels (subst (Judged op reply) e (judge-Judged op reply)) silent,
          rw (e, recover_loop),
          rw (e, plain_loop),
        )
        | inr (inr (inr e)) ↦ (
          none,
          [],
          late (subst (Judged op reply) e (judge-Judged op reply)),
          rw (e, recover_loop),
          rw (e, plain_loop),
        )
      ]
  loops-Conversation p expected reply (next ∷ replies) w =
      let op = p.operation_id in
      let (e1, cs1, t1, a1, b1) =
        loops-Conversation p expected next replies
          (record w { calls = cancel_call op ∷ w.calls }) in
      let (e2, cs2, t2, a2, b2) =
        loops-Conversation p expected next replies
          (record w { calls = status_call op ∷ w.calls }) in
      elim (Verdict-cases (judge op reply)) [
        | inl (s, e) ↦ (
          some s,
          [],
          settles (subst (Judged op reply) e (judge-Judged op reply)),
          rw (e, recover_loop),
          rw (e, plain_loop),
        )
        | inr (inl e) ↦ (
          none,
          [],
          stuck (subst (Judged op reply) e (judge-Judged op reply)),
          rw (e, recover_loop),
          rw (e, plain_loop),
        )
        | inr (inr (inl e)) ↦ (
          e1,
          cancel_call op ∷ cs1,
          cancels (subst (Judged op reply) e (judge-Judged op reply)) t1,
          rw (e, recover_loop) a1,
          rw (e, plain_loop) b1,
        )
        | inr (inr (inr e)) ↦ (
          e2,
          status_call op ∷ cs2,
          waits (subst (Judged op reply) e (judge-Judged op reply)) t2,
          rw (e, recover_loop) a2,
          rw (e, plain_loop) b2,
        )
      ]
