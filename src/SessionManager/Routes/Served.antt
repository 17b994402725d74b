-- ===== src/SessionManager/Routes/Served.antt =====
-- A manager that offers what is needed serves the request, and nothing hosted becomes native.
use text.Mathlib.Text.{◌==◌ as str_eq}
use text.Mathlib.TextEquality.{eq_iff}
use curator_agent_launcher.Tried.{granted}
use curator_agent_launcher.Base.{
  ◌≡◌, refl, ◌∙◌, sym, ap, ◌⊎◌, inl, inr, true, false, not, ◌&&◌, ◌||◌, List, arith, if◌then◌else◌,
  String, Bool-cases,
}
use curator_agent_launcher.SessionManager.Routes.Wants.{
  op_of, demands, contains-sort_strings, before_doorbell,
}
use curator_agent_launcher.SessionManager.Routes.Kinds.{
  contains-wanted, wanted-Agrees, with_werkstatt,
}
use curator_agent_launcher.SessionManager.Routes.Delegated.{
  Qualified, provides, offered-eq, offered-check_all, choose-launch_cap, route_on-Passed,
  required-route_on, inexact_route,
}
use curator_agent_launcher.SessionManager.Routes.{
  need, Describe, Needs, Choice, Wanted, Route, contains, wanted, need_doorbell, choose,
  sort_strings, not_lease_capable, shape_checks, authorise, route_on, required, wants_native,
  muse_qualified,
}

choose_inexact :
    (n : Needs) (ops : List String)
    → (n.resume ≡ false
        → n.detached ≡ false
        → n.doorbell ≡ false
        → contains ops "launch-exact" ≡ false)
    → str_eq (choose n ops).route "exact" ≡ false
unfolding choose
choose_inexact n ops h = elim (Bool-cases n.resume) [
  | inl again ↦ rw again
  | inr fresh ↦
      elim (Bool-cases (not n.detached && not n.doorbell && contains ops "launch-exact")) [
        | inl exact ↦ ground (arith, h)
        | inr plain ↦ rw (fresh, plain)
      ]
]

provides-parts :
    (caps ops : List String) (cap op : String)
    → op_of cap ≡ op
    → str_eq op "" ≡ false
    → provides caps ops cap ≡ true
    → (contains caps cap ≡ true) × (contains ops op ≡ true)
provides-parts caps ops cap op e real h = let h' = rw e at h in ground arith

-- The launch of the request, on the delegated route.
abbrev launch_of : Needs → String
launch_of n = if n.resume then "resume/1" else "launch-delegated/1"

demands_launch : (n : Needs) → demands n (launch_of n) ≡ true
demands_launch n = rw ((eq_iff (launch_of n) (launch_of n)).1 refl)

demands_status : (n : Needs) → demands n "status/1" ≡ true
demands_status n = ground arith

demands_admission : (n : Needs) → demands n "admission/1" ≡ true
demands_admission n = ground arith

launch_op_named : (n : Needs) (ops : List String) → str_eq (choose n ops).launch_op "" ≡ false
unfolding choose
launch_op_named n ops = elim (Bool-cases n.resume) [
  | inl again ↦ rw again
  | inr fresh ↦
      elim (Bool-cases (not n.detached && not n.doorbell && contains ops "launch-exact")) [
        | inl exact ↦ rw (fresh, exact)
        | inr plain ↦ rw (fresh, plain)
      ]
]

-- A manager with the launch, status and admission of the request can hold its lease.
lease_capable :
    (d : Describe) (n : Needs) (q : Qualified d n)
    → not_lease_capable (choose n q.ops) d.capabilities q.ops ≡ false
unfolding not_lease_capable op_of
lease_capable d n q =
    let (lc, lo, _, _) = choose-launch_cap n q.ops (choose_inexact n q.ops q.not_exact) in
    let (a, b) =
      provides-parts d.capabilities q.ops "status/1" "status" refl refl
        (q.offers "status/1" (demands_status n)) in
    let (e, f) =
      provides-parts d.capabilities q.ops "admission/1" "cancel" refl refl
        (q.offers "admission/1" (demands_admission n)) in
    let (g, h) =
      provides-parts d.capabilities q.ops (choose n q.ops).launch_cap (choose n q.ops).launch_op lo
        (launch_op_named n q.ops)
        (q.offers (choose n q.ops).launch_cap (ap (demands n) lc ∙ demands_launch n)) in
    ground (arith, choose_inexact n q.ops q.not_exact)

has_launch :
    (d : Describe) (n : Needs) (ops : List String)
    → n.resume ≡ false
    → not_lease_capable (choose n ops) d.capabilities ops ≡ false
    → contains ops "launch" ≡ true
unfolding not_lease_capable choose
has_launch d n ops fresh h =
    elim (Bool-cases (not n.detached && not n.doorbell && contains ops "launch-exact")) [
      | inl exact ↦ cc (rw (fresh, exact) at h)
      | inr plain ↦ let h' = rw (fresh, plain) at h in ground arith
    ]

-- Once the lease gate has passed, the two checks that stand behind it in the code, on the shape of
-- an exact launch, never refuse.
pub shape_checks-granted :
    (d : Describe) (n : Needs) (ops : List String)
    → not_lease_capable (choose n ops) d.capabilities ops ≡ false
    → shape_checks n ops ≡ granted tt
unfolding shape_checks
shape_checks-granted d n ops h = elim (Bool-cases n.resume) [
  | inl again ↦ rw again
  | inr fresh ↦ rw (fresh, has_launch d n ops fresh h) (ground arith)
]

need_doorbell-total :
    (n : Needs) (w : Wanted)
    → (n.doorbell ≡ true → (n.runtime ≡ "claude_code") ⊎ (n.runtime ≡ "codex_cli"))
    → (r : Wanted) × (need_doorbell n w ≡ granted r)
unfolding need_doorbell
need_doorbell-total n w bell = elim (Bool-cases n.doorbell) [
  | inr quiet ↦ (w, rw quiet)
  | inl rings ↦ elim (bell rings) [
    | inl claude ↦ (need "doorbell-claude/1" "" w, rw (rings, claude))
    | inr codex ↦ (need "doorbell-codex/1" "" w, rw (rings, codex))
  ]
]

wanted-total :
    (n : Needs) (c : Choice)
    → (n.doorbell ≡ true → (n.runtime ≡ "claude_code") ⊎ (n.runtime ≡ "codex_cli"))
    → (w : Wanted) × (wanted n c ≡ granted w)
unfolding wanted
wanted-total n c bell =
    let (r, e) = need_doorbell-total n (before_doorbell n c) bell in
    (with_werkstatt n.werkstatt r, rw e)

muse_clear :
    (d : Describe) (n : Needs) (q : Qualified d n)
    → (str_eq n.runtime "muse" && not (muse_qualified d.capabilities q.ops)) ≡ false
muse_clear d n q = elim (Bool-cases (str_eq n.runtime "muse")) [
  | inl muse ↦ rw (muse, q.muse ((eq_iff n.runtime "muse").0 muse))
  | inr other ↦ rw other
]

-- The route that a qualified manager serves.
abbrev pub served : List String → Route
served caps = record { kind = "delegated"; notice = ""; capabilities = caps }

-- A request that does not ask for a native launch, of a kind for which delegated launches are signed off,
-- is granted the delegated route with exactly the needed capabilities by any manager that qualifies
-- (`Qualified`): it offers everything that the request needs, the request meets the conditions on the
-- runtime, on Muse and on the doorbell, and the manager does not offer the exact launch where the request
-- could take it (fresh, attended and without a doorbell).
pub Qualified-required :
    (d : Describe) (n : Needs)
    → wants_native n ≡ false
    → n.signed_off ≡ true
    → Qualified d n
    → (caps : List String) × (required d n ≡ granted (served caps))
      × ((k : String) → contains caps k ≡ demands n k)
unfolding required route_on authorise
Qualified-required d n hosted signed q =
    let inexact = choose_inexact n q.ops q.not_exact in
    let (lc, lo, delegated, _) = choose-launch_cap n q.ops inexact in
    let (w, ew) = wanted-total n (choose n q.ops) q.bell in
    let has = λ (k : String). contains-wanted n (choose n q.ops) w k ew lc in
    let a = wanted-Agrees n (choose n q.ops) w ew lo in
    let all =
      offered-check_all d.capabilities q.ops w.ops w.required
        λ k h. offered-eq d.capabilities q.ops w k a h ∙ q.offers k (sym (has k) ∙ h) in
    (
      sort_strings w.required,
      rw (
        hosted,
        q.runtime,
        muse_clear d n q,
        lease_capable d n q,
        shape_checks-granted d n q.ops (lease_capable d n q),
        ew,
        all,
        delegated,
        signed,
      ),
      λ k. contains-sort_strings w.required k ∙ has k,
    )

authorise-hosted :
    (n : Needs) (c : Choice) (caps : List String) (r : Route)
    → c.route ≡ "delegated"
    → (n.explicit_hosted || n.werkstatt) ≡ true
    → authorise n c caps ≡ granted r
    → (r ≡ served caps) × ((n.signed_off || n.delegated_trial) ≡ true)
unfolding authorise
authorise-hosted n c caps r e hosted h = let h' = rw (e, hosted) at h in ground arith

-- A request that is explicitly hosted or of a Werkstatt, and that does not set `native`, becomes neither a
-- native launch nor an exact one: if a route is granted, it is the delegated one, signed off or on trial,
-- with exactly the needed capabilities.
pub required-hosted :
    (d : Describe) (n : Needs) (r : Route)
    → n.native ≡ false
    → (n.explicit_hosted || n.werkstatt) ≡ true
    → required d n ≡ granted r
    → (r.kind ≡ "delegated")
      × (r.notice ≡ "")
      × ((n.signed_off || n.delegated_trial) ≡ true)
      × ((k : String) → contains r.capabilities k ≡ demands n k)
required-hosted d n r plain hosted e =
    let (ops, _, e') = required-route_on d n r (ground arith) e in
    let p = route_on-Passed d n ops r e' in
    let (lc, _, delegated, _) = choose-launch_cap n ops (inexact_route n ops d p.lease) in
    let (same, allowed) =
      authorise-hosted n (choose n ops) (sort_strings p.all.required) r delegated hosted
        p.authorised in
    (
      ap (λ x. x.kind) same,
      ap (λ x. x.notice) same,
      allowed,
      λ k.
          ap (λ x. contains x.capabilities k) same
          ∙ contains-sort_strings p.all.required k
          ∙ contains-wanted n (choose n ops) p.all k p.collected lc,
    )
