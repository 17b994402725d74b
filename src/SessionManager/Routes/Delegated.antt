-- ===== src/SessionManager/Routes/Delegated.antt =====
-- When `required` returns the delegated route: exactly when the manager offers what is needed.
use text.Mathlib.Text.{◌==◌ as str_eq}
use text.Mathlib.TextEquality.{eq_iff}
use curator_agent_launcher.Tried.{◌>>=◌, Tried, granted, granted-parts, deny_if}
use curator_agent_launcher.Base.{
  ◌≡◌, refl, ◌∙◌, sym, ap, ◌⊎◌, inl, inr, Bool, true, false, not, ◌&&◌, ◌||◌, List, [], ◌∷◌, arith,
  if◌then◌else◌, String, Option, none, some, Bool-cases,
}
use curator_agent_launcher.SessionManager.Routes.Wants.{Agrees, op_of, demands, before_doorbell}
use curator_agent_launcher.SessionManager.Routes.Kinds.{contains-wanted, wanted-Agrees, wanted-rung}
use curator_agent_launcher.SessionManager.Routes.{
  lease_failure, Describe, Needs, Wanted, Route, contains, lookup, wanted, need_doorbell, choose,
  offered, check_all, sort_strings, not_lease_capable, shape_checks, authorise, route_on,
  on_runtime, required, wants_native, muse_qualified, unsupported, Refusal,
}

-- The manager offers a capability, and its runtime the operation that goes with it.
abbrev pub provides : List String → List String → String → Bool
provides caps ops cap = contains caps cap && (str_eq (op_of cap) "" || contains ops (op_of cap))

-- What a manager needs for a request on the delegated route.
pub record Qualified (d : Describe) (n : Needs) : Type 0 where
  pub ops : List String
  pub runtime : lookup n.runtime d.runtimes ≡ some ops
  pub muse : n.runtime ≡ "muse" → muse_qualified d.capabilities ops ≡ true
  pub not_exact :
      n.resume ≡ false
      → n.detached ≡ false
      → n.doorbell ≡ false
      → contains ops "launch-exact" ≡ false
  pub bell : n.doorbell ≡ true → (n.runtime ≡ "claude_code") ⊎ (n.runtime ≡ "codex_cli")
  pub offers : (cap : String) → demands n cap ≡ true → provides d.capabilities ops cap ≡ true

pub offered-eq :
    (caps ops : List String) (w : Wanted) (k : String)
    → Agrees w
    → contains w.required k ≡ true
    → offered caps ops w.ops k ≡ provides caps ops k
offered-eq caps ops w k a h =
    ap (λ op. contains caps k && (str_eq op "" || contains ops op))
      (a.ops_of k ∙ ap (λ b. if b then op_of k else "") h)

check_all-offered :
    (caps ops : List String) (m : List (String × String)) (req : List String) (k : String)
    → check_all caps ops m req ≡ granted tt
    → contains req k ≡ true
    → offered caps ops m k ≡ true
unfolding check_all contains
check_all-offered caps ops m [] k e h = cc
check_all-offered caps ops m (x ∷ req) k e h = elim (Bool-cases (str_eq x k)) [
  | inl same ↦ ap (offered caps ops m) (sym ((eq_iff x k).0 same)) ∙ ground arith
  | inr other ↦ check_all-offered caps ops m req k (ground arith) (ground arith)
]

pub offered-check_all :
    (caps ops : List String) (m : List (String × String)) (req : List String)
    → ((k : String) → contains req k ≡ true → offered caps ops m k ≡ true)
    → check_all caps ops m req ≡ granted tt
unfolding check_all contains
offered-check_all caps ops m [] h = refl
offered-check_all caps ops m (x ∷ req) h =
    rw (h x (ap (λ b. b || contains req x) ((eq_iff x x).1 refl)))
      (offered-check_all caps ops m req (λ k e. h k (ground arith)))

exact_absurd :
    (n : Needs) (ops : List String)
    → n.resume ≡ false
    → (not n.detached && not n.doorbell && contains ops "launch-exact") ≡ true
    → str_eq (choose n ops).route "exact" ≡ false
    → ⊥
unfolding choose
exact_absurd n ops fresh exact h = cc (rw (fresh, exact) at h)

pub choose-launch_cap :
    (n : Needs) (ops : List String)
    → str_eq (choose n ops).route "exact" ≡ false
    → ((choose n ops).launch_cap ≡ (if n.resume then "resume/1" else "launch-delegated/1"))
      × (op_of (choose n ops).launch_cap ≡ (choose n ops).launch_op)
      × ((choose n ops).route ≡ "delegated")
      × (n.resume ≡ false
          → n.detached ≡ false
          → n.doorbell ≡ false
          → contains ops "launch-exact" ≡ false)
unfolding choose op_of
choose-launch_cap n ops h = elim (Bool-cases n.resume) [
  | inl again ↦ rw again (refl, refl, refl, λ new _ _. cc new)
  | inr fresh ↦
      elim (Bool-cases (not n.detached && not n.doorbell && contains ops "launch-exact")) [
        | inl exact ↦ absurd (exact_absurd n ops fresh exact h)
        | inr plain ↦ rw (fresh, plain) (refl, refl, refl, λ _ d b. ground arith)
      ]
]

pub inexact_route :
    (n : Needs) (ops : List String) (d : Describe)
    → not_lease_capable (choose n ops) d.capabilities ops ≡ false
    → str_eq (choose n ops).route "exact" ≡ false
unfolding not_lease_capable
inexact_route n ops d h = ground arith

-- All that was checked on the way to a route.
pub record Passed (d : Describe) (n : Needs) (ops : List String) (r : Route) : Type 0 where
  pub muse : (str_eq n.runtime "muse" && not (muse_qualified d.capabilities ops)) ≡ false
  pub lease : not_lease_capable (choose n ops) d.capabilities ops ≡ false
  pub all : Wanted
  pub collected : wanted n (choose n ops) ≡ granted all
  pub offered_all : check_all d.capabilities ops all.ops all.required ≡ granted tt
  pub authorised : authorise n (choose n ops) (sort_strings all.required) ≡ granted r

deny_if-granted :
    {B : Type 0} (b : Bool) (f : Refusal) (m : Tried Refusal B) {x : B}
    → (deny_if b f >>= λ _. m) ≡ granted x
    → (b ≡ false) × (m ≡ granted x)
deny_if-granted true f m e = cc
deny_if-granted false f m e = (refl, e)

pub route_on-Passed :
    (d : Describe) (n : Needs) (ops : List String) (r : Route)
    → route_on d n ops ≡ granted r
    → Passed d n ops r
unfolding route_on
route_on-Passed d n ops r e =
    let (muse, e1) = deny_if-granted _ (unsupported n) _ e in
    let (lease, e2) = deny_if-granted _ (lease_failure "route_not_lease_capable") _ e1 in
    let (_, _, e3) = granted-parts (shape_checks n ops) _ e2 in
    let (w, collected, e4) = granted-parts (wanted n (choose n ops)) _ e3 in
    let (_, offered_all, e5) = granted-parts (check_all d.capabilities ops w.ops w.required) _ e4 in
    record {
      muse = muse;
      lease = lease;
      all = w;
      collected = collected;
      offered_all = offered_all;
      authorised = e5;
    }

pub required-route_on :
    (d : Describe) (n : Needs) (r : Route)
    → wants_native n ≡ false
    → required d n ≡ granted r
    → (ops : List String) × (lookup n.runtime d.runtimes ≡ some ops)
      × (route_on d n ops ≡ granted r)
unfolding required
required-route_on d n r hosted e =
    on_runtime-granted d n r (lookup n.runtime d.runtimes) (rw hosted at e)
  where
    on_runtime-granted :
        (d : Describe) (n : Needs) (r : Route) (o : Option (List String))
        → on_runtime d n o ≡ granted r
        → (ops : List String) × (o ≡ some ops) × (route_on d n ops ≡ granted r)
    on_runtime-granted d n r none e = cc
    on_runtime-granted d n r (some ops) e = (ops, refl, e)

doorbell_runtime :
    (n : Needs) (w r : Wanted)
    → need_doorbell n w ≡ granted r
    → n.doorbell ≡ true
    → (n.runtime ≡ "claude_code") ⊎ (n.runtime ≡ "codex_cli")
unfolding need_doorbell
doorbell_runtime n w r e bell = elim (Bool-cases (str_eq n.runtime "claude_code")) [
  | inl claude ↦ inl ((eq_iff n.runtime "claude_code").0 claude)
  | inr other ↦ elim (Bool-cases (str_eq n.runtime "codex_cli")) [
    | inl codex ↦ inr ((eq_iff n.runtime "codex_cli").0 codex)
    | inr neither ↦ cc (rw (bell, other, neither) at e)
  ]
]

-- A request that leaves the native path is routed only if the manager offers all that it needs:
-- its runtime, for Muse the launch and the attachment, a doorbell that the runtime has, and for each
-- capability of the table the capability and its operation; and the exact route does not apply.
pub required-Qualified :
    (d : Describe) (n : Needs) (r : Route)
    → wants_native n ≡ false
    → required d n ≡ granted r
    → Qualified d n
required-Qualified d n r hosted e =
    let (ops, found, e') = required-route_on d n r hosted e in
    let p = route_on-Passed d n ops r e' in
    let (lc, lo, _, inexact) = choose-launch_cap n ops (inexact_route n ops d p.lease) in
    let (rung, bell, _) = wanted-rung n (choose n ops) p.all p.collected in
    record {
      ops = ops;
      runtime = found;
      muse = λ m. ground (arith, p.muse, (eq_iff n.runtime "muse").1 m);
      not_exact = inexact;
      bell = doorbell_runtime n (before_doorbell n (choose n ops)) rung bell;
      offers = λ cap h.
          let wanted_cap = contains-wanted n (choose n ops) p.all cap p.collected lc ∙ h in
          sym (
            offered-eq d.capabilities ops p.all cap
              (wanted-Agrees n (choose n ops) p.all p.collected lo) wanted_cap)
          ∙ check_all-offered d.capabilities ops p.all.ops p.all.required cap p.offered_all
              wanted_cap;
    }
