-- ===== src/SessionManager/HomeLease/Exclusive.antt =====
-- One lane at a time holds an environment with a profile.
use curator_agent_launcher.Base.{
  sym, subst, ◌∙◌, str_eq_iff, Bool, true, not, ◌&&◌, ◌||◌, ◌≡◌, refl, List, [], ◌∷◌, String,
  str_eq, Bool-cases, inl, inr, arith, Option, none, some,
}
use curator_agent_launcher.Tried.{granted}
use curator_agent_launcher.SessionManager.Pending.{Pending}
use curator_agent_launcher.SessionManager.HomeLease.{
  LeaseRecord, LeaseAdmission, PreparedHolder, Acquired, blocking, same_lane, conflicts, allocation,
  acquire, acquire_record, answers, same_option,
}

-- Two records that block are of one lane, if they are of one environment and profile.
unfoldable pub compatible : LeaseRecord → LeaseRecord → Bool
compatible a b =
    not
      (blocking a && blocking b && str_eq a.environment b.environment && str_eq a.profile b.profile)
    || same_lane a.holder b.holder

unfoldable pub compatible_with : LeaseRecord → List LeaseRecord → Bool
compatible_with a [] = true
compatible_with a (b ∷ records) = compatible a b && compatible_with a records

unfoldable pub exclusive : List LeaseRecord → Bool
exclusive [] = true
exclusive (r ∷ records) = compatible_with r records && exclusive records

option_lane :
    (a b c : Option String)
    → same_option str_eq a c ≡ true
    → same_option str_eq b c ≡ true
    → same_option str_eq a b ≡ true
option_lane none none c e f = refl
option_lane none (some y) none e f = cc
option_lane none (some y) (some z) e f = cc
option_lane (some x) none none e f = cc
option_lane (some x) none (some z) e f = cc
option_lane (some x) (some y) none e f = cc
option_lane (some x) (some y) (some z) e f =
    (str_eq_iff x y).1 ((str_eq_iff x z).0 e ∙ sym ((str_eq_iff y z).0 f))

same_lane_trans :
    (a b c : PreparedHolder) → same_lane a c ≡ true → same_lane b c ≡ true → same_lane a b ≡ true
unfolding same_lane
same_lane_trans a b c e f = option_lane a.werkstatt b.werkstatt c.werkstatt e f

-- A record of the admission meets one that is no conflict.
answers-compatible :
    (p : Pending String LeaseAdmission) (l : LeaseAdmission) (r b : LeaseRecord)
    → answers p l r ≡ true
    → (not (blocking b) || not (conflicts l p.profile b)) ≡ true
    → compatible r b ≡ true
unfolding answers compatible conflicts
answers-compatible p l r b a free =
    elim (Bool-cases (
      blocking r
      && blocking b
      && str_eq r.environment b.environment
      && str_eq r.profile b.profile)) [
        | inr apart ↦ ground arith
        | inl close ↦
            let env : r.environment ≡ b.environment = (str_eq_iff _ _).0 (ground arith) in
            let profile : r.profile ≡ b.profile = (str_eq_iff _ _).0 (ground arith) in
            let env' : str_eq b.environment l.environment ≡ true =
              subst (λ x. str_eq x l.environment ≡ true) env (ground arith) in
            let profile' : str_eq b.profile p.profile ≡ true =
              subst (λ x. str_eq x p.profile ≡ true) profile (ground arith) in
            let own : same_lane r.holder l.holder ≡ true = ground arith in
            let other : same_lane b.holder l.holder ≡ true = ground arith in
            ground (arith, same_lane_trans r.holder b.holder l.holder own other)
      ]

allocation-compatible :
    (records : List LeaseRecord) (p : Pending String LeaseAdmission) (l : LeaseAdmission)
    (r : LeaseRecord)
    → answers p l r ≡ true
    → allocation records l p.profile ≡ granted tt
    → compatible_with r records ≡ true
unfolding allocation compatible_with
allocation-compatible [] p l r a e = refl
allocation-compatible (b ∷ records) p l r a e = elim (Bool-cases (blocking b)) [
  | inr idle ↦
      let rest = allocation-compatible records p l r a (rw (idle, allocation) at e) in
      ground (arith, answers-compatible p l r b a)
  | inl busy ↦ elim (Bool-cases (conflicts l p.profile b)) [
    | inl conflict ↦ cc (rw (busy, conflict, allocation) at e)
    | inr free ↦
        let rest = allocation-compatible records p l r a (rw (busy, free, allocation) at e) in
        ground (arith, answers-compatible p l r b a)
  ]
]

acquire-answers :
    (p : Pending String LeaseAdmission) (l : LeaseAdmission) (t : Acquired) (r : LeaseRecord)
    (reason : String)
    → acquire p l (granted t) ≡ granted (r, reason)
    → answers p l r ≡ true
unfolding acquire
acquire-answers p l t r reason e = of_lease t.lease e
  where
    of_lease :
        (m : Option LeaseRecord)
        → acquire_record p l t.reason m ≡ granted (r, reason)
        → answers p l r ≡ true
    of_lease none g = cc
    of_lease (some q) g = elim (Bool-cases (answers p l q)) [
      | inr no_answer ↦ cc (rw no_answer at g)
      | inl answer ↦ ground arith
    ]

-- If no two lanes hold one environment with one profile, the allocation is granted, and the lease is
-- acquired, then still no two lanes do, the acquired lease among them.
pub allocation-exclusive :
    (records : List LeaseRecord) (p : Pending String LeaseAdmission) (l : LeaseAdmission)
    (t : Acquired) (r : LeaseRecord) (reason : String)
    → exclusive records ≡ true
    → allocation records l p.profile ≡ granted tt
    → acquire p l (granted t) ≡ granted (r, reason)
    → exclusive (r ∷ records) ≡ true
unfolding exclusive
allocation-exclusive records p l t r reason ok free got =
    ground (arith, allocation-compatible records p l r (acquire-answers p l t r reason got) free)
