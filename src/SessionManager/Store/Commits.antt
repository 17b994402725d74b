-- ===== src/SessionManager/Store/Commits.antt =====
-- What a committed swap or edit can have changed.
use curator_agent_launcher.Tried.{granted-parts}
use curator_agent_launcher.SessionManager.Store.{
  edit_found, Tried, holds, edit, compare_and_swap, liveness, still_holds, swap, resurrects,
  Expected, carried, is_abandoned, granted, Refusal, commit, next_generation, same_operation,
  binding_eq, is_positive, may_follow, Liveness,
}
use curator_agent_launcher.Base.{
  Option, ◌||◌, refl, subst, ==_iff, ◌&&◌, str_eq, not, String, Bool, str_eq_iff, inr, inl, false,
  Bool-cases, arith, true, some, ◌≡◌, ◌==◌,
}

-- The documented transitions: the first settlement of a record without a generation, another manager
-- on a workplace that is down, a refresh within one operation, and the next operation.
pub data Transition (old next : Liveness) : Type 0 where
  first_settlement : old.generation ≡ 0 → is_positive next.generation ≡ true → Transition old next
  other_manager :
      binding_eq next.manager old.manager ≡ false
      → old.state ≡ "down"
      → same_operation next.operation_id old.operation_id ≡ false
      → is_positive next.generation ≡ true
      → Transition old next
  refresh :
      binding_eq next.manager old.manager ≡ true
      → same_operation next.operation_id old.operation_id ≡ true
      → next.generation ≡ old.generation
      → Transition old next
  next_operation :
      binding_eq next.manager old.manager ≡ true
      → same_operation next.operation_id old.operation_id ≡ false
      → next.generation ≡ next_generation old.generation
      → Transition old next

may_follow-Transition :
    (old next : Liveness) → may_follow (some old) next ≡ true → Transition old next
unfolding may_follow
may_follow-Transition old next e = elim (Bool-cases (old.generation == 0)) [
  | inl zero_gen ↦ first_settlement ((==_iff old.generation 0).0 zero_gen) (rw zero_gen at e)
  | inr real ↦ elim (Bool-cases (binding_eq next.manager old.manager)) [
    | inr other ↦
        let e' = rw (real, other) at e in
        other_manager other ((str_eq_iff old.state "down").0 (ground arith)) (ground arith)
          (ground arith)
    | inl same ↦ elim (Bool-cases (same_operation next.operation_id old.operation_id)) [
      | inl again ↦
          refresh same again
            ((==_iff next.generation old.generation).0 (rw (real, same, again) at e))
      | inr later ↦ next_operation same later (
          (==_iff next.generation (next_generation old.generation)).0 (rw (real, same, later) at e))
    ]
  ]
]

-- What a swap from `old` to `next` has kept, with `asked` the record that the caller proposed.
pub record Swapped (session_read : Bool) (old asked next : Liveness) : Type 0 where
  pub transition : Transition old next
  pub dispatch_kept :
      (next.current_task ≡ old.current_task)
      × (next.queue_depth ≡ old.queue_depth)
      × (next.abandoned_operations ≡ old.abandoned_operations)
  pub proposed :
      (next.operation_id ≡ asked.operation_id)
      × (next.generation ≡ asked.generation)
      × (next.manager ≡ asked.manager)
  pub not_revived :
      (not session_read && is_abandoned next.operation_id old.abandoned_operations) ≡ false

Transition-carried :
    (session_read : Bool) (old asked : Liveness)
    → Transition old asked
    → Transition old (carried session_read (some old) asked)
unfolding carried
Transition-carried session_read old asked (first_settlement a b) = first_settlement a b
Transition-carried session_read old asked (other_manager a b c d) = other_manager a b c d
Transition-carried session_read old asked (refresh a b c) = refresh a b c
Transition-carried session_read old asked (next_operation a b c) = next_operation a b c

carried-Swapped :
    (session_read : Bool) (old asked : Liveness)
    → may_follow (some old) asked ≡ true
    → resurrects session_read (some old) asked ≡ false
    → Swapped session_read old asked (carried session_read (some old) asked)
unfolding carried
carried-Swapped session_read old asked follows new = record {
  transition = Transition-carried session_read old asked (may_follow-Transition old asked follows);
  dispatch_kept = (refl, refl, refl);
  proposed = (refl, refl, refl);
  not_revived = new;
}

-- A record for the workplace, spelled within the schema.
abbrev pub IsStored : String → (Liveness → Bool) → Liveness → Type 0
IsStored id valid l = (str_eq l.id id ≡ true) × (valid l ≡ true)

pub commit-IsStored :
    (id : String) (valid : Liveness → Bool) (writes : Bool) (r : Refusal) (l next : Liveness)
    → commit id valid writes r l ≡ granted (some next)
    → (l ≡ next) × IsStored id valid next
unfolding commit
commit-IsStored id valid writes r l next e = elim (Bool-cases (str_eq l.id id && valid l)) [
  | inr bad ↦ cc (rw bad at e)
  | inl good ↦ elim (Bool-cases writes) [
    | inr full ↦ cc (rw (good, full) at e)
    | inl free ↦
        let same : l ≡ next = cc (rw (good, free) at e) in
        (same, subst (IsStored id valid) same (ground arith))
  ]
]

swap-Swapped :
    (id : String) (valid : Liveness → Bool) (writes session_read : Bool)
    → (expected : Expected) (asked old next : Liveness)
    → swap id valid writes session_read expected asked (some old) ≡ granted (some next)
    → (still_holds (some old) expected ≡ true)
      × Swapped session_read old asked next
      × IsStored id valid next
swap-Swapped id valid writes session_read expected asked old next e =
    elim (Bool-cases (
      not (still_holds (some old) expected)
      || (not (may_follow (some old) asked) || resurrects session_read (some old) asked))) [
        | inl stale ↦ cc (rw stale at e)
        | inr fine ↦
            let (same, stored) =
              commit-IsStored id valid writes _ (carried session_read (some old) asked) next
                (rw fine at e) in
            (
              ground arith,
              subst (Swapped session_read old asked) same
                  (carried-Swapped session_read old asked (ground arith) (ground arith)),
              stored,
            )
      ]

pub liveness-holds :
    (id : String) (valid : Liveness → Bool) (writes : Bool) (old : Liveness) {o : Option Liveness}
    → liveness id valid writes (holds old) ≡ granted o
    → (o ≡ some old) × IsStored id valid old
unfolding liveness
liveness-holds id valid writes old e = elim (Bool-cases (valid old && str_eq old.id id)) [
  | inl good ↦ (cc (rw good at e), (ground arith, ground arith))
  | inr bad ↦ cc (rw bad at e)
]

-- A committed swap: the observed tuple still held, the transition is a documented one, the task, the
-- queue and the abandoned operations are those of the old record, the operation, the generation and
-- the manager those proposed, and no abandoned operation came back, except by a session read; both
-- records are the workplace's and spelled within the schema.
pub compare_and_swap-Swapped :
    (id : String) (valid : Liveness → Bool) (writes session_read : Bool)
    → (expected : Expected) (asked old next : Liveness)
    → compare_and_swap id valid writes session_read (holds old) expected asked ≡ granted (some next)
    → (still_holds (some old) expected ≡ true)
      × Swapped session_read old asked next
      × IsStored id valid old
      × IsStored id valid next
unfolding compare_and_swap
compare_and_swap-Swapped id valid writes session_read expected asked old next e =
    let (o, read, swapped) = granted-parts (liveness id valid writes (holds old)) _ e in
    let (is, stored) = liveness-holds id valid writes old read in
    let (held, kept, stored') = swap-Swapped id valid writes session_read expected asked old next (
      subst (λ x. swap id valid writes session_read expected asked x ≡ granted (some next)) is
        swapped) in
    (held, kept, stored, stored')

-- A committed edit is its change of the record.
pub edit-parts :
    (id : String) (valid : Liveness → Bool) (writes : Bool)
    → (expected : Expected) (change : Liveness → Tried Refusal Liveness) (old next : Liveness)
    → edit id valid writes (holds old) expected change ≡ granted (some next)
    → change old ≡ granted next
unfolding edit
edit-parts id valid writes expected change old next e =
    let (o, read, edited) = granted-parts (liveness id valid writes (holds old)) _ e in
    let (is, stored) = liveness-holds id valid writes old read in
    found
      (subst (λ x. edit_found id valid writes expected change x ≡ granted (some next)) is edited)
  where
    found :
        edit_found id valid writes expected change (some old) ≡ granted (some next)
        → change old ≡ granted next
    found e = elim (Bool-cases (still_holds (some old) expected)) [
      | inr stale ↦ cc (rw stale at e)
      | inl fresh ↦
          let (l, changed, written) = granted-parts (change old) _ (rw fresh at e) in
          let (same, _) = commit-IsStored id valid writes _ l next written in
          subst (λ x. change old ≡ granted x) same changed
    ]
