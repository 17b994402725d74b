-- ===== src/Defaults/Layers.antt =====
-- `resolve` against an independent description: the first layer that has the member, in an order that
-- a lock shortens.
use curator_agent_launcher.Base.{
  is_some, sym, ◌∙◌, ap, String, if◌then◌else◌, ◌≡◌, ◌↔◌, refl, true, false, ◌&&◌, none, some, [],
  ◌∷◌, List, Bool-cases, arith, Bytes, str_eq, Bool, Option, inl, inr,
}
use curator_agent_launcher.Tried.{◌>>=◌, granted}
use curator_agent_launcher.Fragment.Value.{home_variable}
use curator_agent_launcher.Defaults.{
  or_else, denied, machine_pair, ResolveFault, permission_default, empty_pair, operator_pair, Tried,
  resolve_row, Pair, Files, Origin, flag, operator, machine, Partial, is_locked, entry,
  pair_or_empty, resolve,
}

-- The layers of a member, from the highest; the operator's is left out under a lock.
abbrev pub layers : (Pair → Option Bytes) → Files → Bytes → Pair → List (Origin × Option Bytes)
layers sel f env flags =
    (flag, sel flags)
    ∷ (if is_locked f env
        then (machine, sel (pair_or_empty (entry env f.machine.entries))) ∷ []
        else (operator, sel (pair_or_empty (entry env f.operator.entries)))
          ∷ (machine, sel (pair_or_empty (entry env f.machine.entries)))
          ∷ [])

abbrev pub first_present : List (Origin × Option Bytes) → Option (Bytes × Origin)
first_present [] = none
first_present ((o, some v) ∷ rest) = some (v, o)
first_present ((o, none) ∷ rest) = first_present rest

-- A flag for a member that the locked machine file sets.
abbrev pub conflicts : (Pair → Option Bytes) → Files → Bytes → Pair → Bool
conflicts sel f env flags =
    is_locked f env
    && (is_some (sel flags) && is_some (sel (pair_or_empty (entry env f.machine.entries))))

abbrev pub IsResolvedMember :
    (Pair → Option Bytes) → Files → Bytes → Pair → Option (Bytes × Origin) → Type 0
IsResolvedMember sel f env flags r =
    (conflicts sel f env flags ≡ false) × (r ≡ first_present (layers sel f env flags))

abbrev pub IsResolved : Files → Bytes → Pair → Partial → Type 0
IsResolved f env flags r =
    (str_eq (home_variable env) "" ≡ false)
    × IsResolvedMember (λ p. p.model) f env flags r.model
    × IsResolvedMember (λ p. p.effort) f env flags r.effort
    × IsResolvedMember (λ p. p.permissions) f env flags r.permissions

-- The row, in terms of the layers.
row-granted :
    (locked : Bool) (name : String) (f o m : Option Bytes) (r : Option (Bytes × Origin))
    → (resolve_row locked name f (if locked then none else o) m ≡ granted r) ↔ (
        ((locked && (is_some f && is_some m)) ≡ false)
        × (r
            ≡ first_present (
                (flag, f)
                ∷ (if locked then (machine, m) ∷ [] else (operator, o) ∷ (machine, m) ∷ []))))
unfolding resolve_row
row-granted true name none o none r = ground arith
row-granted true name none o (some m) r = ground arith
row-granted true name (some f) o none r = ground arith
row-granted true name (some f) o (some m) r = ground arith
row-granted false name none none none r = ground arith
row-granted false name none none (some m) r = ground arith
row-granted false name none (some o) m r = ground arith
row-granted false name (some f) o m r = ground arith

three_rows :
    (a b c : Tried ResolveFault (Option (Bytes × Origin))) (r : Partial)
    → ((a >>= λ x.
          b >>= λ y. c >>= λ z. granted (record { model = x; effort = y; permissions = z }))
        ≡ granted r)
      ↔ ((a ≡ granted r.model) × (b ≡ granted r.effort) × (c ≡ granted r.permissions))
three_rows (denied e) b c r = ground arith
three_rows (granted x) (denied e) c r = ground arith
three_rows (granted x) (granted y) (denied e) r = ground arith
three_rows (granted x) (granted y) (granted z) r = ground arith

-- The operator's member is hidden by a lock.
operator_pair-member :
    (sel : Pair → Option Bytes) (f : Files) (env : Bytes)
    → sel empty_pair ≡ none
    → sel (operator_pair f env)
      ≡ (if is_locked f env then none else sel (pair_or_empty (entry env f.operator.entries)))
unfolding operator_pair
operator_pair-member sel f env h = elim (Bool-cases (is_locked f env)) [
  | inl locked ↦ rw locked h
  | inr free ↦ rw free
]

member-IsResolvedMember :
    (sel : Pair → Option Bytes) (name : String) (f : Files) (env : Bytes) (flags : Pair)
    (r : Option (Bytes × Origin))
    → sel empty_pair ≡ none
    → (resolve_row
          (is_locked f env)
          name
          (sel flags)
          (sel (operator_pair f env))
          (sel (machine_pair f env))
        ≡ granted r)
      ↔ IsResolvedMember sel f env flags r
member-IsResolvedMember sel name f env flags r h = rw (operator_pair-member sel f env h) (
    row-granted (is_locked f env) name (sel flags)
      (sel (pair_or_empty (entry env f.operator.entries))) (sel (machine_pair f env)) r)

-- `resolve` returns a result exactly when the environment is known and no flag meets a locked machine
-- member, and each member is then the first that is present in its layers: the flag, the operator's
-- unless a lock hides it, and the machine's.
pub resolve_refines :
    (f : Files) (env : Bytes) (flags : Pair) (r : Partial)
    → (resolve f env flags ≡ granted r) ↔ IsResolved f env flags r
unfolding resolve
resolve_refines f env flags r =
    let a = member-IsResolvedMember (λ p. p.model) "model" f env flags r.model refl in
    let b = member-IsResolvedMember (λ p. p.effort) "effort" f env flags r.effort refl in
    let c =
      member-IsResolvedMember (λ p. p.permissions) "permissions" f env flags r.permissions refl in
    elim (Bool-cases (str_eq (home_variable env) "")) [
      | inl unknown ↦ rw unknown ((λ e. cc), λ h. cc)
      | inr known ↦ rw known (
        (λ e. let (x, y, z) = (three_rows _ _ _ r).0 e in (refl, a.0 x, b.0 y, c.0 z)),
        λ h. (three_rows _ _ _ r).1 (a.1 h.1, b.1 h.2, c.1 h.3),
      )
    ]

abbrev pub value_of : Option (Bytes × Origin) → Option Bytes
value_of none = none
value_of (some (v, o)) = some v

first_present-value :
    (locked : Bool) (o m : Option Bytes)
    → value_of (
        first_present (
          (flag, none) ∷ (if locked then (machine, m) ∷ [] else (operator, o) ∷ (machine, m) ∷ [])))
      ≡ (if locked then m else or_else o m)
first_present-value true o none = refl
first_present-value true o (some m) = refl
first_present-value false none none = refl
first_present-value false none (some m) = refl
first_present-value false (some o) m = refl

-- The permissions of `resolve` without a permission flag are those of `permission_default`: the two
-- ways through the files agree.
pub resolve-permission_default :
    (f : Files) (env : Bytes) (flags : Pair) (r : Partial)
    → flags.permissions ≡ none
    → resolve f env flags ≡ granted r
    → permission_default f env ≡ granted (value_of r.permissions)
unfolding permission_default
resolve-permission_default f env flags r unset e =
    let h = (resolve_refines f env flags r).0 e in
    let o = (pair_or_empty (entry env f.operator.entries)).permissions in
    let m = (machine_pair f env).permissions in
    let v : value_of r.permissions ≡ (if is_locked f env then m else or_else o m) =
      ap value_of (
        h.3.1
        ∙ ap
            (λ x. first_present (
              (flag, x)
              ∷ (if is_locked f env then (machine, m) ∷ [] else (operator, o) ∷ (machine, m) ∷ [])))
            unset)
      ∙ first_present-value (is_locked f env) o m in
    elim (Bool-cases (is_locked f env)) [
      | inl locked ↦ rw (h.0, locked) (ap granted (sym (rw locked at v)))
      | inr free ↦ rw (h.0, free) (ap granted (sym (rw free at v)))
    ]
