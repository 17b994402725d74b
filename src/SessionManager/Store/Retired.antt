-- ===== src/SessionManager/Store/Retired.antt =====
-- Abandoned operations stay abandoned.
use curator_agent_launcher.SessionManager.Store.Commits.{
  edit-parts, compare_and_swap-Swapped, Swapped,
}
use curator_agent_launcher.SessionManager.Store.{
  or_else, rebind, Binding, edit_dispatch, holds, compare_and_swap, granted, Abandoned, Expected,
  is_abandoned, dispatch, Liveness, same_operation,
}
use curator_agent_launcher.Base.{
  refl, none, str_eq_iff, sym, inl, inr, subst, ◌∙◌, str_eq, Bool-cases, ap, true, false, some, ◌≡◌,
  List, Bool, Option, String, ℕ,
}

-- The operation is among the abandoned ones, and not the record's.
abbrev pub IsRetired : String → Liveness → Type 0
IsRetired op l =
    (is_abandoned (some op) l.abandoned_operations ≡ true)
    × (same_operation l.operation_id (some op) ≡ false)

-- The record of a workplace after committed transactions: swaps, task edits and rebinds.
module _ (id : String) (valid : Liveness → Bool) where
  pub data Run (first : Liveness) : Liveness → Type 0 where
    here : Run first first
    swapped :
        {old next : Liveness} (writes : Bool) (expected : Expected) (asked : Liveness)
        → Run first old
        → compare_and_swap id valid writes false (holds old) expected asked ≡ granted (some next)
        → Run first next
    dispatched :
        {old next : Liveness} (writes : Bool) (expected : Expected)
        → (task : Option (Option String)) (queue : Option ℕ) → Run first old
        → edit_dispatch id valid writes (holds old) expected task queue ≡ granted (some next)
        → Run first next
    rebound :
        {old next : Liveness} (writes : Bool) (expected : Expected) (b : Binding)
        → Run first old
        → rebind id valid writes (holds old) expected b ≡ granted (some next)
        → Run first next

not_revived-differs :
    (o : Option String) (op : String) (gone : List Abandoned)
    → is_abandoned o gone ≡ false
    → is_abandoned (some op) gone ≡ true
    → same_operation o (some op) ≡ false
unfolding same_operation
not_revived-differs none op gone e h = refl
not_revived-differs (some o) op gone e h = elim (Bool-cases (str_eq o op)) [
  | inr other ↦ other
  | inl same ↦
      absurd (cc (sym e ∙ ap (λ x. is_abandoned (some x) gone) ((str_eq_iff o op).0 same) ∙ h))
]

Swapped-IsRetired :
    (op : String) {old asked next : Liveness}
    → Swapped false old asked next
    → IsRetired op old
    → IsRetired op next
Swapped-IsRetired op {old} {asked} {next} s h = (
  ap (is_abandoned (some op)) (let (_, _, kept) = s.dispatch_kept in kept) ∙ h.0,
  not_revived-differs next.operation_id op old.abandoned_operations s.not_revived h.0,
)

dispatch-IsRetired :
    (id op : String) (valid : Liveness → Bool) (writes : Bool) (task : Option (Option String))
    (queue : Option ℕ) (old next : Liveness)
    → dispatch id valid writes task queue old ≡ granted next
    → IsRetired op old
    → IsRetired op next
unfolding dispatch
dispatch-IsRetired id op valid writes task queue old next e h =
    elim (Bool-cases (str_eq old.session "")) [
      | inl down ↦ cc (rw down at e)
      | inr up ↦
          let changed : record old {
            current_task = or_else task old.current_task;
            queue_depth = or_else queue old.queue_depth;
          }
              ≡ next =
            cc (rw up at e) in
          subst (IsRetired op) changed h
    ]

-- Over any run of swaps, task edits and rebinds, an operation that was abandoned stays abandoned and
-- never becomes the record's operation again.
pub Run-IsRetired :
    (id : String) (valid : Liveness → Bool) (op : String) {first last : Liveness}
    → Run id valid first last
    → IsRetired op first
    → IsRetired op last
Run-IsRetired id valid op here h = h
Run-IsRetired id valid op (swapped {old} {next} writes expected asked run e) h =
    let (_, kept, _, _) =
      compare_and_swap-Swapped id valid writes false expected asked old next e in
    Swapped-IsRetired op kept (Run-IsRetired id valid op run h)
Run-IsRetired id valid op (dispatched {old} {next} writes expected task queue run e) h =
    dispatch-IsRetired id op valid writes task queue old next
      (edit-parts id valid writes expected (dispatch id valid writes task queue) old next e)
      (Run-IsRetired id valid op run h)
Run-IsRetired id valid op (rebound {old} {next} writes expected b run e) h =
    let changed =
      edit-parts id valid writes expected (λ l. granted (record l { manager = b })) old next e in
    let same : record old { manager = b } ≡ next = cc changed in
    subst (IsRetired op) same (Run-IsRetired id valid op run h)

dispatch-abandoned :
    (id op : String) (valid : Liveness → Bool) (writes : Bool) (task : Option (Option String))
    (queue : Option ℕ) (old next : Liveness)
    → dispatch id valid writes task queue old ≡ granted next
    → is_abandoned (some op) old.abandoned_operations ≡ true
    → is_abandoned (some op) next.abandoned_operations ≡ true
unfolding dispatch
dispatch-abandoned id op valid writes task queue old next e h =
    elim (Bool-cases (str_eq old.session "")) [
      | inl down ↦ cc (rw down at e)
      | inr up ↦
          let changed : record old {
            current_task = or_else task old.current_task;
            queue_depth = or_else queue old.queue_depth;
          }
              ≡ next =
            cc (rw up at e) in
          subst (λ l. is_abandoned (some op) l.abandoned_operations ≡ true) changed h
    ]

-- As `Run`, and with swaps that are session reads (`RefreshSession`).
module _ (id : String) (valid : Liveness → Bool) where
  pub data Course (first : Liveness) : Liveness → Type 0 where
    start : Course first first
    exchanged :
        {old next : Liveness} (writes session_read : Bool) (expected : Expected)
        → (asked : Liveness) → Course first old
        → compare_and_swap id valid writes session_read (holds old) expected asked
          ≡ granted (some next)
        → Course first next
    edited :
        {old next : Liveness} (writes : Bool) (expected : Expected)
        → (task : Option (Option String)) (queue : Option ℕ) → Course first old
        → edit_dispatch id valid writes (holds old) expected task queue ≡ granted (some next)
        → Course first next
    bound :
        {old next : Liveness} (writes : Bool) (expected : Expected) (b : Binding)
        → Course first old
        → rebind id valid writes (holds old) expected b ≡ granted (some next)
        → Course first next

-- No course takes an operation off the list of the abandoned ones.
pub Course-abandoned :
    (id : String) (valid : Liveness → Bool) (op : String) {first last : Liveness}
    → Course id valid first last
    → is_abandoned (some op) first.abandoned_operations ≡ true
    → is_abandoned (some op) last.abandoned_operations ≡ true
Course-abandoned id valid op start h = h
Course-abandoned id valid op (exchanged {old} {next} writes session_read expected asked course e)
      h =
    let (_, s, _, _) =
      compare_and_swap-Swapped id valid writes session_read expected asked old next e in
    let (_, _, kept) = s.dispatch_kept in
    ap (is_abandoned (some op)) kept ∙ Course-abandoned id valid op course h
Course-abandoned id valid op (edited {old} {next} writes expected task queue course e) h =
    dispatch-abandoned id op valid writes task queue old next
      (edit-parts id valid writes expected (dispatch id valid writes task queue) old next e)
      (Course-abandoned id valid op course h)
Course-abandoned id valid op (bound {old} {next} writes expected b course e) h =
    let changed =
      edit-parts id valid writes expected (λ l. granted (record l { manager = b })) old next e in
    let same : record old { manager = b } ≡ next = cc changed in
    subst (λ l. is_abandoned (some op) l.abandoned_operations ≡ true) same
      (Course-abandoned id valid op course h)
