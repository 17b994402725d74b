-- ===== src/SessionManager/Store.antt =====
-- internal/sessionmanager/client/store_unix.go, `compareAndSwap`, and store_edit_unix.go, `edit`: the
-- transactions on the liveness record of a workplace. The lock is held; the file is what was read.
pub mod Commits
pub mod Retired
use curator_agent_launcher.Base.{
  ℕ, ◌+◌, ◌%◌, ◌^◌, ltb, ◌==◌, str_eq, String, Bool, true, false, not, ◌&&◌, ◌||◌, Option, none,
  some, List, [], ◌∷◌, if◌then◌else◌,
}
use curator_agent_launcher.Tried.{Tried, granted, denied, ◌>>=◌}
use curator_agent_launcher.SessionManager.Routes.{Refusal, refusal}

pub record Binding : Type 0 where
  pub id : String
  pub executable : String
  pub registered_at : String

pub record Abandoned : Type 0 where
  pub operation_id : String
  pub abandoned_at : String

-- A 64-bit integer is its residue modulo 2 ^ 64.
pub record Liveness : Type 0 where
  pub profile : String
  pub id : String
  pub state : String
  pub manager : Binding
  pub operation_id : Option String
  pub state_source : String
  pub session : String
  pub generation : ℕ
  pub started_at : String
  pub last_heartbeat_at : String
  pub last_activity_at : Option String
  pub doorbell : String
  pub doorbell_uncertain : Bool
  pub current_task : Option String
  pub queue_depth : ℕ
  pub abandoned_operations : List Abandoned

pub record Expected : Type 0 where
  pub operation_id : Option String
  pub generation : ℕ
  pub manager : Option Binding

-- What `Liveness` finds: no file, one that fails a check, or a record.
pub data File : Type 0 where
  absent broken : File
  holds : Liveness → File

-- `n >= 1` of an int64.
unfoldable pub is_positive : ℕ → Bool
is_positive n = ltb 0 n && ltb n (2 ^ 63)

abbrev pub next_generation : ℕ → ℕ
next_generation n = (n + 1) % (2 ^ 64)

-- `==` of bindings.
unfoldable pub binding_eq : Binding → Binding → Bool
binding_eq a b =
    str_eq a.id b.id && (str_eq a.executable b.executable && str_eq a.registered_at b.registered_at)

-- `sameBinding`.
unfoldable pub same_binding : Option Binding → Option Binding → Bool
same_binding none none = true
same_binding none (some b) = false
same_binding (some a) none = false
same_binding (some a) (some b) = binding_eq a b

-- `sameOperation`.
unfoldable pub same_operation : Option String → Option String → Bool
same_operation none none = true
same_operation none (some b) = false
same_operation (some a) none = false
same_operation (some a) (some b) = str_eq a b

-- `Expected`.
abbrev pub expected_of : Option Liveness → Expected
expected_of none = record { operation_id = none; generation = 0; manager = none }
expected_of (some l) = record {
  operation_id = l.operation_id;
  generation = l.generation;
  manager = some l.manager;
}

-- The observed tuple still holds.
unfoldable pub still_holds : Option Liveness → Expected → Bool
still_holds old e =
    let actual = expected_of old in
    actual.generation == e.generation
    && (same_operation actual.operation_id e.operation_id && same_binding actual.manager e.manager)

-- The transition of the binding and the generation.
unfoldable pub may_follow : Option Liveness → Liveness → Bool
may_follow none next = is_positive next.generation
may_follow (some old) next =
    if old.generation == 0
    then is_positive next.generation
    else if not (binding_eq next.manager old.manager)
    then str_eq old.state "down"
      && (not (same_operation next.operation_id old.operation_id) && is_positive next.generation)
    else if same_operation next.operation_id old.operation_id
    then next.generation == old.generation
    else next.generation == next_generation old.generation

-- The loop over the abandoned operations finds the new one.
unfoldable pub is_abandoned : Option String → List Abandoned → Bool
is_abandoned none rest = false
is_abandoned (some op) [] = false
is_abandoned (some op) (a ∷ rest) = str_eq a.operation_id op || is_abandoned (some op) rest

abbrev pub resurrects : Bool → Option Liveness → Liveness → Bool
resurrects session_read none next = false
resurrects session_read (some old) next =
    not session_read && is_abandoned next.operation_id old.abandoned_operations

-- The members that a refresh cannot change.
unfoldable pub carried : Bool → Option Liveness → Liveness → Liveness
carried session_read none next = next
carried session_read (some old) next = record next {
  profile =
      if session_read || same_operation next.operation_id old.operation_id
      then old.profile
      else next.profile;
  current_task = old.current_task;
  queue_depth = old.queue_depth;
  abandoned_operations = old.abandoned_operations;
}

abbrev pub or_else : {A : Type 0} → Option A → A → A
or_else none a = a
or_else (some b) a = b

-- `id` is the workplace; `valid` whether a record is spelled within the published schema; `writes`
-- whether the file can be replaced. The result is the record that was committed, `none` for `false`.
module _ (id : String) (valid : Liveness → Bool) (writes : Bool) where
  -- `storeError`; the identifier of a held lock has the required form.
  abbrev pub record_invalid : Refusal
  record_invalid = refusal "werkstatt_record_invalid" (("id", id) ∷ [])

  -- `Liveness`.
  unfoldable pub liveness : File → Tried Refusal (Option Liveness)
  liveness absent = granted none
  liveness broken = denied record_invalid
  liveness (holds l) = if valid l && str_eq l.id id then granted (some l) else denied record_invalid

  unfoldable pub commit : Refusal → Liveness → Tried Refusal (Option Liveness)
  commit unwritten next =
      if not (str_eq next.id id && valid next)
      then denied record_invalid
      else if not writes
      then denied unwritten
      else granted (some next)

  abbrev pub swap : Bool → Expected → Liveness → Option Liveness → Tried Refusal (Option Liveness)
  swap session_read expected next old =
      if not (still_holds old expected)
        || (not (may_follow old next) || resurrects session_read old next)
      then granted none
      else commit (refusal "werkstatt_liveness_write_failed" (("session", next.session) ∷ []))
          (carried session_read old next)

  -- `compareAndSwap`: `CompareAndSwap` with `session_read` false, `RefreshSession` with true.
  unfoldable pub compare_and_swap :
      Bool → File → Expected → Liveness → Tried Refusal (Option Liveness)
  compare_and_swap session_read file expected next = do
    old ← liveness file
    swap session_read expected next old

  abbrev pub edit_found :
      Expected
      → (Liveness → Tried Refusal Liveness)
      → Option Liveness
      → Tried Refusal (Option Liveness)
  edit_found expected change none =
      if still_holds none expected then denied record_invalid else granted none
  edit_found expected change (some old) =
      if still_holds (some old) expected
      then (change old >>= commit (refusal "werkstatt_liveness_write_failed" []))
      else granted none

  -- `edit` and `writeEdited`.
  unfoldable pub edit :
      File → Expected → (Liveness → Tried Refusal Liveness) → Tried Refusal (Option Liveness)
  edit file expected change = liveness file >>= edit_found expected change

  -- `EditDispatch`; `task` is `none` when it is not to be set.
  unfoldable pub dispatch : Option (Option String) → Option ℕ → Liveness → Tried Refusal Liveness
  dispatch task queue l =
      if str_eq l.session ""
      then denied (refusal "werkstatt_not_up" (("id", id) ∷ []))
      else granted (record l {
        current_task = or_else task l.current_task;
        queue_depth = or_else queue l.queue_depth;
      })

  abbrev pub edit_dispatch :
      File → Expected → Option (Option String) → Option ℕ → Tried Refusal (Option Liveness)
  edit_dispatch file expected task queue = edit file expected (dispatch task queue)

  abbrev pub rebind : File → Expected → Binding → Tried Refusal (Option Liveness)
  rebind file expected b = edit file expected λ l. granted (record l { manager = b })
