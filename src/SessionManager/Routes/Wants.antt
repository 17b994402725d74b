-- ===== src/SessionManager/Routes/Wants.antt =====
-- The capabilities that a route requires: a table of what each request needs, and that a delegated
-- route is returned only if the manager offers all of it, with the operations that go with it.
use text.Mathlib.Text.{◌==◌ as str_eq}
use text.Mathlib.TextEquality.{eq_iff}
use curator_agent_launcher.Tried.{granted}
use curator_agent_launcher.Base.{
  inr, inl, some, Bool-cases, ◌≡◌, refl, ◌∙◌, ap, Bool, true, false, not, ◌&&◌, ◌||◌, List, [], ◌∷◌,
  ◌++◌, arith, if◌then◌else◌, String,
}
use curator_agent_launcher.SessionManager.Routes.{
  str_le, Needs, Choice, Wanted, contains, lookup, put, or_empty, need, need_if, first_wanted,
  need_doorbell, need_werkstatt, sort_strings, insert,
}

contains-append :
    (xs ys : List String) (k : String) → contains (xs ++ ys) k ≡ contains xs k || contains ys k
unfolding contains
contains-append [] ys k = refl
contains-append (x ∷ xs) ys k = ground (arith, contains-append xs ys k)

contains_subst :
    (xs : List String) (j k : String) → str_eq j k ≡ true → contains xs j ≡ contains xs k
contains_subst xs j k h = ap (contains xs) ((eq_iff j k).0 h)

contains-need :
    (cap op : String) (w : Wanted) (k : String)
    → contains (need cap op w).required k ≡ contains w.required k || str_eq cap k
unfolding need contains
contains-need cap op w k = elim (Bool-cases (contains w.required cap)) [
  | inl old ↦ elim (Bool-cases (str_eq cap k)) [
    | inl same ↦ rw old (ground (arith, contains_subst w.required cap k same))
    | inr other ↦ rw (old, other) (ground arith)
  ]
  | inr new ↦ rw new (contains-append w.required (cap ∷ []) k ∙ ground arith)
]

contains-need_if :
    (b : Bool) (cap op : String) (w : Wanted) (k : String)
    → contains (need_if b cap op w).required k ≡ contains w.required k || (b && str_eq cap k)
contains-need_if true cap op w k = contains-need cap op w k
contains-need_if false cap op w k = ground arith

contains-insert :
    (s : String) (ts : List String) (k : String)
    → contains (insert s ts) k ≡ str_eq s k || contains ts k
unfolding insert contains
contains-insert s [] k = refl
contains-insert s (t ∷ ts) k = elim (Bool-cases (str_le s t)) [
  | inl first ↦ rw first
  | inr later ↦ rw (later, contains-insert s ts k) (ground arith)
]

pub contains-sort_strings :
    (ts : List String) (k : String) → contains (sort_strings ts) k ≡ contains ts k
unfolding sort_strings contains
contains-sort_strings [] k = refl
contains-sort_strings (t ∷ ts) k =
    contains-insert t (sort_strings ts) k ∙ ap (λ b. str_eq t k || b) (contains-sort_strings ts k)

lookup-put :
    (k v j : String) (m : List (String × String))
    → lookup j (put k v m) ≡ (if str_eq k j then some v else lookup j m)
unfolding lookup put
lookup-put k v j [] = refl
lookup-put k v j ((i, w) ∷ m) =
    ground (arith, eq_iff k j, eq_iff i k, eq_iff i j, lookup-put k v j m)

-- The operation that goes with a capability.
unfoldable pub op_of : String → String
op_of cap =
    if str_eq cap "launch-delegated/1"
    then "launch"
    else if str_eq cap "resume/1"
    then "resume"
    else if str_eq cap "admission/1"
    then "cancel"
    else if str_eq cap "status/1"
    then "status"
    else if str_eq cap "attach/1"
    then "attach"
    else if str_eq cap "list/1"
    then "list"
    else if str_eq cap "stop/1"
    then "stop"
    else ""

-- The capabilities that a request on the delegated route needs, with that of its launch.
abbrev pub demands_with : String → Needs → String → Bool
demands_with launch_cap n k =
    str_eq launch_cap k
    || (str_eq "admission/1" k
        || (str_eq "status/1" k
            || (((not n.detached || n.attach_after) && str_eq "attach/1" k)
                || ((n.board_goal && str_eq "board-goal/1" k)
                    || ((n.credential_node && str_eq "credential-node/1" k)
                        || ((n.doorbell
                              && str_eq n.runtime "claude_code"
                              && str_eq "doorbell-claude/1" k)
                            || ((n.doorbell
                                  && str_eq n.runtime "codex_cli"
                                  && str_eq "doorbell-codex/1" k)
                                || (n.werkstatt
                                    && (str_eq "labels/1" k
                                        || (str_eq "list/1" k || str_eq "stop/1" k))))))))))

abbrev pub demands : Needs → String → Bool
demands n = demands_with (if n.resume then "resume/1" else "launch-delegated/1") n

-- The map of operations holds those of the table for what is required, and no other.
pub record Agrees (w : Wanted) : Type 0 where
  pub ops_of :
      (k : String) → or_empty (lookup k w.ops) ≡ (if contains w.required k then op_of k else "")

need_op-Agrees :
    (cap op : String) (w : Wanted)
    → str_eq op "" ≡ false
    → op ≡ op_of cap
    → Agrees w
    → Agrees (need cap op w)
need_op-Agrees cap op w real e a = record {
  ops_of = λ k. rw (contains-need cap op w k) (
      unfold need in
      rw (real, lookup-put cap op k w.ops)
        (elim (Bool-cases (str_eq cap k)) [
          | inl same ↦ rw same (ground (arith, e, ap op_of ((eq_iff cap k).0 same)))
          | inr other ↦ rw other (ground (arith, a.ops_of k))
        ]));
}

need_plain-Agrees : (cap : String) (w : Wanted) → op_of cap ≡ "" → Agrees w → Agrees (need cap "" w)
need_plain-Agrees cap w e a = record {
  ops_of = λ k. rw (contains-need cap "" w k) (
      unfold need in
      (elim (Bool-cases (str_eq cap k)) [
        | inl same ↦ rw same (ground (arith, e, ap op_of ((eq_iff cap k).0 same), a.ops_of k))
        | inr other ↦ rw other (ground (arith, a.ops_of k))
      ]));
}

need_if_op-Agrees :
    (b : Bool) (cap op : String) (w : Wanted)
    → str_eq op "" ≡ false
    → op ≡ op_of cap
    → Agrees w
    → Agrees (need_if b cap op w)
need_if_op-Agrees true cap op w real e a = need_op-Agrees cap op w real e a
need_if_op-Agrees false cap op w real e a = a

need_if_plain-Agrees :
    (b : Bool) (cap : String) (w : Wanted) → op_of cap ≡ "" → Agrees w → Agrees (need_if b cap "" w)
need_if_plain-Agrees true cap w e a = need_plain-Agrees cap w e a
need_if_plain-Agrees false cap w e a = a

op_of_eq : (j k : String) → str_eq j k ≡ true → op_of j ≡ op_of k
op_of_eq j k h = ap op_of ((eq_iff j k).0 h)

op_of_admission : op_of "admission/1" ≡ "cancel"
unfolding op_of
op_of_admission = refl

op_of_status : op_of "status/1" ≡ "status"
unfolding op_of
op_of_status = refl

first_wanted-Agrees : (c : Choice) → op_of c.launch_cap ≡ c.launch_op → Agrees (first_wanted c)
unfolding lookup contains
first_wanted-Agrees c e = record {
  ops_of = λ k. ground (
    arith,
    e,
    op_of_eq c.launch_cap k,
    op_of_eq "admission/1" k,
    op_of_eq "status/1" k,
    op_of_admission,
    op_of_status,
  );
}

exclusive : (s : String) → (str_eq s "claude_code" && str_eq s "codex_cli") ≡ false
exclusive s = elim (Bool-cases (str_eq s "claude_code")) [
  | inl claude ↦ rw ((eq_iff s "claude_code").0 claude) refl
  | inr other ↦ rw other refl
]

pub need_doorbell-Agrees :
    (n : Needs) (w w' : Wanted) → need_doorbell n w ≡ granted w' → Agrees w → Agrees w'
unfolding need_doorbell op_of
need_doorbell-Agrees n w w' e a = ground (
  arith,
  need_plain-Agrees "doorbell-claude/1" w refl a,
  need_plain-Agrees "doorbell-codex/1" w refl a,
)

pub contains-need_doorbell :
    (n : Needs) (w w' : Wanted) (k : String)
    → need_doorbell n w ≡ granted w'
    → contains w'.required k
      ≡ contains w.required k
        || ((n.doorbell && str_eq n.runtime "claude_code" && str_eq "doorbell-claude/1" k)
            || (n.doorbell && str_eq n.runtime "codex_cli" && str_eq "doorbell-codex/1" k))
unfolding need_doorbell
contains-need_doorbell n w w' k e = ground (
  arith,
  exclusive n.runtime,
  contains-need "doorbell-claude/1" "" w k,
  contains-need "doorbell-codex/1" "" w k,
)

pub need_werkstatt-Agrees : (w : Wanted) → Agrees w → Agrees (need_werkstatt w)
unfolding need_werkstatt op_of
need_werkstatt-Agrees w a = need_op-Agrees "stop/1" "stop" _ refl refl (
    need_op-Agrees "status/1" "status" _ refl refl (
      need_op-Agrees "list/1" "list" _ refl refl (
        need_plain-Agrees "labels/1" _ refl (need_op-Agrees "admission/1" "cancel" w refl refl a))))

pub contains-need_werkstatt :
    (w : Wanted) (k : String)
    → contains (need_werkstatt w).required k
      ≡ contains w.required k
        || str_eq "admission/1" k
        || str_eq "labels/1" k
        || str_eq "list/1" k
        || str_eq "status/1" k
        || str_eq "stop/1" k
unfolding need_werkstatt
contains-need_werkstatt w k = simp contains-need

-- What is collected before the doorbell.
abbrev pub before_doorbell : Needs → Choice → Wanted
before_doorbell n c = need_if n.credential_node "credential-node/1" "" (
    need_if n.board_goal "board-goal/1" "" (
      need_if n.resume "resume/1" "resume"
        (need_if (not n.detached || n.attach_after) "attach/1" "attach" (first_wanted c))))

pub contains-before_doorbell :
    (n : Needs) (c : Choice) (k : String)
    → contains (before_doorbell n c).required k
      ≡ contains (first_wanted c).required k
        || ((not n.detached || n.attach_after) && str_eq "attach/1" k)
        || (n.resume && str_eq "resume/1" k)
        || (n.board_goal && str_eq "board-goal/1" k)
        || (n.credential_node && str_eq "credential-node/1" k)
contains-before_doorbell n c k =
    contains-need_if n.credential_node "credential-node/1" "" _ k
    ∙ ap (λ b. b || (n.credential_node && str_eq "credential-node/1" k))
        (contains-need_if n.board_goal "board-goal/1" "" _ k
          ∙ ap (λ b. b || (n.board_goal && str_eq "board-goal/1" k))
              (contains-need_if n.resume "resume/1" "resume" _ k
                ∙ ap (λ b. b || (n.resume && str_eq "resume/1" k))
                    (contains-need_if (not n.detached || n.attach_after) "attach/1" "attach" _ k)))

pub before_doorbell-Agrees :
    (n : Needs) (c : Choice) → op_of c.launch_cap ≡ c.launch_op → Agrees (before_doorbell n c)
unfolding op_of
before_doorbell-Agrees n c e = need_if_plain-Agrees n.credential_node "credential-node/1" _ refl (
    need_if_plain-Agrees n.board_goal "board-goal/1" _ refl (
      need_if_op-Agrees n.resume "resume/1" "resume" _ refl refl (
        need_if_op-Agrees (not n.detached || n.attach_after) "attach/1" "attach" _ refl refl
          (first_wanted-Agrees c e))))
