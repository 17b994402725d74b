-- ===== src/SessionManager/Routes/Kinds.antt =====
-- What `wanted` collects is exactly what the table of needs says, with its operations.
use text.Mathlib.Text.{◌==◌ as str_eq}
use curator_agent_launcher.Tried.{granted, granted-parts}
use curator_agent_launcher.Base.{
  subst, ◌≡◌, ◌∙◌, sym, ap, Bool, true, false, not, ◌&&◌, ◌||◌, arith, if◌then◌else◌, String,
}
use curator_agent_launcher.SessionManager.Routes.Wants.{
  demands_with, Agrees, op_of, demands, need_doorbell-Agrees, contains-need_doorbell,
  need_werkstatt-Agrees, contains-need_werkstatt, before_doorbell, contains-before_doorbell,
  before_doorbell-Agrees,
}
use curator_agent_launcher.SessionManager.Routes.{
  Needs, Choice, Wanted, contains, wanted, need_doorbell, need_werkstatt,
}

abbrev pub with_werkstatt : Bool → Wanted → Wanted
with_werkstatt b w = if b then need_werkstatt w else w

pub wanted-rung :
    (n : Needs) (c : Choice) (w : Wanted)
    → wanted n c ≡ granted w
    → (r : Wanted) × (need_doorbell n (before_doorbell n c) ≡ granted r)
      × (with_werkstatt n.werkstatt r ≡ w)
unfolding wanted
wanted-rung n c w e =
    let (r, er, ew) = granted-parts (need_doorbell n (before_doorbell n c)) _ e in
    (r, er, ground arith)

with_werkstatt-Agrees : (b : Bool) (w : Wanted) → Agrees w → Agrees (with_werkstatt b w)
with_werkstatt-Agrees true w a = need_werkstatt-Agrees w a
with_werkstatt-Agrees false w a = a

contains-with_werkstatt :
    (b : Bool) (w : Wanted) (k : String)
    → contains (with_werkstatt b w).required k
      ≡ contains w.required k
        || (b
            && (str_eq "admission/1" k
                || str_eq "labels/1" k
                || str_eq "list/1" k
                || str_eq "status/1" k
                || str_eq "stop/1" k))
contains-with_werkstatt true w k = contains-need_werkstatt w k ∙ ground arith
contains-with_werkstatt false w k = ground arith

pick : (resume r d : Bool) → Bool
pick resume r d = if resume then r else d

-- The order in which capabilities are collected, against the order of the table.
regroup :
    (x resume r d adm sta att goal cred claude codex ws lab lis sto : Bool)
    → x ≡ pick resume r d
    → (x || (adm || (sta || false)))
        || att
        || (resume && r)
        || goal
        || cred
        || (claude || codex)
        || (ws && (adm || lab || lis || sta || sto))
      ≡ x
        || (adm
            || (sta
                || (att
                    || (goal || (cred || (claude || (codex || (ws && (lab || (lis || sto))))))))))
unfolding pick
regroup x resume r d adm sta att goal cred claude codex ws lab lis sto h = ground arith

launch_cap-pick :
    (b : Bool) (s k : String)
    → s ≡ (if b then "resume/1" else "launch-delegated/1")
    → str_eq s k ≡ pick b (str_eq "resume/1" k) (str_eq "launch-delegated/1" k)
unfolding pick
launch_cap-pick true s k h = ap (λ z. str_eq z k) h
launch_cap-pick false s k h = ap (λ z. str_eq z k) h

-- What the code collects is what the table of needs says.
pub contains-wanted :
    (n : Needs) (c : Choice) (w : Wanted) (k : String)
    → wanted n c ≡ granted w
    → c.launch_cap ≡ (if n.resume then "resume/1" else "launch-delegated/1")
    → contains w.required k ≡ demands n k
unfolding contains
contains-wanted n c w k e lc =
    let (r, er, ew) = wanted-rung n c w e in
    sym (ap (λ x. contains x.required k) ew)
    ∙ contains-with_werkstatt n.werkstatt r k
    ∙ ap
        (λ b.
          b
          || (n.werkstatt
              && (str_eq "admission/1" k
                  || str_eq "labels/1" k
                  || str_eq "list/1" k
                  || str_eq "status/1" k
                  || str_eq "stop/1" k)))
        (contains-need_doorbell n (before_doorbell n c) r k er
          ∙ ap
              (λ b.
                b
                || ((n.doorbell && str_eq n.runtime "claude_code" && str_eq "doorbell-claude/1" k)
                    || (n.doorbell && str_eq n.runtime "codex_cli" && str_eq "doorbell-codex/1" k)))
              (contains-before_doorbell n c k))
    ∙ regroup (str_eq c.launch_cap k) n.resume (str_eq "resume/1" k) (str_eq "launch-delegated/1" k)
        (str_eq "admission/1" k) (str_eq "status/1" k)
        ((not n.detached || n.attach_after) && str_eq "attach/1" k)
        (n.board_goal && str_eq "board-goal/1" k)
        (n.credential_node && str_eq "credential-node/1" k)
        (n.doorbell && str_eq n.runtime "claude_code" && str_eq "doorbell-claude/1" k)
        (n.doorbell && str_eq n.runtime "codex_cli" && str_eq "doorbell-codex/1" k) n.werkstatt
        (str_eq "labels/1" k) (str_eq "list/1" k) (str_eq "stop/1" k)
        (launch_cap-pick n.resume c.launch_cap k lc)
    ∙ ap (λ z. demands_with z n k) lc

pub wanted-Agrees :
    (n : Needs) (c : Choice) (w : Wanted)
    → wanted n c ≡ granted w
    → op_of c.launch_cap ≡ c.launch_op
    → Agrees w
wanted-Agrees n c w e lo =
    let (r, er, ew) = wanted-rung n c w e in
    subst Agrees ew (
      with_werkstatt-Agrees n.werkstatt r
        (need_doorbell-Agrees n (before_doorbell n c) r er (before_doorbell-Agrees n c lo)))
