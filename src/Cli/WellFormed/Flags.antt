-- ===== src/Cli/WellFormed/Flags.antt =====
-- What the flags store is well formed.
use curator_agent_launcher.Tried.{denied, granted, Tried}
use curator_agent_launcher.Cli.Flags.{
  missing_value, hosted, native_host, untracked, cut_prefix, is_a2a_identity, Flag, flag_of,
  gateway_recovery, removed, rejected, yolo_alias, permissions, board_goal, detach, host, profile,
  system_prompt, model, effort, resume, a2a, network, network_policy, network_known_bad, unknown,
}
use curator_agent_launcher.Cli.Options.{
  set_switch, is_a2a, set, set_pin, set_network_policy, set_system_prompt, set_permissions,
  switch_flag, store, value_flag, Step, State, took_two, took_one, fail,
}
use curator_agent_launcher.Cli.{Usage, Invocation, is_binary_digest, on_flag}
use curator_agent_launcher.Base.{
  is_some, sym, subst, inr, inl, if◌then◌else◌, Bool-cases, ◌&&◌, ◌||◌, member_of, dashed,
  str_eq_iff, true, not, Option, refl, some, none, arith, ◌∷◌, Bool, false, ◌≡◌, str_eq, String,
}
use Prim.Native.String.{◌++◌ as str_append}

-- The value of a flag is not empty, and no flag itself.
abbrev pub IsValue : Option String → Type 0
IsValue none = Unit
IsValue (some v) = (str_eq v "" ≡ false) × (dashed v ≡ false)

-- The network policies.
pub data IsPolicy : String → String → Type 0 where
  optimistic : IsPolicy "" ""
  strict : IsPolicy "strict" ""
  pinned :
      (digest : String)
      → is_binary_digest digest ≡ true
      → IsPolicy "pinned" (str_append "sha256-" digest)

-- The values of the flags are such, and a handle comes with its selector.
abbrev pub IsValid : Invocation → Type 0
IsValid inv =
    ((str_eq inv.a2a_identity "" || is_a2a_identity inv.a2a_identity) ≡ true)
    × IsValue inv.profile_name
    × IsValue inv.model_name
    × IsValue inv.effort_name
    × IsValue inv.resume_id
    × IsValue inv.network_name
    × (dashed inv.network_known_bad_path ≡ false)
    × IsPolicy inv.network_mode inv.network_pin
    × ((not (is_some inv.resume_handle) || inv.resume_requested) ≡ true)

-- A canonical environment: not empty, no flag, no command and no alias.
abbrev pub is_environment : String → Bool
is_environment s =
    not (dashed s)
    && not (str_eq s "")
    && not (str_eq s "gateway")
    && not (str_eq s "session-manager")
    && not (str_eq s "werkstatt")
    && not (str_eq s "migrate")
    && not (str_eq s "openai-infra")
    && not (str_eq s "anthropic-infra")
    && not (str_eq s "claude")
    && not (str_eq s "codex")

-- The invariant of the loop.
abbrev pub IsReached : State → Type 0
IsReached st =
    IsValid st.inv
    × (st.env_set ≡ true → is_environment st.inv.env_id ≡ true)
    × (member_of st.seen "--network-policy" ≡ false
        → (st.inv.network_mode ≡ "") × (st.inv.network_pin ≡ ""))

abbrev Holds : {A : Type 0} → (A → Type 0) → Tried Usage A → Type 0
Holds P (granted a) = P a
Holds P (denied e) = Unit

abbrev pub Keeps : Step → Type 0
Keeps (fail e) = Unit
Keeps (took_one st) = IsReached st
Keeps (took_two st) = IsReached st

abbrev stored : String → State → Invocation → State
stored name st inv = record st { inv = inv; seen = name ∷ st.seen }

set_permissions-IsReached :
    (name v : String) (st : State)
    → IsReached st
    → Holds (λ inv. IsReached (stored name st inv)) (set_permissions v st.inv)
unfolding set_permissions member_of
set_permissions-IsReached name v st h = ground arith

set_system_prompt-IsReached :
    (name v : String) (st : State)
    → IsReached st
    → Holds (λ inv. IsReached (stored name st inv)) (set_system_prompt v st.inv)
unfolding set_system_prompt member_of
set_system_prompt-IsReached name v st h = ground arith

set_pin-IsReached :
    (digest : Option String) (st : State)
    → IsReached st
    → Holds (λ inv. IsReached (stored "--network-policy" st inv)) (set_pin digest st.inv)
unfolding member_of
set_pin-IsReached none st h = tt
set_pin-IsReached (some digest) st h = elim (Bool-cases (is_binary_digest digest)) [
  | inl good ↦ rw good (ground (arith, pinned digest good))
  | inr bad ↦ rw bad tt
]

set_network_policy-IsReached :
    (v : String) (st : State)
    → IsReached st
    → member_of st.seen "--network-policy" ≡ false
    → Holds (λ inv. IsReached (stored "--network-policy" st inv)) (set_network_policy v st.inv)
unfolding set_network_policy member_of
set_network_policy-IsReached v st h fresh = elim (Bool-cases (str_eq v "optimistic")) [
  | inl first ↦ rw first (ground (arith, optimistic))
  | inr other ↦ elim (Bool-cases (str_eq v "strict")) [
    | inl second ↦ rw (other, second) (ground (arith, strict))
    | inr third ↦ rw (other, third) (set_pin-IsReached (cut_prefix v "pinned:") st h)
  ]
]

skip :
    (x : Flag) {y : Flag} (b : Bool)
    → (if b then x else y) ≡ network_policy
    → (x ≡ network_policy → ⊥)
    → y ≡ network_policy
skip x true e d = absurd (d e)
skip x false e d = e

last_name :
    (b c : Bool)
    → (if b then network_policy else if c then network_known_bad else unknown) ≡ network_policy
    → b ≡ true
last_name true c e = refl
last_name false true e = cc
last_name false false e = cc

network_policy_name : (name : String) → flag_of name ≡ network_policy → name ≡ "--network-policy"
unfolding flag_of
network_policy_name name e = (str_eq_iff name "--network-policy").0 (
    last_name _ _ (
      skip network _
        (skip a2a _
          (skip resume _
            (skip effort _
              (skip model _
                (skip system_prompt _
                  (skip profile _
                    (skip (host untracked) _
                      (skip (host native_host) _
                        (skip (host hosted) _
                          (skip detach _
                            (skip board_goal _
                              (skip permissions _
                                (skip yolo_alias _
                                  (skip rejected _
                                    (skip removed _ (skip gateway_recovery _ e (λ d. cc)) (λ d. cc))
                                    (λ d. cc))
                                  (λ d. cc))
                                (λ d. cc))
                              (λ d. cc))
                            (λ d. cc))
                          (λ d. cc))
                        (λ d. cc))
                      (λ d. cc))
                    (λ d. cc))
                  (λ d. cc))
                (λ d. cc))
              (λ d. cc))
            (λ d. cc))
          (λ d. cc))
        (λ d. cc)))

set-IsReached :
    (f : Flag) (name v : String) (st : State)
    → flag_of name ≡ f
    → str_eq v "" ≡ false
    → (is_a2a f || not (dashed v)) ≡ true
    → member_of st.seen name ≡ false
    → IsReached st
    → Holds (λ inv. IsReached (stored name st inv)) (set f name v st.inv)
unfolding set member_of
set-IsReached a2a name v st is full dash fresh h = elim (Bool-cases (is_a2a_identity v)) [
  | inl good ↦ rw good (ground arith)
  | inr bad ↦ rw bad tt
]
set-IsReached profile name v st is full dash fresh h = ground arith
set-IsReached model name v st is full dash fresh h = ground arith
set-IsReached effort name v st is full dash fresh h = ground arith
set-IsReached permissions name v st is full dash fresh h = set_permissions-IsReached name v st h
set-IsReached system_prompt name v st is full dash fresh h = set_system_prompt-IsReached name v st h
set-IsReached resume name v st is full dash fresh h = ground arith
set-IsReached network_policy name v st is full dash fresh h =
    subst (λ n. Holds (λ inv. IsReached (stored n st inv)) (set_network_policy v st.inv))
      (sym (network_policy_name name is))
      (set_network_policy-IsReached v st h (rw (sym (network_policy_name name is)) fresh))
set-IsReached network_known_bad name v st is full dash fresh h = ground arith
set-IsReached network name v st is full dash fresh h = ground arith
set-IsReached gateway_recovery name v st is full dash fresh h = tt
set-IsReached removed name v st is full dash fresh h = tt
set-IsReached rejected name v st is full dash fresh h = tt
set-IsReached yolo_alias name v st is full dash fresh h = tt
set-IsReached board_goal name v st is full dash fresh h = tt
set-IsReached detach name v st is full dash fresh h = tt
set-IsReached (host k) name v st is full dash fresh h = tt
set-IsReached unknown name v st is full dash fresh h = tt

set_result :
    (k : State → Step) (name : String) (st : State) (r : Tried Usage Invocation)
    → ((st' : State) → IsReached st' → Keeps (k st'))
    → Holds (λ inv. IsReached (stored name st inv)) r
    → Keeps (elim r [ denied e ↦ fail e | granted inv ↦ k (stored name st inv) ])
set_result k name st (denied e) keep h = tt
set_result k name st (granted inv) keep h = keep (stored name st inv) h

store-Keeps :
    (k : State → Step) (f : Flag) (name v : String) (st : State)
    → ((st' : State) → IsReached st' → Keeps (k st'))
    → flag_of name ≡ f
    → member_of st.seen name ≡ false
    → IsReached st
    → Keeps (store k f name v (record st { seen = name ∷ st.seen }))
unfolding store
store-Keeps k f name v st keep is fresh h =
    elim (Bool-cases (str_eq v "" || (not (is_a2a f) && dashed v))) [
      | inl bad ↦ rw bad tt
      | inr good ↦ rw good (
          set_result k name st (set f name v st.inv) keep
            (set-IsReached f name v st is (ground arith) (ground arith) fresh h))
    ]

value_flag-Keeps :
    (f : Flag) (name v : String) (has_eq : Bool) (next : Option String) (st : State)
    → flag_of name ≡ f
    → IsReached st
    → Keeps (value_flag f name v has_eq next st)
unfolding value_flag
value_flag-Keeps f name v has_eq next st is h = elim (Bool-cases (member_of st.seen name)) [
  | inl again ↦ rw again tt
  | inr fresh ↦ rw fresh (read fresh has_eq next)
]
  where
    read :
        member_of st.seen name ≡ false
        → (b : Bool) (o : Option String)
        → Keeps (
            if b then store took_one f name v (record st { seen = name ∷ st.seen }) else elim o [
              | none ↦ fail (missing_value name)
              | some w ↦
                  if str_eq w "--"
                  then fail (missing_value name)
                  else store took_two f name w (record st { seen = name ∷ st.seen })
            ])
    read fresh true o = store-Keeps took_one f name v st (λ st' r. r) is fresh h
    read fresh false none = tt
    read fresh false (some w) =
        ground (arith, store-Keeps took_two f name w st (λ st' r. r) is fresh h)

switch_flag-Keeps :
    (f : Flag) (name : String) (has_eq : Bool) (st : State)
    → IsReached (stored name st (set_switch f st.inv))
    → Keeps (switch_flag f name has_eq st)
unfolding switch_flag member_of
switch_flag-Keeps f name has_eq st h = ground arith

pub on_flag-Keeps :
    (f : Flag) (tok name v : String) (has_eq : Bool) (next : Option String) (st : State)
    → flag_of name ≡ f
    → IsReached st
    → Keeps (on_flag f tok name v has_eq next st)
unfolding on_flag member_of
on_flag-Keeps gateway_recovery tok name v has_eq next st is h = ground arith
on_flag-Keeps removed tok name v has_eq next st is h = tt
on_flag-Keeps rejected tok name v has_eq next st is h = tt
on_flag-Keeps yolo_alias tok name v has_eq next st is h = ground arith
on_flag-Keeps permissions tok name v has_eq next st is h = ground (
  arith,
  value_flag-Keeps permissions name v has_eq next (record st { permission_seen = true }) is h,
)
on_flag-Keeps board_goal tok name v has_eq next st is h =
    switch_flag-Keeps board_goal name has_eq st (ground arith)
on_flag-Keeps detach tok name v has_eq next st is h =
    switch_flag-Keeps detach name has_eq st (ground arith)
on_flag-Keeps (host k) tok name v has_eq next st is h = ground arith
on_flag-Keeps unknown tok name v has_eq next st is h = tt
on_flag-Keeps profile tok name v has_eq next st is h =
    value_flag-Keeps profile name v has_eq next st is h
on_flag-Keeps system_prompt tok name v has_eq next st is h =
    value_flag-Keeps system_prompt name v has_eq next st is h
on_flag-Keeps model tok name v has_eq next st is h =
    value_flag-Keeps model name v has_eq next st is h
on_flag-Keeps effort tok name v has_eq next st is h =
    value_flag-Keeps effort name v has_eq next st is h
on_flag-Keeps resume tok name v has_eq next st is h =
    value_flag-Keeps resume name v has_eq next st is h
on_flag-Keeps a2a tok name v has_eq next st is h = value_flag-Keeps a2a name v has_eq next st is h
on_flag-Keeps network tok name v has_eq next st is h =
    value_flag-Keeps network name v has_eq next st is h
on_flag-Keeps network_policy tok name v has_eq next st is h =
    value_flag-Keeps network_policy name v has_eq next st is h
on_flag-Keeps network_known_bad tok name v has_eq next st is h =
    value_flag-Keeps network_known_bad name v has_eq next st is h
