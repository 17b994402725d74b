-- ===== src/Cli/Manager/Shape.antt =====
-- The commands that `parse_session_manager` accepts.
use curator_agent_launcher.Tried.{Grants, Grants-bind, ◌>>=◌, Tried}
use curator_agent_launcher.Cli.Manager.{
  named, parse_session_manager, Rule, register, registered, is_manifest, observed, chosen,
  is_handle, is_scope, blank, denied, granted, valid_id, register_flags, show_manager,
  list_managers, observe, observe_flags, filter_scope, Command,
}
use curator_agent_launcher.Base.{
  subst, refl, ◌&&◌, inl, inr, [], ◌||◌, arith, Bool-cases, true, false, ◌∷◌, str_eq, ◌≡◌, Bool,
  List, String,
}

-- No scope, or one of the two.
abbrev pub is_optional_scope : String → Bool
is_optional_scope s = str_eq s "" || is_scope s

-- The commands of the closed grammar, one constructor for each form.
pub data IsCommand : Command → Type 0 where
  observes :
      (id session : String)
      → valid_id id ≡ true
      → is_handle session ≡ true
      → IsCommand (record (blank "observe") { id = id; session = session; json = true })
  lists : (json : Bool) → IsCommand (record (blank "list") { json = json })
  shows :
      (id : String) (json : Bool)
      → valid_id id ≡ true
      → IsCommand (record (blank "show") { id = id; json = json })
  chooses :
      (op id scope : String)
      → (str_eq op "use" || (str_eq op "select" || str_eq op "unregister")) ≡ true
      → valid_id id ≡ true
      → is_optional_scope scope ≡ true
      → IsCommand (record (blank op) { id = id; scope = scope })
  registers :
      (c : Command)
      → (c.operation ≡ "register") × (c.id ≡ "") × (c.session ≡ "") × (c.json ≡ false)
      → is_manifest c.manifest ≡ true
      → is_optional_scope c.scope ≡ true
      → (c.select && c.no_select) ≡ false
      → IsCommand c

abbrev Scoped : List String × String → Type 0
Scoped p = is_optional_scope p.1 ≡ true

filter_scope-Scoped :
    (scope : String) (args : List String)
    → is_optional_scope scope ≡ true
    → Grants Scoped (filter_scope scope args)
unfolding filter_scope
filter_scope-Scoped scope [] h = h
filter_scope-Scoped scope (w ∷ []) h = ground arith
filter_scope-Scoped scope (w ∷ v ∷ rest) h =
    let plain =
      Grants-bind Scoped Scoped (filter_scope scope (v ∷ rest)) (λ p. granted (w ∷ p.0, p.1))
        (filter_scope-Scoped scope (v ∷ rest) h) (λ p k. k) in
    ground (arith, plain, filter_scope-Scoped v rest)

chosen-IsCommand :
    (op : String) (p : List String × String)
    → (str_eq op "use" || (str_eq op "select" || str_eq op "unregister")) ≡ true
    → Scoped p
    → Grants IsCommand (chosen op p)
chosen-IsCommand op ([], scope) o h = tt
chosen-IsCommand op (id ∷ [], scope) o h = elim (Bool-cases (valid_id id)) [
  | inl good ↦ rw good (chooses op id scope o good h)
  | inr bad ↦ rw bad tt
]
chosen-IsCommand op (id ∷ w ∷ rest, scope) o h = ground arith

-- The session that is set so far is a handle, if there is one.
abbrev Observed : String × Bool → Type 0
Observed p = (str_eq p.0 "" || is_handle p.0) ≡ true

observe_flags-Observed :
    (session : String) (json : Bool) (args : List String)
    → (str_eq session "" || is_handle session) ≡ true
    → Grants Observed (observe_flags session json args)
unfolding observe_flags
observe_flags-Observed session json [] h = h
observe_flags-Observed session json (w ∷ []) h = ground arith
observe_flags-Observed session json (w ∷ v ∷ rest) h =
    ground
      (arith, observe_flags-Observed session true (v ∷ rest) h, observe_flags-Observed v json rest)

observed-IsCommand :
    (id : String) (p : String × Bool)
    → valid_id id ≡ true
    → Observed p
    → Grants IsCommand (observed id p)
observed-IsCommand id (session, false) v h = ground arith
observed-IsCommand id (session, true) v h = elim (Bool-cases (str_eq session "")) [
  | inl none_set ↦ rw none_set tt
  | inr set ↦ rw set (observes id session v (ground arith))
]

observe-IsCommand : (args : List String) → Grants IsCommand (observe args)
unfolding observe
observe-IsCommand [] = tt
observe-IsCommand (id ∷ args) = elim (Bool-cases (valid_id id)) [
  | inr bad ↦ rw bad tt
  | inl good ↦ rw good (
      Grants-bind Observed IsCommand (observe_flags "" false args) (observed id)
        (observe_flags-Observed "" false args refl) (λ p h. observed-IsCommand id p good h))
]

list_managers-IsCommand : (args : List String) → Grants IsCommand (list_managers args)
unfolding list_managers
list_managers-IsCommand [] = lists false
list_managers-IsCommand (w ∷ []) = ground (arith, lists true)
list_managers-IsCommand (w ∷ v ∷ rest) = tt

show_manager-IsCommand : (args : List String) → Grants IsCommand (show_manager args)
unfolding show_manager
show_manager-IsCommand [] = tt
show_manager-IsCommand (id ∷ []) = ground (arith, shows id false)
show_manager-IsCommand (id ∷ w ∷ []) = ground (arith, shows id true)
show_manager-IsCommand (id ∷ w ∷ v ∷ rest) = ground arith

-- What the loop of `register` can have set.
abbrev Registering : Command → Type 0
Registering c =
    ((c.operation ≡ "register") × (c.id ≡ "") × (c.session ≡ "") × (c.json ≡ false))
    × ((str_eq c.manifest "" || is_manifest c.manifest) ≡ true)
    × (is_optional_scope c.scope ≡ true)

register_flags-Registering :
    (seen : List String) (c : Command) (args : List String)
    → Registering c
    → Grants Registering (register_flags seen c args)
unfolding register_flags
register_flags-Registering seen c [] h = h
register_flags-Registering seen c (flag ∷ []) h = ground arith
register_flags-Registering seen c (flag ∷ v ∷ rest) h = ground (
  arith,
  register_flags-Registering (flag ∷ seen) (record c { manifest = v }) rest,
  register_flags-Registering (flag ∷ seen) (record c { scope = v }) rest,
  register_flags-Registering (flag ∷ seen) (record c { select = true }) (v ∷ rest),
  register_flags-Registering (flag ∷ seen) (record c { no_select = true }) (v ∷ rest),
)

registered-IsCommand : (c : Command) → Registering c → Grants IsCommand (registered c)
registered-IsCommand c h = elim (Bool-cases (str_eq c.manifest "")) [
  | inl bare ↦ rw bare tt
  | inr given ↦ elim (Bool-cases (c.select && c.no_select)) [
    | inl both ↦ rw (given, both) tt
    | inr one ↦ rw (given, one) (registers c h.0 (ground arith) (ground arith) one)
  ]
]

register-IsCommand : (args : List String) → Grants IsCommand (register args)
unfolding register
register-IsCommand args =
    Grants-bind Registering IsCommand (register_flags [] (blank "register") args) registered
      (register_flags-Registering [] (blank "register") args ((refl, refl, refl, refl), refl, refl))
      registered-IsCommand

named-Grants :
    (op : String) (r : Tried Rule Command) → Grants IsCommand r → Grants IsCommand (named op r)
named-Grants op (granted c) h = h
named-Grants op (denied e) h = tt

parse_session_manager-Grants : (args : List String) → Grants IsCommand (parse_session_manager args)
unfolding parse_session_manager
parse_session_manager-Grants [] = tt
parse_session_manager-Grants (op ∷ args) =
    elim (Bool-cases (str_eq op "use" || (str_eq op "select" || str_eq op "unregister"))) [
      | inl picks ↦ rw picks (
          named-Grants op (filter_scope "" args >>= chosen op) (
            Grants-bind Scoped IsCommand (filter_scope "" args) (chosen op)
              (filter_scope-Scoped "" args refl) (λ p h. chosen-IsCommand op p picks h)))
      | inr other ↦ rw other (
          ground (
            arith,
            named-Grants op (observe args) (observe-IsCommand args),
            named-Grants op (list_managers args) (list_managers-IsCommand args),
            named-Grants op (show_manager args) (show_manager-IsCommand args),
            named-Grants op (register args) (register-IsCommand args),
          ))
    ]

-- Whatever the parser accepts is a command of the closed grammar: valid identifiers and handles, a
-- known scope, a manifest that is no flag, and at most one of the two selections.
pub parse_session_manager-IsCommand :
    (args : List String) (c : Command) → parse_session_manager args ≡ granted c → IsCommand c
parse_session_manager-IsCommand args c e =
    subst (Grants IsCommand) e (parse_session_manager-Grants args)
