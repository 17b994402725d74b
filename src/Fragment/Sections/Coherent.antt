-- ===== src/Fragment/Sections/Coherent.antt =====
-- What the sections that every fragment has promise, if they are accepted.
use curator_agent_launcher.Base.{
  Bool, true, false, not, ◌&&◌, ◌||◌, List, [], ◌∷◌, String, Bytes, ◌≡◌, inl, inr, refl, ◌↔◌,
  if◌then◌else◌, Option, none, some, Yields, yields, refuses, Ends-Yields, Yields-bind, Yields-if,
  Bool-cases, arith, is_text, str_eq, str_eq_refl,
}
use curator_agent_launcher.Fragment.Value.{
  Value, null, boolean, int, string, array, object, home_variable,
}
use curator_agent_launcher.Fragment.Rules.{member_at, is_absolute_path}
use curator_agent_launcher.Fragment.Channels.Total.{
  Total, ends, then-Total, check-Yields, closed_object-Total, string_member-Total,
  enum_member-Yields,
}
use curator_agent_launcher.Fragment.Sections.{
  Permissions, is_v1, is_v3, is_v4, is_muse, environment_of, bool_of, is_coherent, permissions_at,
  permissions_of, profile_of, precedence_of, variables, is_env_value, env_entries, env_at, home,
  shares_home, env_of,
}

-- Muse stands in the third revision or the fourth.
abbrev pub KnowsMuse : Bytes → Bytes → Type 0
KnowsMuse revision env = is_muse env ≡ true → (is_v3 revision || is_v4 revision) ≡ true

pub environment_of-Yields :
    (revision : Bytes) (root : Value) → Yields (KnowsMuse revision) (environment_of revision root)
unfolding environment_of
environment_of-Yields revision root =
    Yields-bind (enum_member-Yields root "environment" _) λ env h. Ends-Yields (ground arith)

pub bool_of-Total : (v : Value) → Total (bool_of v)
bool_of-Total (boolean b) = ends
bool_of-Total null = refuses
bool_of-Total (int neg n) = refuses
bool_of-Total (string s) = refuses
bool_of-Total (array es) = refuses
bool_of-Total (object ms) = refuses

-- The lock is engaged exactly by the global source, and only a profile may leave the native mode.
abbrev pub Coherent : Permissions → Type 0
Coherent p =
    ((p.locked ≡ true) ↔ (is_text p.source "global" ≡ true))
    × (is_text p.source "profile" ≡ false → is_text p.mode "native" ≡ true)

is_coherent-Coherent : (p : Permissions) → is_coherent p ≡ true → Coherent p
is_coherent-Coherent p h = ground arith

abbrev pub PermissionsAgree : Bytes → Option Permissions → Type 0
PermissionsAgree revision none = is_v1 revision ≡ true
PermissionsAgree revision (some p) = (is_v1 revision ≡ false) × Coherent p

permissions_at-Yields : (v : Value) → Yields Coherent (permissions_at v)
unfolding permissions_at
permissions_at-Yields v = Yields-bind (closed_object-Total v _ _) λ _ _.
    Yields-bind (enum_member-Yields v "mode" _) λ m _.
      Yields-bind (bool_of-Total (member_at v "locked")) λ l _.
        Yields-bind (enum_member-Yields v "source" _) λ s _.
          let p : Permissions = record { mode = m; locked = l; source = s } in
          Yields-if (is_coherent p) (λ e. yields (is_coherent-Coherent p e)) λ _. refuses

pub permissions_of-Yields :
    (revision : Bytes) (root : Value)
    → Yields (PermissionsAgree revision) (permissions_of revision root)
unfolding permissions_of
permissions_of-Yields revision root =
    Yields-if (is_v1 revision) (λ e. yields e)
      λ e. Yields-bind (permissions_at-Yields (member_at root "permissions")) λ p h. yields (e, h)

pub profile_of-Total : (v : Value) → Total (profile_of v)
unfolding profile_of
profile_of-Total v = then-Total (closed_object-Total v _ _) λ _.
    then-Total (string_member-Total v "name") λ n.
      then-Total (check-Yields _)
        λ _. then-Total (string_member-Total v "lock_sha256") λ h. Ends-Yields (ground arith)

pub precedence_of-Total : (v : Value) → Total (precedence_of v)
unfolding precedence_of
precedence_of-Total v = then-Total (closed_object-Total v _ _) λ _.
    then-Total (enum_member-Yields v "winner" _)
      λ w. then-Total (enum_member-Yields v "placement" _) λ p. ends

-- The entries stand for the names, in their order.
abbrev Listed : List String → List (String × Bytes) → Type 0
Listed [] [] = Unit
Listed (name ∷ names) ((n, value) ∷ es) =
    (n ≡ name) × (is_env_value name value ≡ true) × Listed names es
Listed _ _ = ⊥

env_entries-Yields : (v : Value) (names : List String) → Yields (Listed names) (env_entries v names)
unfolding env_entries
env_entries-Yields v [] = yields tt
env_entries-Yields v (name ∷ names) = Yields-bind (string_member-Total v name) λ value _.
    Yields-bind (check-Yields (is_env_value name value))
      λ _ ok. Yields-bind (env_entries-Yields v names) λ rest h. yields (refl, ok, h)

-- The managed home is an absolute path.
abbrev pub HasHome : Bytes → List (String × Bytes) → Type 0
HasHome environment env = is_absolute_path (home environment env) ≡ true

abbrev backend : String
backend = "TBH_CREDENTIAL_BACKEND"

no_backend_if :
    (b : Bool) (x y : String)
    → str_eq x backend ≡ false
    → str_eq y backend ≡ false
    → str_eq (if b then x else y) backend ≡ false
no_backend_if true x y h k = h
no_backend_if false x y h k = k

no_backend : (env : Bytes) → str_eq (home_variable env) backend ≡ false
unfolding home_variable
no_backend env = no_backend_if (is_text env "claude_code") _ _ refl (
    no_backend_if (is_text env "codex_cli") _ _ refl (
      no_backend_if (is_text env "opencode") _ _ refl (
        no_backend_if (is_text env "pi") _ _ refl
          (no_backend_if (is_text env "muse") _ _ refl refl))))

-- One variable that is no constant is its own home.
single_home :
    (environment : Bytes) (es : List (String × Bytes))
    → is_muse environment ≡ false
    → Listed (home_variable environment ∷ []) es
    → HasHome environment es
unfolding home env_at
single_home environment [] m h = absurd h
single_home environment ((n, value) ∷ []) m (e, ok, h) =
    let path : is_absolute_path value ≡ true = rw (no_backend environment) at ok in
    rw (m, e, str_eq_refl (home_variable environment)) path
single_home environment ((n, value) ∷ e ∷ es) m (_, _, h) = absurd h

pub env_of-Yields :
    (revision environment : Bytes) (v : Value)
    → Yields (HasHome environment) (env_of revision environment v)
unfolding env_of
env_of-Yields revision environment v = Yields-bind (closed_object-Total v _ _) λ _ _.
    Yields-bind (env_entries-Yields v (variables revision environment)) λ env h.
      let parent = home environment env in
      let fails = is_muse environment && not (shares_home parent env && is_absolute_path parent) in
      Yields-if fails (λ _. refuses)
        λ pass. yields (elim (Bool-cases (is_muse environment)) [
          | inl muse ↦ ground arith
          | inr other ↦ single_home environment env other (rw other at h)
        ])
