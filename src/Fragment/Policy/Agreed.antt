-- ===== src/Fragment/Policy/Agreed.antt =====
-- What the policy of the fourth revision promises, if it is accepted.
use curator_agent_launcher.Base.{
  inr, inl, subst, Bool-cases, ◌∷◌, bytes_eq-eq, codes, List, String, Bool, true, false, not, [],
  Bytes, ◌≡◌, refl, Option, none, some, Yields, yields, refuses, Yields-bind, Yields-if, arith,
  is_text, bytes_eq,
}
use curator_agent_launcher.MemberWire.Number.{is_empty}
use curator_agent_launcher.Fragment.Value.{Value}
use curator_agent_launcher.Fragment.Rules.{member_at, has_member}
use curator_agent_launcher.Fragment.Channels.Total.{
  check-Yields, closed_object-Total, string_member-Total, enum_member-Yields,
}
use curator_agent_launcher.Fragment.Sections.{is_v4, is_muse}
use curator_agent_launcher.Fragment.Policy.{
  CredentialStore, root_context_of, expected_override, admits_selection, overrides_of,
  credential_store_at, credential_store_of, v4_policy,
}
use curator_agent_launcher.Fragment.Sections.Coherent.{bool_of-Total}

-- The overrides for a value of the one key.
abbrev pub override : String → List (String × Bytes)
override value = ("cli_auth_credentials_store", codes value) ∷ []

-- Codex overrides its configuration exactly for the file and for the keychain, each by its own value,
-- and nothing else overrides any.
abbrev pub OverridesAgree : Bytes → CredentialStore → Type 0
OverridesAgree env c =
    (is_text env "codex_cli" ≡ true
      → is_text c.selection "file" ≡ true
      → c.config_overrides ≡ override "file")
    × (is_text env "codex_cli" ≡ true
        → is_text c.selection "keychain" ≡ true
        → c.config_overrides ≡ override "keyring")
    × (is_text c.selection "native" ≡ true → c.config_overrides ≡ [])
    × (is_text env "codex_cli" ≡ false → c.config_overrides ≡ [])

-- What a credential store must be: Muse keeps its credentials in a file and so must have one; Codex
-- selects its native store, a file or the keychain, with the overrides of the selection; the others
-- select their native store.
abbrev pub StoreAgrees : Bytes → Option CredentialStore → Type 0
StoreAgrees env none = is_muse env ≡ false
StoreAgrees env (some c) =
    (is_muse env ≡ true → is_text c.selection "file" ≡ true)
    × (is_muse env ≡ false → is_text env "codex_cli" ≡ false → is_text c.selection "native" ≡ true)
    × OverridesAgree env c

-- The policy of the fourth revision: older ones have none, and only Muse has a root context.
abbrev pub PolicyAgrees : Bytes → Bytes → Bool × Option CredentialStore → Type 0
PolicyAgrees revision env (context, store) =
    (is_v4 revision ≡ false → (context ≡ false) × (store ≡ none))
    × (is_v4 revision ≡ true → StoreAgrees env store)
    × (context ≡ true → is_muse env ≡ true)

root_context_of-Yields :
    (env : Bytes) (root : Value)
    → Yields (λ c. c ≡ true → is_muse env ≡ true) (root_context_of env root)
unfolding root_context_of
root_context_of-Yields env root =
    Yields-if (not (has_member root "root_context")) (λ _. yields λ e. cc)
      λ _. Yields-bind (check-Yields (is_muse env)) λ _ muse.
        Yields-bind (closed_object-Total (member_at root "root_context") _ _) λ _ _.
          Yields-bind (bool_of-Total (member_at (member_at root "root_context") "exclusive"))
            λ b _. Yields-if b (λ _. yields λ _. muse) λ _. refuses

-- The overrides are those of the expected value, and none if there is none.
abbrev IsOverride : Bytes → List (String × Bytes) → Type 0
IsOverride expected o =
    (is_empty expected ≡ true → o ≡ [])
    × (is_empty expected ≡ false → o ≡ ("cli_auth_credentials_store", expected) ∷ [])

overrides_of-Yields :
    (expected : Bytes) (v : Value) → Yields (IsOverride expected) (overrides_of expected v)
unfolding overrides_of
overrides_of-Yields expected v =
    Yields-if (is_empty expected)
      (λ nothing.
        Yields-if (has_member v "config_overrides") (λ _. refuses) λ _. yields (λ _. refl, λ e. cc))
      λ some_text. Yields-bind (check-Yields (has_member v "config_overrides")) λ _ _.
        Yields-bind (closed_object-Total (member_at v "config_overrides") _ _) λ _ _.
          Yields-bind (string_member-Total (member_at v "config_overrides") _) λ actual _.
            Yields-if (bytes_eq actual expected) (λ _. yields (λ e. cc, λ _. refl)) λ _. refuses

expected_override-file :
    (env s : Bytes)
    → is_text env "codex_cli" ≡ true
    → is_text s "file" ≡ true
    → expected_override env s ≡ codes "file"
expected_override-file env s codex file = rw (codex, file) refl

expected_override-keychain :
    (env s : Bytes)
    → is_text env "codex_cli" ≡ true
    → is_text s "keychain" ≡ true
    → expected_override env s ≡ codes "keyring"
unfolding bytes_eq
expected_override-keychain env s codex keychain =
    rw (codex, bytes_eq-eq s (codes "keychain") keychain) refl

expected_override-native :
    (env s : Bytes) → is_text s "native" ≡ true → expected_override env s ≡ []
unfolding bytes_eq
expected_override-native env s native = elim (Bool-cases (is_text env "codex_cli")) [
  | inl codex ↦ rw (codex, bytes_eq-eq s (codes "native") native) refl
  | inr other ↦ rw other refl
]

expected_override-other :
    (env s : Bytes) → is_text env "codex_cli" ≡ false → expected_override env s ≡ []
expected_override-other env s other = rw other refl

override-OverridesAgree :
    (env s : Bytes) (o : List (String × Bytes))
    → IsOverride (expected_override env s) o
    → OverridesAgree env (record { selection = s; config_overrides = o })
unfolding is_empty
override-OverridesAgree env s o h =
    let at : (x : Bytes) → expected_override env s ≡ x → IsOverride x o =
      λ x e. subst (λ y. IsOverride y o) e h in
    (
      λ codex file. (at (codes "file") (expected_override-file env s codex file)).1 refl,
      λ codex keychain.
          (at (codes "keyring") (expected_override-keychain env s codex keychain)).1 refl,
      λ native. (at [] (expected_override-native env s native)).0 refl,
      λ other. (at [] (expected_override-other env s other)).0 refl,
    )

credential_store_at-Yields :
    (env : Bytes) (v : Value) → Yields (λ c. StoreAgrees env (some c)) (credential_store_at env v)
unfolding credential_store_at
credential_store_at-Yields env v = Yields-bind (closed_object-Total v _ _) λ _ _.
    Yields-bind (enum_member-Yields v "selection" _) λ s _.
      Yields-bind (check-Yields (admits_selection env s)) λ _ admitted.
        Yields-bind (overrides_of-Yields (expected_override env s) v)
          λ o h. yields (ground arith, ground arith, override-OverridesAgree env s o h)

credential_store_of-Yields :
    (env : Bytes) (root : Value) → Yields (StoreAgrees env) (credential_store_of env root)
unfolding credential_store_of
credential_store_of-Yields env root =
    Yields-if (not (has_member root "credential_store"))
      (λ _. Yields-if (is_muse env) (λ _. refuses) λ e. yields e)
      λ _.
        Yields-bind (credential_store_at-Yields env (member_at root "credential_store"))
          λ c h. yields h

pub v4_policy-Yields :
    (revision env : Bytes) (root : Value)
    → Yields (PolicyAgrees revision env) (v4_policy revision env root)
unfolding v4_policy
v4_policy-Yields revision env root =
    Yields-if (not (is_v4 revision)) (λ old. yields (λ _. (refl, refl), ground arith, λ e. cc))
      λ new. Yields-bind (root_context_of-Yields env root) λ r h.
        Yields-bind (credential_store_of-Yields env root) λ c k. yields (ground arith, λ _. k, h)
