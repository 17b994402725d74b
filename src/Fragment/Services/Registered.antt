-- ===== src/Fragment/Services/Registered.antt =====
-- What the system prompt, the servers and the path in front promise, if they are accepted.
use curator_agent_launcher.Base.{
  true, false, not, ◌&&◌, ◌||◌, List, [], ◌∷◌, ◌++◌, Bytes, ◌≡◌, ◌⊎◌, inl, inr, refl, Option, none,
  some, Scan, Yields, yields, refuses, Yields-bind, Yields-if, arith,
}
use curator_agent_launcher.MemberWire.Number.{is_empty}
use curator_agent_launcher.Fragment.Value.{
  Value, Elements, null, boolean, int, string, array, object, no_more, element,
}
use curator_agent_launcher.Fragment.Rules.{
  member_at, has_member, is_identifier, is_absolute_path, is_reserved_name, has_bytes_prefix,
}
use curator_agent_launcher.Fragment.Channels.{Channel, same_channels, prompt_registry, mcp_registry}
use curator_agent_launcher.Fragment.Channels.Total.{
  check-Yields, closed_object-Total, text_of-Total, string_member-Total, channels-Total,
}
use curator_agent_launcher.Fragment.Sections.{is_muse, home}
use curator_agent_launcher.Fragment.Services.{
  SystemPrompt, Mcp, system_prompt_at, system_prompt_of, is_after, env_name_list, env_names_of,
  mcp_at, mcp_registered, mcp_of, environments_root, path_prepend_of,
}

-- A system prompt is none of Muse's, and its channels are those that the registry names.
abbrev pub PromptAgrees : Bytes → Option SystemPrompt → Type 0
PromptAgrees env none = Unit
PromptAgrees env (some s) =
    (is_muse env ≡ false)
    × (is_absolute_path s.path ≡ true)
    × (same_channels s.channels (prompt_registry env) ≡ true)

abbrev IsPrompt : Bytes → SystemPrompt → Type 0
IsPrompt env s =
    (is_absolute_path s.path ≡ true) × (same_channels s.channels (prompt_registry env) ≡ true)

system_prompt_at-Yields : (env : Bytes) (v : Value) → Yields (IsPrompt env) (system_prompt_at env v)
unfolding system_prompt_at
system_prompt_at-Yields env v = Yields-bind (closed_object-Total v _ _) λ _ _.
    Yields-bind (string_member-Total v "path") λ p _.
      Yields-bind (check-Yields (is_absolute_path p)) λ _ ok.
        Yields-bind (channels-Total true (member_at v "channels")) λ cs _.
          Yields-if (same_channels cs (prompt_registry env)) (λ same. yields (ok, same))
            λ _. refuses

pub system_prompt_of-Yields :
    (env : Bytes) (root : Value) → Yields (PromptAgrees env) (system_prompt_of env root)
unfolding system_prompt_of
system_prompt_of-Yields env root =
    Yields-if (not (has_member root "system_prompt")) (λ _. yields tt)
      λ _.
        Yields-if (is_muse env) (λ _. refuses)
          λ other.
            Yields-bind (system_prompt_at-Yields env (member_at root "system_prompt"))
              λ s h. yields (other, h.0, h.1)

-- Names in strictly ascending order, none of them reserved, each behind `last`.
abbrev pub Ascending : Option Bytes → List Bytes → Type 0
Ascending last [] = Unit
Ascending last (n ∷ ns) =
    (is_after last n ≡ true)
    × (is_identifier n ≡ true)
    × (is_reserved_name n ≡ false)
    × Ascending (some n) ns

env_name_list-Yields :
    (last : Option Bytes) (es : Elements) → Yields (Ascending last) (env_name_list last es)
unfolding env_name_list
env_name_list-Yields last no_more = yields tt
env_name_list-Yields last (element v es) = Yields-bind (text_of-Total v) λ n _.
    Yields-bind (check-Yields (is_identifier n && not (is_reserved_name n) && is_after last n))
      λ _ ok.
        Yields-bind (env_name_list-Yields (some n) es)
          λ rest h. yields (ground arith, ground arith, ground arith, h)

env_names_of-Yields : (v : Value) → Yields (Ascending none) (env_names_of v)
env_names_of-Yields (array es) = env_name_list-Yields none es
env_names_of-Yields null = refuses
env_names_of-Yields (boolean b) = refuses
env_names_of-Yields (int neg n) = refuses
env_names_of-Yields (string s) = refuses
env_names_of-Yields (object ms) = refuses

abbrev IsMcp : Channel → Mcp → Type 0
IsMcp c m =
    (is_absolute_path m.path ≡ true)
    × Ascending none m.env_names
    × (same_channels m.channels (c ∷ []) ≡ true)

mcp_at-Yields : (c : Channel) (v : Value) → Yields (IsMcp c) (mcp_at c v)
unfolding mcp_at
mcp_at-Yields c v = Yields-bind (closed_object-Total v _ _) λ _ _.
    Yields-bind (string_member-Total v "path") λ p _.
      Yields-bind (check-Yields (is_absolute_path p)) λ _ ok.
        Yields-bind (env_names_of-Yields (member_at v "env_names")) λ ns sorted.
          Yields-bind (channels-Total false (member_at v "channels")) λ cs _.
            Yields-if (same_channels cs (c ∷ [])) (λ same. yields (ok, sorted, same)) λ _. refuses

abbrev McpOf : Option Channel → Mcp → Type 0
McpOf none m = ⊥
McpOf (some c) m = IsMcp c m

-- An environment with servers has a channel for them in the registry, and the section names it.
abbrev pub McpAgrees : Bytes → Option Mcp → Type 0
McpAgrees env none = Unit
McpAgrees env (some m) = McpOf (mcp_registry env) m

abbrev Registered : Option Channel → Option Mcp → Type 0
Registered o none = Unit
Registered o (some m) = McpOf o m

mcp_registered-Yields :
    (o : Option Channel) (v : Value) → Yields (λ m. Registered o m) (mcp_registered o v)
mcp_registered-Yields none v = refuses
mcp_registered-Yields (some c) v = Yields-bind (mcp_at-Yields c v) λ m h. yields h

pub mcp_of-Yields : (env : Bytes) (root : Value) → Yields (McpAgrees env) (mcp_of env root)
unfolding mcp_of
mcp_of-Yields env root =
    Yields-if (has_member root "mcp") (λ _. agreed (mcp_registered-Yields (mcp_registry env) _))
      λ _. yields tt
  where
    agreed :
        {r : Scan (Option Mcp)}
        → Yields (Registered (mcp_registry env)) r
        → Yields (McpAgrees env) r
    agreed (yields {a = none} h) = yields tt
    agreed (yields {a = some m} h) = yields h
    agreed refuses = refuses

-- A path to be put in front lies below the root of the environments.
abbrev pub Below : Bytes → Bytes → Type 0
Below home p =
    (p ≡ [])
    ⊎ ((has_bytes_prefix p (environments_root home ++ b'/' ∷ []) ≡ true)
        × (is_empty (environments_root home) ≡ false)
        × (is_absolute_path p ≡ true))

pub path_prepend_of-Yields :
    (home : Bytes) (root : Value) → Yields (Below home) (path_prepend_of home root)
unfolding path_prepend_of
path_prepend_of-Yields home root =
    Yields-if (not (has_member root "path_prepend")) (λ _. yields (inl refl))
      λ _. Yields-bind (text_of-Total (member_at root "path_prepend")) λ p _.
        Yields-bind (check-Yields (is_absolute_path p)) λ _ ok.
          let dir = environments_root home in
          Yields-if (is_empty dir || not (has_bytes_prefix p (dir ++ b'/' ∷ []))) (λ _. refuses)
            λ pass. yields (inr (ground arith, ground arith, ok))
