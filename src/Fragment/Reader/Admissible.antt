-- ===== src/Fragment/Reader/Admissible.antt =====
-- Which values the reader may return.
use curator_agent_launcher.Base.{
  ℕ, suc, ◌≤◌, ◌<◌, ◌≡◌, false, ◌&&◌, List, ◌∷◌, [], Bytes, ◌==◌, Bool,
}
use curator_agent_launcher.MemberWire.Number.{safe_integer}
use curator_agent_launcher.Fragment.Value.{
  Value, Elements, Members, null, boolean, int, string, array, object, no_more, element, nil,
  member,
}
use curator_agent_launcher.Fragment.Reader.{max_depth, is_seen}

-- The integers of CCJ-1: no negative zero, and a magnitude of at most 2^53 - 1.
abbrev pub IsSafe : Bool → ℕ → Type 0
IsSafe neg n = (n ≤ safe_integer) × ((neg && n == 0) ≡ false)

-- A value at a depth that the reader may return: every value lies less than 64 deep, every integer
-- is safe, and no object repeats a key. `seen` are the keys of the members in front.
unfoldable mutual
  pub IsAdmissible : ℕ → Value → Type 0
  IsAdmissible d null = d < max_depth
  IsAdmissible d (boolean b) = d < max_depth
  IsAdmissible d (int neg n) = (d < max_depth) × IsSafe neg n
  IsAdmissible d (string s) = d < max_depth
  IsAdmissible d (array es) = (d < max_depth) × AreAdmissible (suc d) es
  IsAdmissible d (object ms) = (d < max_depth) × AreFields (suc d) [] ms

  pub AreAdmissible : ℕ → Elements → Type 0
  AreAdmissible d no_more = Unit
  AreAdmissible d (element v es) = IsAdmissible d v × AreAdmissible d es

  pub AreFields : ℕ → List Bytes → Members → Type 0
  AreFields d seen nil = Unit
  AreFields d seen (member k v ms) =
      (is_seen k seen ≡ false) × IsAdmissible d v × AreFields d (k ∷ seen) ms
