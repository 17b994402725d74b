-- ===== src/Base/Texts.antt =====
-- Go strings as native texts: comparison, prefixes and `strings.Cut`. A text is its characters.
use Prim.Native.Char.{code}
use Prim.Native.String.{String}
use text.Mathlib.Text.{◌==◌ as text_eq}
use text.Mathlib.TextEquality.{eq_iff}
use mathlib.Core.Path.{◌≡◌, refl}
use mathlib.Core.Logic.{◌↔◌}
use mathlib.Core.Bool.{Bool, true, false, ◌&&◌, ◌||◌}
use mathlib.Core.List.{List, [], ◌∷◌}
use curator_agent_launcher.Base.Tests.{◌==◌, if◌then◌else◌}

abbrev pub str_eq : String → String → Bool
str_eq = text_eq

pub str_eq_iff : (s t : String) → (str_eq s t ≡ true) ↔ (s ≡ t)
str_eq_iff = eq_iff

pub str_eq_refl : (s : String) → str_eq s s ≡ true
str_eq_refl s = (eq_iff s s).1 refl

-- Membership in a Go slice or set of strings.
unfoldable pub member_of : List String → String → Bool
member_of [] s = false
member_of (t ∷ ts) s = str_eq t s || member_of ts s

-- `strings.HasPrefix(s, "-")`.
unfoldable pub dashed : String → Bool
dashed String.[] = false
dashed (String.◌∷◌ c s) = code c == b'-'

unfoldable pub has_prefix : String → String → Bool
has_prefix s String.[] = true
has_prefix String.[] (String.◌∷◌ d p) = false
has_prefix (String.◌∷◌ c s) (String.◌∷◌ d p) = code c == code d && has_prefix s p

-- `strings.Cut(s, "=")`: before the first `=`, behind it, and whether there is one.
unfoldable pub cut_eq : String → String × String × Bool
cut_eq String.[] = (String.[], String.[], false)
cut_eq (String.◌∷◌ c s) =
    let (before, after, found) = cut_eq s in
    if code c == b'=' then (String.[], s, true) else (String.◌∷◌ c before, after, found)
