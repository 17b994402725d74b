-- ===== src/Fragment/Channels/Total.antt =====
-- The checks of fragments end: each returns a value or refuses.
use curator_agent_launcher.Base.{
  Bool, true, false, List, [], ◌∷◌, String, Bytes, ◌≡◌, refl, if◌then◌else◌, Scan, done, ◌>>=◌,
  Yields, yields, Ends-Yields, arith, is_text, not, ◌&&◌, ◌||◌, refuses, Yields-bind,
}
use curator_agent_launcher.Fragment.Value.{
  Value, Elements, null, boolean, int, string, array, object, no_more, element,
}
use curator_agent_launcher.Fragment.Rules.{
  check, has_member, text_of, member_at, closed_object, one_of_texts, string_member, enum_member,
}
use curator_agent_launcher.Fragment.Channels.{
  Channel, name_of, companion_flags, companion_list, companions_of, flag_channel, key_channel,
  variable_channel, file_channel, semantics_of, channel, channel_list, channels,
}

abbrev pub Total {ℓ} : {A : Type ℓ} → Scan A → Type ℓ
Total r = Yields (λ _. Unit {0}) r

pub ends {ℓ} : {A : Type ℓ} {a : A} → Total (done a)
ends = yields tt

-- Goes on whatever the value is.
pub then-Total {ℓ κ} :
    {A : Type ℓ} {B : Type κ} {P : A → Type 0} {r : Scan A} {f : A → Scan B}
    → Yields P r
    → ((a : A) → Total (f a))
    → Total (r >>= f)
then-Total h k = Yields-bind h λ a _. k a

pub forget_value {ℓ} : {A : Type ℓ} {P : A → Type 0} {r : Scan A} → Yields P r → Total r
forget_value (yields h) = ends
forget_value refuses = refuses

pub if_Total {ℓ} :
    {A : Type ℓ} (b : Bool) {x y : Scan A} → Total x → Total y → Total (if b then x else y)
if_Total true h k = h
if_Total false h k = k

pub check-Yields : (b : Bool) → Yields (λ _. b ≡ true) (check b)
check-Yields true = yields refl
check-Yields false = refuses

pub closed_object-Total :
    (v : Value) (required optional : List String) → Total (closed_object v required optional)
unfolding closed_object
closed_object-Total v required optional = forget_value (check-Yields _)

pub text_of-Total : (v : Value) → Total (text_of v)
text_of-Total (string s) = ends
text_of-Total null = refuses
text_of-Total (boolean b) = refuses
text_of-Total (int neg n) = refuses
text_of-Total (array es) = refuses
text_of-Total (object ms) = refuses

pub string_member-Total : (v : Value) (key : String) → Total (string_member v key)
unfolding string_member
string_member-Total v key = text_of-Total (member_at v key)

pub enum_member-Yields :
    (v : Value) (key : String) (allowed : List String)
    → Yields (λ s. one_of_texts s allowed ≡ true) (enum_member v key allowed)
unfolding enum_member
enum_member-Yields v key allowed =
    Yields-bind (string_member-Total v key) λ s _. Ends-Yields (ground arith)

name_of-Total : (argument : Bytes) (v : Value) → Total (name_of argument v)
unfolding name_of
name_of-Total argument v =
    let named = is_text argument "name" in
    if_Total (named && not (has_member v "name") || not named && has_member v "name") refuses (
      if_Total (has_member v "name")
        (then-Total (text_of-Total (member_at v "name")) λ s. then-Total (check-Yields _) λ _. ends)
        ends)

companion_flags-Total : (seen : List Bytes) (es : Elements) → Total (companion_flags seen es)
unfolding companion_flags
companion_flags-Total seen no_more = ends
companion_flags-Total seen (element v es) =
    then-Total (text_of-Total v) λ s.
      then-Total (check-Yields _) λ _. then-Total (companion_flags-Total (s ∷ seen) es) λ _. ends

companion_list-Total : (v : Value) → Total (companion_list v)
companion_list-Total (array (element v es)) = companion_flags-Total [] (element v es)
companion_list-Total (array no_more) = refuses
companion_list-Total null = refuses
companion_list-Total (boolean b) = refuses
companion_list-Total (int neg n) = refuses
companion_list-Total (string s) = refuses
companion_list-Total (object ms) = refuses

flag_channel-Total : (k s : Bytes) (v : Value) → Total (flag_channel k s v)
unfolding flag_channel companions_of
flag_channel-Total k s v = then-Total (string_member-Total v "flag") λ token.
    then-Total (check-Yields _) λ _. then-Total (enum_member-Yields v "argument" _) λ arg.
      then-Total (name_of-Total arg v) λ nm.
        then-Total (if_Total (has_member v "with") (companion_list-Total (member_at v "with")) ends)
          λ _. ends

-- The channels of one text.
checked-Total :
    (v : Value) (key : String) (p : Bytes → Bool) (f : Bytes → Channel)
    → Total (string_member v key >>= λ s. check (p s) >>= λ _. done (f s))
checked-Total v key p f =
    then-Total (string_member-Total v key) λ s. then-Total (check-Yields (p s)) λ _. ends

semantics_of-Total : (b : Bool) (v : Value) → Total (semantics_of b v)
semantics_of-Total true v = forget_value (enum_member-Yields v "semantics" _)
semantics_of-Total false v = ends

channel-Total : (b : Bool) (v : Value) → Total (channel b v)
unfolding channel key_channel variable_channel file_channel
channel-Total b v = then-Total (check-Yields _) λ _. then-Total (enum_member-Yields v "kind" _) λ k.
    then-Total (closed_object-Total v _ _) λ _. then-Total (semantics_of-Total b v) λ s.
      if_Total (is_text k "flag") (flag_channel-Total k s v) (
        if_Total (is_text k "config-key") (checked-Total v "key" _ _) (
          if_Total (is_text k "variable") (checked-Total v "variable" _ _)
            (checked-Total v "filename" _ _)))

channel_list-Total : (b : Bool) (es : Elements) → Total (channel_list b es)
unfolding channel_list
channel_list-Total b no_more = ends
channel_list-Total b (element v es) =
    then-Total (channel-Total b v) λ c. then-Total (channel_list-Total b es) λ _. ends

pub channels-Total : (b : Bool) (v : Value) → Total (channels b v)
channels-Total b (array es) = channel_list-Total b es
channels-Total b null = refuses
channels-Total b (boolean x) = refuses
channels-Total b (int neg n) = refuses
channels-Total b (string s) = refuses
channels-Total b (object ms) = refuses
