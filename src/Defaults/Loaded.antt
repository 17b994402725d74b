-- ===== src/Defaults/Loaded.antt =====
-- What `parse_root` loads, and that it carries no host.
use curator_agent_launcher.Base.{
  is_text, codes, subst, String, ◌≡◌, refl, true, false, ◌&&◌, none, some, [], ◌∷◌, List,
  Bool-cases, arith, Bytes, bytes_eq, str_eq, All, Option, inl, inr,
}
use curator_agent_launcher.Tried.{◌>>=◌, Grants, Grants-bind, granted}
use curator_agent_launcher.Fragment.Value.{
  Value, null, boolean, int, string, array, object, Members, nil, member, home_variable,
}
use curator_agent_launcher.Defaults.{
  is_locked, host_request, of_request, get, pair_or_empty, schema_of, require, resolve_host, entry,
  parse_root, of_root, of_schema, root_members, root_member, schema_member, locked_member,
  defaults_member, entry_pair, members_of, names_host, is_v3, environments, set_entry, Schema,
  pair_members, pair_member, is_mode, Pair, File, empty_file, empty_pair, Files,
}

abbrev pub IsModeOption : Option Bytes → Type 0
IsModeOption none = Unit
IsModeOption (some v) = is_mode v ≡ true

abbrev pub IsLoadedPair : Pair → Type 0
IsLoadedPair p = (p.host ≡ none) × IsModeOption p.permissions

-- A known environment, with a pair that has no host and a permission mode if any.
abbrev pub IsEntry : Bytes × Pair → Type 0
IsEntry (env, p) = (str_eq (home_variable env) "" ≡ false) × IsLoadedPair p

abbrev pub IsLoaded : File → Type 0
IsLoaded f = All IsEntry f.entries

pair_member-IsLoadedPair :
    (schema : Schema) (env k v : Bytes) (p : Pair)
    → (is_v3 schema && is_text k "host") ≡ false
    → IsLoadedPair p
    → Grants IsLoadedPair (pair_member schema env k v p)
unfolding pair_member
pair_member-IsLoadedPair schema env k v p h l = elim (Bool-cases (is_mode v)) [
  | inl mode ↦ ground arith
  | inr other ↦ ground arith
]

pair_members-IsLoadedPair :
    (schema : Schema) (env : Bytes) (ms : Members) (p : Pair)
    → (is_v3 schema && names_host ms) ≡ false
    → IsLoadedPair p
    → Grants IsLoadedPair (pair_members schema env ms p)
unfolding pair_members names_host
pair_members-IsLoadedPair schema env nil p h l = l
pair_members-IsLoadedPair schema env (member k (string v) ms) p h l =
    Grants-bind IsLoadedPair IsLoadedPair (pair_member schema env k v p)
      (pair_members schema env ms) (pair_member-IsLoadedPair schema env k v p (ground arith) l)
      (λ q m. pair_members-IsLoadedPair schema env ms q (ground arith) m)
pair_members-IsLoadedPair schema env (member k null ms) p h l = tt
pair_members-IsLoadedPair schema env (member k (boolean b) ms) p h l = tt
pair_members-IsLoadedPair schema env (member k (int s n) ms) p h l = tt
pair_members-IsLoadedPair schema env (member k (array xs) ms) p h l = tt
pair_members-IsLoadedPair schema env (member k (object m) ms) p h l = tt

entry_pair-IsLoadedPair :
    (schema : Schema) (env : Bytes) (v : Value)
    → (is_v3 schema && names_host (members_of v)) ≡ false
    → Grants IsLoadedPair (entry_pair schema env v)
entry_pair-IsLoadedPair schema env (object (member k v ms)) h =
    pair_members-IsLoadedPair schema env (member k v ms) empty_pair h (refl, tt)
entry_pair-IsLoadedPair schema env (object nil) h = tt
entry_pair-IsLoadedPair schema env null h = tt
entry_pair-IsLoadedPair schema env (boolean b) h = tt
entry_pair-IsLoadedPair schema env (int s n) h = tt
entry_pair-IsLoadedPair schema env (string s) h = tt
entry_pair-IsLoadedPair schema env (array xs) h = tt

set_entry-All :
    (env : Bytes) (p : Pair) (es : List (Bytes × Pair))
    → IsEntry (env, p)
    → All IsEntry es
    → All IsEntry (set_entry env p es)
unfolding set_entry
set_entry-All env p [] h l = (h, tt)
set_entry-All env p ((j, q) ∷ es) h (k, l) = elim (Bool-cases (bytes_eq j env)) [
  | inl same ↦ rw same ((k.0, h.1), l)
  | inr other ↦ rw other (k, set_entry-All env p es h l)
]

environments-All :
    (schema : Schema) (ms : Members) (es : List (Bytes × Pair))
    → All IsEntry es
    → Grants (All IsEntry) (environments schema ms es)
unfolding environments
environments-All schema nil es l = l
environments-All schema (member env v ms) es l =
    elim (Bool-cases (is_v3 schema && names_host (members_of v))) [
      | inl withdrawn ↦ rw withdrawn tt
      | inr allowed ↦ elim (Bool-cases (str_eq (home_variable env) "")) [
        | inl unknown ↦ rw (allowed, unknown) tt
        | inr known ↦
            rw (allowed, known)
              (Grants-bind IsLoadedPair (All IsEntry) (entry_pair schema env v)
                (λ p. environments schema ms (set_entry env p es))
                (entry_pair-IsLoadedPair schema env v allowed)
                (λ p h.
                  environments-All schema ms (set_entry env p es)
                    (set_entry-All env p es (known, h) l)))
      ]
    ]

defaults_member-IsLoaded :
    (schema : Schema) (v : Value) (f : File)
    → IsLoaded f
    → Grants IsLoaded (defaults_member schema v f)
defaults_member-IsLoaded schema (object ms) f l =
    Grants-bind (All IsEntry) IsLoaded (environments schema ms f.entries)
      (λ es. granted (record f { entries = es })) (environments-All schema ms f.entries l)
      (λ es h. h)
defaults_member-IsLoaded schema null f l = tt
defaults_member-IsLoaded schema (boolean b) f l = tt
defaults_member-IsLoaded schema (int s n) f l = tt
defaults_member-IsLoaded schema (string s) f l = tt
defaults_member-IsLoaded schema (array xs) f l = tt

locked_member-IsLoaded : (v : Value) (f : File) → IsLoaded f → Grants IsLoaded (locked_member v f)
locked_member-IsLoaded (boolean b) f l = l
locked_member-IsLoaded null f l = tt
locked_member-IsLoaded (int s n) f l = tt
locked_member-IsLoaded (string s) f l = tt
locked_member-IsLoaded (array xs) f l = tt
locked_member-IsLoaded (object ms) f l = tt

schema_member-IsLoaded :
    (s : Bytes) (v : Value) (f : File) → IsLoaded f → Grants IsLoaded (schema_member s v f)
schema_member-IsLoaded s (string t) f l = elim (Bool-cases (bytes_eq t s)) [
  | inl same ↦ rw same l
  | inr other ↦ rw other tt
]
schema_member-IsLoaded s null f l = tt
schema_member-IsLoaded s (boolean b) f l = tt
schema_member-IsLoaded s (int t n) f l = tt
schema_member-IsLoaded s (array xs) f l = tt
schema_member-IsLoaded s (object ms) f l = tt

root_member-IsLoaded :
    (schema : Schema) (s k : Bytes) (v : Value) (f : File)
    → IsLoaded f
    → Grants IsLoaded (root_member schema s k v f)
unfolding root_member
root_member-IsLoaded schema s k v f l = ground (
  arith,
  schema_member-IsLoaded s v f l,
  locked_member-IsLoaded v f l,
  defaults_member-IsLoaded schema v f l,
)

root_members-IsLoaded :
    (schema : Schema) (s : Bytes) (ms : Members) (f : File)
    → IsLoaded f
    → Grants IsLoaded (root_members schema s ms f)
unfolding root_members
root_members-IsLoaded schema s nil f l = l
root_members-IsLoaded schema s (member k v ms) f l =
    Grants-bind IsLoaded IsLoaded (root_member schema s k v f) (root_members schema s ms)
      (root_member-IsLoaded schema s k v f l) (λ g h. root_members-IsLoaded schema s ms g h)

require-IsLoaded :
    (o : Option Value) (k : String) (f : File) → IsLoaded f → Grants IsLoaded (require o k f)
require-IsLoaded none k f l = tt
require-IsLoaded (some v) k f l = l

of_schema-IsLoaded :
    (ms : Members) (s : Bytes) (o : Option Schema) → Grants IsLoaded (of_schema ms s o)
of_schema-IsLoaded ms s none = tt
of_schema-IsLoaded ms s (some schema) =
    Grants-bind IsLoaded IsLoaded
      (root_members schema s ms empty_file >>= require (get (codes "schema") ms) "schema")
      (require (get (codes "defaults") ms) "defaults")
      (Grants-bind IsLoaded IsLoaded (root_members schema s ms empty_file)
        (require (get (codes "schema") ms) "schema")
        (root_members-IsLoaded schema s ms empty_file tt)
        (require-IsLoaded (get (codes "schema") ms) "schema"))
      (require-IsLoaded (get (codes "defaults") ms) "defaults")

of_root-IsLoaded : (ms : Members) (o : Option Value) → Grants IsLoaded (of_root ms o)
of_root-IsLoaded ms (some (string s)) = of_schema-IsLoaded ms s (schema_of s)
of_root-IsLoaded ms none = tt
of_root-IsLoaded ms (some null) = tt
of_root-IsLoaded ms (some (boolean b)) = tt
of_root-IsLoaded ms (some (int s n)) = tt
of_root-IsLoaded ms (some (array xs)) = tt
of_root-IsLoaded ms (some (object m)) = tt

-- A file that is loaded names known environments only, each with a permission mode of the two if it
-- has one, and never with a host.
pub parse_root-IsLoaded : (v : Value) (f : File) → parse_root v ≡ granted f → IsLoaded f
unfolding parse_root
parse_root-IsLoaded (object ms) f e =
    subst (Grants IsLoaded) e (of_root-IsLoaded ms (get (codes "schema") ms))
parse_root-IsLoaded null f e = cc
parse_root-IsLoaded (boolean b) f e = cc
parse_root-IsLoaded (int s n) f e = cc
parse_root-IsLoaded (string s) f e = cc
parse_root-IsLoaded (array xs) f e = cc

entry-host :
    (env : Bytes) (es : List (Bytes × Pair))
    → All IsEntry es
    → (pair_or_empty (entry env es)).host ≡ none
unfolding entry
entry-host env [] l = refl
entry-host env ((j, q) ∷ es) (k, l) = elim (Bool-cases (bytes_eq j env)) [
  | inl same ↦ rw same k.1.0
  | inr other ↦ rw other (entry-host env es l)
]

-- No files.
abbrev pub no_files : Files
no_files = record { machine = empty_file; operator = empty_file }

no_lock : (env : Bytes) → is_locked no_files env ≡ false
unfolding is_locked
no_lock env = refl

no_host : (env : Bytes) → (pair_or_empty (entry env [])).host ≡ none
unfolding entry
no_host env = refl

-- A file of defaults as `Load` returns it: there is none, or its value parses.
pub data FromFile : File → Type 0 where
  missing : FromFile empty_file
  parsed : {f : File} (v : Value) → parse_root v ≡ granted f → FromFile f

FromFile-IsLoaded : {f : File} → FromFile f → IsLoaded f
FromFile-IsLoaded missing = tt
FromFile-IsLoaded (parsed {f} v e) = parse_root-IsLoaded v f e

-- Whatever the machine's and the operator's files hold, once they parse they never influence the
-- selection of the host: it is the one without files.
pub resolve_host-FromFile :
    (f : Files) (env : Bytes) (host_flag : String)
    → FromFile f.machine
    → FromFile f.operator
    → resolve_host f env host_flag ≡ resolve_host no_files env host_flag
unfolding resolve_host
resolve_host-FromFile f env host_flag m o =
    let a = entry-host env f.machine.entries (FromFile-IsLoaded m) in
    let b = entry-host env f.operator.entries (FromFile-IsLoaded o) in
    elim (Bool-cases (str_eq (home_variable env) "")) [
      | inl unknown ↦ rw unknown
      | inr known ↦ rw known (of_host (host_request host_flag) a b)
    ]
  where
    of_host :
        (r : Option (Option Bytes))
        → (pair_or_empty (entry env f.machine.entries)).host ≡ none
        → (pair_or_empty (entry env f.operator.entries)).host ≡ none
        → of_request f env r ≡ of_request no_files env r
    of_host none a b = refl
    of_host (some request) a b = elim (Bool-cases (is_locked f env)) [
      | inl locked ↦ rw (locked, a, no_lock env, no_host env) (ground arith)
      | inr free ↦ rw (free, a, b, no_lock env, no_host env)
    ]
