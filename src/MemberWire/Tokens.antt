-- ===== src/MemberWire/Tokens.antt =====
-- internal/memberwire/lex.go, `tokenize`: bytes to tokens. Comments and odd numbers are flagged
-- and read on, so that what is no JSON at all is refused first.
pub mod Progress
use curator_agent_launcher.Base.{
  is_some, ℕ, zero, suc, Bool, true, false, not, ◌&&◌, ◌||◌, Option, none, some, List, [], ◌∷◌,
  ◌++◌, ◌==◌, ltb, if◌then◌else◌, length, bytes_eq, codes, Bytes, Scan, done, refused, out_of_fuel,
  ◌>>=◌,
}
use curator_agent_launcher.MemberWire.Number.{is_digit, number_token}
use curator_agent_launcher.MemberWire.Quoted.{quote, string_token}

-- `token`, with a constructor for each `kind`.
pub data Token : Type 0 where
  open_object close_object open_array close_array colon comma : Token
  text : Bytes → Token
  number : ℕ → Token
  true_word false_word null_word : Token

pub record Faults : Type 0 where
  pub bounds : Bool
  pub schema : Bool

abbrev pub no_faults : Faults
no_faults = record { bounds = false; schema = false }

abbrev pub is_whitespace : ℕ → Bool
is_whitespace c = c == b' ' || c == b'\t' || c == b'\r' || c == b'\n'

-- `strings.ContainsRune("{}[]:,", rune(c))`, with the token.
unfoldable pub punctuation : ℕ → Option Token
punctuation c =
    if c == b'{'
    then some open_object
    else if c == b'}'
    then some close_object
    else if c == b'['
    then some open_array
    else if c == b']'
    then some close_array
    else if c == b':'
    then some colon
    else if c == b','
    then some comma
    else none

unfoldable pub is_delimiter : ℕ → Bool
unfolding punctuation
is_delimiter c = is_whitespace c || is_some (punctuation c) || c == b'/'

-- The bytes up to the end of the line, left out.
unfoldable pub drop_line : Bytes → Bytes
drop_line [] = []
drop_line (c ∷ raw) = let rest = drop_line raw in if c == b'\n' then c ∷ raw else rest

-- What stands behind the first `*/`.
unfoldable pub after_comment : Bytes → Option Bytes
after_comment [] = none
after_comment (c ∷ []) = none
after_comment (c ∷ d ∷ raw) =
    let later = after_comment (d ∷ raw) in if c == b'*' && d == b'/' then some raw else later

-- The bytes up to the next delimiter, and those from there on.
unfoldable pub split_word : Bytes → Bytes × Bytes
split_word [] = ([], [])
split_word (c ∷ raw) =
    let (s, rest) = split_word raw in if is_delimiter c then ([], c ∷ raw) else (c ∷ s, rest)

-- What one round appends to the tokens, the faults behind it and the bytes left.
abbrev pub Round : Type 0
Round = Scan (List Token × Faults × Bytes)

-- The `default` case of the switch on a word, `c` being its first byte.
unfoldable pub number_word : ℕ → Bytes → Faults → Bytes → Round
number_word c s f rest =
    if not (
      is_digit c
      || c == b'-'
      || c == b'+'
      || c == b'.'
      || bytes_eq s (codes "NaN")
      || bytes_eq s (codes "Infinity"))
    then refused
    else let (n, lexical, overflow) = number_token s in
      done (
        number n ∷ [],
        record { bounds = f.bounds || overflow; schema = f.schema || not lexical },
        rest,
      )

unfoldable pub word_token : ℕ → Bytes → Faults → Bytes → Round
word_token c s f rest =
    if bytes_eq s (codes "true")
    then done (true_word ∷ [], f, rest)
    else if bytes_eq s (codes "false")
    then done (false_word ∷ [], f, rest)
    else if bytes_eq s (codes "null")
    then done (null_word ∷ [], f, rest)
    else number_word c s f rest

-- A round on a byte that opens no token of its own.
unfoldable pub word : ℕ → Bytes → Faults → Round
word c raw f =
    if is_delimiter c
    then refused
    else let (s, rest) = split_word raw in word_token c (c ∷ s) f rest

abbrev block_end : Option Bytes → Faults → Round
block_end none f = refused
block_end (some rest) f = done ([], record f { schema = true }, rest)

-- A round on a slash.
unfoldable pub comment : Bytes → Faults → Round
comment [] f = word b'/' [] f
comment (d ∷ raw) f =
    if d == b'/'
    then done ([], record f { schema = true }, drop_line raw)
    else if d == b'*'
    then block_end (after_comment raw) f
    else word b'/' (d ∷ raw) f

unfoldable pub quoted : Bytes → Faults → Round
quoted raw f = do
  (s, rest) ← string_token raw
  done (text s ∷ [], record f { bounds = f.bounds || ltb 4096 (length s) }, rest)

abbrev punctuated : Option Token → Bytes → Faults → Round → Round
punctuated none raw f other = other
punctuated (some t) raw f other = done (t ∷ [], f, raw)

-- One round of the loop, on the byte `c` in front of `raw`.
unfoldable pub next_token : ℕ → Bytes → Faults → Round
next_token c raw f =
    if is_whitespace c
    then done ([], f, raw)
    else punctuated (punctuation c) raw f
        (if c == quote then quoted raw f else if c == b'/' then comment raw f else word c raw f)

unfoldable pub token_loop : ℕ → Bytes → List Token → Faults → Scan (List Token × Faults)
token_loop fuel [] out f = done (out, f)
token_loop zero (c ∷ raw) out f = out_of_fuel
token_loop (suc fuel) (c ∷ raw) out f = do
  (ts, f', rest) ← next_token c raw f
  token_loop fuel rest (out ++ ts) f'

-- Each round takes a byte, so their number is fuel enough.
unfoldable pub tokenize : Bytes → Scan (List Token × Faults)
unfolding token_loop
tokenize raw = token_loop (length raw) raw [] no_faults
