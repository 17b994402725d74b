-- ===== src/Examples/MemberWire.antt =====
-- internal/memberwire: tests, and the theorems at concrete inputs.
use curator_agent_launcher.Base.{
  bytes_eq, ltb, ◌||◌, ◌≡◌, ◌↔◌, refl, true, false, some, List, [], ◌∷◌, codes, Bytes, arith, done,
}
use curator_agent_launcher.MemberWire.Number.{number_token, accumulate, all_digits}
use curator_agent_launcher.MemberWire.Quoted.RoundTrip.{escaped_text, string_token-escaped_text}
use curator_agent_launcher.MemberWire.Quoted.{string_token, escape}
use curator_agent_launcher.MemberWire.Runes.{valid_from}
use curator_agent_launcher.MemberWire.Tokens.{
  tokenize, Token, no_faults, next_token, word, word_token, number_word, split_word, is_delimiter,
  punctuation, comment, quoted, drop_line, after_comment,
}
use curator_agent_launcher.MemberWire.Json.{
  Members, member, nil, item, end, object, array, uint, yes_value, string, value_tokens, repeats,
  depth, nodes, contains,
}
use curator_agent_launcher.MemberWire.Grammar.{grammar}
use curator_agent_launcher.MemberWire.Grammar.Complete.{grammar-object}
use curator_agent_launcher.MemberWire.Grammar.Sound.{grammar-IsObject}
use curator_agent_launcher.MemberWire.Build.{build_value, set_member, add_item}
use curator_agent_launcher.MemberWire.Decode.{
  parse_object, decode, ok, err, bounds_exceeded, encoding_invalid, schema_invalid, has_nul,
}
use curator_agent_launcher.MemberWire.Decode.Exact.{
  Settles, decode-Settles, Spells, parse_object_exact,
}

abbrev request_text : Bytes
request_text = codes "{\"a\": [1, true], \"b\": \"x\\ny\"}"

abbrev request_members : Members
request_members =
    member (codes "a") (array (item (uint 1) (item yes_value end)))
      (member (codes "b") (string (codes "x\ny")) nil)

test_parse_object : parse_object request_text ≡ ok request_members
unfolding parse_object tokenize next_token punctuation quoted string_token escape word split_word
    is_delimiter word_token number_word number_token accumulate all_digits grammar build_value
    set_member add_item has_nul valid_from contains comment bytes_eq
test_parse_object = refl

test_refusals :
    (parse_object (codes "{\"a\": 1 /* x */}") ≡ err schema_invalid)
    × (parse_object (codes "{\"a\": 1, \"a\": 2}") ≡ err schema_invalid)
    × (parse_object (codes "{\"a\": 01}") ≡ err schema_invalid)
    × (parse_object (codes "{\"a\": 9007199254740992}") ≡ err bounds_exceeded)
    × (parse_object (codes "{\"a\": 1,}") ≡ err encoding_invalid)
    × (parse_object (codes "{\"a\": tru}") ≡ err encoding_invalid)
    × (parse_object (codes "[1]") ≡ err encoding_invalid)
unfolding parse_object tokenize next_token punctuation quoted string_token escape word split_word
    is_delimiter word_token number_word number_token accumulate all_digits grammar build_value
    set_member add_item has_nul valid_from contains comment bytes_eq drop_line after_comment
test_refusals = (refl, refl, refl, refl, refl, refl, refl)

parse_object_exact_example :
    (parse_object request_text ≡ ok request_members) ↔ Spells request_text request_members
parse_object_exact_example = parse_object_exact request_text request_members

decode-Settles_example : Settles (decode request_text 4096 (λ _. true))
decode-Settles_example = decode-Settles request_text 4096 (λ _. true)

abbrev small_object : List Token
small_object =
    Token.open_object
    ∷ Token.text (codes "k")
    ∷ Token.colon
    ∷ Token.number 7
    ∷ Token.close_object
    ∷ []

test_grammar : grammar small_object no_faults ≡ some no_faults
unfolding grammar contains bytes_eq
test_grammar = refl

grammar-IsObject_example : (ms : Members) × (small_object ≡ value_tokens (object ms) [])
grammar-IsObject_example = grammar-IsObject small_object no_faults test_grammar

grammar-object_example :
    grammar (value_tokens (object request_members) []) no_faults
    ≡ some (record {
      bounds =
          false
          || (ltb 16 (depth (object request_members)) || ltb 8192 (nodes (object request_members)));
      schema = false || repeats (object request_members);
    })
grammar-object_example = grammar-object request_members no_faults

request_once : repeats (object request_members) ≡ false
unfolding repeats contains bytes_eq
request_once = refl

string_token-escaped_text_example :
    string_token (escaped_text (codes "a\"\n") []) ≡ done (codes "a\"\n", [])
string_token-escaped_text_example = string_token-escaped_text (codes "a\"\n") [] (omega arith)
