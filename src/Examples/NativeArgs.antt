-- ===== src/Examples/NativeArgs.antt =====
-- The admission of native arguments: tests, and the theorem at a concrete input.
use curator_agent_launcher.Base.{
  ◌≡◌, ◌↔◌, refl, List, [], ◌∷◌, String, All, has_prefix, member_of, cut_eq,
}
use curator_agent_launcher.NativeArgs.{
  native_args_conflict, admitted, refused_at, dispatched_word, not_admitted, switch_value, no_value,
  reserved_arg, any_prefix, scan_words, scan_options, looks_like_option, shape_of, option_shape,
  move,
}
use curator_agent_launcher.NativeArgs.Admitted.{
  IsFree, IsFreeBefore, Tail, before_terminator, native_args_conflict_iff,
}

abbrev tail_words : List String
tail_words = "-p" ∷ "--model" ∷ "--opus" ∷ "--debug" ∷ "fix it" ∷ "--" ∷ "--bare" ∷ []

test_verdicts :
    (native_args_conflict tail_words ≡ admitted)
    × (native_args_conflict ("fix" ∷ "mcp" ∷ []) ≡ refused_at 1 dispatched_word)
    × (native_args_conflict ("--bare" ∷ []) ≡ refused_at 0 dispatched_word)
    × (native_args_conflict ("--" ∷ "--resume=x" ∷ []) ≡ refused_at 1 dispatched_word)
    × (native_args_conflict ("-p" ∷ "--settings" ∷ []) ≡ refused_at 1 not_admitted)
    × (native_args_conflict ("--print=x" ∷ []) ≡ refused_at 0 switch_value)
    × (native_args_conflict ("--model" ∷ []) ≡ refused_at 0 no_value)
unfolding native_args_conflict reserved_arg any_prefix scan_words scan_options looks_like_option
    shape_of option_shape move has_prefix member_of cut_eq
test_verdicts = (refl, refl, refl, refl, refl, refl, refl)

native_args_conflict_iff_example :
    (native_args_conflict tail_words ≡ admitted)
    ↔ (All IsFree tail_words × All IsFreeBefore (before_terminator tail_words) × Tail tail_words)
native_args_conflict_iff_example = native_args_conflict_iff tail_words
