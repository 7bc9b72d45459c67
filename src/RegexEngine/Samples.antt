-- ===== src/RegexEngine/Samples.antt =====
-- The engine of include/trieste/regex_engine.h on small expressions.
use trieste.Prelude.{
  ℕ, ◌≡◌, refl, true, false, none, some, List, [], ◌∷◌, length, get_elem?, ◌-◌, ◌==◌, if◌then◌else◌,
  arith, ◌↔◌,
}
use trieste.RuneClass.{dot, set_bit}
use trieste.Utf8.{utf8_to_rune, read_bytes, read_two}
use trieste.RegexEngine.{
  zero_or_more, classify, accept_state, create_state, set_error, set_slot, patch_states, patch,
  catenate, alternate, split_into, quantified, build_quantifier, closed, wrap_group, round, finish,
  rounds, postfix_to_nfa, nfa_of, error_repeat_op, start_anchor, StateDef, state_of, match_label,
  word_boundary,
}
use trieste.RegexEngine.Syntax.{
  Regex, lit, cat, alt, rep, grp, read_token, read_tokens, denoted, Flags, Matches,
}
use trieste.RegexEngine.Printed.{printed, IsPart, denoted-printed}
use trieste.RegexEngine.Links.Safe.{IsSafe, nfa_of-IsSafe}
use trieste.RegexEngine.Construction.{Constructed, limit_of, nfa_of-Constructed}
use trieste.RegexEngine.Walks.{Reaches}
use trieste.RegexEngine.Language.{nfa_of-Matches}
use trieste.RegexEngine.Closure.{outcome, visit, closure_loop, epsilon_closure}
use trieste.RegexEngine.Closure.Correct.{Found, epsilon_closure-Found}
use trieste.RegexEngine.Cache.{
  closure_flags, detect_conditional_states, closure_of, closures_at, closures_from, ClosureCache,
  cache_of, fill, precompute_epsilon_closures, span, epsilon_closure_cached, trivial_closure,
}
use trieste.RegexEngine.Cache.Spans.{seen_flags, epsilon_closure_cached_lem}
use trieste.RegexEngine.Simulation.{
  engine_of, ascii_accept, accepts, push_new, push_all, add_state, start_list, step_from, step,
  Text, prefix_loop, find_prefix, decode_rune, decoded_from, decoded, matches, is_class_ref,
  class_contains, rune_class_base,
}
use trieste.RegexEngine.Simulation.Accepts.{accepts-eq}
use trieste.RegexEngine.Simulation.Prefix.{flags_of_text, reads_of_text, bytes_before}
use trieste.RegexEngine.Simulation.Capturing.{
  allocate_frame, set_entry, capture, traverse, take_pending, capture_loop, add_state_capturing,
  advance_threads, check_accept, capturing_loop, find_prefix_with_context, Threads, no_threads,
  unset,
}
use trieste.RegexEngine.Simulation.Capturing.Ends.{add_state_capturing-enough}
use trieste.RegexEngine.Closure.Search.{length-unmarked}
use trieste.RegexEngine.Simulation.Search.{
  find_at, search_loop, search, LeftmostLongest, search-LeftmostLongest,
}
use trieste.RegexEngine.Simulation.FirstChar.{
  test, reaches_nonascii, label_nonascii, note_state, note_closure, note_combos,
  compute_first_char_info,
}
use trieste.RegexEngine.Simulation.FirstChar.Sound.{
  may_match, starts_short, compute_first_char_info-may_match,
}
use trieste.RegexEngine.Simulation.Matching.{LongestMatch, find_prefix-Longest}
use trieste.RegexEngine.Simulation.Whole.{matches-Matches}

-- `^(a|b)*c`, with the group as the first capture.
abbrev sample : Regex
sample =
    cat (lit start_anchor) (cat (rep zero_or_more false (grp 0 (alt (lit 97) (lit 98)))) (lit 99))

abbrev postfix : List ℕ
postfix = 0xafff0a ∷ 97 ∷ 98 ∷ 0xafff01 ∷ 0xaffc00 ∷ 0xafff03 ∷ 99 ∷ 0xafff00 ∷ 0xafff00 ∷ []

printed-sample : printed sample ≡ postfix
unfolding printed
printed-sample = refl

denoted-postfix : denoted postfix ≡ some sample
unfolding denoted read_tokens read_token classify
denoted-postfix = refl

sample-IsPart : IsPart sample
unfolding IsPart classify
sample-IsPart = (refl, ((omega arith, (refl, refl)), refl))

denoted-printed_at_sample : denoted (printed sample) ≡ some sample
denoted-printed_at_sample = denoted-printed sample sample-IsPart (rw printed-sample (omega arith))

-- A quantifier without an operand is an error.
lone_star : ((nfa_of (0xafff03 ∷ [])).0).error_code ≡ some error_repeat_op
unfolding nfa_of create_state postfix_to_nfa rounds round classify build_quantifier set_error
lone_star = refl

nfa_size : length ((nfa_of postfix).0).owned_states ≡ 9
unfolding nfa_of create_state postfix_to_nfa rounds round classify build_quantifier quantified
    split_into wrap_group closed catenate alternate patch patch_states set_slot finish
nfa_size = refl

nfa_of-Constructed_example : Constructed (limit_of postfix) (denoted postfix) (nfa_of postfix)
nfa_of-Constructed_example = nfa_of-Constructed postfix

nfa_of-IsSafe_example : IsSafe (nfa_of (97 ∷ 0xafff00 ∷ []))
nfa_of-IsSafe_example = nfa_of-IsSafe (97 ∷ 0xafff00 ∷ [])

-- The text `abcd`.
abbrev text : Text
text = (97, 1) ∷ (98, 1) ∷ (99, 1) ∷ (100, 1) ∷ []

nfa_of-Matches_example :
    Matches (flags_of_text false true text) (reads_of_text [] text) sample 0 3
    ↔ Reaches
        (flags_of_text false true text)
        (reads_of_text [] text)
        ((nfa_of postfix).0).owned_states
        (nfa_of postfix).1
        0
        accept_state
        3
nfa_of-Matches_example =
    nfa_of-Matches (flags_of_text false true text) (reads_of_text [] text) postfix sample 0 3
      denoted-postfix

abbrev at_the_start : Flags
at_the_start = record { boundary_match = false; at_start = true; at_end = false }

no_error : (engine_of postfix []).error_code ≡ none
unfolding engine_of nfa_of create_state postfix_to_nfa rounds round classify build_quantifier
    quantified split_into wrap_group closed catenate alternate patch patch_states set_slot finish
    detect_conditional_states precompute_epsilon_closures closures_from closures_at closure_of
    epsilon_closure closure_loop visit outcome fill
no_error = refl

find_prefix-abcd : find_prefix (engine_of postfix []) text true false ≡ some 3
unfolding engine_of nfa_of create_state postfix_to_nfa rounds round classify build_quantifier
    quantified split_into wrap_group closed catenate alternate patch patch_states set_slot finish
    detect_conditional_states precompute_epsilon_closures closures_from closures_at closure_of
    epsilon_closure closure_loop visit outcome fill find_prefix prefix_loop step step_from
    start_list add_state push_all push_new trivial_closure epsilon_closure_cached span closure_flags
    accepts ascii_accept set_bit
find_prefix-abcd = refl

find_prefix-Longest_example :
    LongestMatch
      (flags_of_text false true text)
      (reads_of_text [] text)
      (bytes_before text)
      sample
      (find_prefix (engine_of postfix []) text true false)
find_prefix-Longest_example =
    find_prefix-Longest postfix [] sample text true false denoted-postfix no_error

abbrev bytes : List ℕ
bytes = 97 ∷ 98 ∷ 99 ∷ []

matches-Matches_example :
    (matches (engine_of postfix []) bytes ≡ true)
    ↔ Matches
        (flags_of_text false true (decoded bytes))
        (reads_of_text [] (decoded bytes))
        sample
        0
        (length (decoded bytes))
matches-Matches_example = matches-Matches postfix [] sample bytes denoted-postfix no_error

-- The rune c, which a search finds at the third byte.
abbrev letter : List ℕ
letter = 99 ∷ []

letter-denoted : denoted letter ≡ some (lit 99)
unfolding denoted read_tokens read_token classify
letter-denoted = refl

letter_no_error : (engine_of letter []).error_code ≡ none
unfolding engine_of nfa_of create_state postfix_to_nfa rounds round classify finish patch
    patch_states set_slot detect_conditional_states precompute_epsilon_closures closures_from
    closures_at closure_of epsilon_closure closure_loop visit outcome fill
letter_no_error = refl

search-letter : search 0 (engine_of letter []) bytes 0 ≡ some (2, 1, [])
unfolding engine_of nfa_of create_state postfix_to_nfa rounds round classify finish patch
    patch_states set_slot detect_conditional_states precompute_epsilon_closures closures_from
    closures_at closure_of epsilon_closure closure_loop visit outcome fill find_prefix prefix_loop
    step step_from start_list add_state push_all push_new trivial_closure epsilon_closure_cached
    span closure_flags accepts ascii_accept set_bit search search_loop find_at
    find_prefix_with_context decoded_from decode_rune
search-letter = refl

-- The last round of the group is captured.
search-postfix : search 1 (engine_of postfix []) bytes 0 ≡ some (0, 3, (some 1, some 2) ∷ [])
unfolding engine_of nfa_of create_state postfix_to_nfa rounds round classify build_quantifier
    quantified split_into wrap_group closed catenate alternate patch patch_states set_slot finish
    detect_conditional_states precompute_epsilon_closures closures_from closures_at closure_of
    epsilon_closure closure_loop visit outcome fill accepts ascii_accept set_bit search search_loop
    find_at decoded_from decode_rune find_prefix_with_context allocate_frame set_entry capture
    traverse take_pending capture_loop add_state_capturing advance_threads check_accept
    capturing_loop
search-postfix = refl

search-LeftmostLongest_example :
    LeftmostLongest bytes [] (lit 99) 0 (search 0 (engine_of letter []) bytes 0)
search-LeftmostLongest_example =
    search-LeftmostLongest letter [] (lit 99) 0 bytes 0 letter-denoted letter_no_error refl
      (omega arith)

first_char_info-letter :
    compute_first_char_info (engine_of letter [])
    ≡ record { low = 0; high = 0x800000000; can_match_empty = false; can_match_nonascii = false }
unfolding engine_of nfa_of create_state postfix_to_nfa rounds round classify finish patch
    patch_states set_slot detect_conditional_states precompute_epsilon_closures closures_from
    closures_at closure_of epsilon_closure closure_loop visit outcome fill epsilon_closure_cached
    span closure_flags ascii_accept set_bit compute_first_char_info note_combos note_closure
    note_state label_nonascii reaches_nonascii
first_char_info-letter = refl

letter-short : starts_short letter ≡ true
unfolding decode_rune
letter-short = refl

find_prefix-letter : find_prefix (engine_of letter []) (decoded letter) true false ≡ some 1
unfolding engine_of nfa_of create_state postfix_to_nfa rounds round classify finish patch
    patch_states set_slot detect_conditional_states precompute_epsilon_closures closures_from
    closures_at closure_of epsilon_closure closure_loop visit outcome fill find_prefix prefix_loop
    step step_from start_list add_state push_all push_new trivial_closure epsilon_closure_cached
    span closure_flags accepts ascii_accept set_bit decoded_from decode_rune
find_prefix-letter = refl

compute_first_char_info-may_match_example :
    may_match (compute_first_char_info (engine_of letter [])) letter ≡ true
compute_first_char_info-may_match_example =
    compute_first_char_info-may_match letter [] (lit 99) letter true false 1 letter-denoted
      letter_no_error letter-short find_prefix-letter

-- The letter c in two bytes, which the engine reads and the test turns down.
abbrev overlong : List ℕ
overlong = 0xc1 ∷ 0xa3 ∷ []

matches-overlong : matches (engine_of letter []) overlong ≡ true
unfolding engine_of nfa_of create_state postfix_to_nfa rounds round classify finish patch
    patch_states set_slot detect_conditional_states precompute_epsilon_closures closures_from
    closures_at closure_of epsilon_closure closure_loop visit outcome fill find_prefix prefix_loop
    step step_from start_list add_state push_all push_new trivial_closure epsilon_closure_cached
    span closure_flags accepts ascii_accept set_bit matches decoded_from decode_rune utf8_to_rune
    read_bytes read_two
matches-overlong = refl

may_match-overlong : may_match (compute_first_char_info (engine_of letter [])) overlong ≡ false
unfolding test
may_match-overlong = rw first_char_info-letter refl

letter-states : length (engine_of letter []).owned_states ≡ 2
unfolding engine_of nfa_of create_state postfix_to_nfa rounds round classify finish patch
    patch_states set_slot detect_conditional_states precompute_epsilon_closures closures_from
    closures_at closure_of epsilon_closure closure_loop visit outcome fill
letter-states = refl

abbrev first_threads : Threads
first_threads = no_threads (engine_of letter []) (unset 2 ∷ [])

add_state_capturing-enough_example :
    capture_loop 100 (engine_of letter []) 2 0 at_the_start ((some 1, 0) ∷ []) first_threads
    ≡ add_state_capturing (engine_of letter []) 2 0 at_the_start (some 1) 0 first_threads
add_state_capturing-enough_example =
    add_state_capturing-enough (engine_of letter []) 2 0 at_the_start (some 1) 0 100 first_threads
      (length-unmarked (engine_of letter []).owned_states) (omega (arith, letter-states))

epsilon_closure-Found_example :
    (out : List ℕ) × (epsilon_closure at_the_start ((nfa_of postfix).0).owned_states 1 ≡ some out)
    × Found at_the_start ((nfa_of postfix).0).owned_states 1 out
epsilon_closure-Found_example =
    epsilon_closure-Found at_the_start ((nfa_of postfix).0).owned_states 1
      (rw nfa_size (omega arith))

-- From the start, state 1, the search finds the three states that read.
closure-sample :
    epsilon_closure at_the_start ((nfa_of postfix).0).owned_states 1 ≡ some (2 ∷ 3 ∷ 8 ∷ [])
unfolding nfa_of create_state postfix_to_nfa rounds round classify build_quantifier quantified
    split_into wrap_group closed catenate alternate patch patch_states set_slot finish
    epsilon_closure closure_loop visit outcome
closure-sample = refl

-- The automaton of `\b`, and its table: `accept_state` alone, and the boundary with flags that open it.
abbrev boundary_states : List StateDef
boundary_states = state_of match_label none none ∷ state_of word_boundary (some 0) none ∷ []

abbrev boundary_cache : ClosureCache
boundary_cache =
    cache_of (0 ∷ 0 ∷ 0 ∷ 0 ∷ 0 ∷ 0 ∷ 0 ∷ 0 ∷ 0 ∷ 0 ∷ 0 ∷ 0 ∷ [])
      (0 ∷ 1 ∷ 2 ∷ 3 ∷ 4 ∷ 5 ∷ 6 ∷ 7 ∷ 8 ∷ 8 ∷ 9 ∷ 9 ∷ 10 ∷ 10 ∷ 11 ∷ 11 ∷ 12 ∷ [])

boundary_precomputed : precompute_epsilon_closures true boundary_states ≡ some boundary_cache
unfolding precompute_epsilon_closures closures_from closures_at closure_of epsilon_closure
    closure_loop visit outcome fill
boundary_precomputed = refl

epsilon_closure_cached_lem_example :
    epsilon_closure_cached true boundary_cache 1 at_the_start
    ≡ closure_of (seen_flags true at_the_start) boundary_states 1
epsilon_closure_cached_lem_example =
    epsilon_closure_cached_lem true boundary_states boundary_cache 1 at_the_start
      boundary_precomputed (omega arith)

accepts-eq_example : accepts (dot ∷ []) rune_class_base 0x41 ≡ (
    if is_class_ref rune_class_base
    then class_contains (get_elem? (dot ∷ []) (rune_class_base - rune_class_base)) 0x41
    else rune_class_base == 0x41)
accepts-eq_example = accepts-eq (dot ∷ []) rune_class_base 0x41
