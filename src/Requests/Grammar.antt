-- ===== src/Requests/Grammar.antt =====
-- review_requests.py: `_validate_episode_re_grammar`. What a token does to the variables of the
-- loop is a step on its state.
pub mod Accepted
pub mod Stack
use dub_titlerr.Prelude.{
  ℕ, zero, suc, ◌+◌, ◌-◌, ◌≤◌, Bool, true, false, not, ◌&&◌, ◌||◌, Option, none, some, List, [],
  ◌∷◌, ◌++◌, length, drop, ltb, leb, ◌==◌, if◌then◌else◌,
}
use dub_titlerr.Text.{Text, codes, elem, starts_with, contains, count, any}
use dub_titlerr.Text.Control.{is_control}
use dub_titlerr.Requests.{
  Reason, too_long, control_char, too_many_branches, bad_regex, lookbehind, backreference,
  nested_too_deep, unbalanced, empty_branch, zero_star_nested, zero_star_misplaced,
  zero_star_repeated, bad_range, bad_quantifier, bad_bounds, unsupported, unclosed, index_error,
  Result, ok, refused, ◌>>=◌, ◌>>◌, refuse_if,
}
use dub_titlerr.Requests.Lexer.{
  EsType, letter_s, letter_e, Token, not_digit, open_group, close_group, bar, zero_star, digit,
  escaped_dot, es_class, digit_range, bound, char, is_plain, is_ascii_digit, tokens,
}

pub record Branch : Type 0 where
  pub has_digits : Bool
  pub has_only_literals : Bool
  pub last_token_was_es : Bool
  pub last_token_was_es_type : Option EsType
  pub has_substantive_tokens : Bool

abbrev pub new_branch : Branch
new_branch = record {
  has_digits = false;
  has_only_literals = true;
  last_token_was_es = false;
  last_token_was_es_type = none;
  has_substantive_tokens = false;
}

-- The variables of the loop. `cur` is `branch_stack[-1]`, and `below` the rest of the stack.
pub record State : Type 0 where
  pub cur : Branch
  pub below : List Branch
  pub open_groups : ℕ
  pub last_token_repeatable : Bool
  pub total_zero_star_count : ℕ
  pub zero_star_after_s : ℕ
  pub zero_star_after_e : ℕ

abbrev pub start : State
start = record {
  cur = new_branch;
  below = [];
  open_groups = 0;
  last_token_repeatable = false;
  total_zero_star_count = 0;
  zero_star_after_s = 0;
  zero_star_after_e = 0;
}

abbrev no_es : Branch → Branch
no_es b = record b { last_token_was_es = false; last_token_was_es_type = none }

abbrev set_es : EsType → Branch → Branch
set_es k b = record b { last_token_was_es = true; last_token_was_es_type = some k }

abbrev not_literal : Branch → Branch
not_literal b = record b { has_only_literals = false }

abbrev substantive : Branch → Branch
substantive b = record b { has_substantive_tokens = true }

abbrev with_digits : Branch → Branch
with_digits b = record b { has_digits = true }

-- The round's last lines: the new `cur`, and `last_token_repeatable`.
abbrev next : State → Branch → Bool → Result State
next st b repeatable = ok (record st { cur = b; last_token_repeatable = repeatable })

unfoldable pub open_step : State → Result State
open_step st =
    if ltb 2 (st.open_groups + 1)
    then refused nested_too_deep
    else ok (record st {
      cur = new_branch;
      below = st.cur ∷ st.below;
      open_groups = st.open_groups + 1;
      last_token_repeatable = false;
    })

-- After the pop, `branch_stack[-1]` is the branch below.
abbrev pop : State → List Branch → Result State
pop st [] = refused index_error
pop st (b ∷ below) = ok (record st {
  cur = substantive (not_literal (no_es b));
  below = below;
  open_groups = st.open_groups - 1;
  last_token_repeatable = false;
})

unfoldable pub close_step : State → Result State
close_step st =
    if leb st.open_groups 0
    then refused unbalanced
    else if not st.cur.has_substantive_tokens
    then refused empty_branch
    else pop st st.below

unfoldable pub bar_step : State → Result State
bar_step st =
    if not st.cur.has_substantive_tokens then refused empty_branch else next st new_branch false

abbrev is_s : Option EsType → Bool
is_s (some letter_s) = true
is_s _ = false

abbrev is_e : Option EsType → Bool
is_e (some letter_e) = true
is_e _ = false

unfoldable pub zero_star_step : State → Result State
zero_star_step st =
    let b = st.cur in
    let after_s = st.zero_star_after_s + (if is_s b.last_token_was_es_type then 1 else 0) in
    let after_e = st.zero_star_after_e + (if is_e b.last_token_was_es_type then 1 else 0) in
    let total = st.total_zero_star_count + 1 in
    if ltb 1 st.open_groups
    then refused zero_star_nested
    else if not (b.last_token_was_es || b.has_only_literals && not b.has_digits)
    then refused zero_star_misplaced
    else if ltb 2 total || total == 2 && not (after_s == 1 && after_e == 1)
    then refused zero_star_repeated
    else ok (record st {
      cur = not_literal (no_es b);
      last_token_repeatable = false;
      total_zero_star_count = total;
      zero_star_after_s = after_s;
      zero_star_after_e = after_e;
    })

unfoldable pub bound_step : State → ℕ → ℕ → Result State
bound_step st lo hi =
    if not st.last_token_repeatable
    then refused bad_quantifier
    else if ltb hi lo
    then refused bad_bounds
    else next st (not_literal (no_es st.cur)) false

abbrev char_es : ℕ → Branch → Branch
char_es c b =
    if elem c (codes "Ee")
    then set_es letter_e b
    else if elem c (codes "Ss")
    then set_es letter_s b
    else no_es b

unfoldable pub char_step : State → ℕ → Result State
unfolding is_plain
char_step st c =
    let b = if c == b' ' then st.cur else substantive st.cur in
    let b' = if is_ascii_digit c then with_digits b else b in
    if is_plain c then next st (char_es c b') true else refused unsupported

unfoldable pub step : State → Token → Result State
unfolding open_step close_step bar_step zero_star_step bound_step char_step
step st not_digit = next st (not_literal (no_es st.cur)) false
step st open_group = open_step st
step st close_group = close_step st
step st bar = bar_step st
step st zero_star = zero_star_step st
step st digit = next st (substantive (no_es (not_literal (with_digits st.cur)))) true
step st escaped_dot = next st (substantive (no_es st.cur)) true
step st (es_class k _ _) = next st (substantive (not_literal (set_es k st.cur))) true
step st (digit_range lo hi) =
    if ltb hi lo
    then refused bad_range
    else next st (substantive (no_es (not_literal (with_digits st.cur)))) true
step st (bound lo none) = bound_step st lo lo
step st (bound lo (some hi)) = bound_step st lo hi
step st (char c) = char_step st c

-- The tests after the loop.
abbrev pub finish : State → Result (Unit {0})
finish st = do
  refuse_if (not (st.open_groups == 0)) unclosed
  refuse_if (not st.cur.has_substantive_tokens) empty_branch

unfoldable pub run : State → List Token → Result (Unit {0})
unfolding step
run st [] = finish st
run st (t ∷ ts) = step st t >>= λ st'. run st' ts

-- pattern.replace(part, ""); the first argument counts what is left to skip
remove_from : ℕ → Text → Text → Text
unfolding starts_with
remove_from skip part [] = []
remove_from zero part (c ∷ t) =
    let found = remove_from (length part - 1) part t in
    let kept = c ∷ remove_from zero part t in if starts_with part (c ∷ t) then found else kept
remove_from (suc skip) part (c ∷ t) = remove_from skip part t

-- A backslash and one of 1 to 9.
has_number_reference : Text → Bool
has_number_reference [] = false
has_number_reference (c ∷ []) = false
has_number_reference (c ∷ d ∷ t) =
    c == b'\\' && leb b'1' d && leb d b'9' || has_number_reference (d ∷ t)

-- What stands before the loop. `compiles` says whether re.compile accepts the pattern.
unfoldable pub prechecks : (Text → Bool) → Text → Result (Unit {0})
unfolding is_control any count contains remove_from has_number_reference
prechecks compiles pattern = do
  refuse_if (ltb 200 (length pattern)) too_long
  refuse_if (any is_control pattern) control_char
  refuse_if (ltb 49 (count b'|' pattern)) too_many_branches
  refuse_if (not (compiles pattern)) bad_regex
  refuse_if
      (contains (codes "(?<=") pattern
        || contains (codes "(?<!") (remove_from 0 (codes "(?!\\d)") pattern))
      lookbehind
  refuse_if (has_number_reference pattern || contains (codes "(?P=") pattern) backreference

unfoldable pub validate_grammar : (Text → Bool) → Text → Result (Unit {0})
unfolding prechecks run tokens
validate_grammar compiles pattern = prechecks compiles pattern >> run start (tokens pattern)
