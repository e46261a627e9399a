-- ===== src/Requests/Lexer.antt =====
-- review_requests.py: the tokens that the loop of `_validate_episode_re_grammar` reads, one in each
-- round, from what is left of the pattern.
pub mod Written
use dub_titlerr.Prelude.{
  ℕ, zero, suc, Bool, true, false, ◌&&◌, ◌||◌, Option, none, some, List, [], ◌∷◌, length, drop,
  get_or, leb, ◌==◌, if◌then◌else◌,
}
use dub_titlerr.Text.{Text, codes, elem, starts_with}

-- `"S"` or `"E"`
pub data EsType : Type 0 where
  letter_s letter_e : EsType

pub data Token : Type 0 where
  not_digit open_group close_group bar zero_star digit escaped_dot : Token
  -- "[Ee]" and the like: the two letters
  es_class : EsType → ℕ → ℕ → Token
  digit_range : ℕ → ℕ → Token
  bound : ℕ → Option ℕ → Token
  char : ℕ → Token

-- The characters that stand for themselves: letters, digits, and " ._-".
unfoldable pub is_plain : ℕ → Bool
is_plain c =
    leb b'a' c && leb c b'z'
    || leb b'A' c && leb c b'Z'
    || leb b'0' c && leb c b'9'
    || c == b' '
    || c == b'.'
    || c == b'_'
    || c == b'-'

abbrev pub is_ascii_digit : ℕ → Bool
is_ascii_digit c = leb b'0' c && leb c b'9'

abbrev is_1_to_3 : ℕ → Bool
is_1_to_3 c = leb b'1' c && leb c b'3'

-- pattern[i:][k], which the tests of the loop read only behind an opening bracket
abbrev pub at : ℕ → Text → ℕ
at k t = get_or t k 0

unfoldable pub is_es_class : Text → Bool
unfolding starts_with
is_es_class t =
    starts_with (codes "[Ee]") t
    || starts_with (codes "[eE]") t
    || starts_with (codes "[Ss]") t
    || starts_with (codes "[sS]") t

-- ^\[([0-9])-([0-9])\]
unfoldable pub is_digit_range : Text → Bool
is_digit_range t =
    at 0 t == b'['
    && is_ascii_digit (at 1 t)
    && at 2 t == b'-'
    && is_ascii_digit (at 3 t)
    && at 4 t == b']'

-- ^\{([1-3])\} and ^\{([1-3]),([1-3])\}
unfoldable pub is_bound_one : Text → Bool
is_bound_one t = at 0 t == b'{' && is_1_to_3 (at 1 t) && at 2 t == b'}'

unfoldable pub is_bound_two : Text → Bool
is_bound_two t =
    at 0 t == b'{' && is_1_to_3 (at 1 t) && at 2 t == b',' && is_1_to_3 (at 3 t) && at 4 t == b'}'

-- The token that `pattern[i:]`, which is `c ∷ t`, begins with, by the tests in their order.
unfoldable pub next_token : ℕ → Text → Token
unfolding starts_with is_es_class is_digit_range is_bound_one is_bound_two
next_token c t =
    let p = c ∷ t in
    if starts_with (codes "(?!\\d)") p
    then not_digit
    else if starts_with (codes "(?:") p
    then open_group
    else if c == b')'
    then close_group
    else if c == b'|'
    then bar
    else if starts_with (codes "0*") p
    then zero_star
    else if starts_with (codes "\\d") p
    then digit
    else if starts_with (codes "\\.") p
    then escaped_dot
    else if is_es_class p
    then es_class (if elem (at 1 p) (codes "Ss") then letter_s else letter_e) (at 1 p) (at 2 p)
    else if is_digit_range p
    then digit_range (at 1 p) (at 3 p)
    else if is_bound_one p
    then bound (at 1 p) none
    else if is_bound_two p
    then bound (at 1 p) (some (at 3 p))
    else char c

-- What the loop adds to `i`.
abbrev pub width : Token → ℕ
width not_digit = 6
width open_group = 3
width close_group = 1
width bar = 1
width zero_star = 2
width digit = 2
width escaped_dot = 2
width (es_class _ _ _) = 4
width (digit_range _ _) = 5
width (bound _ none) = 3
width (bound _ (some _)) = 5
width (char _) = 1

-- The tokens of the rounds of the loop, on a bound for their number.
unfoldable pub tokens_within : ℕ → Text → List Token
unfolding next_token
tokens_within zero t = []
tokens_within (suc rounds) [] = []
tokens_within (suc rounds) (c ∷ t) =
    let k = next_token c t in k ∷ tokens_within rounds (drop (width k) (c ∷ t))

unfoldable pub tokens : Text → List Token
unfolding tokens_within
tokens pattern = tokens_within (length pattern) pattern
