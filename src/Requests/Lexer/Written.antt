-- ===== src/Requests/Lexer/Written.antt =====
-- The tokens of a pattern are the pattern: the loop of `_validate_episode_re_grammar` reads all of
-- it, and as many rounds are enough as there are characters.
use dub_titlerr.Prelude.{
  ℕ, zero, suc, ◌≤◌, ◌≡◌, refl, ap, ◌∙◌, none, some, List, [], ◌∷◌, ◌++◌, length, drop, length-drop,
  arith,
}
use dub_titlerr.Text.{Text, codes, starts_with}
use dub_titlerr.Requests.Lexer.{
  Token, not_digit, open_group, close_group, bar, zero_star, digit, escaped_dot, es_class,
  digit_range, bound, char, next_token, is_es_class, width, tokens_within, tokens,
}

-- A token as it stands in a pattern.
abbrev pub written : Token → Text
written not_digit = codes "(?!\\d)"
written open_group = codes "(?:"
written close_group = codes ")"
written bar = codes "|"
written zero_star = codes "0*"
written digit = codes "\\d"
written escaped_dot = codes "\\."
written (es_class k a b) = b'[' ∷ a ∷ b ∷ b']' ∷ []
written (digit_range a b) = b'[' ∷ a ∷ b'-' ∷ b ∷ b']' ∷ []
written (bound a none) = b'{' ∷ a ∷ b'}' ∷ []
written (bound a (some b)) = b'{' ∷ a ∷ b',' ∷ b ∷ b'}' ∷ []
written (char c) = c ∷ []

abbrev pub written_all : List Token → Text
written_all [] = []
written_all (k ∷ ks) = written k ++ written_all ks

written-next_token :
    (c : ℕ) (t : Text) → written (next_token c t) ++ drop (width (next_token c t)) (c ∷ t) ≡ c ∷ t
unfolding next_token starts_with is_es_class
written-next_token c t = ground arith

width_pos : (k : Token) → 1 ≤ width k
width_pos (bound a none) = omega arith
width_pos (bound a (some b)) = omega arith
width_pos not_digit = omega arith
width_pos _ = omega arith

written_all-tokens_within :
    (rounds : ℕ) (t : Text) → length t ≤ rounds → written_all (tokens_within rounds t) ≡ t
unfolding tokens_within
written_all-tokens_within zero [] h = refl
written_all-tokens_within zero (c ∷ t) h = absurd (omega arith)
written_all-tokens_within (suc rounds) [] h = refl
written_all-tokens_within (suc rounds) (c ∷ t) h =
    let k = next_token c t in
    ap (λ r. written k ++ r)
      (written_all-tokens_within rounds (drop (width k) (c ∷ t))
        (omega (arith, width_pos k, length-drop (width k) (c ∷ t))))
    ∙ written-next_token c t

-- The tokens that the grammar's loop reads, written one behind the other, are the whole pattern.
pub written_all-tokens : (pattern : Text) → written_all (tokens pattern) ≡ pattern
unfolding tokens
written_all-tokens pattern = written_all-tokens_within (length pattern) pattern (omega arith)
