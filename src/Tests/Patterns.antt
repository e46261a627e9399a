-- ===== src/Tests/Patterns.antt =====
-- Patterns that the validation of run requests accepts and refuses.
use dub_titlerr.Prelude.{◌≡◌, refl, Bool, true}
use dub_titlerr.Text.{Text, codes}
use dub_titlerr.Requests.{
  ok, refused, zero_star_misplaced, bad_quantifier, nested_too_deep, empty_branch, unsupported,
}
use dub_titlerr.Requests.Lexer.{tokens}
use dub_titlerr.Requests.Grammar.{validate_grammar}
use dub_titlerr.Requests.Lexer.Written.{written_all, written_all-tokens}
use dub_titlerr.Requests.Grammar.Accepted.{IsSafe, validate_grammar-IsSafe}

-- Stands for re.compile on the patterns below, which are all well formed.
abbrev compiles : Text → Bool
compiles pattern = true

abbrev episodes : Text
episodes = codes "[Ss]0*1[Ee]0*(?:[1-3]|1\\d)(?!\\d)"

episodes_accepted : validate_grammar compiles episodes ≡ ok tt
unfolding validate_grammar
episodes_accepted = refl

refusals :
    (validate_grammar compiles (codes "(?:a){2}") ≡ refused bad_quantifier)
    × (validate_grammar compiles (codes "(?:(?:(?:a)))") ≡ refused nested_too_deep)
    × (validate_grammar compiles (codes "a|") ≡ refused empty_branch)
    × (validate_grammar compiles (codes "10*") ≡ refused zero_star_misplaced)
    × (validate_grammar compiles (codes "a.*+") ≡ refused unsupported)
unfolding validate_grammar
refusals = (refl, refl, refl, refl, refl)

validate_grammar-IsSafe_example : IsSafe (tokens episodes)
validate_grammar-IsSafe_example = validate_grammar-IsSafe compiles episodes episodes_accepted

written_all-tokens_example : written_all (tokens episodes) ≡ episodes
written_all-tokens_example = written_all-tokens episodes
