-- ===== src/Requests/Grammar/Accepted.antt =====
-- What every pattern that `_validate_episode_re_grammar` accepts looks like, by its tokens alone.
use dub_titlerr.Prelude.{
  ℕ, ◌+◌, ◌-◌, ◌≤◌, ◌≡◌, refl, Bool, true, false, not, ◌||◌, Option, none, some, List, [], ◌∷◌,
  ◌==◌, arith,
}
use dub_titlerr.Text.{Text}
use dub_titlerr.Requests.{Result, ok, refused, ◌>>=◌}
use dub_titlerr.Requests.Lexer.{
  Token, open_group, close_group, bar, zero_star, digit, escaped_dot, es_class, digit_range, bound,
  char, is_plain, tokens,
}
use dub_titlerr.Requests.Grammar.{Branch, State, start, step, run, prechecks, validate_grammar}

-- Groups are balanced, and at most two deep.
abbrev pub Nested : ℕ → List Token → Type 0
Nested d [] = d ≡ 0
Nested d (open_group ∷ ks) = (d + 1 ≤ 2) × Nested (d + 1) ks
Nested d (close_group ∷ ks) = (1 ≤ d) × Nested (d - 1) ks
Nested d (_ ∷ ks) = Nested d ks

-- A token that a quantifier may follow.
abbrev pub repeatable : Token → Bool
repeatable digit = true
repeatable escaped_dot = true
repeatable (es_class _ _ _) = true
repeatable (digit_range _ _) = true
repeatable (char _) = true
repeatable _ = false

abbrev upper : ℕ → Option ℕ → ℕ
upper lo none = lo
upper lo (some hi) = hi

-- A quantifier follows a repeatable token, and its bounds are in order; so are those of a range.
abbrev pub Quantified : Bool → List Token → Type 0
Quantified r [] = Unit
Quantified r (bound lo hi ∷ ks) = (r ≡ true) × (lo ≤ upper lo hi) × Quantified false ks
Quantified r (digit_range lo hi ∷ ks) = (lo ≤ hi) × Quantified true ks
Quantified r (k ∷ ks) = Quantified (repeatable k) ks

abbrev pub zero_stars : List Token → ℕ
zero_stars [] = 0
zero_stars (zero_star ∷ ks) = zero_stars ks + 1
zero_stars (_ ∷ ks) = zero_stars ks

-- Every other character stands for itself: a letter, a digit, or one of " ._-".
abbrev pub AllPlain : List Token → Type 0
AllPlain [] = Unit
AllPlain (char c ∷ ks) = (is_plain c ≡ true) × AllPlain ks
AllPlain (_ ∷ ks) = AllPlain ks

-- A token that makes its branch one with content.
abbrev pub counts : Token → Bool
counts digit = true
counts escaped_dot = true
counts (es_class _ _ _) = true
counts (digit_range _ _) = true
counts (char c) = not (c == b' ')
counts _ = false

-- No branch is without content: `cur` says whether the branch that is open has some, and `below`
-- the same of the branches around it.
abbrev pub NoneEmpty : Bool → List Bool → List Token → Type 0
NoneEmpty cur below [] = cur ≡ true
NoneEmpty cur below (open_group ∷ ks) = NoneEmpty false (cur ∷ below) ks
NoneEmpty cur (b ∷ below) (close_group ∷ ks) = (cur ≡ true) × NoneEmpty true below ks
NoneEmpty cur [] (close_group ∷ ks) = ⊥
NoneEmpty cur below (bar ∷ ks) = (cur ≡ true) × NoneEmpty false below ks
NoneEmpty cur below (k ∷ ks) = NoneEmpty (cur || counts k) below ks

abbrev contents : List Branch → List Bool
contents [] = []
contents (b ∷ bs) = b.has_substantive_tokens ∷ contents bs

run_cases :
    (st : State) (k : Token) (ks : List Token)
    → run st (k ∷ ks) ≡ ok tt
    → (st' : State) × (step st k ≡ ok st') × (run st' ks ≡ ok tt)
unfolding run
run_cases st k ks h = by_result (step st k) h
  where
    by_result :
        (r : Result State)
        → (r >>= λ st'. run st' ks) ≡ ok tt
        → (st' : State) × (r ≡ ok st') × (run st' ks ≡ ok tt)
    by_result (ok st') h = (st', refl, h)
    by_result (refused x) h = cc

step-Nested :
    (st st' : State) (k : Token) (ks : List Token)
    → step st k ≡ ok st'
    → Nested st'.open_groups ks
    → Nested st.open_groups (k ∷ ks)
unfolding step
step-Nested st st' open_group ks h n = ground arith
step-Nested st st' (bound lo none) ks h n = ground arith
step-Nested st st' (bound lo (some hi)) ks h n = ground arith
step-Nested st st' k ks h n = ground arith

Nested-run : (st : State) (ks : List Token) → run st ks ≡ ok tt → Nested st.open_groups ks
Nested-run st [] h = unfold run in ground arith
Nested-run st (k ∷ ks) h =
    let (st', e, h') = run_cases st k ks h in step-Nested st st' k ks e (Nested-run st' ks h')

step-Quantified :
    (st st' : State) (k : Token) (ks : List Token)
    → step st k ≡ ok st'
    → Quantified st'.last_token_repeatable ks
    → Quantified st.last_token_repeatable (k ∷ ks)
unfolding step
step-Quantified st st' open_group ks h n = ground arith
step-Quantified st st' (bound lo none) ks h n = ground arith
step-Quantified st st' (bound lo (some hi)) ks h n = ground arith
step-Quantified st st' k ks h n = ground arith

Quantified-run :
    (st : State) (ks : List Token) → run st ks ≡ ok tt → Quantified st.last_token_repeatable ks
Quantified-run st [] h = tt
Quantified-run st (k ∷ ks) h =
    let (st', e, h') = run_cases st k ks h in
    step-Quantified st st' k ks e (Quantified-run st' ks h')

step-zero_stars :
    (st st' : State) (k : Token) (ks : List Token)
    → step st k ≡ ok st'
    → st.total_zero_star_count ≤ 2
    → (st'.total_zero_star_count + zero_stars ks ≡ st.total_zero_star_count + zero_stars (k ∷ ks))
      × (st'.total_zero_star_count ≤ 2)
unfolding step
step-zero_stars st st' open_group ks h n = ground arith
step-zero_stars st st' (bound lo none) ks h n = ground arith
step-zero_stars st st' (bound lo (some hi)) ks h n = ground arith
step-zero_stars st st' k ks h n = ground arith

zero_stars-run :
    (st : State) (ks : List Token)
    → run st ks ≡ ok tt
    → st.total_zero_star_count ≤ 2
    → st.total_zero_star_count + zero_stars ks ≤ 2
zero_stars-run st [] h n = omega arith
zero_stars-run st (k ∷ ks) h n =
    let (st', e, h') = run_cases st k ks h in
    let (same, n') = step-zero_stars st st' k ks e n in omega (arith, zero_stars-run st' ks h' n')

step-AllPlain :
    (st st' : State) (k : Token) (ks : List Token)
    → step st k ≡ ok st'
    → AllPlain ks
    → AllPlain (k ∷ ks)
unfolding step
step-AllPlain st st' (char c) ks h n = ground arith
step-AllPlain st st' k ks h n = n

AllPlain-run : (st : State) (ks : List Token) → run st ks ≡ ok tt → AllPlain ks
AllPlain-run st [] h = tt
AllPlain-run st (k ∷ ks) h =
    let (st', e, h') = run_cases st k ks h in step-AllPlain st st' k ks e (AllPlain-run st' ks h')

step-NoneEmpty :
    (st st' : State) (k : Token) (ks : List Token)
    → step st k ≡ ok st'
    → NoneEmpty st'.cur.has_substantive_tokens (contents st'.below) ks
    → NoneEmpty st.cur.has_substantive_tokens (contents st.below) (k ∷ ks)
unfolding step
step-NoneEmpty st st' open_group ks h n = ground arith
step-NoneEmpty st st' close_group ks h n = by_below st.below h
  where
    by_below :
        (bs : List Branch)
        → step (record st { below = bs }) close_group ≡ ok st'
        → NoneEmpty st.cur.has_substantive_tokens (contents bs) (close_group ∷ ks)
    by_below [] h = ground arith
    by_below (b ∷ bs) h = ground arith
step-NoneEmpty st st' (bound lo none) ks h n = ground arith
step-NoneEmpty st st' (bound lo (some hi)) ks h n = ground arith
step-NoneEmpty st st' k ks h n = ground arith

NoneEmpty-run :
    (st : State) (ks : List Token)
    → run st ks ≡ ok tt
    → NoneEmpty st.cur.has_substantive_tokens (contents st.below) ks
NoneEmpty-run st [] h = unfold run in ground arith
NoneEmpty-run st (k ∷ ks) h =
    let (st', e, h') = run_cases st k ks h in step-NoneEmpty st st' k ks e (NoneEmpty-run st' ks h')

-- The tokens of a pattern that passes.
pub record IsSafe (ks : List Token) : Type 0 where
  pub nested : Nested 0 ks
  pub quantified : Quantified false ks
  pub few_stars : zero_stars ks ≤ 2
  pub plain : AllPlain ks
  pub none_empty : NoneEmpty false [] ks

then_run : (a b : Result (Unit {0})) → (a >>= λ _. b) ≡ ok tt → b ≡ ok tt
then_run (ok x) b h = h
then_run (refused x) b h = cc

-- An accepted episode_re is balanced, nests groups at most two deep, quantifies single
-- repeatable tokens only, with bounds in order, has at most two 0*, no branch without content,
-- and apart from its constructs only characters that stand for themselves.
pub validate_grammar-IsSafe :
    (compiles : Text → Bool) (pattern : Text)
    → validate_grammar compiles pattern ≡ ok tt
    → IsSafe (tokens pattern)
unfolding validate_grammar
validate_grammar-IsSafe compiles pattern h =
    let accepted = then_run (prechecks compiles pattern) (run start (tokens pattern)) h in
    record {
      nested = Nested-run start (tokens pattern) accepted;
      quantified = Quantified-run start (tokens pattern) accepted;
      few_stars = omega (arith, zero_stars-run start (tokens pattern) accepted (omega arith));
      plain = AllPlain-run start (tokens pattern) accepted;
      none_empty = NoneEmpty-run start (tokens pattern) accepted;
    }
