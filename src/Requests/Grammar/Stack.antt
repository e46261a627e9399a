-- ===== src/Requests/Grammar/Stack.antt =====
-- The branch stack of `_validate_episode_re_grammar` is never empty when its top is read.
use dub_titlerr.Prelude.{◌≡◌, ◌≢◌, refl, Bool, none, some, List, [], ◌∷◌, length, arith}
use dub_titlerr.Text.{Text}
use dub_titlerr.Requests.{Result, ok, refused, index_error, ◌>>=◌}
use dub_titlerr.Requests.Lexer.{Token, open_group, close_group, bound, tokens}
use dub_titlerr.Requests.Grammar.{Branch, State, start, step, run, prechecks, validate_grammar}

-- There is a branch on the stack for each open group, and one more.
abbrev Matched : State → Type 0
Matched st = length st.below ≡ st.open_groups

-- A result that is no crash, and what it holds satisfies `P`.
abbrev Runs : {A : Type 0} → (A → Type 0) → Result A → Type 0
Runs P (ok a) = P a
Runs P (refused r) = r ≢ index_error

step-Matched : (st : State) (k : Token) → Matched st → Runs Matched (step st k)
unfolding step
step-Matched st open_group m = ground arith
step-Matched st close_group m = by_below st.below m
  where
    by_below :
        (bs : List Branch)
        → length bs ≡ st.open_groups
        → Runs Matched (step (record st { below = bs }) close_group)
    by_below [] h = ground arith
    by_below (b ∷ bs) h = ground arith
step-Matched st (bound lo none) m = ground arith
step-Matched st (bound lo (some hi)) m = ground arith
step-Matched st k m = ground arith

Runs-bind :
    {A B : Type 0} (P : A → Type 0) (Q : B → Type 0) (r : Result A) (f : A → Result B)
    → Runs P r
    → ((a : A) → P a → Runs Q (f a))
    → Runs Q (r >>= f)
Runs-bind P Q (ok a) f h k = k a h
Runs-bind P Q (refused x) f h k = h

run-Runs : (st : State) (ks : List Token) → Matched st → Runs (λ u. Unit {0}) (run st ks)
unfolding run
run-Runs st [] m = ground arith
run-Runs st (k ∷ ks) m =
    Runs-bind Matched (λ u. Unit {0}) (step st k) (λ st'. run st' ks) (step-Matched st k m)
      (λ st' m'. run-Runs st' ks m')

prechecks-Runs :
    (compiles : Text → Bool) (pattern : Text) → Runs (λ u. Unit {0}) (prechecks compiles pattern)
unfolding prechecks
prechecks-Runs compiles pattern = ground arith

-- Whatever the pattern, validating it never reads the top of an empty branch stack.
pub validate_grammar-ne-index_error :
    (compiles : Text → Bool) (pattern : Text)
    → validate_grammar compiles pattern ≢ refused index_error
unfolding validate_grammar
validate_grammar-ne-index_error compiles pattern e =
    not_crashed
      (Runs-bind (λ u. Unit {0}) (λ u. Unit {0}) (prechecks compiles pattern)
        (λ _. run start (tokens pattern)) (prechecks-Runs compiles pattern)
        (λ _ _. run-Runs start (tokens pattern) refl))
      e
  where
    not_crashed : {r : Result Unit} → Runs (λ u. Unit {0}) r → r ≢ refused index_error
    not_crashed {r} h e = (rw e at h) refl
