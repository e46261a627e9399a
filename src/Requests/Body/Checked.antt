-- ===== src/Requests/Body/Checked.antt =====
-- review_requests.py: what `validate` lets through.
use dub_titlerr.Prelude.{
  ℕ, zero, suc, ◌<◌, ◌≡◌, refl, Bool, true, false, not, Option, none, some, arith, length, ◌==◌,
  Bool-cases, inl, inr,
}
use dub_titlerr.Prelude.Int.{pos, negsuc}
use dub_titlerr.Text.{Text, codes, any}
use dub_titlerr.Text.Control.{is_control}
use dub_titlerr.Requests.{
  Result, ok, refused, Reason, show_empty, show_traversal, show_control, unknown_keys,
  invalid_character, ◌>>=◌, refuse_if,
}
use dub_titlerr.Requests.Lexer.{tokens}
use dub_titlerr.Requests.Grammar.{validate_grammar}
use dub_titlerr.Requests.Grammar.Accepted.{IsSafe, validate_grammar-IsSafe}
use dub_titlerr.Requests.Json.{
  Json, null, bool, int, decimal, str, array, object, Dict, get, all_known,
}
use dub_titlerr.Requests.Body.Names.{IsBelow, IsShow, is_inside-below, IsShow-tests}
use dub_titlerr.Requests.Body.{
  Clean, Outside, join_path, is_inside, traverses, check_root, check_name, check_show, check_fields,
  any_bad, allowed_keys, show_field, check_season, checked_pattern, check_episode_re,
  normalize_episode_re, check_require_eng, check_webhook, as_dict, validate,
}

abbrev pub OnOk {ℓ κ} : {A : Type ℓ} → (A → Type κ) → Result A → Type κ
OnOk P (ok a) = P a
OnOk P (refused r) = Unit

OnOk-bind {ℓ κ μ ν} :
    {A : Type ℓ} {B : Type κ} (Q : A → Type μ) (P : B → Type ν) (m : Result A) (k : A → Result B)
    → OnOk Q m
    → ((a : A) → Q a → OnOk P (k a))
    → OnOk P (m >>= k)
OnOk-bind Q P (ok a) k q f = f a q
OnOk-bind Q P (refused r) k q f = tt

OnOk-refuse_if : (b : Bool) (r : Reason) → OnOk (λ _. b ≡ false) (refuse_if b r)
OnOk-refuse_if true r = tt
OnOk-refuse_if false r = refl

OnOk-any {ℓ} : {A : Type ℓ} (m : Result A) → OnOk (λ a. Unit {0}) m
OnOk-any (ok a) = tt
OnOk-any (refused r) = tt

OnOk-accepted {κ} : {P : Type κ} (m : Result (Unit {0})) → (m ≡ ok tt → P) → OnOk (λ _. P) m
OnOk-accepted (ok tt) f = f refl
OnOk-accepted (refused r) f = tt

abbrev pub IsPositive : Option ℕ → Type 0
IsPositive none = Unit
IsPositive (some n) = 0 < n

abbrev pub IsSafePattern : Option Text → Type 0
IsSafePattern none = Unit
IsSafePattern (some ep) = IsSafe (tokens ep)

abbrev pub IsClean : Option Outside → Clean → Type 0
IsClean root c = IsShow root c.show × IsPositive c.season × IsSafePattern c.episode_re

check_root-IsBelow :
    (root : Option Outside) (show : Text) → OnOk (λ _. IsBelow root show) (check_root root show)
unfolding check_root
check_root-IsBelow none show = tt
check_root-IsBelow (some o) show =
    elim (Bool-cases (is_inside o (o.real_path (join_path o.root show)))) [
      | inl h ↦ rw h (is_inside-below o (o.real_path (join_path o.root show)) h)
      | inr h ↦ rw h (ground arith)
    ]

check_name-IsShow :
    (root : Option Outside) (show : Text) → OnOk (IsShow root) (check_name root show)
unfolding check_name
check_name-IsShow root show =
    OnOk-bind (λ _. (length show == 0) ≡ false) (IsShow root)
      (refuse_if (length show == 0) show_empty) _ (OnOk-refuse_if (length show == 0) show_empty)
      (λ _ a.
        OnOk-bind (λ _. traverses show ≡ false) (IsShow root)
          (refuse_if (traverses show) show_traversal) _
          (OnOk-refuse_if (traverses show) show_traversal)
          (λ _ b.
            OnOk-bind (λ _. any is_control show ≡ false) (IsShow root)
              (refuse_if (any is_control show) show_control) _
              (OnOk-refuse_if (any is_control show) show_control)
              (λ _ c.
                OnOk-bind (λ _. IsBelow root show) (IsShow root) (check_root root show) _
                  (check_root-IsBelow root show) (λ _ d. IsShow-tests root show a b c d))))

check_show-IsShow : (root : Option Outside) (d : Dict) → OnOk (IsShow root) (check_show root d)
unfolding check_show
check_show-IsShow root d =
    OnOk-bind (λ _. Unit {0}) (IsShow root) (show_field (get d (codes "show"))) (check_name root)
      (OnOk-any (show_field (get d (codes "show")))) (λ show _. check_name-IsShow root show)

check_season-IsPositive : (j : Option Json) → OnOk IsPositive (check_season j)
unfolding check_season
check_season-IsPositive none = tt
check_season-IsPositive (some null) = tt
check_season-IsPositive (some (bool b)) = tt
check_season-IsPositive (some (int (pos zero))) = tt
check_season-IsPositive (some (int (pos (suc n)))) = omega arith
check_season-IsPositive (some (int (negsuc n))) = tt
check_season-IsPositive (some (decimal m k)) = tt
check_season-IsPositive (some (str t)) = tt
check_season-IsPositive (some (array a)) = tt
check_season-IsPositive (some (object d)) = tt

validate_grammar-OnOk :
    (compiles : Text → Bool) (ep : Text)
    → OnOk (λ _. IsSafe (tokens ep)) (validate_grammar compiles ep)
validate_grammar-OnOk compiles ep =
    OnOk-accepted (validate_grammar compiles ep) (validate_grammar-IsSafe compiles ep)

checked_pattern-IsSafe :
    (compiles : Text → Bool) (ep : Option Text) → OnOk IsSafePattern (checked_pattern compiles ep)
unfolding checked_pattern
checked_pattern-IsSafe compiles none = tt
checked_pattern-IsSafe compiles (some ep) =
    OnOk-bind (λ _. IsSafe (tokens ep)) IsSafePattern (validate_grammar compiles ep) _
      (validate_grammar-OnOk compiles ep) (λ _ h. h)

check_episode_re-IsSafe :
    (compiles : Text → Bool) (j : Option Json) → OnOk IsSafePattern (check_episode_re compiles j)
unfolding check_episode_re
check_episode_re-IsSafe compiles none = tt
check_episode_re-IsSafe compiles (some null) = tt
check_episode_re-IsSafe compiles (some (bool b)) = tt
check_episode_re-IsSafe compiles (some (int n)) = tt
check_episode_re-IsSafe compiles (some (decimal m k)) = tt
check_episode_re-IsSafe compiles (some (str ep)) =
    checked_pattern-IsSafe compiles (normalize_episode_re ep)
check_episode_re-IsSafe compiles (some (array a)) = tt
check_episode_re-IsSafe compiles (some (object d)) = tt

-- The tests behind the one for control characters.
check_fields-IsClean :
    (compiles : Text → Bool) (root : Option Outside) (d : Dict)
    → OnOk (IsClean root) (check_fields compiles root d)
unfolding check_fields
check_fields-IsClean compiles root d =
    OnOk-bind (IsShow root) (IsClean root) (check_show root d) _ (check_show-IsShow root d)
      (λ show a.
        OnOk-bind IsPositive (IsClean root) (check_season (get d (codes "season"))) _
          (check_season-IsPositive (get d (codes "season")))
          (λ season b.
            OnOk-bind IsSafePattern (IsClean root)
              (check_episode_re compiles (get d (codes "episode_re"))) _
              (check_episode_re-IsSafe compiles (get d (codes "episode_re")))
              (λ ep c.
                OnOk-bind (λ _. Unit {0}) (IsClean root)
                  (check_require_eng (get d (codes "require_eng"))) _
                  (OnOk-any (check_require_eng (get d (codes "require_eng"))))
                  (λ eng _.
                    OnOk-bind (λ _. Unit {0}) (IsClean root)
                      (check_webhook (get d (codes "webhook"))) _
                      (OnOk-any (check_webhook (get d (codes "webhook")))) (λ hook _. (a, b, c))))))

-- An accepted body names a show that is not empty, has no "/", "\\", NUL or "..", no control or format
-- character, and whose directory below the root, if there is one, has a real path that is a
-- directory and goes on from the root's real path with a "/"; its season is positive; and its
-- episode_re is safe.
pub validate-IsClean :
    (compiles : Text → Bool) (root : Option Outside) (body : Json)
    → OnOk (IsClean root) (validate compiles root body)
unfolding validate
validate-IsClean compiles root body =
    OnOk-bind (λ _. Unit {0}) (IsClean root) (as_dict body) _ (OnOk-any (as_dict body))
      (λ d _.
        OnOk-bind (λ _. Unit {0}) (IsClean root)
          (refuse_if (not (all_known allowed_keys d)) unknown_keys) _
          (OnOk-any (refuse_if (not (all_known allowed_keys d)) unknown_keys))
          (λ _ _.
            OnOk-bind (λ _. Unit {0}) (IsClean root) (refuse_if (any_bad d) invalid_character) _
              (OnOk-any (refuse_if (any_bad d) invalid_character))
              (λ _ _. check_fields-IsClean compiles root d)))
