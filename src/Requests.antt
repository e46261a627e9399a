-- ===== src/Requests.antt =====
-- review_requests.py: the run requests of the review server.
pub mod Lexer
pub mod Grammar
pub mod Json
pub mod Body
pub mod Files
pub mod Queue
pub mod Listing
pub mod Schedule
use dub_titlerr.Prelude.{Bool, true, false}

-- Why a request is refused; each comes with status 400.
pub data Reason : Type 0 where
  too_long control_char too_many_branches bad_regex lookbehind backreference : Reason
  nested_too_deep unbalanced empty_branch zero_star_nested zero_star_misplaced : Reason
  zero_star_repeated bad_range bad_quantifier bad_bounds unsupported unclosed : Reason
  not_an_object unknown_keys invalid_character show_required show_empty : Reason
  show_traversal show_control show_not_found show_escapes season_invalid : Reason
  episode_re_type episode_re_empty require_eng_invalid webhook_invalid : Reason
  -- no refusal: the IndexError that an empty `branch_stack` would raise
  index_error : Reason

pub data Result {ℓ} (A : Type ℓ) : Type ℓ where
  ok : A → Result A
  refused : Reason → Result A

infixl 5 ◌>>=◌ ◌>>◌
abbrev pub ◌>>=◌ {ℓ κ} : {A : Type ℓ} {B : Type κ} → Result A → (A → Result B) → Result B
ok a >>= f = f a
refused r >>= f = refused r

abbrev pub ◌>>◌ {ℓ} : {B : Type ℓ} → Result (Unit {0}) → Result B → Result B
m >> k = m >>= λ _. k

abbrev pub refuse_if : Bool → Reason → Result (Unit {0})
refuse_if true r = refused r
refuse_if false r = ok tt
