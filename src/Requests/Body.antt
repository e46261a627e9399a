-- ===== src/Requests/Body.antt =====
-- review_requests.py: `validate`, `normalize_episode_re` and `derive_generate_only_re`, the way
-- from the body of a run request to its fields.
pub mod Names
pub mod Checked
use Prim.Native.Nat.{◌^◌}
use dub_titlerr.Prelude.{
  ℕ, zero, suc, ◌-◌, Bool, true, false, not, ◌&&◌, ◌||◌, Option, none, some, List, [], ◌∷◌, ◌++◌,
  length, take, ◌==◌, if◌then◌else◌,
}
use dub_titlerr.Prelude.Int.{ℤ, pos, negsuc}
use dub_titlerr.Text.{Text, codes, strip, any, contains, starts_with, ends_with, decimal_text}
use dub_titlerr.Text.Control.{is_control}
use dub_titlerr.Requests.{
  Result, ok, refused, ◌>>=◌, ◌>>◌, refuse_if, not_an_object, unknown_keys, invalid_character,
  show_required, show_empty, show_traversal, show_control, show_not_found, show_escapes,
  season_invalid, episode_re_type, episode_re_empty, require_eng_invalid, webhook_invalid,
}
use dub_titlerr.Requests.Grammar.{validate_grammar}
use dub_titlerr.Requests.Json.{
  Json, null, bool, int, decimal, str, array, object, Dict, no_fields, field, get, all_known,
}

-- The library: anime_root, and what the operating system tells, which paths are directories, and the
-- real path of a path.
pub record Outside : Type 0 where
  pub root : Text
  pub is_dir : Text → Bool
  pub real_path : Text → Text

-- The dictionary that `validate` returns.
pub record Clean : Type 0 where
  pub show : Text
  pub season : Option ℕ
  pub episode_re : Option Text
  pub require_eng : Option Bool
  pub webhook : Option Dict

-- ALLOWED_BODY_KEYS
abbrev pub allowed_keys : List Text
allowed_keys =
    codes "show" ∷ codes "season" ∷ codes "episode_re" ∷ codes "require_eng" ∷ codes "webhook" ∷ []

-- any(c in v for c in "\r\n=\0") or _has_control_or_format_chars(v)
unfoldable pub bad_value : Text → Bool
unfolding any is_control
bad_value v = any (λ c. c == 13 || c == 10 || c == b'=' || c == 0) v || any is_control v

-- for k, v in body.items()
unfoldable pub any_bad : Dict → Bool
unfolding bad_value
any_bad no_fields = false
any_bad (field k (str v) d) = bad_value v || any_bad d
any_bad (field k _ d) = any_bad d

-- "/" in show or "\\" in show or ".." in show or "\0" in show
unfoldable pub traverses : Text → Bool
unfolding contains any
traverses show = any (λ c. c == b'/' || c == b'\\' || c == 0) show || contains (codes "..") show

-- A string under the key, else the request is refused.
abbrev show_field : Option Json → Result Text
show_field (some (str v)) = ok (strip v)
show_field _ = refused show_required

-- os.path.join of a root and a name that does not start with "/"
unfoldable pub join_path : Text → Text → Text
unfolding ends_with
join_path [] name = name
join_path (c ∷ root) name =
    if ends_with (codes "/") (c ∷ root) then (c ∷ root) ++ name else (c ∷ root) ++ b'/' ∷ name

-- real_show.startswith(real_anime + os.sep) and os.path.isdir(real_show)
unfoldable pub is_inside : Outside → Text → Bool
unfolding starts_with
is_inside o real_show =
    starts_with (o.real_path o.root ++ b'/' ∷ []) real_show && o.is_dir real_show

-- anime_root is None, or the show is one of its directories
unfoldable pub check_root : Option Outside → Text → Result (Unit {0})
unfolding join_path is_inside
check_root none show = ok tt
check_root (some o) show =
    let show_dir = join_path o.root show in
    if is_inside o (o.real_path show_dir)
    then ok tt
    else if o.is_dir show_dir
    then refused show_escapes
    else refused show_not_found

-- The tests on the stripped name.
unfoldable pub check_name : Option Outside → Text → Result Text
unfolding traverses any is_control check_root
check_name root show = do
  refuse_if (length show == 0) show_empty
  refuse_if (traverses show) show_traversal
  refuse_if (any is_control show) show_control
  check_root root show
  ok show

unfoldable pub check_show : Option Outside → Dict → Result Text
unfolding check_name strip
check_show root d = show_field (get d (codes "show")) >>= check_name root

unfoldable pub check_season : Option Json → Result (Option ℕ)
check_season none = ok none
check_season (some null) = ok none
check_season (some (int (pos (suc n)))) = ok (some (suc n))
check_season (some _) = refused season_invalid

-- normalize_episode_re of a string
unfoldable pub normalize_episode_re : Text → Option Text
unfolding strip
normalize_episode_re ep = let s = strip ep in if length s == 0 then none else some s

unfoldable pub checked_pattern : (Text → Bool) → Option Text → Result (Option Text)
unfolding validate_grammar
checked_pattern compiles none = refused episode_re_empty
checked_pattern compiles (some ep) = validate_grammar compiles ep >> ok (some ep)

unfoldable pub check_episode_re : (Text → Bool) → Option Json → Result (Option Text)
unfolding normalize_episode_re checked_pattern
check_episode_re compiles none = ok none
check_episode_re compiles (some null) = ok none
check_episode_re compiles (some (str ep)) = checked_pattern compiles (normalize_episode_re ep)
check_episode_re compiles (some _) = refused episode_re_type

-- m / 10 ^ k, where it is 0 or 1
abbrev pub zero_or_one : ℕ → ℕ → Result (Option Bool)
zero_or_one m k =
    if m == 0
    then ok (some false)
    else if m == 10 ^ k
    then ok (some true)
    else refused require_eng_invalid

-- `v in (0, 1)`: a number with a point is equal to 0 or 1 where its digits say so.
unfoldable pub check_require_eng : Option Json → Result (Option Bool)
check_require_eng none = ok none
check_require_eng (some null) = ok none
check_require_eng (some (int (pos n))) = zero_or_one n 0
check_require_eng (some (decimal (pos m) k)) = zero_or_one m k
check_require_eng (some _) = refused require_eng_invalid

unfoldable pub check_webhook : Option Json → Result (Option Dict)
check_webhook none = ok none
check_webhook (some null) = ok none
check_webhook (some (object d)) = ok (some d)
check_webhook (some _) = refused webhook_invalid

abbrev pub as_dict : Json → Result Dict
as_dict (object d) = ok d
as_dict _ = refused not_an_object

-- The fields of the answer, each checked in its turn.
unfoldable pub check_fields : (Text → Bool) → Option Outside → Dict → Result Clean
unfolding check_show check_season check_episode_re check_require_eng check_webhook get
check_fields compiles root d = do
  show ← check_show root d
  season ← check_season (get d (codes "season"))
  episode_re ← check_episode_re compiles (get d (codes "episode_re"))
  require_eng ← check_require_eng (get d (codes "require_eng"))
  webhook ← check_webhook (get d (codes "webhook"))
  ok (record {
    show = show;
    season = season;
    episode_re = episode_re;
    require_eng = require_eng;
    webhook = webhook;
  })

-- `compiles` stands for re.compile, `root` for the file system below `anime_root`.
unfoldable pub validate : (Text → Bool) → Option Outside → Json → Result Clean
unfolding all_known any_bad check_fields
validate compiles root body = do
  d ← as_dict body
  refuse_if (not (all_known allowed_keys d)) unknown_keys
  refuse_if (any_bad d) invalid_character
  check_fields compiles root d

-- The negative lookahead at the end of an episode_re, which the derived pattern has itself.
abbrev pub lookahead : Text
lookahead = codes "(?!\\d)"

unfoldable pub without_lookahead : Text → Text
unfolding ends_with
without_lookahead ep = if ends_with lookahead ep then take (length ep - length lookahead) ep else ep

-- `if not (branch.startswith("(?:") and branch.endswith(")"))`
unfoldable pub in_group : Text → Text
unfolding starts_with ends_with
in_group branch =
    if starts_with (codes "(?:") branch && ends_with (codes ")") branch
    then branch
    else codes "(?:" ++ branch ++ codes ")"

unfoldable pub season_branch : ℕ → Text
unfolding decimal_text
season_branch season = codes "(?:^|[\\W_])[Ss]0*" ++ decimal_text season

unfoldable pub derive_generate_only_re : Option ℕ → Option Text → Text
unfolding in_group season_branch without_lookahead
derive_generate_only_re none none = []
derive_generate_only_re (some season) (some ep) = in_group (
    season_branch season
    ++ codes "(?:[\\W_Ee]|(?=[Ee])).*(?:"
    ++ without_lookahead ep
    ++ codes ")(?!\\d)")
derive_generate_only_re (some season) none =
    in_group (season_branch season ++ codes "(?=[Ee]|[\\W_]|$)")
derive_generate_only_re none (some ep) =
    in_group (codes "(?:" ++ without_lookahead ep ++ codes ")(?!\\d)")
