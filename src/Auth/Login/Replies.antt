-- ===== src/Auth/Login/Replies.antt =====
-- review_auth.py: the answers of the handlers, their statuses and their cookies.
use dub_titlerr.Prelude.{ℕ, ◌∷◌, ◌++◌, Bool, ◌||◌, List, [], if◌then◌else◌}
use dub_titlerr.Text.{Text, codes, join, same_text, strip}
use dub_titlerr.Text.Lower.{lower}
use dub_titlerr.Text.Cut.{before}
use dub_titlerr.Auth.{Role, Problem, status_of, User}
use dub_titlerr.Auth.Headers.{Headers, header}

-- The last argument of an answer with a cookie says whether the cookie is Secure.
pub data Reply : Type 0 where
  failed : Problem → Reply
  throttled : ℕ → Reply
  setup_first wrong_login wrong_current login_first own_account off no_route no_method : Reply
  set_up : Text → Reply
  logged_in : Text → Role → Text → Bool → Bool → Reply
  logged_out : Bool → Reply
  created account : Text → Role → Reply
  accounts : List User → Reply
  done : Reply
  changed_here : Text → Bool → Bool → Reply
  changed_elsewhere : Bool → Reply

unfoldable pub reply_status : Reply → ℕ
reply_status (failed p) = status_of p
reply_status (throttled wait) = 429
reply_status setup_first = 409
reply_status wrong_login = 401
reply_status wrong_current = 403
reply_status login_first = 401
reply_status own_account = 403
reply_status off = 409
reply_status no_route = 404
reply_status no_method = 405
reply_status (created name role) = 201
reply_status _ = 200

-- is_https
unfoldable pub is_https : Headers → Bool
unfolding header before strip lower same_text
is_https headers =
    same_text (lower (strip (before b',' (header headers (codes "X-Forwarded-Proto")))))
      (codes "https")

-- cookie_secure; the first argument says that REVIEW_COOKIE_SECURE is "1"
unfoldable pub secure_cookies : Bool → Headers → Bool
unfolding is_https
secure_cookies always headers = is_https headers || always

abbrev secure_part : Bool → List Text
secure_part secure = if secure then codes "Secure" ∷ [] else []

abbrev cookie_parts : Text → List Text
cookie_parts value =
    (codes "dubtitlerr_session=" ++ value)
    ∷ codes "Path=/"
    ∷ codes "HttpOnly"
    ∷ codes "SameSite=Strict"
    ∷ []

unfoldable pub session_cookie : Text → Bool → Bool → Text
unfolding join
session_cookie sid remember secure = join (codes "; ") (
    (cookie_parts sid ++ (if remember then codes "Max-Age=2592000" ∷ [] else []))
    ++ secure_part secure)

unfoldable pub clear_cookie : Bool → Text
unfolding join
clear_cookie secure =
    join (codes "; ") ((cookie_parts [] ++ codes "Max-Age=0" ∷ []) ++ secure_part secure)

abbrev legacy_clear : Text
legacy_clear = codes "dubtitlerr_token=; Path=/; Max-Age=0; SameSite=Strict"

-- The Set-Cookie headers of an answer.
unfoldable pub set_cookies : Reply → List Text
unfolding session_cookie clear_cookie
set_cookies (logged_in name role sid remember secure) =
    session_cookie sid remember secure ∷ legacy_clear ∷ []
set_cookies (logged_out secure) = clear_cookie secure ∷ []
set_cookies (changed_here sid remember secure) = session_cookie sid remember secure ∷ []
set_cookies (changed_elsewhere secure) = clear_cookie secure ∷ []
set_cookies _ = []
