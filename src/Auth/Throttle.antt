-- ===== src/Auth/Throttle.antt =====
-- review_server.py: `LoginThrottle`, the counter of failed logins. Times are in ticks.
pub mod Counted
pub mod Locked
use dub_titlerr.Prelude.{
  ℕ, ◌+◌, ◌-◌, ◌*◌, ◌/◌, Bool, true, false, Option, none, some, List, [], ◌∷◌, ◌++◌, length, ltb,
  leb, if◌then◌else◌,
}
use dub_titlerr.Text.{Text}
use dub_titlerr.Text.Table.{find, remove}
use dub_titlerr.Auth.Sessions.{second}

-- The parameters of the constructor; times in ticks.
pub record Limits : Type 0 where
  pub max_fail : ℕ
  pub window : ℕ
  pub lockout : ℕ
  pub cap : ℕ

abbrev pub login_limits : Limits
login_limits = record { max_fail = 5; window = 300 * second; lockout = 60 * second; cap = 1024 }

pub record Failures : Type 0 where
  pub addr : Text
  pub fails : ℕ
  pub first : ℕ
  pub locked_until : ℕ

abbrev pub addr_key : Failures → Text
addr_key r = r.addr

-- ceil of a time in seconds
abbrev ceil : ℕ → ℕ
ceil t = (t + (second - 1)) / second

abbrev pub wait_of : ℕ → Option Failures → ℕ
wait_of now none = 0
wait_of now (some r) = if ltb now r.locked_until then ceil (r.locked_until - now) else 0

-- `seen` holds the addresses, the oldest first.
unfoldable pub retry_after : ℕ → Text → List Failures → ℕ
unfolding find
retry_after now addr seen = wait_of now (find addr_key addr seen)

abbrev new_record : ℕ → Text → Failures
new_record now addr = record { addr = addr; fails = 0; first = now; locked_until = 0 }

-- The record that a failure counts on: none is kept past the window.
abbrev pub current : Limits → ℕ → Text → Option Failures → Failures
current l now addr none = new_record now addr
current l now addr (some r) = if ltb (r.first + l.window) now then new_record now addr else r

abbrev pub one_more : Limits → ℕ → Failures → Failures
one_more l now r =
    if leb l.max_fail (r.fails + 1)
    then record r { fails = 0; first = now; locked_until = now + l.lockout }
    else record r { fails = r.fails + 1 }

-- while len(self._seen) > self.cap: the oldest goes
unfoldable pub evicted : ℕ → List Failures → List Failures
evicted cap [] = []
evicted cap (r ∷ rs) =
    let rest = evicted cap rs in if ltb cap (length (r ∷ rs)) then rest else r ∷ rs

unfoldable pub failure : Limits → ℕ → Text → List Failures → List Failures
unfolding find remove evicted
failure l now addr seen = evicted l.cap (
    remove addr_key addr seen ++ one_more l now (current l now addr (find addr_key addr seen)) ∷ [])

unfoldable pub success : Text → List Failures → List Failures
unfolding remove
success addr seen = remove addr_key addr seen
