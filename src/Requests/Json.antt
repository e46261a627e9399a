-- ===== src/Requests/Json.antt =====
-- review_requests.py: the JSON values that request bodies, request files and schedules hold.
use dub_titlerr.Prelude.{ℕ, Bool, true, Option, none, some, List, ◌&&◌, if◌then◌else◌}
use dub_titlerr.Prelude.Int.{ℤ}
use dub_titlerr.Text.{Text, one_of, same_text}

-- `decimal m k` is the number m / 10 ^ k that is written with a point; the names of an object are
-- those of a Python dict, in its order.
mutual
  pub data Json : Type 0 where
    null : Json
    bool : Bool → Json
    int : ℤ → Json
    decimal : ℤ → ℕ → Json
    str : Text → Json
    array : Array → Json
    object : Dict → Json

  pub data Array : Type 0 where
    no_items : Array
    item : Json → Array → Array

  pub data Dict : Type 0 where
    no_fields : Dict
    field : Text → Json → Dict → Dict

-- d.get(key)
unfoldable pub get : Dict → Text → Option Json
unfolding same_text
get no_fields key = none
get (field k v d) key = let rest = get d key in if same_text k key then some v else rest

-- not (set(d.keys()) - allowed)
unfoldable pub all_known : List Text → Dict → Bool
unfolding one_of
all_known allowed no_fields = true
all_known allowed (field k v d) = one_of allowed k && all_known allowed d
