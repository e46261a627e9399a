-- ===== src/Auth/Routes/Table.antt =====
-- review_auth.py: the table of the routes and the role that each needs.
use dub_titlerr.Prelude.{
  ◌∷◌, ◌++◌, Bool, true, false, ◌&&◌, Option, none, some, List, [], length, ltb, if◌then◌else◌,
}
use dub_titlerr.Text.{Text, codes, same_text, starts_with, ends_with}

pub data Access : Type 0 where
  for_public for_user for_admin : Access

pub record Route : Type 0 where
  pub method : Text
  pub pattern : Text
  pub access : Access

abbrev pub same_access : Access → Access → Bool
same_access for_public for_public = true
same_access for_user for_user = true
same_access for_admin for_admin = true
same_access _ _ = false

-- ROUTE_ROLES.get((method, path))
unfoldable pub listed_role : Text → Text → List Route → Option Access
unfolding same_text
listed_role method path [] = none
listed_role method path (r ∷ rs) =
    let rest = listed_role method path rs in
    if same_text r.method method && same_text r.pattern path then some r.access else rest

-- An entry to register: a route, or one whose role is no role.
pub data Entry : Type 0 where
  entry : Route → Entry
  bad_role_entry : Entry

abbrev agrees : Option Access → Access → Bool
agrees none role = true
agrees (some old) role = same_access old role

unfoldable pub are_accepted : List Route → List Entry → Bool
unfolding listed_role
are_accepted table [] = true
are_accepted table (bad_role_entry ∷ es) = false
are_accepted table (entry r ∷ es) =
    agrees (listed_role r.method r.pattern table) r.access && are_accepted table es

unfoldable pub updated_table : List Route → List Entry → List Route
unfolding listed_role
updated_table table [] = table
updated_table table (bad_role_entry ∷ es) = updated_table table es
updated_table table (entry r ∷ es) = elim (listed_role r.method r.pattern table) [
  | none ↦ updated_table (table ++ r ∷ []) es
  | some old ↦ updated_table table es
]

-- register_routes: none if it raises
unfoldable pub register_routes : List Entry → List Route → Option (List Route)
unfolding are_accepted updated_table
register_routes es table = if are_accepted table es then some (updated_table table es) else none

-- A pattern `prefix/*` that a path falls under; `prefix/` is what it starts with.
unfoldable pub covers : Route → Text → Text → Bool
unfolding same_text ends_with starts_with
covers r method path =
    same_text r.method method
    && ends_with (codes "/*") r.pattern
    && starts_with (without_star r.pattern) path
  where
    without_star : Text → Text
    without_star [] = []
    without_star (c ∷ []) = []
    without_star (c ∷ d ∷ t) = c ∷ without_star (d ∷ t)

-- The longest pattern so far, [] for none, and its role.
unfoldable pub longest : Text → Text → List Route → Text × Access → Text × Access
unfolding covers
longest method path [] best = best
longest method path (r ∷ rs) best = longest method path rs (
    if covers r method path && ltb (length best.0) (length r.pattern)
    then (r.pattern, r.access)
    else best)

abbrev of_longest : Text × Access → Access × Bool
of_longest ([], role) = (for_admin, false)
of_longest (c ∷ t, role) = (role, true)

-- _required_role: the role and whether the table lists the route
unfoldable pub required_role : Text → Text → List Route → Access × Bool
unfolding listed_role longest
required_role method path table = elim (listed_role method path table) [
  | some role ↦ (role, true)
  | none ↦ of_longest (longest method path table ([], for_admin))
]
