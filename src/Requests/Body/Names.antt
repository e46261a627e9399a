-- ===== src/Requests/Body/Names.antt =====
-- review_requests.py: the names of shows, and that a path lies below the root.
use dub_titlerr.Prelude.{
  ℕ, ◌≡◌, ◌≢◌, refl, ap, ◌∙◌, true, false, Option, none, some, arith, length, ◌==◌, [], ◌∷◌, ◌++◌,
  append_assoc, AllOf,
}
use dub_titlerr.Text.{Text, codes, any, contains, starts_with}
use dub_titlerr.Text.Control.{is_control}
use dub_titlerr.Requests.Body.{Outside, join_path, is_inside, traverses}

-- The real path of the show's directory is a directory, strictly below the real path of the root,
-- where there is one.
abbrev pub IsBelow : Option Outside → Text → Type 0
IsBelow none show = Unit
IsBelow (some o) show =
    (rest : Text) × (o.real_path (join_path o.root show) ≡ o.real_path o.root ++ b'/' ∷ rest)
    × (o.is_dir (o.real_path (join_path o.root show)) ≡ true)

-- A character that may stand in a show's name.
abbrev pub IsNameChar : ℕ → Type 0
IsNameChar c = (c ≢ b'/') × (c ≢ b'\\') × (c ≢ 0) × (is_control c ≡ false)

-- A show's name is not empty, has no "/", "\\", "..", no control or format character, and names a
-- directory below the root.
abbrev pub IsShow : Option Outside → Text → Type 0
IsShow root show =
    (show ≢ [])
    × AllOf IsNameChar show
    × ((before after : Text) → show ≢ before ++ (b'.' ∷ b'.' ∷ after))
    × IsBelow root show

starts_with→append :
    (prefix t : Text) → starts_with prefix t ≡ true → (rest : Text) × (t ≡ prefix ++ rest)
unfolding starts_with
starts_with→append [] t h = (t, refl)
starts_with→append (p ∷ prefix) [] h = ground (arith, h)
starts_with→append (p ∷ prefix) (c ∷ t) h =
    let (rest, e) = starts_with→append prefix t (ground (arith, h)) in
    let k : c ≡ p = ground (arith, h) in
    (rest, ap (λ r. c ∷ r) e ∙ ap (λ d. d ∷ (prefix ++ rest)) k)

pub is_inside-below :
    (o : Outside) (real_show : Text)
    → is_inside o real_show ≡ true
    → (rest : Text) × (real_show ≡ o.real_path o.root ++ b'/' ∷ rest) × (o.is_dir real_show ≡ true)
unfolding is_inside
is_inside-below o real_show h =
    let (rest, e) =
      starts_with→append (o.real_path o.root ++ b'/' ∷ []) real_show (ground (arith, h)) in
    (rest, e ∙ append_assoc (o.real_path o.root) (b'/' ∷ []) rest, ground (arith, h))

not_traversing :
    (show : Text) → traverses show ≡ false → any is_control show ≡ false → AllOf IsNameChar show
unfolding traverses any contains
not_traversing [] h k = tt
not_traversing (c ∷ t) h k =
    (ground (arith, h, k), not_traversing t (ground (arith, h)) (ground (arith, k)))

no_dots :
    (show before after : Text)
    → contains (codes "..") show ≡ false
    → show ≢ before ++ (b'.' ∷ b'.' ∷ after)
unfolding contains starts_with
no_dots [] [] after h e = ground (arith, e)
no_dots [] (d ∷ before) after h e = ground (arith, e)
no_dots (c ∷ t) [] after h e = ground (arith, h, e)
no_dots (c ∷ t) (d ∷ before) after h e =
    no_dots t before after (ground (arith, h)) (ground (arith, e))

no_dots-traverses : (show : Text) → traverses show ≡ false → contains (codes "..") show ≡ false
unfolding traverses
no_dots-traverses show h = ground (arith, h)

pub IsShow-tests :
    (root : Option Outside) (show : Text)
    → (length show == 0) ≡ false
    → traverses show ≡ false
    → any is_control show ≡ false
    → IsBelow root show
    → IsShow root show
IsShow-tests root show a b c d = (
  λ e. ground (arith, a, e),
  not_traversing show b c,
  λ before after. no_dots show before after (no_dots-traverses show b),
  d,
)
