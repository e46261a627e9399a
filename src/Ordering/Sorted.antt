-- ===== src/Ordering/Sorted.antt =====
-- ordering.py: what the sorted list of files is.
use mathlib.Core.List.{Perm}
use mathlib.Core.List.Perm
use dub_titlerr.Prelude.{
  AllOf, AllOf-map, ℕ, suc, ◌≤◌, ◌≡◌, Bool, true, false, List, [], ◌∷◌, if◌then◌else◌, arith,
}
use dub_titlerr.Prelude.Int.{pos}
use dub_titlerr.Text.{Text}
use dub_titlerr.Text.Order.{text_le_total, text_le_trans}
use dub_titlerr.Ordering.{is_ahead, Key, key, key_le, insert_by, sort_by, order_files, season_ep}

-- A property of every two paths of a list, in their order.
abbrev pub Ordered {ℓ} : (Text → Text → Type ℓ) → List Text → Type ℓ
Ordered R [] = Unit
Ordered R (p ∷ ps) = AllOf (R p) ps × Ordered R ps

Ordered-map {ℓ κ} :
    {R : Text → Text → Type ℓ} {S : Text → Text → Type κ} (ps : List Text)
    → ((p q : Text) → R p q → S p q)
    → Ordered R ps
    → Ordered S ps
Ordered-map [] f h = tt
Ordered-map (p ∷ ps) f h = (AllOf-map ps (f p) h.0, Ordered-map ps f h.1)

perm_step :
    (b : Bool) (p q : Text) (qs rest : List Text)
    → Perm rest (p ∷ qs)
    → Perm (if b then p ∷ q ∷ qs else q ∷ rest) (p ∷ q ∷ qs)
perm_step true p q qs rest h = Perm.refl (p ∷ q ∷ qs)
perm_step false p q qs rest h = Perm.trans (Perm.cons q h) (Perm.swap p q qs)

module _ (le : Text → Text → Bool) (total : (p q : Text) → le p q ≡ false → le q p ≡ true)
    (trans : (p q r : Text) → le p q ≡ true → le q r ≡ true → le p r ≡ true) where
  AllOf-insert_by {ℓ} :
      (P : Text → Type ℓ) (p : Text) (ps : List Text)
      → P p
      → AllOf P ps
      → AllOf P (insert_by le p ps)
  unfolding insert_by
  AllOf-insert_by P p [] h hs = (h, tt)
  AllOf-insert_by P p (q ∷ qs) h hs = ground (arith, h, hs, AllOf-insert_by P p qs h hs.1)

  Ordered-insert_by :
      (p : Text) (ps : List Text)
      → Ordered (λ q r. le q r ≡ true) ps
      → Ordered (λ q r. le q r ≡ true) (insert_by le p ps)
  unfolding insert_by
  Ordered-insert_by p [] h = (tt, tt)
  Ordered-insert_by p (q ∷ qs) h = ground (
    arith,
    h,
    Ordered-insert_by p qs h.1,
    total p q,
    (λ (k : le p q ≡ true).
        AllOf-map {P = λ r. le q r ≡ true} {Q = λ r. le p r ≡ true} qs (λ r. trans p q r k) h.0),
    AllOf-insert_by (λ r. le q r ≡ true) p qs,
  )

  Ordered-sort_by : (ps : List Text) → Ordered (λ q r. le q r ≡ true) (sort_by le ps)
  unfolding sort_by
  Ordered-sort_by [] = tt
  Ordered-sort_by (p ∷ ps) = Ordered-insert_by p (sort_by le ps) (Ordered-sort_by ps)

  Perm-insert_by : (p : Text) (ps : List Text) → Perm (insert_by le p ps) (p ∷ ps)
  unfolding insert_by
  Perm-insert_by p [] = Perm.refl (p ∷ [])
  Perm-insert_by p (q ∷ qs) = perm_step (le p q) p q qs (insert_by le p qs) (Perm-insert_by p qs)

  Perm-sort_by : (ps : List Text) → Perm (sort_by le ps) ps
  unfolding sort_by
  Perm-sort_by [] = Perm.refl []
  Perm-sort_by (p ∷ ps) =
      Perm.trans (Perm-insert_by p (sort_by le ps)) (Perm.cons p (Perm-sort_by ps))

abbrev tuple_le : ℕ → Text → Text → Bool
tuple_le start p q = key_le (key start p) (key start q)

key_le_total : (a b : Key) → key_le a b ≡ false → key_le b a ≡ true
unfolding key_le
key_le_total a b h = ground (arith, h, text_le_total a.path b.path)

key_le_trans : (a b c : Key) → key_le a b ≡ true → key_le b c ≡ true → key_le a c ≡ true
unfolding key_le
key_le_trans a b c h k = ground (arith, h, k, text_le_trans a.path b.path c.path)

abbrev pub season_of : Text → ℕ
season_of p = (season_ep p).0

abbrev pub episode_of : Text → ℕ
episode_of p = (season_ep p).1

-- `p` may stand before `q`: nothing ahead of the viewer stands behind what is not, and files on one
-- side of this line stand by season and, in one season, by episode.
abbrev pub InWatchOrder : ℕ → Text → Text → Type 0
InWatchOrder start p q =
    (is_ahead start (season_of q) ≡ true → is_ahead start (season_of p) ≡ true)
    × (is_ahead start (season_of p) ≡ is_ahead start (season_of q)
        → (season_of p ≤ season_of q) × (season_of p ≡ season_of q → episode_of p ≤ episode_of q))

tuple_le-InWatchOrder :
    (start : ℕ) (p q : Text) → tuple_le start p q ≡ true → InWatchOrder start p q
unfolding key_le key
tuple_le-InWatchOrder start p q h = ground (arith, h)

-- With a start season, order_files only reorders the files: those of the seasons from the start on
-- come first, then the others, each by season and episode.
pub order_files-InWatchOrder :
    (files : List Text) (before_start : ℕ)
    → let ordered = order_files files (pos (suc before_start)) in
      Perm ordered files × Ordered (InWatchOrder (suc before_start)) ordered
unfolding order_files
order_files-InWatchOrder files n =
    let total = λ (p q : Text). key_le_total (key (suc n) p) (key (suc n) q) in
    let trans = λ (p q r : Text). key_le_trans (key (suc n) p) (key (suc n) q) (key (suc n) r) in
    (
      Perm-sort_by (tuple_le (suc n)) total trans files,
      Ordered-map (sort_by (tuple_le (suc n)) files) (tuple_le-InWatchOrder (suc n))
          (Ordered-sort_by (tuple_le (suc n)) total trans files),
    )
