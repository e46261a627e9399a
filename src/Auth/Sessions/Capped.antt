-- ===== src/Auth/Sessions/Capped.antt =====
-- review_auth.py: no account has more than MAX_PER_ACCOUNT sessions.
use dub_titlerr.Prelude.{
  ℕ, zero, suc, ◌+◌, ◌-◌, ◌≤◌, ◌≡◌, refl, ap, ◌∙◌, true, false, some, List, [], ◌∷◌, length, take,
  length-take, leb, arith, AllOf, Bool-cases, inl, inr,
}
use dub_titlerr.Text.{Text, same_text}
use dub_titlerr.Text.Order.{same_text→eq, same_text_sym}
use dub_titlerr.Text.Lower.{lower}
use dub_titlerr.Text.Table.{
  find, put, remove, AllOf-found, find-remove_other, DistinctKeys, DistinctKeys-remove,
}
use dub_titlerr.Auth.Sessions.{
  Row, row_key, max_per_account, rows_of, insert_created, by_created, surplus, remove_rows, is_live,
  live_rows,
}

-- How many sessions an account has.
abbrev pub sessions_of : Text → List Row → ℕ
sessions_of name rs = length (rows_of name rs)

abbrev pub OfAccount : Text → Row → Type 0
OfAccount name r = same_text (lower r.name) (lower name) ≡ true

pub sessions_of-remove_le :
    (name id : Text) (rs : List Row) → sessions_of name (remove row_key id rs) ≤ sessions_of name rs
unfolding rows_of remove
sessions_of-remove_le name id [] = omega arith
sessions_of-remove_le name id (r ∷ rs) = ground (arith, sessions_of-remove_le name id rs)

sessions_of-remove_found :
    (name : Text) (r : Row) (rs : List Row)
    → OfAccount name r
    → find row_key r.id rs ≡ some r
    → sessions_of name (remove row_key r.id rs) + 1 ≤ sessions_of name rs
unfolding rows_of remove find
sessions_of-remove_found name r [] o h = ground (arith, h)
sessions_of-remove_found name r (q ∷ qs) o h =
    ground (arith, o, h, sessions_of-remove_found name r qs o, sessions_of-remove_le name r.id qs)

-- Rows of one account that are all there.
abbrev AreFound : Text → List Row → List Row → Type 0
AreFound name rs = AllOf (λ g. OfAccount name g × (find row_key g.id rs ≡ some g))

AreFound-remove :
    (name id : Text) (rs gone : List Row)
    → AllOf (λ g. same_text id g.id ≡ false) gone
    → AreFound name rs gone
    → AreFound name (remove row_key id rs) gone
AreFound-remove name id rs [] d h = tt
AreFound-remove name id rs (g ∷ gone) d h = (
  (h.0.0, find-remove_other row_key id g.id rs d.0 ∙ h.0.1),
  AreFound-remove name id rs gone d.1 h.1,
)

sessions_of-remove_rows :
    (name : Text) (gone rs : List Row)
    → DistinctKeys row_key gone
    → AreFound name rs gone
    → sessions_of name (remove_rows gone rs) + length gone ≤ sessions_of name rs
unfolding remove_rows
sessions_of-remove_rows name [] rs d h = omega arith
sessions_of-remove_rows name (g ∷ gone) rs d h = omega (
  arith,
  sessions_of-remove_found name g rs h.0.0 h.0.1,
  sessions_of-remove_rows name gone (remove row_key g.id rs) d.1
      (AreFound-remove name g.id rs gone d.0 h.1),
)

pub sessions_of-remove_rows_le :
    (name : Text) (gone rs : List Row)
    → sessions_of name (remove_rows gone rs) ≤ sessions_of name rs
unfolding remove_rows
sessions_of-remove_rows_le name [] rs = omega arith
sessions_of-remove_rows_le name (g ∷ gone) rs = omega (
  arith,
  sessions_of-remove_le name g.id rs,
  sessions_of-remove_rows_le name gone (remove row_key g.id rs),
)

module _ {ℓ} (P : Row → Type ℓ) where
  AllOf-insert_created :
      (r : Row) (rs : List Row) → P r → AllOf P rs → AllOf P (insert_created r rs)
  unfolding insert_created
  AllOf-insert_created r [] p h = (p, tt)
  AllOf-insert_created r (q ∷ qs) p h = ground (arith, p, h, AllOf-insert_created r qs p h.1)

  AllOf-by_created : (rs : List Row) → AllOf P rs → AllOf P (by_created rs)
  unfolding by_created
  AllOf-by_created [] h = tt
  AllOf-by_created (r ∷ rs) h = AllOf-insert_created r (by_created rs) h.0 (AllOf-by_created rs h.1)

  AllOf-take : (n : ℕ) (rs : List Row) → AllOf P rs → AllOf P (take n rs)
  AllOf-take zero rs h = tt
  AllOf-take (suc n) [] h = tt
  AllOf-take (suc n) (r ∷ rs) h = (h.0, AllOf-take n rs h.1)

  AllOf-rows_of :
      (name : Text) (rs : List Row)
      → AllOf P rs
      → AllOf (λ r. OfAccount name r × P r) (rows_of name rs)
  unfolding rows_of
  AllOf-rows_of name [] h = tt
  AllOf-rows_of name (r ∷ rs) h = elim (Bool-cases (same_text (lower r.name) (lower name))) [
    | inl o ↦ rw o ((o, h.0), AllOf-rows_of name rs h.1)
    | inr o ↦ rw o (AllOf-rows_of name rs h.1)
  ]

  AllOf-rows_of_plain : (name : Text) (rs : List Row) → AllOf P rs → AllOf P (rows_of name rs)
  unfolding rows_of
  AllOf-rows_of_plain name [] h = tt
  AllOf-rows_of_plain name (r ∷ rs) h = ground (arith, h, AllOf-rows_of_plain name rs h.1)

  AllOf-live_rows : (now : ℕ) (rs : List Row) → AllOf P rs → AllOf P (live_rows now rs)
  unfolding live_rows
  AllOf-live_rows now [] h = tt
  AllOf-live_rows now (r ∷ rs) h = elim (Bool-cases (is_live now r)) [
    | inl o ↦ rw o (h.0, AllOf-live_rows now rs h.1)
    | inr o ↦ rw o (AllOf-live_rows now rs h.1)
  ]

DistinctKeys-insert_created :
    (r : Row) (rs : List Row)
    → AllOf (λ q. same_text r.id q.id ≡ false) rs
    → DistinctKeys row_key rs
    → DistinctKeys row_key (insert_created r rs)
unfolding insert_created
DistinctKeys-insert_created r [] h d = (tt, tt)
DistinctKeys-insert_created r (q ∷ qs) h d = elim (Bool-cases (leb r.created q.created)) [
  | inl o ↦ rw o (h, d)
  | inr o ↦ rw o (
    AllOf-insert_created (λ p. same_text q.id p.id ≡ false) r qs (same_text_sym q.id r.id ∙ h.0)
        d.0,
    DistinctKeys-insert_created r qs h.1 d.1,
  )
]

DistinctKeys-by_created :
    (rs : List Row) → DistinctKeys row_key rs → DistinctKeys row_key (by_created rs)
unfolding by_created
DistinctKeys-by_created [] d = tt
DistinctKeys-by_created (r ∷ rs) d =
    DistinctKeys-insert_created r (by_created rs)
      (AllOf-by_created (λ q. same_text r.id q.id ≡ false) rs d.0) (DistinctKeys-by_created rs d.1)

DistinctKeys-take :
    (n : ℕ) (rs : List Row) → DistinctKeys row_key rs → DistinctKeys row_key (take n rs)
DistinctKeys-take zero rs d = tt
DistinctKeys-take (suc n) [] d = tt
DistinctKeys-take (suc n) (r ∷ rs) d =
    (AllOf-take (λ q. same_text r.id q.id ≡ false) n rs d.0, DistinctKeys-take n rs d.1)

DistinctKeys-rows_of :
    (name : Text) (rs : List Row) → DistinctKeys row_key rs → DistinctKeys row_key (rows_of name rs)
unfolding rows_of
DistinctKeys-rows_of name [] d = tt
DistinctKeys-rows_of name (r ∷ rs) d = ground (
  arith,
  d,
  DistinctKeys-rows_of name rs d.1,
  AllOf-rows_of_plain (λ q. same_text r.id q.id ≡ false) name rs d.0,
)

pub DistinctKeys-live_rows :
    (now : ℕ) (rs : List Row) → DistinctKeys row_key rs → DistinctKeys row_key (live_rows now rs)
unfolding live_rows
DistinctKeys-live_rows now [] d = tt
DistinctKeys-live_rows now (r ∷ rs) d = elim (Bool-cases (is_live now r)) [
  | inl o ↦ rw o (
    AllOf-live_rows (λ q. same_text r.id q.id ≡ false) now rs d.0,
    DistinctKeys-live_rows now rs d.1,
  )
  | inr o ↦ rw o (DistinctKeys-live_rows now rs d.1)
]

pub DistinctKeys-remove_rows :
    (gone rs : List Row) → DistinctKeys row_key rs → DistinctKeys row_key (remove_rows gone rs)
unfolding remove_rows
DistinctKeys-remove_rows [] rs d = d
DistinctKeys-remove_rows (g ∷ gone) rs d =
    DistinctKeys-remove_rows gone (remove row_key g.id rs) (DistinctKeys-remove row_key g.id rs d)

length-insert_created : (r : Row) (rs : List Row) → length (insert_created r rs) ≡ suc (length rs)
unfolding insert_created
length-insert_created r [] = refl
length-insert_created r (q ∷ qs) = ground (arith, length-insert_created r qs)

length-by_created : (rs : List Row) → length (by_created rs) ≡ length rs
unfolding by_created
length-by_created [] = refl
length-by_created (r ∷ rs) = length-insert_created r (by_created rs) ∙ ap suc (length-by_created rs)

-- Without its surplus an account has as many sessions as it may.
pub sessions_of-surplus :
    (name : Text) (rs : List Row)
    → DistinctKeys row_key rs
    → sessions_of name (remove_rows (surplus name rs) rs) ≤ max_per_account
unfolding surplus
sessions_of-surplus name rs d =
    let n = length (rows_of name rs) - max_per_account in
    let mine = by_created (rows_of name rs) in
    let found =
      AllOf-take (λ g. OfAccount name g × (find row_key g.id rs ≡ some g)) n mine
        (AllOf-by_created (λ g. OfAccount name g × (find row_key g.id rs ≡ some g))
          (rows_of name rs)
          (AllOf-rows_of (λ g. find row_key g.id rs ≡ some g) name rs
            (AllOf-found row_key rs d))) in
    let distinct =
      DistinctKeys-take n mine
        (DistinctKeys-by_created (rows_of name rs) (DistinctKeys-rows_of name rs d)) in
    omega (
      arith,
      sessions_of-remove_rows name (take n mine) rs distinct found,
      length-take n mine,
      length-by_created (rows_of name rs),
    )

-- Names that are one in lower case are one account.
pub sessions_of_same :
    (name other : Text) (rs : List Row)
    → same_text (lower name) (lower other) ≡ true
    → sessions_of name rs ≡ sessions_of other rs
unfolding rows_of
sessions_of_same name other [] h = refl
sessions_of_same name other (r ∷ rs) h =
    ground (arith, sessions_of_same name other rs h, same_text→eq (lower name) (lower other) h)

pub sessions_of-live_rows :
    (name : Text) (now : ℕ) (rs : List Row)
    → sessions_of name (live_rows now rs) ≤ sessions_of name rs
unfolding rows_of live_rows
sessions_of-live_rows name now [] = omega arith
sessions_of-live_rows name now (r ∷ rs) = elim (Bool-cases (is_live now r)) [
  | inl o ↦ rw o (ground (arith, sessions_of-live_rows name now rs))
  | inr o ↦ rw o (ground (arith, sessions_of-live_rows name now rs))
]

-- A row of another account is written.
pub sessions_of-put_other :
    (name : Text) (r : Row) (rs : List Row)
    → same_text (lower r.name) (lower name) ≡ false
    → sessions_of name (put row_key r rs) ≤ sessions_of name rs
unfolding rows_of put
sessions_of-put_other name r [] h = ground (arith, h)
sessions_of-put_other name r (q ∷ qs) h = ground (arith, h, sessions_of-put_other name r qs h)

-- A row is written again, for the same account.
pub sessions_of-put_same :
    (name : Text) (r q : Row) (rs : List Row)
    → find row_key r.id rs ≡ some q
    → q.name ≡ r.name
    → sessions_of name (put row_key r rs) ≡ sessions_of name rs
unfolding rows_of put find
sessions_of-put_same name r q [] h e = ground (arith, h)
sessions_of-put_same name r q (p ∷ ps) h e = ground (arith, h, e, sessions_of-put_same name r q ps)
