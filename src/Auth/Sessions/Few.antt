-- ===== src/Auth/Sessions/Few.antt =====
-- review_auth.py: what a session store keeps of its rows, and the file that it reads back.
use dub_titlerr.Prelude.{
  ℕ, ◌≤◌, ◌≡◌, refl, sym, ap, ◌∙◌, false, some, List, [], ◌∷◌, ◌++◌, append_assoc, append-nil,
  arith, AllOf, Bool-cases, inl, inr,
}
use dub_titlerr.Text.{Text, same_text}
use dub_titlerr.Text.Order.{same_text→eq}
use dub_titlerr.Text.Lower.{lower}
use dub_titlerr.Text.Table.{
  find, put, remove, AllOf-find, DistinctKeys, DistinctKeys-remove, DistinctKeys-put,
}
use dub_titlerr.Auth.Sessions.{
  Row, Store, row_key, rows_of_lines, rows_of_file, held, live_rows, as_lines, remove_rows, surplus,
  rows_of, max_per_account,
}
use dub_titlerr.Auth.Sessions.Capped.{
  sessions_of, sessions_of-remove_le, sessions_of-remove_rows_le, sessions_of-surplus,
  sessions_of_same, sessions_of-live_rows, sessions_of-put_other, sessions_of-put_same,
  DistinctKeys-live_rows, DistinctKeys-remove_rows,
}

-- Each id stands once, and no account has more than MAX_PER_ACCOUNT sessions.
abbrev pub AreFew : List Row → Type 0
AreFew rs = DistinctKeys row_key rs × ((name : Text) → sessions_of name rs ≤ max_per_account)

-- So in memory and in the file.
abbrev pub IsCapped : Store → Type 0
IsCapped s = AreFew (held s) × AreFew (rows_of_file s.file)

pub AreFew-nil : AreFew []
unfolding rows_of
AreFew-nil = (tt, λ name. omega arith)

pub AreFew-remove : (id : Text) (rs : List Row) → AreFew rs → AreFew (remove row_key id rs)
AreFew-remove id rs f = (
  DistinctKeys-remove row_key id rs f.0,
  λ name. omega (arith, sessions_of-remove_le name id rs, f.1 name),
)

pub AreFew-remove_rows : (gone rs : List Row) → AreFew rs → AreFew (remove_rows gone rs)
AreFew-remove_rows gone rs f = (
  DistinctKeys-remove_rows gone rs f.0,
  λ name. omega (arith, sessions_of-remove_rows_le name gone rs, f.1 name),
)

pub AreFew-live_rows : (now : ℕ) (rs : List Row) → AreFew rs → AreFew (live_rows now rs)
AreFew-live_rows now rs f = (
  DistinctKeys-live_rows now rs f.0,
  λ name. omega (arith, sessions_of-live_rows name now rs, f.1 name),
)

-- A new row, and the surplus of its account gone.
capped_count :
    (name : Text) (r : Row) (rs : List Row)
    → AreFew rs
    → sessions_of name (remove_rows (surplus r.name (put row_key r rs)) (put row_key r rs))
      ≤ max_per_account
capped_count name r rs f = elim (Bool-cases (same_text (lower r.name) (lower name))) [
  | inl e ↦
      rw
        (sym (
          sessions_of_same r.name name
            (remove_rows (surplus r.name (put row_key r rs)) (put row_key r rs)) e))
        (sessions_of-surplus r.name (put row_key r rs) (DistinctKeys-put row_key r rs f.0))
  | inr e ↦ omega (
    arith,
    f.1 name,
    sessions_of-put_other name r rs e,
    sessions_of-remove_rows_le name (surplus r.name (put row_key r rs)) (put row_key r rs),
  )
]

pub AreFew-with_row :
    (r : Row) (rs : List Row)
    → AreFew rs
    → AreFew (remove_rows (surplus r.name (put row_key r rs)) (put row_key r rs))
AreFew-with_row r rs f = (
  DistinctKeys-remove_rows (surplus r.name (put row_key r rs)) (put row_key r rs)
      (DistinctKeys-put row_key r rs f.0),
  λ name. capped_count name r rs f,
)

all_units : (rs : List Row) → AllOf (λ q. Unit {0}) rs
all_units [] = tt
all_units (r ∷ rs) = (tt, all_units rs)

pub AreFew-seen :
    (now : ℕ) (id : Text) (r : Row) (rs : List Row)
    → find row_key id rs ≡ some r
    → AreFew rs
    → AreFew (put row_key (record r { last_seen = now }) rs)
AreFew-seen now id r rs h f =
    let e = same_text→eq r.id id (AllOf-find row_key (λ q. Unit {0}) id rs r h (all_units rs)).1 in
    (
      DistinctKeys-put row_key (record r { last_seen = now }) rs f.0,
      λ name. omega (
        arith,
        f.1 name,
        sessions_of-put_same name (record r { last_seen = now }) r rs
            (ap (λ k. find row_key k rs) e ∙ h) refl,
      ),
    )

put_new :
    (r : Row) (rs : List Row)
    → AllOf (λ q. same_text q.id r.id ≡ false) rs
    → put row_key r rs ≡ rs ++ r ∷ []
unfolding put
put_new r [] h = refl
put_new r (q ∷ qs) h = rw (h.0) (ap (λ t. q ∷ t) (put_new r qs h.1))

AllOf-middle {ℓ} :
    (P : Row → Type ℓ) (before : List Row) (r : Row) (rs : List Row)
    → AllOf P (before ++ r ∷ rs)
    → P r
AllOf-middle P [] r rs h = h.0
AllOf-middle P (b ∷ bs) r rs h = AllOf-middle P bs r rs h.1

apart :
    (before : List Row) (r : Row) (rs : List Row)
    → DistinctKeys row_key (before ++ r ∷ rs)
    → AllOf (λ q. same_text q.id r.id ≡ false) before
apart [] r rs d = tt
apart (b ∷ bs) r rs d =
    (AllOf-middle (λ q. same_text b.id q.id ≡ false) bs r rs d.0, apart bs r rs d.1)

-- The rows that are written are the rows that are read.
pub rows_of_lines-as_lines :
    (before rs : List Row)
    → DistinctKeys row_key (before ++ rs)
    → rows_of_lines before (as_lines rs) ≡ before ++ rs
unfolding rows_of_lines as_lines
rows_of_lines-as_lines before [] d = sym (append-nil before)
rows_of_lines-as_lines before (r ∷ rs) d =
    ap (λ b. rows_of_lines b (as_lines rs)) (put_new r before (apart before r rs d))
    ∙ rows_of_lines-as_lines (before ++ r ∷ []) rs (rw (append_assoc before (r ∷ []) rs) d)
    ∙ append_assoc before (r ∷ []) rs
