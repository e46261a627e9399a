-- ===== src/Text/Table.antt =====
-- A Python dict as a list of rows in its order, each with a key; and what a write or a deletion
-- does to the rows of the other keys.
use dub_titlerr.Prelude.{
  ◌≡◌, refl, true, false, Option, none, some, List, [], ◌∷◌, if◌then◌else◌, arith, AllOf,
  Bool-cases, inl, inr,
}
use dub_titlerr.Text.{Text, same_text}
use dub_titlerr.Text.Order.{same_text_refl, same_text→eq}

module _ {ℓ} {A : Type ℓ} (key : A → Text) where
  -- d.get(k)
  unfoldable pub find : Text → List A → Option A
  unfolding same_text
  find k [] = none
  find k (x ∷ xs) = let rest = find k xs in if same_text (key x) k then some x else rest

  -- d[key(row)] = row: at the place of the key, or behind the others
  unfoldable pub put : A → List A → List A
  unfolding same_text
  put x [] = x ∷ []
  put x (y ∷ ys) = let rest = put x ys in if same_text (key y) (key x) then x ∷ ys else y ∷ rest

  -- d.pop(k, None)
  unfoldable pub remove : Text → List A → List A
  unfolding same_text
  remove k [] = []
  remove k (x ∷ xs) = let rest = remove k xs in if same_text (key x) k then rest else x ∷ rest

  pub find-put_self : (x : A) (xs : List A) → find (key x) (put x xs) ≡ some x
  unfolding find put
  find-put_self x [] = ground (arith, same_text_refl (key x))
  find-put_self x (y ∷ ys) = ground (arith, same_text_refl (key x), find-put_self x ys)

  pub find-put_other :
      (k : Text) (x : A) (xs : List A) → same_text (key x) k ≡ false → find k (put x xs) ≡ find k xs
  unfolding find put
  find-put_other k x [] h = ground (arith, h)
  find-put_other k x (y ∷ ys) h =
      ground (arith, h, find-put_other k x ys h, same_text→eq (key y) (key x))

  pub find-remove_self : (k : Text) (xs : List A) → find k (remove k xs) ≡ none
  unfolding find remove
  find-remove_self k [] = refl
  find-remove_self k (x ∷ xs) = ground (arith, find-remove_self k xs)

  pub find-remove_other :
      (k n : Text) (xs : List A) → same_text k n ≡ false → find n (remove k xs) ≡ find n xs
  unfolding find remove
  find-remove_other k n [] h = refl
  find-remove_other k n (x ∷ xs) h = ground (
    arith,
    h,
    find-remove_other k n xs h,
    same_text→eq (key x) k,
    same_text→eq (key x) n,
    same_text_refl n,
  )

  pub AllOf-put {κ} : (P : A → Type κ) (x : A) (xs : List A) → P x → AllOf P xs → AllOf P (put x xs)
  unfolding put
  AllOf-put P x [] p h = (p, tt)
  AllOf-put P x (y ∷ ys) p h = ground (arith, p, h, AllOf-put P x ys p h.1)

  pub AllOf-remove {κ} :
      (P : A → Type κ) (k : Text) (xs : List A) → AllOf P xs → AllOf P (remove k xs)
  unfolding remove
  AllOf-remove P k [] h = tt
  AllOf-remove P k (x ∷ xs) h = ground (arith, h, AllOf-remove P k xs h.1)

  -- A row that is found is one of the rows, under its key.
  pub AllOf-find {κ} :
      (P : A → Type κ) (k : Text) (xs : List A) (x : A)
      → find k xs ≡ some x
      → AllOf P xs
      → P x × (same_text (key x) k ≡ true)
  unfolding find
  AllOf-find P k [] x e h = ground (arith, e)
  AllOf-find P k (y ∷ ys) x e h = ground (arith, e, h, AllOf-find P k ys x)

  -- No two rows have one key.
  abbrev pub DistinctKeys : List A → Type 0
  DistinctKeys [] = Unit
  DistinctKeys (x ∷ xs) = AllOf (λ y. same_text (key x) (key y) ≡ false) xs × DistinctKeys xs

  pub DistinctKeys-remove : (k : Text) (xs : List A) → DistinctKeys xs → DistinctKeys (remove k xs)
  unfolding remove
  DistinctKeys-remove k [] d = tt
  DistinctKeys-remove k (x ∷ xs) d = ground (
    arith,
    d,
    DistinctKeys-remove k xs d.1,
    AllOf-remove (λ y. same_text (key x) (key y) ≡ false) k xs d.0,
  )

  pub DistinctKeys-put : (x : A) (xs : List A) → DistinctKeys xs → DistinctKeys (put x xs)
  unfolding put
  DistinctKeys-put x [] d = (tt, tt)
  DistinctKeys-put x (y ∷ ys) d = elim (Bool-cases (same_text (key y) (key x))) [
    | inl e ↦ rw e (rw (← same_text→eq (key y) (key x) e) d.0, d.1)
    | inr e ↦
        rw e
          (AllOf-put (λ z. same_text (key y) (key z) ≡ false) x ys e d.0, DistinctKeys-put x ys d.1)
  ]

  AllOf-found_later :
      (x : A) (xs ys : List A)
      → AllOf (λ y. same_text (key x) (key y) ≡ false) ys
      → AllOf (λ y. find (key y) xs ≡ some y) ys
      → AllOf (λ y. find (key y) (x ∷ xs) ≡ some y) ys
  unfolding find
  AllOf-found_later x xs [] d h = tt
  AllOf-found_later x xs (y ∷ ys) d h = (rw (d.0) h.0, AllOf-found_later x xs ys d.1 h.1)

  -- Each row is found under its key.
  pub AllOf-found : (xs : List A) → DistinctKeys xs → AllOf (λ x. find (key x) xs ≡ some x) xs
  unfolding find
  AllOf-found [] d = tt
  AllOf-found (x ∷ xs) d =
      (rw (same_text_refl (key x)) refl, AllOf-found_later x xs xs d.0 (AllOf-found xs d.1))
