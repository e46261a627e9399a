-- ===== src/WatchQueue/Matched.antt =====
-- watch_queue.py: what is queued is in the library, and no title is lost.
use dub_titlerr.Prelude.{
  ◌≡◌, refl, true, Option, none, some, List, [], ◌∷◌, arith, AllOf, Bool-cases, Option-cases, inl,
  inr,
}
use dub_titlerr.Text.{Text, one_of}
use dub_titlerr.Text.Order.{same_text_refl}
use dub_titlerr.Text.Table.{find, put, AllOf-put, AllOf-find}
use dub_titlerr.WatchQueue.{
  tier_key, unique, in_tier, keyed_by, with_ids, tvdb_id, by_id, exactly, or_next, resolve_dir,
  untagged, clean_title, fold,
}

members : (ds : List Text) → AllOf (λ d. one_of ds d ≡ true) ds
unfolding one_of
members [] = tt
members (d ∷ ds) = (rw (same_text_refl d) refl, later ds (members ds))
  where
    later :
        (es : List Text)
        → AllOf (λ e. one_of ds e ≡ true) es
        → AllOf (λ e. one_of (d ∷ ds) e ≡ true) es
    later [] h = tt
    later (e ∷ es) h = (ground (arith, h.0), later es h.1)

-- A row of a tier that names a directory names one of these.
abbrev Names : List Text → Text × Option Text → Type 0
Names dirs row = (d : Text) → row.1 ≡ some d → one_of dirs d ≡ true

abbrev Pairs : List Text → Text × Text → Type 0
Pairs dirs p = one_of dirs p.1 ≡ true

AllOf-unique :
    (dirs : List Text) (pairs : List (Text × Text)) (out : List (Text × Option Text))
    → AllOf (Pairs dirs) pairs
    → AllOf (Names dirs) out
    → AllOf (Names dirs) (unique pairs out)
unfolding unique
AllOf-unique dirs [] out h o = o
AllOf-unique dirs ((k, d) ∷ pairs) out h o = elim (Option-cases (find tier_key k out)) [
  | inl e ↦
      rw (unique, e)
        (AllOf-unique dirs pairs (put tier_key (k, some d) out) h.1
          (AllOf-put tier_key (Names dirs) (k, some d) out (λ f q. one_here d f q h.0) o))
  | inr (row, e) ↦
      rw (unique, e)
        (AllOf-unique dirs pairs (put tier_key (k, none) out) h.1
          (AllOf-put tier_key (Names dirs) (k, none) out (λ f q. absurd (none_here f q)) o))
]
  where
    one_here : (d f : Text) → some d ≡ some f → one_of dirs d ≡ true → one_of dirs f ≡ true
    one_here d f q h = ground (arith, q, h)

    none_here : (f : Text) → ◌≡◌ {A = Option Text} none (some f) → ⊥
    none_here f q = ground (arith, q)

in_tier-library :
    (dirs : List Text) (tier : List (Text × Option Text)) (k d : Text)
    → AllOf (Names dirs) tier
    → in_tier k tier ≡ some d
    → one_of dirs d ≡ true
in_tier-library dirs tier k d h e = elim (Option-cases (find tier_key k tier)) [
  | inl f ↦ absurd (ground (arith, rw (in_tier, f) at e))
  | inr (row, f) ↦ (AllOf-find tier_key (Names dirs) k tier row f h).0 d (rw (in_tier, f) at e)
]

AllOf-keyed_by :
    (dirs : List Text) (f : Text → Text) (ds : List Text)
    → AllOf (λ d. one_of dirs d ≡ true) ds
    → AllOf (Pairs dirs) (keyed_by f ds)
unfolding keyed_by
AllOf-keyed_by dirs f [] h = tt
AllOf-keyed_by dirs f (d ∷ ds) h = (h.0, AllOf-keyed_by dirs f ds h.1)

AllOf-with_ids :
    (dirs ds : List Text) → AllOf (λ d. one_of dirs d ≡ true) ds → AllOf (Pairs dirs) (with_ids ds)
unfolding with_ids
AllOf-with_ids dirs [] h = tt
AllOf-with_ids dirs (d ∷ ds) h = elim (Option-cases (tvdb_id d)) [
  | inl e ↦ rw (with_ids, e) (AllOf-with_ids dirs ds h.1)
  | inr (i, e) ↦ rw (with_ids, e) (h.0, AllOf-with_ids dirs ds h.1)
]

or_next-library :
    (dirs : List Text) (o n : Option Text) (d : Text)
    → ((f : Text) → o ≡ some f → one_of dirs f ≡ true)
    → ((f : Text) → n ≡ some f → one_of dirs f ≡ true)
    → or_next o n ≡ some d
    → one_of dirs d ≡ true
or_next-library dirs none n d h k e = k d e
or_next-library dirs (some f) n d h k e = h d e

exactly-library : (dirs : List Text) (t d : Text) → exactly dirs t ≡ some d → one_of dirs d ≡ true
exactly-library dirs t d e = elim (Bool-cases (one_of dirs t)) [
  | inl h ↦ ground (arith, h, rw (exactly, h) at e)
  | inr h ↦ absurd (ground (arith, rw (exactly, h) at e))
]

tier-library :
    (dirs : List Text) (f : Text → Text) (k d : Text)
    → in_tier k (unique (keyed_by f dirs) []) ≡ some d
    → one_of dirs d ≡ true
tier-library dirs f k d e =
    in_tier-library dirs (unique (keyed_by f dirs) []) k d
      (AllOf-unique dirs (keyed_by f dirs) [] (AllOf-keyed_by dirs f dirs (members dirs)) tt) e

by_id-library :
    (dirs : List Text) (o : Option Text) (d : Text) → by_id dirs o ≡ some d → one_of dirs d ≡ true
by_id-library dirs none d e = absurd (ground (arith, e))
by_id-library dirs (some i) d e =
    in_tier-library dirs (unique (with_ids dirs) []) i d
      (AllOf-unique dirs (with_ids dirs) [] (AllOf-with_ids dirs dirs (members dirs)) tt) e

-- What a title resolves to is a directory of the library.
pub resolve_dir-library :
    (casefold : Text → Text) (dirs : List Text) (t d : Text)
    → resolve_dir casefold dirs t ≡ some d
    → one_of dirs d ≡ true
unfolding resolve_dir
resolve_dir-library casefold dirs t d e =
    or_next-library dirs _ _ d (λ f h. by_id-library dirs (tvdb_id t) f h)
      (λ f h.
        or_next-library dirs _ _ f (λ g k. exactly-library dirs t g k)
          (λ g k.
            or_next-library dirs _ _ g (λ u l. exactly-library dirs (untagged t) u l)
              (λ u l.
                or_next-library dirs _ _ u (λ v m. tier-library dirs untagged (untagged t) v m)
                  (λ v m.
                    or_next-library dirs _ _ v
                      (λ w q. tier-library dirs clean_title (clean_title (untagged t)) w q)
                      (λ w q. tier-library dirs (fold casefold) (fold casefold (untagged t)) w q) m)
                  l)
              k)
          h)
      e
