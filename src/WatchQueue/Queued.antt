-- ===== src/WatchQueue/Queued.antt =====
-- watch_queue.py: what match_dirs makes of the titles.
use dub_titlerr.Prelude.{
  ℕ, ◌≡◌, refl, sym, ap, ◌∙◌, true, false, ◌&&◌, ◌||◌, Option, none, some, List, [], ◌∷◌, ◌++◌, max,
  ltb, ◌==◌, arith, AllOf, AllOf-map, Bool-cases, Option-cases, inl, inr,
}
use dub_titlerr.Text.{Text, same_text, one_of, text_le}
use dub_titlerr.Text.Order.{same_text_refl, same_text→eq, same_text_sym}
use dub_titlerr.Text.Table.{find, put, AllOf-put, DistinctKeys, DistinctKeys-put}
use dub_titlerr.Ordering.{insert_by, sort_by}
use dub_titlerr.WatchQueue.{
  merged, insert_hit, sort_hits, names, match_all, resolve_dir, match_dirs,
}
use dub_titlerr.WatchQueue.Matched.{resolve_dir-library}

abbrev hit_key : Text × ℕ → Text
hit_key row = row.0

one_of-append :
    (ts : List Text) (t u : Text) → one_of (ts ++ t ∷ []) u ≡ (one_of ts u || same_text u t)
unfolding one_of
one_of-append [] t u = ground arith
one_of-append (s ∷ ts) t u = ground (arith, one_of-append ts t u)

one_of-put :
    (p : Text × ℕ) (hits : List (Text × ℕ)) (u : Text)
    → one_of (names (put hit_key p hits)) u ≡ (same_text u p.0 || one_of (names hits) u)
unfolding one_of put
one_of-put p [] u = refl
one_of-put p (q ∷ qs) u = elim (Bool-cases (same_text q.0 p.0)) [
  | inl e ↦ rw e (rw (same_text→eq q.0 p.0 e) (ground arith))
  | inr e ↦ rw e (ground (arith, one_of-put p qs u))
]

one_of-insert_hit :
    (p : Text × ℕ) (hits : List (Text × ℕ)) (u : Text)
    → one_of (names (insert_hit p hits)) u ≡ (same_text u p.0 || one_of (names hits) u)
unfolding one_of insert_hit
one_of-insert_hit p [] u = refl
one_of-insert_hit p (q ∷ qs) u = elim (Bool-cases (ltb q.1 p.1 || p.1 == q.1 && text_le p.0 q.0)) [
  | inl e ↦ rw e refl
  | inr e ↦ rw e (ground (arith, one_of-insert_hit p qs u))
]

one_of-sort_hits :
    (hits : List (Text × ℕ)) (u : Text) → one_of (names (sort_hits hits)) u ≡ one_of (names hits) u
unfolding one_of sort_hits
one_of-sort_hits [] u = refl
one_of-sort_hits (p ∷ ps) u =
    one_of-insert_hit p (sort_hits ps) u ∙ ap (λ b. same_text u p.0 || b) (one_of-sort_hits ps u)

one_of-insert_by :
    (t : Text) (ts : List Text) (u : Text)
    → one_of (insert_by text_le t ts) u ≡ (same_text u t || one_of ts u)
unfolding one_of insert_by
one_of-insert_by t [] u = refl
one_of-insert_by t (s ∷ ts) u = elim (Bool-cases (text_le t s)) [
  | inl e ↦ rw e refl
  | inr e ↦ rw e (ground (arith, one_of-insert_by t ts u))
]

one_of-sort_by : (ts : List Text) (u : Text) → one_of (sort_by text_le ts) u ≡ one_of ts u
unfolding one_of sort_by
one_of-sort_by [] u = refl
one_of-sort_by (t ∷ ts) u =
    one_of-insert_by t (sort_by text_le ts) u ∙ ap (λ b. same_text u t || b) (one_of-sort_by ts u)

AllOf-insert_hit :
    (P : Text × ℕ → Type 0) (p : Text × ℕ) (hits : List (Text × ℕ))
    → P p
    → AllOf P hits
    → AllOf P (insert_hit p hits)
unfolding insert_hit
AllOf-insert_hit P p [] x h = (x, tt)
AllOf-insert_hit P p (q ∷ qs) x h = ground (arith, x, h, AllOf-insert_hit P p qs x h.1)

AllOf-sort_hits :
    (P : Text × ℕ → Type 0) (hits : List (Text × ℕ)) → AllOf P hits → AllOf P (sort_hits hits)
unfolding sort_hits
AllOf-sort_hits P [] h = tt
AllOf-sort_hits P (p ∷ ps) h = AllOf-insert_hit P p (sort_hits ps) h.0 (AllOf-sort_hits P ps h.1)

AllOf-names :
    (P : Text → Type 0) (hits : List (Text × ℕ)) → AllOf (λ h. P h.0) hits → AllOf P (names hits)
AllOf-names P [] h = tt
AllOf-names P (p ∷ ps) h = (h.0, AllOf-names P ps h.1)

-- Where a title is after the match.
abbrev pub IsPlaced : List Text → List Text → Text → Option Text → Type 0
IsPlaced order misses t none = (one_of misses t ≡ true)
IsPlaced order misses t (some d) = (one_of order d ≡ true)

module _ (resolve : Text → Option Text) where
  -- A directory that is queued stays so, and a title that is reported too.
  match_all_grows :
      (titles hits : List (Text × ℕ)) (misses : List Text) (u : Text)
      → (one_of (names hits) u ≡ true
          → one_of (names (match_all resolve titles hits misses).0) u ≡ true)
        × (one_of misses u ≡ true → one_of (match_all resolve titles hits misses).1 u ≡ true)
  unfolding match_all merged
  match_all_grows [] hits misses u = (λ h. h, λ h. h)
  match_all_grows ((t, ts) ∷ titles) hits misses u = elim (Option-cases (resolve t)) [
    | inl e ↦
        let rest = match_all_grows titles hits (misses ++ t ∷ []) u in
        rw (match_all, e) (rest.0, λ h. rest.1 (one_of-append misses t u ∙ rw h refl))
    | inr (d, e) ↦
        let now = max (elim (find hit_key d hits) [ none ↦ 0 | some row ↦ row.1 ]) ts in
        let rest = match_all_grows titles (put hit_key (d, now) hits) misses u in
        rw (match_all, e) (λ h. rest.0 (one_of-put (d, now) hits u ∙ ground (arith, h)), rest.1)
  ]

  match_all_missed :
      (t : Text) (ts : ℕ) (titles hits : List (Text × ℕ)) (misses : List Text)
      → resolve t ≡ none
      → match_all resolve ((t, ts) ∷ titles) hits misses
        ≡ match_all resolve titles hits (misses ++ t ∷ [])
  unfolding match_all
  match_all_missed t ts titles hits misses e = rw (match_all, e) refl

  match_all_hit :
      (t d : Text) (ts : ℕ) (titles hits : List (Text × ℕ)) (misses : List Text)
      → resolve t ≡ some d
      → match_all resolve ((t, ts) ∷ titles) hits misses
        ≡ match_all resolve titles (merged ((d, ts) ∷ []) hits) misses
  unfolding match_all
  match_all_hit t d ts titles hits misses e = rw (match_all, e) refl

  one_of-merged :
      (d : Text) (ts : ℕ) (hits : List (Text × ℕ))
      → one_of (names (merged ((d, ts) ∷ []) hits)) d ≡ true
  unfolding merged
  one_of-merged d ts hits = one_of-put (d, _) hits d ∙ rw (same_text_refl d) refl

  match_all-AllOf :
      (titles hits : List (Text × ℕ)) (misses : List Text) (r : List (Text × ℕ) × List Text)
      → match_all resolve titles hits misses ≡ r
      → AllOf (λ row. IsPlaced (names r.0) r.1 row.0 (resolve row.0)) titles
  match_all-AllOf [] hits misses r q = tt
  match_all-AllOf ((t, ts) ∷ titles) hits misses r q = elim (Option-cases (resolve t)) [
    | inl e ↦
        let after = sym (match_all_missed t ts titles hits misses e) ∙ q in
        (
          rw e (
              ap (λ a. one_of a.1 t) (sym after)
              ∙ (match_all_grows titles hits (misses ++ t ∷ []) t).1
                  (one_of-append misses t t ∙ rw (same_text_refl t) (ground arith))),
          match_all-AllOf titles hits (misses ++ t ∷ []) r after,
        )
    | inr (d, e) ↦
        let after = sym (match_all_hit t d ts titles hits misses e) ∙ q in
        (
          rw e (
              ap (λ a. one_of (names a.0) d) (sym after)
              ∙ (match_all_grows titles (merged ((d, ts) ∷ []) hits) misses d).0
                  (one_of-merged d ts hits)),
          match_all-AllOf titles (merged ((d, ts) ∷ []) hits) misses r after,
        )
  ]

  -- The hits are directories, each once.
  match_all-IsSound :
      (P : Text → Type 0) (titles hits : List (Text × ℕ)) (misses : List Text)
      → ((t d : Text) → resolve t ≡ some d → P d)
      → AllOf (λ h. P h.0) hits × DistinctKeys hit_key hits
      → AllOf (λ h. P h.0) (match_all resolve titles hits misses).0
        × DistinctKeys hit_key (match_all resolve titles hits misses).0
  unfolding match_all merged
  match_all-IsSound P [] hits misses f h = h
  match_all-IsSound P ((t, ts) ∷ titles) hits misses f h = elim (Option-cases (resolve t)) [
    | inl e ↦ rw (match_all, e) (match_all-IsSound P titles hits (misses ++ t ∷ []) f h)
    | inr (d, e) ↦
        let now = max (elim (find hit_key d hits) [ none ↦ 0 | some row ↦ row.1 ]) ts in
        rw (match_all, e)
          (match_all-IsSound P titles (put hit_key (d, now) hits) misses f (
            AllOf-put hit_key (λ h. P h.0) (d, now) hits (f t d e) h.0,
            DistinctKeys-put hit_key (d, now) hits h.1,
          ))
  ]

DistinctKeys-insert_hit :
    (p : Text × ℕ) (hits : List (Text × ℕ))
    → AllOf (λ q. same_text p.0 q.0 ≡ false) hits
    → DistinctKeys hit_key hits
    → DistinctKeys hit_key (insert_hit p hits)
unfolding insert_hit
DistinctKeys-insert_hit p [] h d = (tt, tt)
DistinctKeys-insert_hit p (q ∷ qs) h d = ground (
  arith,
  h,
  d,
  DistinctKeys-insert_hit p qs h.1 d.1,
  AllOf-insert_hit (λ r. same_text q.0 r.0 ≡ false) p qs (same_text_sym q.0 p.0 ∙ h.0) d.0,
)

DistinctKeys-sort_hits :
    (hits : List (Text × ℕ)) → DistinctKeys hit_key hits → DistinctKeys hit_key (sort_hits hits)
unfolding sort_hits
DistinctKeys-sort_hits [] d = tt
DistinctKeys-sort_hits (p ∷ ps) d =
    DistinctKeys-insert_hit p (sort_hits ps)
      (AllOf-sort_hits (λ q. same_text p.0 q.0 ≡ false) ps d.0) (DistinctKeys-sort_hits ps d.1)

DistinctKeys-names :
    (hits : List (Text × ℕ)) → DistinctKeys hit_key hits → DistinctKeys (λ t. t) (names hits)
DistinctKeys-names [] d = tt
DistinctKeys-names (p ∷ ps) d =
    (AllOf-names (λ t. same_text p.0 t ≡ false) ps d.0, DistinctKeys-names ps d.1)

IsPlaced-sort_hits :
    (hits : List (Text × ℕ)) (misses : List Text) (t : Text) (o : Option Text)
    → IsPlaced (names hits) misses t o
    → IsPlaced (names (sort_hits hits)) (sort_by text_le misses) t o
IsPlaced-sort_hits hits misses t none h = one_of-sort_by misses t ∙ h
IsPlaced-sort_hits hits misses t (some d) h = one_of-sort_hits hits d ∙ h

-- The order of the queue holds directories of the library only, each of them once; and each title
-- that was watched is either in it with the directory that it resolves to, or among the titles that
-- are reported as not matched.
pub match_dirs-IsMatched :
    (casefold : Text → Text) (titles : List (Text × ℕ)) (dirs : List Text)
    → AllOf (λ d. one_of dirs d ≡ true) (match_dirs casefold titles dirs).0
      × DistinctKeys (λ d. d) (match_dirs casefold titles dirs).0
      × AllOf
          (λ row.
            IsPlaced
              (match_dirs casefold titles dirs).0
              (match_dirs casefold titles dirs).1
              row.0
              (resolve_dir casefold dirs row.0))
          titles
unfolding match_dirs
match_dirs-IsMatched casefold titles dirs =
    let r = match_all (resolve_dir casefold dirs) titles [] [] in
    let sound =
      match_all-IsSound (resolve_dir casefold dirs) (λ d. one_of dirs d ≡ true) titles [] []
        (λ t d e. resolve_dir-library casefold dirs t d e) (tt, tt) in
    (
      AllOf-names (λ d. one_of dirs d ≡ true) (sort_hits r.0)
          (AllOf-sort_hits (λ h. one_of dirs h.0 ≡ true) r.0 sound.0),
      DistinctKeys-names (sort_hits r.0) (DistinctKeys-sort_hits r.0 sound.1),
      AllOf-map titles
          (λ row h. IsPlaced-sort_hits r.0 r.1 row.0 (resolve_dir casefold dirs row.0) h)
          (match_all-AllOf (resolve_dir casefold dirs) titles [] [] r refl),
    )
