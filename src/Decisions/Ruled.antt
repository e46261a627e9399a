-- ===== src/Decisions/Ruled.antt =====
-- decisions.py: the store as a map from pairs of texts to verdicts, and what it says of a line.
use dub_titlerr.Prelude.{
  ℕ, ◌≡◌, refl, ◌∙◌, Bool, true, Option, none, some, List, [], ◌∷◌, if◌then◌else◌, arith,
  Bool-cases, inl, inr,
}
use dub_titlerr.Text.{Text}
use dub_titlerr.Text.Order.{same_text→eq}
use dub_titlerr.Decisions.{
  Entry, Given, same_pair, put_entry, find_pair, key, ruling, put_if, record_verdict, lookup,
}

same_pair→eq : (o p : Text) (e : Entry) → same_pair o p e ≡ true → (e.orig ≡ o) × (e.proposed ≡ p)
same_pair→eq o p e h =
    (same_text→eq e.orig o (ground (arith, h)), same_text→eq e.proposed p (ground (arith, h)))

same_pair_both :
    (o p : Text) (n e : Entry)
    → same_pair o p n ≡ true
    → same_pair o p e ≡ true
    → same_pair n.orig n.proposed e ≡ true
same_pair_both o p n e h k = let a = same_pair→eq o p n h in rw (a.0) (rw (a.1) k)

same_pair_alike :
    (o p : Text) (n e : Entry)
    → same_pair n.orig n.proposed e ≡ true
    → same_pair o p e ≡ same_pair o p n
same_pair_alike o p n e h = let a = same_pair→eq n.orig n.proposed e h in rw (a.0) (rw (a.1) refl)

find_pair-put_entry :
    (o p : Text) (n : Entry) (es : List Entry)
    → find_pair o p (put_entry n es) ≡ (if same_pair o p n then some n else find_pair o p es)
unfolding find_pair put_entry
find_pair-put_entry o p n [] = refl
find_pair-put_entry o p n (e ∷ es) = elim (Bool-cases (same_pair n.orig n.proposed e)) [
  | inl h ↦
      let s = same_pair_alike o p n e h in
      rw h (elim (Bool-cases (same_pair o p n)) [ inl k ↦ rw (s, k) refl | inr k ↦ rw (s, k) refl ])
  | inr h ↦
      let rest = find_pair-put_entry o p n es in
      rw h (elim (Bool-cases (same_pair o p e)) [
        | inl k ↦ elim (Bool-cases (same_pair o p n)) [
          | inl l ↦ absurd (ground (arith, h, same_pair_both o p n e l k))
          | inr l ↦ rw (k, l) refl
        ]
        | inr k ↦ rw k rest
      ])
]

-- A map of verdicts, and a verdict that takes the place of the one for its pair.
abbrev pub Verdicts : Type 0
Verdicts = Text → Text → Option Entry

abbrev pub ruled : Option Entry → Verdicts → Verdicts
ruled none v o p = v o p
ruled (some n) v o p = if same_pair o p n then some n else v o p

-- Verdicts one after the other, each with its time: on the store, and on a map.
unfoldable pub record_all : (Text → Text) → (ℕ → Bool) → List (ℕ × Given) → List Entry → List Entry
unfolding record_verdict
record_all lower hidden [] es = es
record_all lower hidden ((now, g) ∷ gs) es =
    record_all lower hidden gs (record_verdict lower hidden now g es)

abbrev pub ruled_all : (Text → Text) → (ℕ → Bool) → List (ℕ × Given) → Verdicts → Verdicts
ruled_all lower hidden [] v = v
ruled_all lower hidden ((now, g) ∷ gs) v =
    ruled_all lower hidden gs (ruled (ruling lower hidden now g) v)

module _ (lower : Text → Text) (hidden : ℕ → Bool) where
  find_pair-record :
      (now : ℕ) (g : Given) (es : List Entry) (o p : Text)
      → find_pair o p (record_verdict lower hidden now g es)
        ≡ ruled (ruling lower hidden now g) (λ q r. find_pair q r es) o p
  unfolding record_verdict
  find_pair-record now g es o p = put_if_lem (ruling lower hidden now g) es o p
    where
      put_if_lem :
          (n : Option Entry) (es : List Entry) (o p : Text)
          → find_pair o p (put_if n es) ≡ ruled n (λ q r. find_pair q r es) o p
      put_if_lem none es o p = refl
      put_if_lem (some n) es o p = find_pair-put_entry o p n es

  ruled_all_cong :
      (gs : List (ℕ × Given)) (v w : Verdicts)
      → ((o p : Text) → v o p ≡ w o p)
      → (o p : Text) → ruled_all lower hidden gs v o p ≡ ruled_all lower hidden gs w o p
  ruled_all_cong [] v w h o p = h o p
  ruled_all_cong ((now, g) ∷ gs) v w h o p =
      ruled_all_cong gs (ruled (ruling lower hidden now g) v) (ruled (ruling lower hidden now g) w)
        (λ q r. ruled_cong (ruling lower hidden now g) q r) o p
    where
      ruled_cong : (n : Option Entry) (q r : Text) → ruled n v q r ≡ ruled n w q r
      ruled_cong none q r = h q r
      ruled_cong (some n) q r = rw (h q r) refl

  find_pair-record_all :
      (gs : List (ℕ × Given)) (es : List Entry) (o p : Text)
      → find_pair o p (record_all lower hidden gs es)
        ≡ ruled_all lower hidden gs (λ q r. find_pair q r es) o p
  unfolding record_all
  find_pair-record_all [] es o p = refl
  find_pair-record_all ((now, g) ∷ gs) es o p =
      find_pair-record_all gs (record_verdict lower hidden now g es) o p
      ∙ ruled_all_cong gs _ _ (λ q r. find_pair-record now g es q r) o p

-- The store is a map from pairs of keys to verdicts: after any verdicts, looking a pair up gives what
-- a map gives in which each verdict that is not dropped takes the place of the one for its pair, and
-- no other.
pub lookup-record_all :
    (lower : Text → Text) (hidden : ℕ → Bool) (gs : List (ℕ × Given)) (es : List Entry) (o p : Text)
    → lookup lower hidden (record_all lower hidden gs es) o p
      ≡ ruled_all lower hidden gs
          (λ q r. find_pair q r es)
          (key lower hidden o)
          (key lower hidden p)
unfolding lookup
lookup-record_all lower hidden gs es o p =
    find_pair-record_all lower hidden gs es (key lower hidden o) (key lower hidden p)
