-- ===== src/Decisions/Newest.antt =====
-- decisions.py: the newest correction of a line is the one that is shown.
use dub_titlerr.Prelude.{
  ℕ, ◌<◌, ◌≡◌, refl, sym, ap, ◌∙◌, Bool, true, false, not, ◌&&◌, Option, none, some, List, [], ◌∷◌,
  if◌then◌else◌, arith, AllOf, Bool-cases, inl, inr, ◌⊎◌,
}
use dub_titlerr.Text.{Text, same_text, strip}
use dub_titlerr.Text.Order.{same_text_refl}
use dub_titlerr.Decisions.{
  Verdict, correct, force, same_verdict, Entry, Given, is_empty, same_pair, put_entry, of_orig,
  with_words, words_of, later_of, latest, chosen, key, ruling, record_verdict, for_orig, entry_of,
  settled, is_dropped, text_in, corrected_text, forced_text,
}

-- Recorded before a time, or at none.
abbrev pub IsOlder : ℕ → Entry → Type 0
IsOlder now e = (t : ℕ) → e.recorded_at ≡ some t → t < now

abbrev pub ShowsWords : Entry → Type 0
ShowsWords e = is_empty (strip (words_of e)) ≡ false

AllOf-of_orig :
    (P : Entry → Type 0) (o : Text) (es : List Entry) → AllOf P es → AllOf P (of_orig o es)
unfolding of_orig
AllOf-of_orig P o [] h = tt
AllOf-of_orig P o (e ∷ es) h = ground (arith, h, AllOf-of_orig P o es h.1)

AllOf-with_words :
    (P : Entry → Type 0) (v : Verdict) (es : List Entry) → AllOf P es → AllOf P (with_words v es)
unfolding with_words
AllOf-with_words P v [] h = tt
AllOf-with_words P v (e ∷ es) h = ground (arith, h, AllOf-with_words P v es h.1)

later_older :
    (now : ℕ) (r : Option ℕ) (e : Entry) (m : Option (ℕ × Entry)) (q : ℕ × Entry)
    → ((t : ℕ) → r ≡ some t → t < now)
    → ((p : ℕ × Entry) → m ≡ some p → p.0 < now)
    → later_of r e m ≡ some q
    → q.0 < now
later_older now none e m q h k l = k q l
later_older now (some t) e none q h k l = ground (arith, h t refl, l)
later_older now (some t) e (some p) q h k l = ground (arith, h t refl, k p refl, l)

latest_older :
    (now : ℕ) (es : List Entry) (q : ℕ × Entry)
    → AllOf (IsOlder now) es
    → latest es ≡ some q
    → q.0 < now
unfolding latest
latest_older now [] q h l = absurd (ground (arith, l))
latest_older now (e ∷ es) q h l =
    later_older now e.recorded_at e (latest es) q h.0 (λ p k. latest_older now es p h.1 k) l

-- The entry is among these, and all others are older.
abbrev HasNewest : ℕ → Entry → List Entry → Type 0
HasNewest now n [] = ⊥
HasNewest now n (e ∷ es) = ((e ≡ n) × AllOf (IsOlder now) es) ⊎ (IsOlder now e × HasNewest now n es)

first_newest :
    (now : ℕ) (n : Entry) (m : Option (ℕ × Entry))
    → ((p : ℕ × Entry) → m ≡ some p → p.0 < now)
    → later_of (some now) n m ≡ some (now, n)
first_newest now n none k = refl
first_newest now n (some p) k = ground (arith, k p refl)

older_first :
    (now : ℕ) (n e : Entry) (r : Option ℕ)
    → ((t : ℕ) → r ≡ some t → t < now)
    → later_of r e (some (now, n)) ≡ some (now, n)
older_first now n e none h = refl
older_first now n e (some t) h = ground (arith, h t refl)

latest-HasNewest :
    (now : ℕ) (n : Entry) (es : List Entry)
    → n.recorded_at ≡ some now
    → HasNewest now n es
    → latest es ≡ some (now, n)
unfolding latest
latest-HasNewest now n [] r h = absurd h
latest-HasNewest now n (e ∷ es) r (inl h) =
    ap (λ d. later_of d.recorded_at d (latest es)) h.0
    ∙ ap (λ d. later_of d n (latest es)) r
    ∙ first_newest now n (latest es) (λ p k. latest_older now es p h.1 k)
latest-HasNewest now n (e ∷ es) r (inr h) =
    ap (λ m. later_of e.recorded_at e m) (latest-HasNewest now n es r h.1)
    ∙ older_first now n e e.recorded_at h.0

chosen-HasNewest :
    (now : ℕ) (n : Entry) (es : List Entry)
    → n.recorded_at ≡ some now
    → HasNewest now n es
    → chosen es ≡ some n
chosen-HasNewest now n [] r h = absurd h
chosen-HasNewest now n (e ∷ []) r (inl h) = ap some h.0
chosen-HasNewest now n (e ∷ []) r (inr h) = absurd h.1
chosen-HasNewest now n (e ∷ d ∷ es) r h = rw (chosen, latest-HasNewest now n (e ∷ d ∷ es) r h) refl

HasNewest-of_orig :
    (now : ℕ) (n : Entry) (es : List Entry)
    → AllOf (IsOlder now) es
    → HasNewest now n (of_orig n.orig (put_entry n es))
unfolding of_orig put_entry
HasNewest-of_orig now n [] h = rw (same_text_refl n.orig) (inl (refl, tt))
HasNewest-of_orig now n (e ∷ es) h = elim (Bool-cases (same_pair n.orig n.proposed e)) [
  | inl k ↦
      rw k (rw (same_text_refl n.orig) (inl (refl, AllOf-of_orig (IsOlder now) n.orig es h.1)))
  | inr k ↦ rw k (elim (Bool-cases (same_text e.orig n.orig)) [
    | inl l ↦ rw l (inr (h.0, HasNewest-of_orig now n es h.1))
    | inr l ↦ rw l (HasNewest-of_orig now n es h.1)
  ])
]

HasNewest-with_words :
    (now : ℕ) (v : Verdict) (n : Entry) (es : List Entry)
    → same_verdict n.verdict v ≡ true
    → ShowsWords n
    → HasNewest now n es
    → HasNewest now n (with_words v es)
unfolding with_words
HasNewest-with_words now v n [] s w h = h
HasNewest-with_words now v n (e ∷ es) s w (inl h) =
    let shown : (same_verdict n.verdict v && not (is_empty (strip (words_of n)))) ≡ true =
      rw (s, w) refl in
    let t = ap (λ d. same_verdict d.verdict v && not (is_empty (strip (words_of d)))) h.0 ∙ shown in
    rw t (inl (h.0, AllOf-with_words (IsOlder now) v es h.1))
HasNewest-with_words now v n (e ∷ es) s w (inr h) =
    elim (Bool-cases (same_verdict e.verdict v && not (is_empty (strip (words_of e))))) [
      | inl k ↦ rw k (inr (h.0, HasNewest-with_words now v n es s w h.1))
      | inr k ↦ rw k (HasNewest-with_words now v n es s w h.1)
    ]

unless_some :
    (b : Bool) (x y : Entry) → ◌≡◌ {A = Option Entry} (if b then none else some x) (some y) → x ≡ y
unless_some b x y h = ground (arith, h)

module _ (lower : Text → Text) (hidden : ℕ → Bool) (now : ℕ) (g : Given) (n : Entry)
    (es : List Entry) (older : AllOf (IsOlder now) es) (made : ruling lower hidden now g ≡ some n)
    (shows : ShowsWords n) where
  orig-settled : (settled lower hidden g).orig ≡ g.orig
  orig-settled =
      elim (Bool-cases (
        same_verdict g.verdict correct
        && same_text (key lower hidden g.words) (key lower hidden g.orig))) [
          | inl e ↦ rw e refl
          | inr e ↦ rw e refl
        ]

  made_of : (n.orig ≡ key lower hidden g.orig) × (n.recorded_at ≡ some now)
  unfolding ruling
  made_of =
      let e =
        unless_some (is_dropped lower hidden (settled lower hidden g))
          (entry_of lower hidden now (settled lower hidden g)) n made in
      (
        sym (ap (λ d. d.orig) e) ∙ ap (key lower hidden) orig-settled,
        sym (ap (λ d. d.recorded_at) e),
      )

  chosen-record :
      (v : Verdict)
      → same_verdict n.verdict v ≡ true
      → chosen (with_words v (for_orig lower hidden (record_verdict lower hidden now g es) g.orig))
        ≡ some n
  unfolding for_orig record_verdict
  chosen-record v s =
      rw (made, ← made_of.0)
        (chosen-HasNewest now n (with_words v (of_orig n.orig (put_entry n es))) made_of.1 (
          HasNewest-with_words now v n (of_orig n.orig (put_entry n es)) s shows
            (HasNewest-of_orig now n es older)))

-- A verdict that is not dropped, with words that show something, later than all in the store, decides
-- what the store says of its line: its words are the correction of the line if it corrects, and the
-- forced wording of the line if it forces.
pub corrected_text-record :
    (lower : Text → Text) (hidden : ℕ → Bool) (now : ℕ) (g : Given) (n : Entry) (es : List Entry)
    → AllOf (IsOlder now) es
    → ruling lower hidden now g ≡ some n
    → ShowsWords n
    → (n.verdict ≡ correct
        → corrected_text lower hidden (record_verdict lower hidden now g es) g.orig ≡ n.words)
      × (n.verdict ≡ force
          → forced_text lower hidden (record_verdict lower hidden now g es) g.orig ≡ n.words)
unfolding corrected_text forced_text
corrected_text-record lower hidden now g n es o m w = (
  λ v.
      ap text_in
        (chosen-record lower hidden now g n es o m w correct (ap (λ u. same_verdict u correct) v)),
  λ v.
      ap text_in
        (chosen-record lower hidden now g n es o m w force (ap (λ u. same_verdict u force) v)),
)
