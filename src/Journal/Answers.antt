-- ===== src/Journal/Answers.antt =====
-- adjudication_journal.py: compaction changes no answer, from its time on.
use dub_titlerr.Prelude.{
  AllOf, ℕ, ◌≤◌, ◌≡◌, refl, sym, ap, ◌∙◌, false, Option, none, some, List, [], ◌∷◌, arith,
  if◌then◌else◌, Bool-cases, inl, inr,
}
use dub_titlerr.Text.{Text, same_text}
use dub_titlerr.Text.Order.{same_text→eq, same_text_sym}
use dub_titlerr.Text.Table.{put, DistinctKeys, DistinctKeys-put}
use dub_titlerr.Journal.{
  Entry, Line, find_entry, put_entry, read_lines, put_all, load, is_fresh, answer_of,
}
use dub_titlerr.Journal.Compact.{sooner, insert_sooner, kept_sorted}
use dub_titlerr.Journal.Durable.{find_entry-put_entry, find_entry-put_other}
use dub_titlerr.Journal.Kept.{AllOf-insert_sooner, AllOf-kept_sorted}

abbrev pub entry_key : Entry → Text
entry_key e = e.key

put_entry-put : (e : Entry) (es : List Entry) → put_entry e es ≡ put entry_key e es
unfolding put_entry put
put_entry-put e [] = refl
put_entry-put e (f ∷ fs) = ground (arith, put_entry-put e fs)

DistinctKeys-put_all :
    (es d : List Entry) → DistinctKeys entry_key d → DistinctKeys entry_key (put_all es d)
unfolding put_all
DistinctKeys-put_all [] d h = h
DistinctKeys-put_all (e ∷ es) d h =
    DistinctKeys-put_all es (put_entry e d)
      (rw (put_entry-put e d) (DistinctKeys-put entry_key e d h))

pub DistinctKeys-load : (stage : Text) (ls : List Line) → DistinctKeys entry_key (load stage ls)
unfolding load
DistinctKeys-load stage ls = DistinctKeys-put_all (read_lines stage ls) [] tt

-- No entry has the key.
abbrev Lacks : Text → List Entry → Type 0
Lacks k es = AllOf (λ e. same_text k e.key ≡ false) es

find_entry-Lacks : (k : Text) (es : List Entry) → Lacks k es → find_entry k es ≡ none
unfolding find_entry
find_entry-Lacks k [] h = refl
find_entry-Lacks k (e ∷ es) h = ground (arith, h, same_text_sym k e.key, find_entry-Lacks k es h.1)

find_entry-insert_sooner :
    (k : Text) (e : Entry) (es : List Entry)
    → Lacks e.key es
    → find_entry k (insert_sooner e es) ≡ (if same_text e.key k then some e else find_entry k es)
unfolding find_entry insert_sooner
find_entry-insert_sooner k e [] h = refl
find_entry-insert_sooner k e (f ∷ fs) h = elim (Bool-cases (sooner e f)) [
  | inl s ↦ rw s refl
  | inr s ↦ rw s (
      ground (
        arith,
        find_entry-insert_sooner k e fs h.1,
        h.0,
        same_text→eq f.key k,
        same_text→eq e.key k,
        same_text_sym e.key f.key,
      ))
]

DistinctKeys-insert_sooner :
    (e : Entry) (es : List Entry)
    → Lacks e.key es
    → DistinctKeys entry_key es
    → DistinctKeys entry_key (insert_sooner e es)
unfolding insert_sooner
DistinctKeys-insert_sooner e [] h d = (tt, tt)
DistinctKeys-insert_sooner e (f ∷ fs) h d = elim (Bool-cases (sooner e f)) [
  | inl s ↦ rw s (h, d)
  | inr s ↦ rw s (
    AllOf-insert_sooner (λ g. same_text f.key g.key ≡ false) e fs
        (sym (same_text_sym e.key f.key) ∙ h.0) d.0,
    DistinctKeys-insert_sooner e fs h.1 d.1,
  )
]

DistinctKeys-kept_sorted :
    (clock max_age : ℕ) (es : List Entry)
    → DistinctKeys entry_key es
    → DistinctKeys entry_key (kept_sorted clock max_age es)
unfolding kept_sorted
DistinctKeys-kept_sorted clock max_age [] d = tt
DistinctKeys-kept_sorted clock max_age (e ∷ es) d =
    elim (Bool-cases (is_fresh clock max_age e.at)) [
      | inl k ↦ rw k (
          DistinctKeys-insert_sooner e (kept_sorted clock max_age es)
            (AllOf-kept_sorted (λ f. same_text e.key f.key ≡ false) clock max_age es d.0)
            (DistinctKeys-kept_sorted clock max_age es d.1))
      | inr k ↦ rw k (DistinctKeys-kept_sorted clock max_age es d.1)
    ]

-- What has expired at one time has expired later.
expired-later :
    (clock later max_age : ℕ) (at : Option ℕ)
    → clock ≤ later
    → is_fresh clock max_age at ≡ false
    → is_fresh later max_age at ≡ false
expired-later clock later max_age none l h = refl
expired-later clock later max_age (some at) l h = ground (arith, l, h)

answer_of-expired :
    (later max_age : ℕ) (p : Text) (e : Entry)
    → is_fresh later max_age e.at ≡ false
    → answer_of later max_age p (some e) ≡ none
answer_of-expired later max_age p e h = ground (arith, h)

module _ (clock later max_age : ℕ) (k p : Text) where
  answer_of-kept_sorted :
      (es : List Entry)
      → clock ≤ later
      → DistinctKeys entry_key es
      → answer_of later max_age p (find_entry k (kept_sorted clock max_age es))
        ≡ answer_of later max_age p (find_entry k es)
  unfolding kept_sorted find_entry
  answer_of-kept_sorted [] l d = refl
  answer_of-kept_sorted (e ∷ es) l d =
      let ih = answer_of-kept_sorted es l d.1 in
      let lacks = AllOf-kept_sorted (λ f. same_text e.key f.key ≡ false) clock max_age es d.0 in
      elim (Bool-cases (is_fresh clock max_age e.at)) [
        | inl f ↦
            rw (f, find_entry-insert_sooner k e (kept_sorted clock max_age es) lacks)
              (elim (Bool-cases (same_text e.key k)) [ inl q ↦ rw q refl | inr q ↦ rw q ih ])
        | inr f ↦ rw f (elim (Bool-cases (same_text e.key k)) [
          | inl q ↦
              let gone = expired-later clock later max_age e.at l f in
              let same = same_text→eq e.key k q in
              rw q (
                ap (answer_of later max_age p)
                  (find_entry-Lacks k (kept_sorted clock max_age es) (rw (← same) lacks))
                ∙ sym (answer_of-expired later max_age p e gone))
          | inr q ↦ rw q ih
        ])
      ]

-- The first of two that is there.
abbrev first_of : Option Entry → Option Entry → Option Entry
first_of (some e) other = some e
first_of none other = other

find_entry-put_all :
    (k : Text) (es d : List Entry)
    → DistinctKeys entry_key es
    → find_entry k (put_all es d) ≡ first_of (find_entry k es) (find_entry k d)
unfolding find_entry put_all
find_entry-put_all k [] d h = refl
find_entry-put_all k (e ∷ es) d h =
    find_entry-put_all k es (put_entry e d) h.1 ∙ elim (Bool-cases (same_text e.key k)) [
      | inl q ↦
          let same = same_text→eq e.key k q in
          rw (q, find_entry-Lacks k es (rw (← same) h.0)) (rw (← same) (find_entry-put_entry e d))
      | inr q ↦ rw (q, find_entry-put_other k e d q) refl
    ]

first_of-none : (o : Option Entry) → first_of o none ≡ o
first_of-none none = refl
first_of-none (some e) = refl

-- Every question is answered as before by the dictionary of what is kept.
pub answer_of-compacted :
    (clock later max_age : ℕ) (k p : Text) (es : List Entry)
    → clock ≤ later
    → DistinctKeys entry_key es
    → answer_of later max_age p (find_entry k (put_all (kept_sorted clock max_age es) []))
      ≡ answer_of later max_age p (find_entry k es)
unfolding find_entry
answer_of-compacted clock later max_age k p es l d =
    let kept = kept_sorted clock max_age es in
    ap (answer_of later max_age p) (
      find_entry-put_all k kept [] (DistinctKeys-kept_sorted clock max_age es d)
      ∙ first_of-none (find_entry k kept))
    ∙ answer_of-kept_sorted clock later max_age k p es l d
