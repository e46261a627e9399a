-- ===== src/Journal/Kept.antt =====
-- adjudication_journal.py: the entries that `compact` keeps.
use dub_titlerr.Prelude.{AllOf, ℕ, ◌≡◌, refl, ap, true, List, [], ◌∷◌, arith, Bool-cases, inl, inr}
use dub_titlerr.Text.{Text, same_text}
use dub_titlerr.Journal.{Entry, Line, entry, unreadable, put_entry, read_lines, put_all, is_fresh}
use dub_titlerr.Journal.Compact.{insert_sooner, kept_sorted, as_lines}

module _ {ℓ} (P : Entry → Type ℓ) where
  pub AllOf-put_entry : (e : Entry) (es : List Entry) → P e → AllOf P es → AllOf P (put_entry e es)
  unfolding put_entry
  AllOf-put_entry e [] p h = (p, tt)
  AllOf-put_entry e (f ∷ fs) p h = ground (arith, p, h, AllOf-put_entry e fs p h.1)

  pub AllOf-put_all : (es d : List Entry) → AllOf P es → AllOf P d → AllOf P (put_all es d)
  unfolding put_all
  AllOf-put_all [] d h k = k
  AllOf-put_all (e ∷ es) d h k = AllOf-put_all es (put_entry e d) h.1 (AllOf-put_entry e d h.0 k)

  pub AllOf-insert_sooner :
      (e : Entry) (es : List Entry) → P e → AllOf P es → AllOf P (insert_sooner e es)
  unfolding insert_sooner
  AllOf-insert_sooner e [] p h = (p, tt)
  AllOf-insert_sooner e (f ∷ fs) p h = ground (arith, p, h, AllOf-insert_sooner e fs p h.1)

  pub AllOf-kept_sorted :
      (clock max_age : ℕ) (es : List Entry) → AllOf P es → AllOf P (kept_sorted clock max_age es)
  unfolding kept_sorted
  AllOf-kept_sorted clock max_age [] h = tt
  AllOf-kept_sorted clock max_age (e ∷ es) h = elim (Bool-cases (is_fresh clock max_age e.at)) [
    | inl k ↦ rw (k) (
        AllOf-insert_sooner e (kept_sorted clock max_age es) h.0
          (AllOf-kept_sorted clock max_age es h.1))
    | inr k ↦ rw (k) (AllOf-kept_sorted clock max_age es h.1)
  ]

abbrev pub OfStage : Text → List Entry → Type 0
OfStage stage = AllOf (λ e. same_text e.stage stage ≡ true)

pub OfStage-read_lines : (stage : Text) (ls : List Line) → OfStage stage (read_lines stage ls)
unfolding read_lines
OfStage-read_lines stage [] = tt
OfStage-read_lines stage (unreadable ∷ ls) = OfStage-read_lines stage ls
OfStage-read_lines stage (entry e ∷ ls) = elim (Bool-cases (same_text e.stage stage)) [
  | inl k ↦ rw (k) (k, OfStage-read_lines stage ls)
  | inr k ↦ rw (k) (OfStage-read_lines stage ls)
]

pub read_lines-as_lines :
    (stage : Text) (es : List Entry) → OfStage stage es → read_lines stage (as_lines es) ≡ es
unfolding read_lines
read_lines-as_lines stage [] h = refl
read_lines-as_lines stage (e ∷ es) h = rw (h.0) (ap (λ r. e ∷ r) (read_lines-as_lines stage es h.1))

pub Fresh-kept_sorted :
    (clock max_age : ℕ) (es : List Entry)
    → AllOf (λ e. is_fresh clock max_age e.at ≡ true) (kept_sorted clock max_age es)
unfolding kept_sorted
Fresh-kept_sorted clock max_age [] = tt
Fresh-kept_sorted clock max_age (e ∷ es) = elim (Bool-cases (is_fresh clock max_age e.at)) [
  | inl k ↦ rw (k) (
      AllOf-insert_sooner (λ f. is_fresh clock max_age f.at ≡ true) e (kept_sorted clock max_age es)
        k (Fresh-kept_sorted clock max_age es))
  | inr k ↦ rw (k) (Fresh-kept_sorted clock max_age es)
]
