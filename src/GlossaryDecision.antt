-- ===== src/GlossaryDecision.antt =====
-- glossary_decision.py: the questions of the glossary stages to a decision model, what becomes of an
-- answer, and the breaker that ends the calls. Numbers in [0, 1] are in millionths.
pub mod Breaker
use dub_titlerr.Prelude.{
  ℕ, ◌+◌, ◌-◌, Bool, true, false, not, ◌&&◌, Option, none, some, List, [], ◌∷◌, ◌++◌, max, ltb, leb,
  ◌==◌, if◌then◌else◌,
}
use dub_titlerr.Text.{Text, codes, decimal_text, same_text}

abbrev pub one : ℕ
one = 1000000

pub record Settings : Type 0 where
  pub tau : ℕ
  pub acquire_tau : ℕ
  pub is_local : Bool
  pub breaker : ℕ

-- The counters of a run, and the breaker.
pub record Run : Type 0 where
  pub calls : ℕ
  pub good : ℕ
  pub failures : ℕ
  pub fallbacks : ℕ
  pub pending : ℕ
  pub streak : ℕ
  pub tripped_after : ℕ

abbrev pub new_run : Run
new_run = record {
  calls = 0;
  good = 0;
  failures = 0;
  fallbacks = 0;
  pending = 0;
  streak = 0;
  tripped_after = 0;
}

abbrev pub breaker_open : Run → Bool
breaker_open r = ltb 0 r.tripped_after

abbrev pub note_success : Run → Run
note_success r = record r { streak = 0 }

-- _note_failure; a limit of 0 turns the breaker off
abbrev pub note_failure : ℕ → Run → Run
note_failure limit r = record r {
  streak = r.streak + 1;
  tripped_after =
      if ltb 0 limit && leb limit (r.streak + 1) && r.tripped_after == 0
      then r.streak + 1
      else r.tripped_after;
}

-- What a call is answered with, or none where it fails in any way.
abbrev pub Response {ℓ} : Type ℓ → Type ℓ
Response A = Option A

-- How a question ends.
pub data Outcome {ℓ κ} (A : Type ℓ) (L : Type κ) : Type (ℓ ⊔ κ) where
  decided : A → Outcome A L
  locally : L → Outcome A L
  left_open : Outcome A L

-- Without an answer: the local model's, or none yet.
abbrev pub without_answer {ℓ κ} : {A : Type ℓ} {L : Type κ} → Settings → L → Run → Run × Outcome A L
without_answer s own r =
    if s.is_local
    then (record r { fallbacks = r.fallbacks + 1 }, locally own)
    else (record r { pending = r.pending + 1 }, left_open)

abbrev pub answered {ℓ κ μ} :
    {R : Type μ} {A : Type ℓ} {L : Type κ}
    → Settings
    → (R → A)
    → L
    → Run
    → Response R
    → Run × Outcome A L
answered s read own r none =
    without_answer s own (note_failure s.breaker (record r { failures = r.failures + 1 }))
answered s read own r (some a) = (note_success (record r { good = r.good + 1 }), decided (read a))

-- What adjudicate_verify and adjudicate_pair have in common.
unfoldable pub adjudicate {ℓ κ μ} :
    {R : Type μ} {A : Type ℓ} {L : Type κ}
    → Settings
    → (R → A)
    → L
    → Response R
    → Run
    → Run × Outcome A L
adjudicate s read own response r =
    if breaker_open r
    then without_answer s own r
    else answered s read own (record r { calls = r.calls + 1 }) response

-- A field that should be a number.
pub data Number : Type 0 where
  number : ℕ → Number
  no_number : Number

-- The answer to a choice; null and missing fields are none.
pub record Pick : Type 0 where
  pub choice : Text
  pub confidence : Option Number
  pub probabilities : Option (List (Text × Number))

pub data Confidence : Type 0 where
  high low no_confidence : Confidence

pub record Adjudication : Type 0 where
  pub canonical : Text
  pub confidence : Confidence

unfoldable pub probability : Text → List (Text × Number) → Option Number
unfolding same_text
probability k [] = none
probability k ((j, p) ∷ ps) = let rest = probability k ps in if same_text j k then some p else rest

abbrev as_number : Option Number → Option ℕ
as_number (some (number n)) = some n
as_number _ = none

abbrev pick_from : Text → Option Number → Option (List (Text × Number)) → Option ℕ
pick_from k (some n) ps = as_number (some n)
pick_from k none none = none
pick_from k none (some ps) = as_number (probability k ps)

-- _pick_confidence
unfoldable pub pick_confidence : Pick → Option ℕ
unfolding probability
pick_confidence a = pick_from a.choice a.confidence a.probabilities

-- The options c1, c2 and so on, from a number on.
unfoldable pub options : ℕ → List Text → List (Text × Text)
unfolding decimal_text
options i [] = []
options i (t ∷ ts) = (codes "c" ++ decimal_text i, t) ∷ options (i + 1) ts

unfoldable pub chosen_option : Text → List (Text × Text) → Text
unfolding same_text
chosen_option k [] = []
chosen_option k ((j, t) ∷ os) = let rest = chosen_option k os in if same_text j k then t else rest

abbrev is_sure : ℕ → Option ℕ → Confidence
is_sure tau none = low
is_sure tau (some n) = if leb tau n then high else low

abbrev of_title : ℕ → Option ℕ → Text → Adjudication
of_title tau n [] = record { canonical = []; confidence = no_confidence }
of_title tau n (c ∷ t) = record { canonical = c ∷ t; confidence = is_sure tau n }

unfoldable pub picked : Settings → List Text → Pick → Adjudication
unfolding pick_confidence options chosen_option
picked s titles a = of_title s.tau (pick_confidence a) (chosen_option a.choice (options 1 titles))

-- left_open is None: the term stays pending
unfoldable pub adjudicate_verify {κ} :
    {L : Type κ} → Settings → List Text → L → Response Pick → Run → Run × Outcome Adjudication L
unfolding adjudicate picked
adjudicate_verify s titles own response r = adjudicate s (picked s titles) own response r

pub record SameEntity : Type 0 where
  pub same_entity : Bool
  pub confidence : Confidence

-- The answer is how probable it is that the two are one, at most 1.
unfoldable pub judged : Settings → ℕ → SameEntity
judged s p = record {
  same_entity = leb 500000 p;
  confidence = if leb s.acquire_tau (max p (one - p)) then high else low;
}

-- left_open is the shape that says unavailable
unfoldable pub adjudicate_pair {κ} :
    {L : Type κ} → Settings → L → Response ℕ → Run → Run × Outcome SameEntity L
unfolding adjudicate judged
adjudicate_pair s own response r = adjudicate s (judged s) own response r
