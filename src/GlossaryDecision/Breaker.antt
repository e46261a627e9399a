-- ===== src/GlossaryDecision/Breaker.antt =====
-- glossary_decision.py: the counters of a run, and the breaker, as what the provider answered.
use dub_titlerr.Prelude.{
  ℕ, ◌+◌, ◌≡◌, Bool, true, false, ◌&&◌, none, some, List, [], ◌∷◌, length, ltb, leb, if◌then◌else◌,
}
use dub_titlerr.Text.{Text}
use dub_titlerr.GlossaryDecision.{
  Settings, Run, new_run, breaker_open, Response, Pick, adjudicate_verify, adjudicate_pair,
}

-- Whether the provider has an answer.
abbrev pub has_answer {ℓ} : {R : Type ℓ} → Response R → Bool
has_answer none = false
has_answer (some a) = true

-- The terms and pairs of a run with one setting, the last one first: for each, whether the provider
-- has an answer, should it be called. What the local model does is any value.
pub data Reach (s : Settings) : List Bool → Run → Type 1 where
  starts : Reach s [] new_run
  verifies :
      {L : Type 0} {answers : List Bool} {r : Run}
      → Reach s answers r
      → (titles : List Text) (own : L) (response : Response Pick)
      → Reach s (has_answer response ∷ answers) (adjudicate_verify s titles own response r).0
  pairs :
      {L : Type 0} {answers : List Bool} {r : Run}
      → Reach s answers r
      → (own : L) (response : Response ℕ)
      → Reach s (has_answer response ∷ answers) (adjudicate_pair s own response r).0

-- How many calls in a row have failed, the last one first.
abbrev pub failed_in_a_row : List Bool → ℕ
failed_in_a_row [] = 0
failed_in_a_row (true ∷ calls) = 0
failed_in_a_row (false ∷ calls) = failed_in_a_row calls + 1

-- As many calls as the limit have failed in a row; a limit of 0 is none.
abbrev pub at_limit : ℕ → List Bool → Bool
at_limit limit calls = ltb 0 limit && leb limit (failed_in_a_row calls)

-- The calls that are made: none, once as many as the limit have failed in a row.
abbrev pub made : ℕ → List Bool → List Bool
made limit [] = []
made limit (a ∷ answers) =
    let calls = made limit answers in if at_limit limit calls then calls else a ∷ calls

abbrev pub successes : List Bool → ℕ
successes [] = 0
successes (true ∷ calls) = successes calls + 1
successes (false ∷ calls) = successes calls

-- A term or pair that gets no answer is answered locally, or left open.
abbrev pub HasRest : Bool → ℕ → Run → Type 0
HasRest true rest r = (r.fallbacks ≡ rest) × (r.pending ≡ 0)
HasRest false rest r = (r.fallbacks ≡ 0) × (r.pending ≡ rest)

-- The counters and the breaker for the calls that were made, of a number of terms and pairs.
abbrev pub Tells : Settings → List Bool → ℕ → Run → Type 0
Tells s calls asked r =
    (r.calls ≡ length calls)
    × (r.good ≡ successes calls)
    × (r.good + r.failures ≡ length calls)
    × (r.streak ≡ failed_in_a_row calls)
    × (r.tripped_after ≡ (if at_limit s.breaker calls then s.breaker else 0))
    × (breaker_open r ≡ at_limit s.breaker calls)
    × (rest : ℕ) × (r.good + rest ≡ asked)
    × HasRest s.is_local rest r

-- The part of it that the next term needs.
abbrev Kept : Settings → List Bool → ℕ → Run → Type 0
Kept s calls asked r =
    (r.calls ≡ length calls)
    × (r.good ≡ successes calls)
    × (r.good + r.failures ≡ length calls)
    × (r.streak ≡ failed_in_a_row calls)
    × (r.tripped_after ≡ (if at_limit s.breaker calls then s.breaker else 0))
    × (r.good + r.fallbacks + r.pending ≡ asked)
    × ((if s.is_local then r.pending else r.fallbacks) ≡ 0)
