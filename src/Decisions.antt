-- ===== src/Decisions.antt =====
-- decisions.py: the store of the verdicts that people give on repaired lines: `key`, `record`,
-- `lookup`, `for_orig`, `corrected_text` and `forced_text`. Times are ticks.
pub mod Ruled
pub mod Newest
use dub_titlerr.Prelude.{
  ℕ, Bool, true, false, not, ◌&&◌, ◌||◌, Option, none, some, List, [], ◌∷◌, ltb, ◌==◌,
  if◌then◌else◌,
}
use dub_titlerr.Text.{Text, codes, split, join, strip, same_text}

-- VERDICTS, and a text that is none of them.
pub data Verdict : Type 0 where
  accept reject correct force other : Verdict

abbrev pub same_verdict : Verdict → Verdict → Bool
same_verdict accept accept = true
same_verdict reject reject = true
same_verdict correct correct = true
same_verdict force force = true
same_verdict other other = true
same_verdict _ _ = false

-- An entry of the store; `words` is none where it has no text, `recorded_at` none where it is older
-- than the times.
pub record Entry : Type 0 where
  pub orig : Text
  pub proposed : Text
  pub verdict : Verdict
  pub words : Option Text
  pub note : Text
  pub recorded_at : Option ℕ

-- What a reviewer hands in.
pub record Given : Type 0 where
  pub orig : Text
  pub proposed : Text
  pub verdict : Verdict
  pub words : Text
  pub note : Text

abbrev pub is_empty : Text → Bool
is_empty [] = true
is_empty (c ∷ t) = false

-- text.replace(chr(0x2019), chr(0x27))
unfoldable pub straight : Text → Text
straight [] = []
straight (c ∷ t) = (if c == 0x2019 then b'\'' else c) ∷ straight t

unfoldable pub any_shown : (ℕ → Bool) → Text → Bool
any_shown hidden [] = false
any_shown hidden (c ∷ t) = not (hidden c) || any_shown hidden t

abbrev pub same_pair : Text → Text → Entry → Bool
same_pair o p e = same_text e.orig o && same_text e.proposed p

-- The entry in the place of the one for its pair, or behind the others.
unfoldable pub put_entry : Entry → List Entry → List Entry
unfolding same_text
put_entry n [] = n ∷ []
put_entry n (e ∷ es) =
    let rest = put_entry n es in if same_pair n.orig n.proposed e then n ∷ es else e ∷ rest

unfoldable pub find_pair : Text → Text → List Entry → Option Entry
unfolding same_text
find_pair o p [] = none
find_pair o p (e ∷ es) = let rest = find_pair o p es in if same_pair o p e then some e else rest

unfoldable pub of_orig : Text → List Entry → List Entry
unfolding same_text
of_orig o [] = []
of_orig o (e ∷ es) = let rest = of_orig o es in if same_text e.orig o then e ∷ rest else rest

abbrev pub words_of : Entry → Text
words_of e = elim e.words [ none ↦ [] | some t ↦ t ]

-- The entries with a verdict and words that show something.
unfoldable pub with_words : Verdict → List Entry → List Entry
unfolding strip
with_words v [] = []
with_words v (e ∷ es) =
    let rest = with_words v es in
    if same_verdict e.verdict v && not (is_empty (strip (words_of e))) then e ∷ rest else rest

-- max(dated, key=at): the first of the latest
abbrev pub later_of : Option ℕ → Entry → Option (ℕ × Entry) → Option (ℕ × Entry)
later_of none e q = q
later_of (some t) e none = some (t, e)
later_of (some t) e (some q) = if ltb t q.0 then some q else some (t, e)

unfoldable pub latest : List Entry → Option (ℕ × Entry)
latest [] = none
latest (e ∷ es) = later_of e.recorded_at e (latest es)

abbrev pub chosen : List Entry → Option Entry
chosen [] = none
chosen (e ∷ []) = some e
chosen (e ∷ d ∷ es) = elim (latest (e ∷ d ∷ es)) [ none ↦ none | some q ↦ some q.1 ]

abbrev words_or : Text → Option Text
words_or [] = none
words_or (c ∷ t) = some (c ∷ t)

abbrev pub put_if : Option Entry → List Entry → List Entry
put_if none es = es
put_if (some e) es = put_entry e es

abbrev pub text_in : Option Entry → Option Text
text_in none = none
text_in (some e) = e.words

-- `lower` is str.lower; `hidden` says of a character whether its Unicode category begins with C or Z.
module _ (lower : Text → Text) (hidden : ℕ → Bool) where
  unfoldable pub key : Text → Text
  unfolding straight split join
  key t = join (codes " ") (split (lower (straight t)))

  unfoldable pub is_blank : Text → Bool
  unfolding any_shown
  is_blank t = not (any_shown hidden t)

  -- A correction that restores the original is a rejection.
  abbrev pub settled : Given → Given
  settled g =
      if same_verdict g.verdict correct && same_text (key g.words) (key g.orig)
      then record g { verdict = reject; words = [] }
      else g

  abbrev pub is_dropped : Given → Bool
  is_dropped g =
      is_empty (key g.orig)
      || is_empty (key g.proposed)
      || same_verdict g.verdict correct && is_blank g.words
      || same_verdict g.verdict other

  -- An endorsement without words is one of what was proposed.
  abbrev pub wording : Given → Text
  wording g =
      if (same_verdict g.verdict force || same_verdict g.verdict accept) && is_empty (strip g.words)
      then g.proposed
      else g.words

  abbrev pub entry_of : ℕ → Given → Entry
  entry_of now g = record {
    orig = key g.orig;
    proposed = key g.proposed;
    verdict = g.verdict;
    words = words_or (wording g);
    note = g.note;
    recorded_at = some now;
  }

  -- The entry that a verdict makes, if it makes one.
  unfoldable pub ruling : ℕ → Given → Option Entry
  unfolding key is_blank same_text strip
  ruling now g = if is_dropped (settled g) then none else some (entry_of now (settled g))

  -- `record`, which is a reserved word here
  unfoldable pub record_verdict : ℕ → Given → List Entry → List Entry
  unfolding ruling put_entry
  record_verdict now g es = put_if (ruling now g) es

  unfoldable pub lookup : List Entry → Text → Text → Option Entry
  unfolding key find_pair
  lookup es o p = find_pair (key o) (key p) es

  unfoldable pub for_orig : List Entry → Text → List Entry
  unfolding key of_orig
  for_orig es o = of_orig (key o) es

  unfoldable pub corrected_text : List Entry → Text → Option Text
  unfolding for_orig with_words latest
  corrected_text es o = text_in (chosen (with_words correct (for_orig es o)))

  unfoldable pub forced_text : List Entry → Text → Option Text
  unfolding for_orig with_words latest
  forced_text es o = text_in (chosen (with_words force (for_orig es o)))
