-- ===== src/Hallucination.antt =====
-- hallucination.py: which cards are near-certain garbage. A card's times are ticks, as in Reflow;
-- its confidence is left out with `flag_reason`, which compares a float. Shares of a card are
-- compared by products, `t / n >= 0.6` as `10 * t >= 6 * n`.
pub mod Runs
use dub_titlerr.Prelude.{
  ℕ, zero, suc, ◌+◌, ◌-◌, ◌*◌, max, Bool, true, false, not, ◌&&◌, ◌||◌, Option, none, some, List,
  [], ◌∷◌, ◌++◌, map, length, ltb, leb, ◌==◌, if◌then◌else◌,
}
use dub_titlerr.Text.{Text, codes, any, join, same_text, split, last?}
use dub_titlerr.Text.Lower.{lower}
use dub_titlerr.Reflow.{max_dur}

abbrev between : ℕ → ℕ → ℕ → Bool
between lo hi c = leb lo c && leb c hi

abbrev pub is_alnum : ℕ → Bool
is_alnum c = between b'a' b'z' c || between b'0' b'9' c

abbrev pub is_token_char : ℕ → Bool
is_token_char c = is_alnum c || c == b'\''

abbrev close_run : Text → List Text → List Text
close_run [] ts = ts
close_run (c ∷ w) ts = (c ∷ w) ∷ ts

-- re.findall of one or more characters of a class
unfoldable pub runs_from : (ℕ → Bool) → Text → Text → List Text
runs_from is_in run [] = close_run run []
runs_from is_in run (c ∷ t) =
    let longer = runs_from is_in (run ++ c ∷ []) t in
    let ended = close_run run (runs_from is_in [] t) in if is_in c then longer else ended

unfoldable pub tokens : Text → List Text
unfolding runs_from lower
tokens text = runs_from is_token_char [] (lower text)

unfoldable pub same_gram : List Text → List Text → Bool
unfolding same_text
same_gram [] [] = true
same_gram [] (h ∷ hs) = false
same_gram (g ∷ gs) [] = false
same_gram (g ∷ gs) (h ∷ hs) = same_text g h && same_gram gs hs

unfoldable pub count_gram : List Text → List (List Text) → ℕ
unfolding same_gram
count_gram g [] = 0
count_gram g (h ∷ hs) = (if same_gram g h then 1 else 0) + count_gram g hs

-- Counter(grams).most_common(1)[0][1], over the grams that are left
unfoldable pub top_from : List (List Text) → List (List Text) → ℕ
unfolding count_gram
top_from all [] = 0
top_from all (g ∷ gs) = max (count_gram g all) (top_from all gs)

unfoldable pub top : List (List Text) → ℕ
unfolding top_from
top grams = top_from grams grams

unfoldable pub first_of : ℕ → List Text → Option (List Text)
first_of zero ts = some []
first_of (suc k) [] = none
first_of (suc k) (t ∷ ts) = elim (first_of k ts) [ none ↦ none | some g ↦ some (t ∷ g) ]

-- The k-grams; with k = 1 the words.
unfoldable pub grams : ℕ → List Text → List (List Text)
unfolding first_of
grams k [] = []
grams k (t ∷ ts) =
    let rest = grams k ts in elim (first_of k (t ∷ ts)) [ none ↦ rest | some g ↦ g ∷ rest ]

-- A count of k-grams covers REPEAT_COVERAGE of n words.
abbrev pub covers : ℕ → ℕ → ℕ → Bool
covers k n count = leb (6 * n) (10 * (count * k))

unfoldable pub gram_loops : ℕ → List Text → Bool
unfolding top grams
gram_loops k ts = leb 3 (top (grams k ts)) && covers k (length ts) (top (grams k ts))

-- REPEAT_MIN_TOKENS
abbrev pub repeat_min_tokens : ℕ
repeat_min_tokens = 6

unfoldable pub is_repetition : Text → Bool
unfolding tokens top grams gram_loops
is_repetition text =
    let ts = tokens text in
    not (ltb (length ts) repeat_min_tokens)
    && (covers 1 (length ts) (top (grams 1 ts)) || gram_loops 3 ts || gram_loops 2 ts)

pub record Card : Type 0 where
  pub start : ℕ
  pub end : ℕ
  pub text : Text
  pub source_start : Option ℕ
  pub source_end : Option ℕ

-- The counters of `_tick`: each rule that was evaluated, and whether it fired.
pub data Rule : Type 0 where
  source_window blocklist cjk_in_english_dub repetition : Rule

-- BAD_WINDOW_MAX_WORDS
abbrev pub bad_window_max_words : ℕ
bad_window_max_words = 2

abbrev longer_than_max : Option ℕ → Option ℕ → Bool
longer_than_max (some s) (some e) = ltb (s + max_dur) e
longer_than_max _ _ = false

unfoldable pub bad_source_window : Card → Bool × (Rule × Bool)
unfolding split
bad_source_window c =
    let hit =
      leb (length (split c.text)) bad_window_max_words
      && longer_than_max c.source_start c.source_end in
    (hit, (source_window, hit))

abbrev is_cjk : ℕ → Bool
is_cjk c =
    between 0x3040 0x30ff c
    || between 0x3400 0x4dbf c
    || between 0x4e00 0x9fff c
    || between 0xff66 0xff9d c

unfoldable pub has_cjk : Text → Bool
unfolding any
has_cjk text = any is_cjk text

-- The reason, and the rules that were evaluated, in order. `listed` stands for the search with the
-- pattern that is read from data/hallucination_blocklist.txt.
unfoldable pub drop_reason : (Text → Bool) → Card → Option Rule × List (Rule × Bool)
unfolding has_cjk is_repetition
drop_reason listed c =
    if listed c.text
    then (some blocklist, (blocklist, true) ∷ [])
    else if has_cjk c.text
    then (some cjk_in_english_dub, (blocklist, false) ∷ (cjk_in_english_dub, true) ∷ [])
    else if is_repetition c.text
    then (
      some repetition,
      (blocklist, false) ∷ (cjk_in_english_dub, false) ∷ (repetition, true) ∷ [],
    )
    else (none, (blocklist, false) ∷ (cjk_in_english_dub, false) ∷ (repetition, false) ∷ [])

-- _norm: the runs of letters and digits, one space between them
unfoldable pub norm : Text → Text
unfolding runs_from lower join
norm text = join (codes " ") (runs_from is_alnum [] (lower text))

-- The maximal runs of cards with one normalised text, with the run that is being filled.
unfoldable pub blocks_from : Text → List Card → List Card → List (List Card)
unfolding norm same_text
blocks_from key run [] = run ∷ []
blocks_from key run (c ∷ cs) =
    let longer = blocks_from key (run ++ c ∷ []) cs in
    let ended = run ∷ blocks_from (norm c.text) (c ∷ []) cs in
    if same_text (norm c.text) key then longer else ended

unfoldable pub blocks : List Card → List (List Card)
unfolding blocks_from
blocks [] = []
blocks (c ∷ cs) = blocks_from (norm c.text) (c ∷ []) cs

-- RUN_COLLAPSE
abbrev pub run_collapse : ℕ
run_collapse = 4

abbrev pub last_end_of : ℕ → List Card → ℕ
last_end_of e [] = e
last_end_of e (c ∷ cs) = last_end_of c.end cs

-- The first card, up to the end of the last.
abbrev pub merged : List Card → List Card
merged [] = []
merged (c ∷ cs) = record c { end = last_end_of c.end cs } ∷ []

abbrev pub collapse : List Card → List Card
collapse run = if leb run_collapse (length run) then merged run else run

unfoldable pub collapse_all : List (List Card) → List Card
collapse_all [] = []
collapse_all (b ∷ bs) = collapse b ++ collapse_all bs

unfoldable pub collapse_runs : List Card → List Card
unfolding blocks collapse_all
collapse_runs cards = collapse_all (blocks cards)
