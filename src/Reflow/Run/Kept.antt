-- ===== src/Reflow/Run/Kept.antt =====
-- `reflow` of reflow.py shows every visible character that whisper heard, in order.
use mathlib.Core.List.{flatten}
use dub_titlerr.Prelude.{
  ℕ, ◌≡◌, refl, sym, ap, ◌∙◌, Option, none, some, List, [], ◌∷◌, ◌++◌, get_elem?, append_assoc,
  flatten-append,
}
use dub_titlerr.Text.{Text, strip}
use dub_titlerr.Text.Visible.{visible, visible-strip}
use dub_titlerr.Reflow.{RawWord, Word, Segment}
use dub_titlerr.Reflow.Glue.{text_of}
use dub_titlerr.Reflow.Glue.Kept.{spoken, visible-text_of}
use dub_titlerr.Reflow.Spans.{split_spans}
use dub_titlerr.Reflow.Spans.Pauses.{split_spans_exact}
use dub_titlerr.Reflow.Pieces.Sizes.{segment_span_exact}
use dub_titlerr.Reflow.Wrap.Kept.{visible-wrap_balance}
use dub_titlerr.Reflow.Cascade.{Timed, ok, OnOk}
use dub_titlerr.Reflow.Cascade.Push.{OnOk-map, OnOk-mono, OnOk-eq}
use dub_titlerr.Reflow.Timing.{time_cards}
use dub_titlerr.Reflow.Timing.Promise.{OnsetsKept, OnsetsKept-time_cards}
use dub_titlerr.Reflow.Normalize.{normalize, clamp_to_segments, dejitter}
use dub_titlerr.Reflow.Normalize.Bounds.{
  AllFilled, normalize-AllFilled, AllOrdered-AllFilled, AllClamped, text-InSegment,
  clamp_to_segments-AllClamped,
}
use dub_titlerr.Reflow.Normalize.Dejitter.{AllMoved, dejitter_exact}
use dub_titlerr.Reflow.Merge.{Group, merge_runts}
use dub_titlerr.Reflow.Merge.Kept.{merge_runts_exact}
use dub_titlerr.Reflow.Run.{
  Card, Reflowed, unless_blank, drop_blank, groups_of, finish, cards_of, time_groups, reflow,
}

spoken-append : (xs ys : List Word) → spoken (xs ++ ys) ≡ spoken xs ++ spoken ys
unfolding spoken
spoken-append [] ys = refl
spoken-append (x ∷ xs) ys =
    rw (spoken-append xs ys) (sym (append_assoc (visible x.text) (spoken xs) (spoken ys)))

-- The visible characters of the words as whisper gives them.
unfoldable pub heard : List RawWord → Text
heard [] = []
heard (w ∷ ws) = visible w.text ++ heard ws

spoken-AllFilled : (rs : List RawWord) (ws : List Word) → AllFilled rs ws → spoken ws ≡ heard rs
unfolding spoken heard
spoken-AllFilled [] [] h = refl
spoken-AllFilled [] (w ∷ ws) h = absurd h
spoken-AllFilled (r ∷ rs) [] h = absurd h
spoken-AllFilled (r ∷ rs) (w ∷ ws) h = rw (h.0.0, spoken-AllFilled rs ws h.1)

spoken-AllClamped :
    (segments : List Segment) (ws vs : List Word)
    → AllClamped segments ws vs
    → spoken vs ≡ spoken ws
unfolding spoken
spoken-AllClamped segments [] [] h = refl
spoken-AllClamped segments [] (v ∷ vs) h = absurd h
spoken-AllClamped segments (w ∷ ws) [] h = absurd h
spoken-AllClamped segments (w ∷ ws) (v ∷ vs) h =
    rw (text-InSegment (get_elem? segments w.seg) w v h.0, spoken-AllClamped segments ws vs h.1)

spoken-AllMoved : (ws vs : List Word) → AllMoved ws vs → spoken vs ≡ spoken ws
unfolding spoken
spoken-AllMoved [] [] h = refl
spoken-AllMoved [] (v ∷ vs) h = absurd h
spoken-AllMoved (w ∷ ws) [] h = absurd h
spoken-AllMoved (w ∷ ws) (v ∷ vs) h = rw (h.0.0, spoken-AllMoved ws vs h.1)

spoken-blank : (g : Group) → strip (text_of g) ≡ [] → spoken g ≡ []
spoken-blank g e =
    sym (visible-text_of g) ∙ (sym (visible-strip (text_of g)) ∙ rw e (unfold visible in refl))

spoken-unless_blank :
    (t : Text) (g : Group) (rest : List Group)
    → strip (text_of g) ≡ t
    → spoken (flatten (unless_blank t g rest)) ≡ spoken g ++ spoken (flatten rest)
unfolding flatten
spoken-unless_blank [] g rest e = rw (spoken-blank g e)
spoken-unless_blank (c ∷ t) g rest e = spoken-append g (flatten rest)

spoken-drop_blank : (gs : List Group) → spoken (flatten (drop_blank gs)) ≡ spoken (flatten gs)
unfolding drop_blank flatten
spoken-drop_blank [] = refl
spoken-drop_blank (g ∷ gs) =
    spoken-unless_blank (strip (text_of g)) g (drop_blank gs) refl
    ∙ rw (spoken-drop_blank gs) (sym (spoken-append g (flatten gs)))

spoken-groups_of :
    (spans : List (List Word)) → spoken (flatten (groups_of spans)) ≡ spoken (flatten spans)
unfolding groups_of flatten
spoken-groups_of [] = refl
spoken-groups_of (s ∷ spans) = rw (
  flatten-append,
  spoken-append,
  spoken-drop_blank,
  spoken-append,
  (segment_span_exact s).0,
  spoken-groups_of spans,
)

-- The words as `split_spans` gets them.
abbrev prepared : List Segment → List RawWord → List Word
prepared segments words = dejitter (clamp_to_segments segments (normalize words))

spoken-prepared :
    (segments : List Segment) (words : List RawWord)
    → spoken (prepared segments words) ≡ heard words
spoken-prepared segments words =
    let filled = normalize-AllFilled words in
    let ordered = AllOrdered-AllFilled words (normalize words) filled in
    let clamped = clamp_to_segments segments (normalize words) in
    spoken-AllMoved clamped (dejitter clamped) (dejitter_exact clamped).1
    ∙ (spoken-AllClamped segments (normalize words) clamped
          (clamp_to_segments-AllClamped segments (normalize words) ordered)
        ∙ spoken-AllFilled words (normalize words) filled)

module _ {ℓ} {C : Type ℓ} where
  -- The visible characters of the cards.
  unfoldable pub shown : List (Card C) → Text
  shown [] = []
  shown (c ∷ cs) = visible c.text ++ shown cs

module _ {ℓ} {C : Type ℓ} (card_confidence : List Word → List Segment → C) where
  shown-finish :
      (segments : List Segment) (prev : Option Group) (ts : List Timed) (gs : List Group)
      → OnsetsKept gs ts
      → shown (finish card_confidence segments prev ts gs) ≡ spoken (flatten gs)
  unfolding finish shown flatten spoken
  shown-finish segments prev [] [] h = refl
  shown-finish segments prev [] (g ∷ gs) h = absurd h
  shown-finish segments prev (t ∷ ts) [] h = absurd h
  shown-finish segments prev (t ∷ ts) (g ∷ gs) h =
      rw
        (
          visible-wrap_balance (text_of g),
          visible-text_of g,
          shown-finish segments (some g) ts gs h.1,
        )
        (sym (spoken-append g (flatten gs)))

  shown-time_groups :
      (audio : Option ℕ) (segments : List Segment) (gs : List Group)
      → OnOk
          (λ r. shown r.cards ≡ spoken (flatten gs))
          (time_groups card_confidence audio segments gs)
  unfolding time_groups shown flatten spoken
  shown-time_groups audio segments [] = refl
  shown-time_groups audio segments (g ∷ gs) =
      let m = merge_runts (g ∷ gs) in
      OnOk-map (λ r. shown r.cards ≡ spoken (flatten (g ∷ gs)))
        (cards_of card_confidence segments m) (time_cards m.out audio)
        (OnOk-mono (time_cards m.out audio)
          (λ t h.
            shown-finish segments none t.cards m.out h ∙ ap spoken (merge_runts_exact (g ∷ gs)).0)
          (OnsetsKept-time_cards m.out audio))

  -- Where reflow returns cards, their visible characters are those of whisper's words, all of
  -- them and in order: welding, cutting, merging and wrapping change white space only.
  pub shown-reflow :
      (words : List RawWord) (segments : List Segment) (audio : Option ℕ) (r : Reflowed C)
      → reflow card_confidence words segments audio ≡ ok r
      → shown r.cards ≡ heard words
  unfolding reflow
  shown-reflow words segments audio r e =
      let spans = split_spans (prepared segments words) in
      OnOk-eq (λ r. shown r.cards ≡ spoken (flatten (groups_of spans)))
        (shown-time_groups audio segments (groups_of spans)) e
      ∙ (spoken-groups_of spans
          ∙ (ap spoken (split_spans_exact (prepared segments words)).0
              ∙ spoken-prepared segments words))
