-- ===== src/Auth/Throttle/Locked.antt =====
-- review_server.py: `LoginThrottle`, when an address is locked out.
use dub_titlerr.Prelude.{
  ℕ, ◌+◌, ◌≤◌, ◌<◌, ◌≡◌, ap, ◌∙◌, none, some, List, [], ◌∷◌, ◌++◌, length, length-append, arith,
}
use dub_titlerr.Text.{Text}
use dub_titlerr.Text.Order.{same_text_refl}
use dub_titlerr.Text.Table.{find}
use dub_titlerr.Auth.Throttle.{Limits, Failures, addr_key, wait_of, retry_after, current, one_more}
use dub_titlerr.Auth.Throttle.Counted.{
  failures, find-failures, counted, counted-some, counted-append, own_times, AreWithin,
}

-- The failures between the first and the last one of an address.
counted_before :
    (l : Limits) (addr : Text) (start : ℕ) (es : List (ℕ × Text))
    → AreWithin l start es
    → own_times addr es + 2 ≡ l.max_fail
    → counted l addr ((start, addr) ∷ es) none
      ≡ some
          (record { addr = addr; fails = 1 + own_times addr es; first = start; locked_until = 0 })
unfolding counted
counted_before l addr start es w h =
    let one : Failures = record { addr = addr; fails = 1; first = start; locked_until = 0 } in
    ap (λ o. counted l addr es o) (rw (same_text_refl addr) (ground (arith, h)))
    ∙ counted-some l addr es one w (omega (arith, h))

-- What is left of the lock at a time.
locked_wait :
    (now until n first : ℕ) (addr : Text)
    → (now < until
        → 0
          < wait_of now
              (some (record { addr = addr; fails = n; first = first; locked_until = until })))
      × (until ≤ now
          → wait_of now
              (some (record { addr = addr; fails = n; first = first; locked_until = until }))
            ≡ 0)
locked_wait now until n first addr = (λ h. ground (arith, h), λ h. ground (arith, h))

within_append :
    (l : Limits) (start last : ℕ) (addr : Text) (es : List (ℕ × Text))
    → AreWithin l start (es ++ (last, addr) ∷ [])
    → AreWithin l start es × (last ≤ start + l.window)
within_append l start last addr [] w = (tt, w.0)
within_append l start last addr ((t, a) ∷ es) w =
    let rest = within_append l start last addr es w.1 in ((w.0, rest.0), rest.1)

abbrev locked_record : Limits → ℕ → Text → Failures
locked_record l last addr = record {
  addr = addr;
  fails = 0;
  first = last;
  locked_until = last + l.lockout;
}

one_more_locked :
    (l : Limits) (start last n : ℕ) (addr : Text)
    → last ≤ start + l.window
    → n + 1 ≡ l.max_fail
    → one_more l last (
        current l last addr
          (some (record { addr = addr; fails = n; first = start; locked_until = 0 })))
      ≡ locked_record l last addr
one_more_locked l start last n addr w h = ground (arith, w, h)

counted_locked :
    (l : Limits) (addr : Text) (start last : ℕ) (es : List (ℕ × Text))
    → AreWithin l start (es ++ (last, addr) ∷ [])
    → own_times addr es + 2 ≡ l.max_fail
    → counted l addr ((start, addr) ∷ (es ++ (last, addr) ∷ [])) none
      ≡ some (locked_record l last addr)
counted_locked l addr start last es w h =
    let within = within_append l start last addr es w in
    counted-append l addr ((start, addr) ∷ es) last none
    ∙ ap (λ o. some (one_more l last (current l last addr o)))
        (counted_before l addr start es within.0 h)
    ∙ ap some
        (one_more_locked l start last (1 + own_times addr es) addr within.1 (omega (arith, h)))

-- From an address that is not tracked: when its failures, among those of other addresses, are
-- `max_fail` in number, none of the failures comes later than the window after its first one, and
-- there is room for the addresses, then its next attempt has to wait until `lockout` after its last
-- failure, and at that time it does not.
pub retry_after-failures :
    (l : Limits) (addr : Text) (start last now : ℕ) (es : List (ℕ × Text)) (seen : List Failures)
    → find addr_key addr seen ≡ none
    → length seen + length es + 2 ≤ l.cap
    → AreWithin l start (es ++ (last, addr) ∷ [])
    → own_times addr es + 2 ≡ l.max_fail
    → (now < last + l.lockout
        → 0 < retry_after now addr (failures l ((start, addr) ∷ (es ++ (last, addr) ∷ [])) seen))
      × (last + l.lockout ≤ now
          → retry_after now addr (failures l ((start, addr) ∷ (es ++ (last, addr) ∷ [])) seen) ≡ 0)
unfolding retry_after
retry_after-failures l addr start last now es seen new room within count =
    let e =
      find-failures l addr ((start, addr) ∷ (es ++ (last, addr) ∷ [])) seen
        (omega (arith, room, length-append es ((last, addr) ∷ [])))
      ∙ ap (λ o. counted l addr ((start, addr) ∷ (es ++ (last, addr) ∷ [])) o) new
      ∙ counted_locked l addr start last es within count in
    rw e (locked_wait now (last + l.lockout) 0 last addr)
