-- ===== src/Auth/Throttle/Counted.antt =====
-- review_server.py: `LoginThrottle` as one counter for each address, and how long it locks.
use dub_titlerr.Prelude.{
  ℕ, ◌+◌, ◌≤◌, ◌<◌, ◌≡◌, refl, ap, ◌∙◌, false, Option, none, some, List, [], ◌∷◌, ◌++◌, length,
  length-append, if◌then◌else◌, arith, Bool-cases, inl, inr,
}
use dub_titlerr.Text.{Text, same_text}
use dub_titlerr.Text.Order.{same_text_refl, same_text→eq}
use dub_titlerr.Text.Table.{find, remove, find-remove_other, find-remove_self}
use dub_titlerr.Auth.Throttle.{Limits, Failures, addr_key, current, one_more, evicted, failure}

-- A counter goes on as the counter of its address.
addr-current :
    (l : Limits) (now : ℕ) (addr : Text) (o : Option Failures)
    → ((r : Failures) → o ≡ some r → r.addr ≡ addr)
    → (one_more l now (current l now addr o)).addr ≡ addr
addr-current l now addr none h = ground arith
addr-current l now addr (some r) h = ground (arith, h r refl)

addr-find :
    (addr : Text) (seen : List Failures) (r : Failures)
    → find addr_key addr seen ≡ some r
    → r.addr ≡ addr
unfolding find
addr-find addr [] r h = ground (arith, h)
addr-find addr (q ∷ qs) r h = ground (arith, h, addr-find addr qs r, same_text→eq q.addr addr)

length-remove_le :
    (addr : Text) (seen : List Failures) → length (remove addr_key addr seen) ≤ length seen
unfolding remove
length-remove_le addr [] = omega arith
length-remove_le addr (r ∷ rs) = ground (arith, length-remove_le addr rs)

evicted_all : (cap : ℕ) (seen : List Failures) → length seen ≤ cap → evicted cap seen ≡ seen
unfolding evicted
evicted_all cap [] h = refl
evicted_all cap (r ∷ rs) h = ground (arith, h)

pub length-evicted : (cap : ℕ) (seen : List Failures) → length (evicted cap seen) ≤ cap
unfolding evicted
length-evicted cap [] = omega arith
length-evicted cap (r ∷ rs) = ground (arith, length-evicted cap rs)

find-append :
    (addr : Text) (seen : List Failures) (r : Failures)
    → find addr_key addr (seen ++ r ∷ []) ≡ elim (find addr_key addr seen) [
      | none ↦ if same_text r.addr addr then some r else none
      | some q ↦ some q
    ]
unfolding find
find-append addr [] r = refl
find-append addr (q ∷ qs) r = ground (arith, find-append addr qs r)

-- The newest is kept.
find-evicted_last :
    (cap : ℕ) (addr : Text) (seen : List Failures) (r : Failures)
    → 0 < cap
    → find addr_key addr seen ≡ none
    → r.addr ≡ addr
    → find addr_key addr (evicted cap (seen ++ r ∷ [])) ≡ some r
unfolding find evicted
find-evicted_last cap addr [] r c h e = ground (arith, c, e, same_text_refl addr)
find-evicted_last cap addr (q ∷ qs) r c h e =
    ground
      (arith, h, find-evicted_last cap addr qs r c, e, find-append addr qs r, same_text_refl addr)

-- The counter of an address after a failure, and those of the others while there is room.
pub find-failure_self :
    (l : Limits) (now : ℕ) (addr : Text) (seen : List Failures)
    → 0 < l.cap
    → find addr_key addr (failure l now addr seen)
      ≡ some (one_more l now (current l now addr (find addr_key addr seen)))
unfolding failure
find-failure_self l now addr seen c =
    find-evicted_last l.cap addr (remove addr_key addr seen)
      (one_more l now (current l now addr (find addr_key addr seen))) c
      (find-remove_self addr_key addr seen)
      (addr-current l now addr (find addr_key addr seen) (addr-find addr seen))

pub find-failure_other :
    (l : Limits) (now : ℕ) (addr other : Text) (seen : List Failures)
    → length seen < l.cap
    → same_text addr other ≡ false
    → find addr_key other (failure l now addr seen) ≡ find addr_key other seen
unfolding failure
find-failure_other l now addr other seen c h =
    let r = one_more l now (current l now addr (find addr_key addr seen)) in
    let e = addr-current l now addr (find addr_key addr seen) (addr-find addr seen) in
    ap (λ s. find addr_key other s)
      (evicted_all l.cap (remove addr_key addr seen ++ r ∷ []) (
        omega (
          arith,
          c,
          length-remove_le addr seen,
          length-append (remove addr_key addr seen) (r ∷ []),
        )))
    ∙ find-append other (remove addr_key addr seen) r
    ∙ rw (find-remove_other addr_key addr other seen h)
        (ground (arith, ap (λ k. same_text k other) e ∙ h))

length-failure :
    (l : Limits) (now : ℕ) (addr : Text) (seen : List Failures)
    → length seen < l.cap
    → length (failure l now addr seen) ≤ length seen + 1
unfolding failure
length-failure l now addr seen c =
    let r = one_more l now (current l now addr (find addr_key addr seen)) in
    rw
      (evicted_all l.cap (remove addr_key addr seen ++ r ∷ []) (
        omega (
          arith,
          c,
          length-remove_le addr seen,
          length-append (remove addr_key addr seen) (r ∷ []),
        )))
      (omega
        (arith, length-remove_le addr seen, length-append (remove addr_key addr seen) (r ∷ [])))

-- Failures one after the other, each with its time and its address.
unfoldable pub failures : Limits → List (ℕ × Text) → List Failures → List Failures
unfolding failure
failures l [] seen = seen
failures l ((now, addr) ∷ es) seen = failures l es (failure l now addr seen)

-- One address counts alone.
unfoldable pub counted : Limits → Text → List (ℕ × Text) → Option Failures → Option Failures
unfolding same_text
counted l addr [] o = o
counted l addr ((now, a) ∷ es) o =
    counted l addr es (if same_text a addr then some (one_more l now (current l now addr o)) else o)

-- While there is room for every address, each address is counted as if it were the only one.
pub find-failures :
    (l : Limits) (addr : Text) (es : List (ℕ × Text)) (seen : List Failures)
    → length seen + length es ≤ l.cap
    → find addr_key addr (failures l es seen) ≡ counted l addr es (find addr_key addr seen)
unfolding failures counted
find-failures l addr [] seen c = refl
find-failures l addr ((now, a) ∷ es) seen c =
    let len = length-failure l now a seen (omega (arith, c)) in
    let rest = find-failures l addr es (failure l now a seen) (omega (arith, c, len)) in
    elim (Bool-cases (same_text a addr)) [
      | inl e ↦
          rest
          ∙ ap (λ o. counted l addr es o)
              (rw e
                (rw (same_text→eq a addr e) (find-failure_self l now addr seen (omega (arith, c)))))
      | inr e ↦
          rest
          ∙ ap (λ o. counted l addr es o)
              (rw e (find-failure_other l now a addr seen (omega (arith, c)) e))
    ]

-- A list of failures of which none counts on a record that is too old, from a first one.
abbrev pub AreWithin : Limits → ℕ → List (ℕ × Text) → Type 0
AreWithin l start [] = Unit
AreWithin l start ((now, a) ∷ es) = (now ≤ start + l.window) × AreWithin l start es

abbrev pub own_times : Text → List (ℕ × Text) → ℕ
own_times addr [] = 0
own_times addr ((now, a) ∷ es) = (if same_text a addr then 1 else 0) + own_times addr es

-- Fewer failures than the limit are added up.
pub counted-some :
    (l : Limits) (addr : Text) (es : List (ℕ × Text)) (r : Failures)
    → AreWithin l r.first es
    → r.fails + own_times addr es < l.max_fail
    → counted l addr es (some r) ≡ some (record r { fails = r.fails + own_times addr es })
unfolding counted
counted-some l addr [] r w h = ap (λ n. some (record r { fails = n })) (omega arith)
counted-some l addr ((now, a) ∷ es) r w h = elim (Bool-cases (same_text a addr)) [
  | inl e ↦
      ap (λ o. counted l addr es o) (rw e (ground (arith, w, rw e at h)))
      ∙ counted-some l addr es (record r { fails = r.fails + 1 }) w.1 (omega (arith, rw e at h))
      ∙ ap (λ n. some (record r { fails = n })) (rw e (omega arith))
  | inr e ↦
      ap (λ o. counted l addr es o) (rw e refl)
      ∙ counted-some l addr es r w.1 (omega (arith, rw e at h))
      ∙ ap (λ n. some (record r { fails = n })) (rw e (omega arith))
]

pub counted-append :
    (l : Limits) (addr : Text) (es : List (ℕ × Text)) (now : ℕ) (o : Option Failures)
    → counted l addr (es ++ (now, addr) ∷ []) o
      ≡ some (one_more l now (current l now addr (counted l addr es o)))
unfolding counted
counted-append l addr [] now o = rw (same_text_refl addr) refl
counted-append l addr ((t, a) ∷ es) now o =
    counted-append l addr es now
      (if same_text a addr then some (one_more l t (current l t addr o)) else o)
