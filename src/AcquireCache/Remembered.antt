-- ===== src/AcquireCache/Remembered.antt =====
-- acquire_cache.py: what is remembered is found again.
use dub_titlerr.Prelude.{◌≡◌, refl, sym, ap, ◌∙◌, false, Option, none, some, arith}
use dub_titlerr.Text.{Text, codes, same_text}
use dub_titlerr.Text.Order.{same_text_refl, same_text→eq}
use dub_titlerr.Requests.Json.{
  Json, null, bool, int, decimal, str, array, object, Dict, no_fields, field, get,
}
use dub_titlerr.AcquireCache.{
  truthy, truthy_at, or_null, put, Adjudication, same_entity, confidence, read_entry, entry_in,
  escalation_for, entry_for, store_in, remember_escalation,
}

pub get-put_self : (key : Text) (v : Json) (d : Dict) → get (put key v d) key ≡ some v
unfolding get put
get-put_self key v no_fields = ground (arith, same_text_refl key)
get-put_self key v (field k w d) = ground (arith, same_text_refl key, get-put_self key v d)

pub get-put_other :
    (key other : Text) (v : Json) (d : Dict)
    → same_text key other ≡ false
    → get (put key v d) other ≡ get d other
unfolding get put
get-put_other key other v no_fields h = ground (arith, h)
get-put_other key other v (field k w d) h =
    ground (arith, h, get-put_other key other v d h, same_text→eq k key)

-- What is remembered of an answer.
abbrev pub remembered : Dict → Adjudication
remembered a = record {
  same_entity = truthy_at (get a same_entity);
  confidence = or_null (get a confidence);
}

read_entry-entry_for : (a : Dict) → read_entry (some (entry_for a)) ≡ some (remembered a)
unfolding read_entry entry_for get same_text truthy
read_entry-entry_for a = refl

-- Other variants and other names of the same variant are answered as before.
abbrev pub OthersKept : Text → Text → Dict → Dict → Type 0
OthersKept variant canonical before after =
    ((v n : Text)
      → same_text variant v ≡ false
      → escalation_for after v n ≡ escalation_for before v n)
    × ((n : Text)
        → same_text canonical n ≡ false
        → escalation_for after variant n ≡ escalation_for before variant n)

-- The variant has no entry yet, or an object.
abbrev pub IsSlot : Option Json → Type 0
IsSlot none = Unit
IsSlot (some (object d)) = Unit
IsSlot (some _) = ⊥

-- The answer is remembered: it is found under its pair, and all others are kept.
abbrev pub IsRemembered : Dict → Text → Text → Dict → Option Dict → Type 0
IsRemembered cache variant canonical a none = ⊥
IsRemembered cache variant canonical a (some after) =
    (escalation_for after variant canonical ≡ some (remembered a))
    × OthersKept variant canonical cache after

module _ (cache : Dict) (variant canonical : Text) (a : Dict) where
  escalation_for-put :
      (d : Json)
      → entry_in (some d) canonical ≡ some (entry_for a)
      → escalation_for (put variant d cache) variant canonical ≡ some (remembered a)
  unfolding escalation_for
  escalation_for-put d h = rw (get-put_self variant d cache, h) (read_entry-entry_for a)

  other_variants :
      (d : Json) (v n : Text)
      → same_text variant v ≡ false
      → escalation_for (put variant d cache) v n ≡ escalation_for cache v n
  unfolding escalation_for
  other_variants d v n h = rw (get-put_other variant v d cache h)

  other_names :
      (d : Json) (n : Text)
      → entry_in (some d) n ≡ entry_in (get cache variant) n
      → escalation_for (put variant d cache) variant n ≡ escalation_for cache variant n
  unfolding escalation_for
  other_names d n h = rw (get-put_self variant d cache, h)

  stored :
      (slot : Option Json)
      → get cache variant ≡ slot
      → IsSlot slot
      → IsRemembered cache variant canonical a (store_in cache variant canonical (entry_for a) slot)
  unfolding store_in entry_in
  stored none h s = (
    escalation_for-put (object (field canonical (entry_for a) no_fields))
        (get-put_self canonical (entry_for a) no_fields),
    (
      (λ v n k. other_variants (object (field canonical (entry_for a) no_fields)) v n k),
      (λ n k.
          other_names (object (field canonical (entry_for a) no_fields)) n
            (get-put_other canonical n (entry_for a) no_fields k ∙ ap (λ o. entry_in o n) (sym h))),
    ),
  )
  stored (some (object d)) h s = (
    escalation_for-put (object (put canonical (entry_for a) d))
        (get-put_self canonical (entry_for a) d),
    (
      (λ v n k. other_variants (object (put canonical (entry_for a) d)) v n k),
      (λ n k.
          other_names (object (put canonical (entry_for a) d)) n
            (get-put_other canonical n (entry_for a) d k ∙ ap (λ o. entry_in o n) (sym h))),
    ),
  )
  stored (some null) h s = absurd s
  stored (some (bool b)) h s = absurd s
  stored (some (int n)) h s = absurd s
  stored (some (decimal m k)) h s = absurd s
  stored (some (str t)) h s = absurd s
  stored (some (array b)) h s = absurd s

not_stored :
    (cache : Dict) (variant canonical : Text) (entry : Json) (slot : Option Json)
    → ¬ IsSlot slot
    → (store_in cache variant canonical entry slot ≡ none)
      × (read_entry (entry_in slot canonical) ≡ none)
unfolding store_in entry_in read_entry
not_stored cache variant canonical entry none s = absurd (s tt)
not_stored cache variant canonical entry (some (object d)) s = absurd (s tt)
not_stored cache variant canonical entry (some null) s = (refl, refl)
not_stored cache variant canonical entry (some (bool b)) s = (refl, refl)
not_stored cache variant canonical entry (some (int n)) s = (refl, refl)
not_stored cache variant canonical entry (some (decimal m k)) s = (refl, refl)
not_stored cache variant canonical entry (some (str t)) s = (refl, refl)
not_stored cache variant canonical entry (some (array b)) s = (refl, refl)

-- An answer of a backend that was available is found again under its pair, and the answers to all
-- other pairs are as before, if the variant has no entry yet or an object.
pub remember_escalation-IsRemembered :
    (cache : Dict) (variant canonical : Text) (a : Dict)
    → truthy_at (get a (codes "unavailable")) ≡ false
    → IsSlot (get cache variant)
    → IsRemembered cache variant canonical a (remember_escalation cache variant canonical a)
unfolding remember_escalation
remember_escalation-IsRemembered cache variant canonical a h s =
    rw (h) (stored cache variant canonical a (get cache variant) refl s)

-- Remembering an available answer for a variant whose entry is no object raises an error, though
-- looking the pair up is a miss.
pub remember_escalation-raises :
    (cache : Dict) (variant canonical : Text) (a : Dict)
    → truthy_at (get a (codes "unavailable")) ≡ false
    → ¬ IsSlot (get cache variant)
    → (remember_escalation cache variant canonical a ≡ none)
      × (escalation_for cache variant canonical ≡ none)
unfolding remember_escalation escalation_for
remember_escalation-raises cache variant canonical a h s =
    rw (h) (not_stored cache variant canonical (entry_for a) (get cache variant) s)
