-- ===== src/AcquireCache.antt =====
-- acquire_cache.py: the adjudications that glossary_acquire.py remembers, one for each pair of a
-- variant and a canonical name. The file is a JSON object, which may be damaged or of an old shape.
pub mod Remembered
use dub_titlerr.Prelude.{
  ℕ, Bool, true, false, not, ◌&&◌, Option, none, some, [], ◌∷◌, ◌==◌, if◌then◌else◌,
}
use dub_titlerr.Prelude.Int.{pos, negsuc}
use dub_titlerr.Text.{Text, codes, same_text, ends_with}
use dub_titlerr.Requests.Json.{
  Json, null, bool, int, decimal, str, array, object, Array, no_items, item, Dict, no_fields, field,
  get,
}

-- bool(v)
unfoldable pub truthy : Json → Bool
truthy null = false
truthy (bool b) = b
truthy (int (pos n)) = not (n == 0)
truthy (int (negsuc n)) = true
truthy (decimal (pos m) k) = not (m == 0)
truthy (decimal (negsuc m) k) = true
truthy (str t) = elim t [ [] ↦ false | c ∷ u ↦ true ]
truthy (array no_items) = false
truthy (array (item v a)) = true
truthy (object no_fields) = false
truthy (object (field k v d)) = true

-- bool(d.get(key))
abbrev pub truthy_at : Option Json → Bool
truthy_at none = false
truthy_at (some v) = truthy v

abbrev pub or_null : Option Json → Json
or_null none = null
or_null (some v) = v

-- d[key] = v: at the place of the key, or behind the others
unfoldable pub put : Text → Json → Dict → Dict
unfolding same_text
put key v no_fields = field key v no_fields
put key v (field k w d) =
    let rest = put key v d in if same_text k key then field k v d else field k w rest

pub record Adjudication : Type 0 where
  pub same_entity : Bool
  pub confidence : Json

abbrev pub same_entity : Text
same_entity = codes "same_entity"

abbrev pub confidence : Text
confidence = codes "confidence"

-- An entry that is an object with both keys.
unfoldable pub read_entry : Option Json → Option Adjudication
unfolding get truthy
read_entry (some (object e)) = elim (get e same_entity) [
  | none ↦ none
  | some s ↦ elim (get e confidence) [
    | none ↦ none
    | some c ↦ some (record { same_entity = truthy s; confidence = c })
  ]
]
read_entry _ = none

-- `cache.get(variant, {}).get(canonical)`, where what is no object has no `get`
unfoldable pub entry_in : Option Json → Text → Option Json
unfolding get
entry_in (some (object d)) canonical = get d canonical
entry_in _ canonical = none

unfoldable pub escalation_for : Dict → Text → Text → Option Adjudication
unfolding get read_entry entry_in
escalation_for cache variant canonical = read_entry (entry_in (get cache variant) canonical)

-- The entry that is stored for an answer.
unfoldable pub entry_for : Dict → Json
unfolding get truthy
entry_for adjudication = object (
    field same_entity (bool (truthy_at (get adjudication same_entity)))
      (field confidence (or_null (get adjudication confidence)) no_fields))

-- The assignment raises a TypeError, here `none`, where the variant has what is no object. (A list
-- raises it too, since its index is a string.)
unfoldable pub store_in : Dict → Text → Text → Json → Option Json → Option Dict
unfolding put
store_in cache variant canonical entry none =
    some (put variant (object (field canonical entry no_fields)) cache)
store_in cache variant canonical entry (some (object d)) =
    some (put variant (object (put canonical entry d)) cache)
store_in cache variant canonical entry (some _) = none

unfoldable pub remember_escalation : Dict → Text → Text → Dict → Option Dict
unfolding get truthy store_in entry_for
remember_escalation cache variant canonical adjudication =
    if truthy_at (get adjudication (codes "unavailable"))
    then some cache
    else store_in cache variant canonical (entry_for adjudication) (get cache variant)
