-- ===== src/Utils/Canonicalize/Examples.antt =====
-- Canonical texts of small values.
use freysa_spark_hackathon.Common.{◌≡◌, refl, ◌≢◌, [], ◌∷◌, ◌++◌, Text, text_eq}
use freysa_spark_hackathon.Utils.Canonicalize.{
  Value, null, num, arr, nil, cons, end, canonicalize_json, sort, insert_key, text_leb, find, join,
}
use freysa_spark_hackathon.Utils.Canonicalize.Reordering.{
  Reordered, in_object, swap, in_array, items, no_items, canonicalize_json-Reordered,
}
use freysa_spark_hackathon.Utils.Canonicalize.Collisions.{two, forged, canonicalize_json_collision}

abbrev quote : Text → Text
quote s = b'"' ∷ (s ++ b'"' ∷ [])

abbrev one : Value
one = num (b'1' ∷ [])

-- `[{"a": 1, "b": null}]` and `[{"b": null, "a": 1}]`.
abbrev a_first : Value
a_first = arr (cons (two (b'a' ∷ []) one (b'b' ∷ []) null) nil)

abbrev b_first : Value
b_first = arr (cons (two (b'b' ∷ []) null (b'a' ∷ []) one) nil)

sorted_run : canonicalize_json quote b_first ≡ canonicalize_json quote a_first
unfolding canonicalize_json sort insert_key text_leb find join text_eq
sorted_run = refl

swapped : Reordered a_first b_first
unfolding text_eq
swapped = in_array (items (in_object (swap (b'a' ∷ []) (b'b' ∷ []) one null end refl)) no_items)

canonicalize_json-Reordered_example :
    canonicalize_json quote a_first ≡ canonicalize_json quote b_first
canonicalize_json-Reordered_example = canonicalize_json-Reordered quote a_first b_first swapped

canonicalize_json_collision_example :
    (canonicalize_json quote (forged quote (b'a' ∷ []) one (b'b' ∷ []) null)
      ≡ canonicalize_json quote (two (b'a' ∷ []) one (b'b' ∷ []) null))
    × (forged quote (b'a' ∷ []) one (b'b' ∷ []) null ≢ two (b'a' ∷ []) one (b'b' ∷ []) null)
unfolding text_leb text_eq
canonicalize_json_collision_example =
    canonicalize_json_collision quote (b'a' ∷ []) one (b'b' ∷ []) null refl refl
