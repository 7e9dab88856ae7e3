-- ===== src/Utils/Canonicalize/Collisions.antt =====
-- Two different objects with one canonical text: a key is printed as it is, quotes included.
use freysa_spark_hackathon.Common.{
  ◌≡◌, refl, ◌≢◌, true, false, ◌∷◌, ◌++◌, append_assoc, Text, text_eq, text_eq_iff,
}
use freysa_spark_hackathon.Utils.Canonicalize.{
  Value, obj, end, entry, text_leb, insert_key, sort, join, find, canonicalize_json,
}

text_eq_refl : (s : Text) → text_eq s s ≡ true
text_eq_refl s = (text_eq_iff s s).1 refl

abbrev pub two : Text → Value → Text → Value → Value
two k v j w = obj (entry k v (entry j w end))

-- The object whose one key holds the first entry's text and the second's key.
module _ (quote : Text → Text) where
  abbrev pub forged_key : Text → Value → Text → Text
  forged_key k v j = k ++ b'"' ∷ b':' ∷ (canonicalize_json quote v ++ b',' ∷ b'"' ∷ j)

  abbrev pub forged : Text → Value → Text → Value → Value
  forged k v j w = obj (entry (forged_key k v j) w end)

  -- For any two entries in the order of their keys there is another object, with one entry, that has the
  -- same canonical text as the object of the two.
  pub canonicalize_json_collision :
      (k : Text) (v : Value) (j : Text) (w : Value)
      → text_leb k j ≡ true
      → text_eq k j ≡ false
      → (canonicalize_json quote (forged k v j w) ≡ canonicalize_json quote (two k v j w))
        × (forged k v j w ≢ two k v j w)
  unfolding canonicalize_json sort insert_key find join
  canonicalize_json_collision k v j w h n = (
    rw (h, n, text_eq_refl k, text_eq_refl j, text_eq_refl (forged_key k v j))
        (simp (append_assoc)),
    λ e. cc,
  )
