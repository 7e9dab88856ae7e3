-- ===== src/Utils/Canonicalize/Reordering.antt =====
-- The canonical text of a value does not depend on the order of the entries of its objects, at any depth.
use mathlib.Core.Path.{fun_ext}
use freysa_spark_hackathon.Common.{
  ◌≡◌, refl, ap, sym, ◌∙◌, inl, inr, true, false, [], ◌∷◌, ◌++◌, map, Text, text_eq, text_eq_iff,
  Bool-cases,
}
use freysa_spark_hackathon.Utils.Canonicalize.{
  Value, Values, Entries, arr, obj, nil, cons, end, entry, sort, join, Printed, keys, find, text_of,
  print_entry, print_object, canonicalize_json, canonicalize_values, canonicalize_entries,
}
use freysa_spark_hackathon.Utils.Canonicalize.Order.{insert_key_comm}

-- Values that differ in nothing but the order of entries.
mutual
  pub data Reordered : Value → Value → Type 0 where
    same : (v : Value) → Reordered v v
    in_array : {vs ws : Values} → ReorderedItems vs ws → Reordered (arr vs) (arr ws)
    in_object : {es fs : Entries} → ReorderedEntries es fs → Reordered (obj es) (obj fs)

  pub data ReorderedItems : Values → Values → Type 0 where
    no_items : ReorderedItems nil nil
    items :
        {v w : Value} {vs ws : Values}
        → Reordered v w
        → ReorderedItems vs ws
        → ReorderedItems (cons v vs) (cons w ws)

  pub data ReorderedEntries : Entries → Entries → Type 0 where
    no_entries : ReorderedEntries end end
    entries :
        {v w : Value} {es fs : Entries} (k : Text)
        → Reordered v w
        → ReorderedEntries es fs
        → ReorderedEntries (entry k v es) (entry k w fs)
    -- two entries change places; the keys of an object are different
    swap :
        (k j : Text) (v w : Value) (es : Entries)
        → text_eq k j ≡ false
        → ReorderedEntries (entry k v (entry j w es)) (entry j w (entry k v es))
    steps :
        {es fs gs : Entries}
        → ReorderedEntries es fs
        → ReorderedEntries fs gs
        → ReorderedEntries es gs

-- Printed entries with the same sorted keys and the same text at each key.
abbrev Agree : Printed → Printed → Type 0
Agree es fs = (sort (keys es) ≡ sort (keys fs)) × ((k : Text) → find es k ≡ find fs k)

print_object-Agree : (es fs : Printed) → Agree es fs → print_object es ≡ print_object fs
print_object-Agree es fs (s, f) = rw s (
    ap (λ g. b'{' ∷ (join (map (λ k. print_entry k (text_of (g k))) (sort (keys fs))) ++ b'}' ∷ []))
      (fun_ext f))

Agree-cons : (k t : Text) (es fs : Printed) → Agree es fs → Agree ((k, t) ∷ es) ((k, t) ∷ fs)
unfolding sort find
Agree-cons k t es fs (s, f) = (rw s refl, λ j. rw (f j) refl)

Agree-swap :
    (k j t u : Text) (es : Printed)
    → text_eq k j ≡ false
    → Agree ((k, t) ∷ (j, u) ∷ es) ((j, u) ∷ (k, t) ∷ es)
unfolding sort find
Agree-swap k j t u es n = (insert_key_comm k j (sort (keys es)), λ i. go i)
  where
    go : (i : Text) → find ((k, t) ∷ (j, u) ∷ es) i ≡ find ((j, u) ∷ (k, t) ∷ es) i
    go i = elim (Bool-cases (text_eq k i)) [
      | inr a ↦ rw a refl
      | inl a ↦ elim (Bool-cases (text_eq j i)) [
        | inr b ↦ rw (a, b) refl
        | inl b ↦
            let first : k ≡ i = (text_eq_iff k i).0 a in
            let second : i ≡ j = sym ((text_eq_iff j i).0 b) in
            let clash : text_eq k j ≡ true = (text_eq_iff k j).1 (first ∙ second) in cc
      ]
    ]

module _ (quote : Text → Text) where
  mutual
    unfolding canonicalize_json

    value-Reordered :
        {v w : Value} → Reordered v w → canonicalize_json quote v ≡ canonicalize_json quote w
    value-Reordered (same v) = refl
    value-Reordered (in_array r) = ap (λ ts. b'[' ∷ (join ts ++ b']' ∷ [])) (items-reordered r)
    value-Reordered (in_object r) = print_object-Agree _ _ (entries-Agree r)

    items-reordered :
        {vs ws : Values}
        → ReorderedItems vs ws
        → canonicalize_values quote vs ≡ canonicalize_values quote ws
    items-reordered no_items = refl
    items-reordered (items r rs) = cc (value-Reordered r, items-reordered rs)

    entries-Agree :
        {es fs : Entries}
        → ReorderedEntries es fs
        → Agree (canonicalize_entries quote es) (canonicalize_entries quote fs)
    entries-Agree no_entries = (refl, λ k. refl)
    entries-Agree (entries k r rs) = rw (value-Reordered r) (Agree-cons k _ _ _ (entries-Agree rs))
    entries-Agree (swap k j v w es n) = Agree-swap k j _ _ _ n
    entries-Agree (steps r q) =
        let (s, f) = entries-Agree r in let (t, g) = entries-Agree q in (s ∙ t, λ k. f k ∙ g k)

  -- Two values that differ in nothing but the order of the entries of their objects, at any depth, have
  -- one canonical text.
  pub canonicalize_json-Reordered :
      (v w : Value) → Reordered v w → canonicalize_json quote v ≡ canonicalize_json quote w
  canonicalize_json-Reordered v w r = value-Reordered r
