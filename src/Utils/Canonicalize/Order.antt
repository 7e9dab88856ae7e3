-- ===== src/Utils/Canonicalize/Order.antt =====
-- The order of keys is total, and inserting two keys commutes.
use freysa_spark_hackathon.Common.{
  ◌≡◌, refl, sym, ap, inl, inr, true, false, List, [], ◌∷◌, Text, arith, Bool-cases,
}
use freysa_spark_hackathon.Utils.Canonicalize.{text_leb, insert_key}

text_leb-total : (s t : Text) → text_leb s t ≡ false → text_leb t s ≡ true
unfolding text_leb
text_leb-total [] t h = cc
text_leb-total (c ∷ s) [] h = refl
text_leb-total (c ∷ s) (d ∷ t) h = ground (arith, text_leb-total s t)

text_leb-antisym : (s t : Text) → text_leb s t ≡ true → text_leb t s ≡ true → s ≡ t
unfolding text_leb
text_leb-antisym [] [] h g = refl
text_leb-antisym [] (d ∷ t) h g = cc
text_leb-antisym (c ∷ s) [] h g = cc
text_leb-antisym (c ∷ s) (d ∷ t) h g = ground (arith, text_leb-antisym s t)

text_leb_trans : (s t u : Text) → text_leb s t ≡ true → text_leb t u ≡ true → text_leb s u ≡ true
unfolding text_leb
text_leb_trans [] t u h g = refl
text_leb_trans (c ∷ s) [] u h g = cc
text_leb_trans (c ∷ s) (d ∷ t) [] h g = cc
text_leb_trans (c ∷ s) (d ∷ t) (e ∷ u) h g = ground (arith, text_leb_trans s t u)

after_both : (j k i : Text) → text_leb j i ≡ false → text_leb k i ≡ true → text_leb j k ≡ false
after_both j k i a b = elim (Bool-cases (text_leb j k)) [
  | inl g ↦ let c : text_leb j i ≡ true = text_leb_trans j k i g b in absurd (cc)
  | inr g ↦ g
]

-- The smaller of two keys may be inserted first or second.
insert_key_swap :
    (k j : Text) (ks : List Text)
    → text_leb k j ≡ true
    → insert_key k (insert_key j ks) ≡ insert_key j (insert_key k ks)
unfolding insert_key
insert_key_swap k j [] h = elim (Bool-cases (text_leb j k)) [
  | inl g ↦ let same : k ≡ j = text_leb-antisym k j h g in rw (h, g) (cc)
  | inr g ↦ rw (h, g) refl
]
insert_key_swap k j (i ∷ is) h = elim (Bool-cases (text_leb j i)) [
  | inl a ↦
      let b : text_leb k i ≡ true = text_leb_trans k j i h a in
      elim (Bool-cases (text_leb j k)) [
        | inl g ↦ let same : k ≡ j = text_leb-antisym k j h g in rw (a, b, h, g) (cc)
        | inr g ↦ rw (a, b, h, g, a) refl
      ]
  | inr a ↦ elim (Bool-cases (text_leb k i)) [
    | inl b ↦ let g : text_leb j k ≡ false = after_both j k i a b in rw (a, b, g, a) refl
    | inr b ↦ rw (a, b, a) (ap (λ ls. i ∷ ls) (insert_key_swap k j is h))
  ]
]

pub insert_key_comm :
    (k j : Text) (ks : List Text) → insert_key k (insert_key j ks) ≡ insert_key j (insert_key k ks)
insert_key_comm k j ks = elim (Bool-cases (text_leb k j)) [
  | inl h ↦ insert_key_swap k j ks h
  | inr h ↦ sym (insert_key_swap j k ks (text_leb-total k j h))
]
