-- ===== src/Utils/Chunker/Content.antt =====
-- What the chunks hold: never more than the chunk size each, and together every unit of the text
-- but white space, in order.
use mathlib.Core.Option
use native.Mathlib.Nat.{le_trans}
use freysa_spark_hackathon.Common.{
  ℕ, zero, suc, ◌+◌, ◌-◌, ◌≤◌, ◌<◌, ◌≡◌, refl, sym, ap, ◌∙◌, Bool, not, none, some, List, [], ◌∷◌,
  ◌++◌, ◌⊎◌, true, false, inl, inr, arith, ltb, length, take, drop, keep, flatten, All, Bool-cases,
  Option-cases, ltb→lt, take-append-drop, length-take, drop-drop, drop_past, length-drop,
  keep-append, get_elem?-take, get_elem?-drop, length_of_get_elem?,
}
use freysa_spark_hackathon.Utils.Chunker.{
  is_space, trim_start, add_front, trim_end, trim, slice, last_space, end_index, chunk_from,
  chunk_text,
}
use freysa_spark_hackathon.Utils.Chunker.Windows.{SpaceAt, last_space_sound, moves_of_some}

abbrev pub is_mark : ℕ → Bool
is_mark c = not (is_space c)

keep-trim_start : (s : List ℕ) → keep is_mark (trim_start s) ≡ keep is_mark s
unfolding trim_start
keep-trim_start [] = refl
keep-trim_start (c ∷ s) = ground (arith, keep-trim_start s)

keep-add_front : (c : ℕ) (s : List ℕ) → keep is_mark (add_front c s) ≡ keep is_mark (c ∷ s)
keep-add_front c [] = ground arith
keep-add_front c (d ∷ s) = refl

keep-trim_end : (s : List ℕ) → keep is_mark (trim_end s) ≡ keep is_mark s
unfolding trim_end
keep-trim_end [] = refl
keep-trim_end (c ∷ s) = rw keep-add_front (ground (arith, keep-trim_end s))

keep-trim : (s : List ℕ) → keep is_mark (trim s) ≡ keep is_mark s
unfolding trim
keep-trim s = keep-trim_start (trim_end s) ∙ keep-trim_end s

length-trim_start : (s : List ℕ) → length (trim_start s) ≤ length s
unfolding trim_start
length-trim_start [] = omega arith
length-trim_start (c ∷ s) = ground (arith, length-trim_start s)

length-add_front : (c : ℕ) (s : List ℕ) → length (add_front c s) ≤ suc (length s)
length-add_front c [] = ground arith
length-add_front c (d ∷ s) = omega arith

length-trim_end : (s : List ℕ) → length (trim_end s) ≤ length s
unfolding trim_end
length-trim_end [] = omega arith
length-trim_end (c ∷ s) = omega (arith, length-add_front c (trim_end s), length-trim_end s)

trim_end-spaces : (n : ℕ) (s : List ℕ) → SpaceAt s n → length s ≡ suc n → length (trim_end s) ≤ n
unfolding trim_end is_space
trim_end-spaces n [] e h = cc
trim_end-spaces zero (c ∷ []) e h = ground arith
trim_end-spaces zero (c ∷ d ∷ s) e h = absurd (omega arith)
trim_end-spaces (suc n) (c ∷ s) e h =
    omega (arith, length-add_front c (trim_end s), trim_end-spaces n s e (omega arith))

length-slice :
    (text : List ℕ) (size start : ℕ)
    → start < end_index text size start
    → length (trim (slice text start (end_index text size start))) ≤ size
unfolding end_index trim
length-slice text size start moves =
    le_trans (length-trim_start _) (elim (Bool-cases (ltb (start + size) (length text))) [
      | inr past ↦ rw past (
          omega (
            arith,
            length-trim_end (slice text start (start + size)),
            length-take (start + size - start) (drop start text),
          ))
      | inl inside ↦ elim (Option-cases (last_space text (start + size))) [
        | inl e0 ↦ absurd (omega (arith, rw (inside, e0) at moves))
        | inr (j, found) ↦
            let (le, e) = last_space_sound text (start + size) j found in
            let moves' : start < j + 1 = rw (inside, found) at moves in
            let in_text = length_of_get_elem? j text e in
            let n : length (take (j + 1 - start) (drop start text)) ≡ suc (j - start) =
              omega
                (arith, length-take (j + 1 - start) (drop start text), length-drop start text) in
            let last : SpaceAt (take (j + 1 - start) (drop start text)) (j - start) =
              get_elem?-take (j + 1 - start) (j - start) (drop start text) (omega arith)
              ∙ get_elem?-drop start (j - start) j text (omega arith)
              ∙ e in
            rw (inside, found)
              (omega (
                arith,
                trim_end-spaces (j - start) (take (j + 1 - start) (drop start text)) last n,
              ))
      ]
    ])

chunk_from_done :
    (fuel : ℕ) (text : List ℕ) (size start : ℕ) {cs : List (List ℕ)}
    → chunk_from (suc fuel) text size start ≡ some cs
    → ltb start (length text) ≡ false
    → cs ≡ []
unfolding chunk_from
chunk_from_done fuel text size start e done = ground arith

chunk_from_more :
    (fuel : ℕ) (text : List ℕ) (size start : ℕ) {cs : List (List ℕ)}
    → chunk_from (suc fuel) text size start ≡ some cs
    → ltb start (length text) ≡ true
    → (rest : List (List ℕ)) × (chunk_from fuel text size (end_index text size start) ≡ some rest)
      × (trim (slice text start (end_index text size start)) ∷ rest ≡ cs)
unfolding chunk_from
chunk_from_more fuel text size start e more = (Option.map-eq-some_iff _ _).0 (rw more at e)

-- The rounds of a loop that ends: none past the end, or one that moves on and the rest.
abbrev Rounds : ℕ → List ℕ → ℕ → ℕ → List (List ℕ) → Type 0
Rounds fuel text size start cs =
    ((length text ≤ start) × (cs ≡ []))
    ⊎ ((start < end_index text size start)
        × ((rest : List (List ℕ)) × (chunk_from fuel text size (end_index text size start)
              ≡ some rest)
            × (cs ≡ trim (slice text start (end_index text size start)) ∷ rest)))

chunk_from_inv :
    (fuel : ℕ) (text : List ℕ) (size start : ℕ) {cs : List (List ℕ)}
    → chunk_from (suc fuel) text size start ≡ some cs
    → Rounds fuel text size start cs
chunk_from_inv fuel text size start e = elim (Bool-cases (ltb start (length text))) [
  | inl more ↦
      let (rest, later, same) = chunk_from_more fuel text size start e more in
      inr (moves_of_some (suc fuel) text size start e (ltb→lt _ _ more), (rest, later, sym same))
  | inr done ↦ inl (ground arith, chunk_from_done fuel text size start e done)
]

chunk_from-none_zero : (text : List ℕ) (size start : ℕ) → chunk_from 0 text size start ≡ none
unfolding chunk_from
chunk_from-none_zero text size start = refl

chunk_from_bounded :
    (fuel : ℕ) (text : List ℕ) (size start : ℕ) {cs : List (List ℕ)}
    → chunk_from fuel text size start ≡ some cs
    → All (λ c. length c ≤ size) cs
chunk_from_bounded zero text size start e = cc (chunk_from-none_zero text size start)
chunk_from_bounded (suc fuel) text size start {cs} e =
    elim (chunk_from_inv fuel text size start e) [
      | inl (_, done) ↦ rw done tt
      | inr (moves, (rest, later, same)) ↦ rw same (
        length-slice text size start moves,
        chunk_from_bounded fuel text size (end_index text size start) later,
      )
    ]

-- What one round cuts off and what it leaves are the text from its start on.
slice-append-drop :
    (text : List ℕ) (start stop : ℕ)
    → start < stop
    → slice text start stop ++ drop stop text ≡ drop start text
slice-append-drop text start stop h =
    let after : drop (stop - start) (drop start text) ≡ drop stop text =
      drop-drop start (stop - start) text
      ∙ (let sum : start + (stop - start) ≡ stop = omega arith in ap (λ n. drop n text) sum) in
    rw (← after) (take-append-drop (stop - start) (drop start text))

chunk_from_marks :
    (fuel : ℕ) (text : List ℕ) (size start : ℕ) {cs : List (List ℕ)}
    → chunk_from fuel text size start ≡ some cs
    → keep is_mark (flatten cs) ≡ keep is_mark (drop start text)
chunk_from_marks zero text size start e = cc (chunk_from-none_zero text size start)
chunk_from_marks (suc fuel) text size start {cs} e = elim (chunk_from_inv fuel text size start e) [
  | inl (past, done) ↦ rw (done, drop_past start text past)
  | inr (moves, (rest, later, same)) ↦
      let stop = end_index text size start in
      rw same (
        simp (keep-append, keep-trim, chunk_from_marks fuel text size stop later)
          (sym (keep-append is_mark (slice text start stop) (drop stop text))
            ∙ ap (keep is_mark) (slice-append-drop text start stop moves)))
]

-- No chunk is longer than the chunk size.
pub chunk_text_bounded :
    (fuel : ℕ) (text : List ℕ) (size : ℕ) (cs : List (List ℕ))
    → chunk_text fuel text size ≡ some cs
    → All (λ c. length c ≤ size) cs
unfolding chunk_text
chunk_text_bounded fuel text size cs e = chunk_from_bounded fuel text size 0 e

-- The chunks, one after the other, hold the units of the text that are not white space, each as
-- often and in the order of the text.
pub chunk_text_content :
    (fuel : ℕ) (text : List ℕ) (size : ℕ) (cs : List (List ℕ))
    → chunk_text fuel text size ≡ some cs
    → keep is_mark (flatten cs) ≡ keep is_mark text
unfolding chunk_text
chunk_text_content fuel text size cs e = chunk_from_marks fuel text size 0 e
