-- ===== src/Utils/Chunker/Windows.antt =====
-- When the loop of chunkText ends: exactly where every window of `size + 1` units that ends inside
-- the text holds a space.
use freysa_spark_hackathon.Common.{
  ℕ, zero, suc, ◌+◌, ◌≤◌, ◌<◌, ◌≡◌, refl, ◌⊎◌, none, some, List, [], ◌∷◌, inl, inr, arith, ltb,
  length, get_elem?, Bool-cases, Option-cases, ltb→lt, lt→ltb,
}
use freysa_spark_hackathon.Utils.Chunker.{
  trim, slice, last_space, end_index, chunk_from, chunk_text,
}

abbrev pub SpaceAt : List ℕ → ℕ → Type 0
SpaceAt text i = get_elem? text i ≡ some 32

-- A space at an index from `lo` to `hi`, both included.
abbrev pub HasSpace : List ℕ → ℕ → ℕ → Type 0
HasSpace text lo hi = (i : ℕ) × (lo ≤ i) × (i ≤ hi) × SpaceAt text i

pub last_space_sound :
    (text : List ℕ) (last i : ℕ) → last_space text last ≡ some i → (i ≤ last) × SpaceAt text i
unfolding last_space
last_space_sound [] last i h = cc
last_space_sound (c ∷ s) zero zero h = ground arith
last_space_sound (c ∷ s) zero (suc i) h = ground arith
last_space_sound (c ∷ s) (suc last) zero h = ground arith
last_space_sound (c ∷ s) (suc last) (suc i) h = ground (arith, last_space_sound s last i)

pub last_space_max :
    (text : List ℕ) (last i : ℕ)
    → i ≤ last
    → SpaceAt text i
    → (j : ℕ) × (last_space text last ≡ some j) × (i ≤ j)
unfolding last_space
last_space_max [] last i h e = cc
last_space_max (c ∷ s) zero zero h e = (0, ground arith, omega arith)
last_space_max (c ∷ s) zero (suc i) h e = elim h [ ]
last_space_max (c ∷ s) (suc last) zero h e = elim (Option-cases (last_space s last)) [
  | inl e0 ↦ (0, rw e0 (ground arith), omega arith)
  | inr (k, e1) ↦ (suc k, rw e1, omega arith)
]
last_space_max (c ∷ s) (suc last) (suc i) h e =
    let (j, found, le) = last_space_max s last i (omega arith) e in (suc j, rw found, omega arith)

pub HasSpace-cases : (text : List ℕ) (lo hi : ℕ) → HasSpace text lo hi ⊎ (¬ HasSpace text lo hi)
HasSpace-cases text lo hi = elim (Option-cases (last_space text hi)) [
  | inl e0 ↦ inr (λ s. let (j, found, le) = last_space_max text hi s.0 s.2 s.3 in cc)
  | inr (j, found) ↦ elim (Bool-cases (ltb j lo)) [
    | inl below ↦ inr (λ s.
        let (k, again, le) = last_space_max text hi s.0 s.2 s.3 in
        let same : k ≡ j = cc (again, found) in omega (arith, ltb→lt j lo below, s.1))
    | inr above ↦ let (le, e) = last_space_sound text hi j found in inl (j, ground arith, le, e)
  ]
]

-- A round moves on where its window holds a space, or reaches the end of the text.
pub end_index_moves :
    (text : List ℕ) (size start : ℕ)
    → (start + size < length text → HasSpace text start (start + size))
    → start < length text
    → start < end_index text size start
unfolding end_index
end_index_moves text size start h in_text = elim (Bool-cases (ltb (start + size) (length text))) [
  | inl inside ↦
      let (i, from, to, e) = h (ltb→lt _ _ inside) in
      let (j, found, le) = last_space_max text (start + size) i to e in
      rw (inside, found) (omega arith)
  | inr past ↦ ground arith
]

-- A round that starts up to `w` ends up to `w`, where the window of `w` holds no space.
pub end_index_stays :
    (text : List ℕ) (size w start : ℕ)
    → w + size < length text
    → ¬ HasSpace text w (w + size)
    → start ≤ w
    → end_index text size start ≤ w
unfolding end_index
end_index_stays text size w start inside bare le =
    rw (lt→ltb (start + size) (length text) (omega arith))
      (elim (Option-cases (last_space text (start + size))) [
        | inl e0 ↦ rw e0 (omega arith)
        | inr (j, found) ↦
            let (jle, e) = last_space_sound text (start + size) j found in
            rw found (elim (Bool-cases (ltb j w)) [
              | inl below ↦ omega (arith, ltb→lt j w below)
              | inr above ↦ absurd (bare (j, ground arith, omega arith, e))
            ])
      ])

pub chunk_from-none :
    (fuel : ℕ) (text : List ℕ) (size w start : ℕ)
    → w + size < length text
    → ¬ HasSpace text w (w + size)
    → start ≤ w
    → chunk_from fuel text size start ≡ none
unfolding chunk_from
chunk_from-none zero text size w start inside bare le = refl
chunk_from-none (suc fuel) text size w start inside bare le =
    rw
      (chunk_from-none fuel text size w (end_index text size start) inside bare
        (end_index_stays text size w start inside bare le))
      (ground arith)

-- A round of a loop that ends moves on.
pub moves_of_some :
    (fuel : ℕ) (text : List ℕ) (size start : ℕ) {cs : List (List ℕ)}
    → chunk_from fuel text size start ≡ some cs
    → start < length text
    → start < end_index text size start
moves_of_some fuel text size start e more = elim (HasSpace-cases text start (start + size)) [
  | inl s ↦ end_index_moves text size start (λ _. s) more
  | inr bare ↦
      end_index_moves text size start
        (λ inside.
          absurd (cc (e, chunk_from-none fuel text size start start inside bare (omega arith))))
        more
]

-- What the loop needs to end from any start.
abbrev pub IsChunkable : List ℕ → ℕ → Type 0
IsChunkable text size = (w : ℕ) → w + size < length text → HasSpace text w (w + size)

pub chunk_from_step :
    (fuel : ℕ) (text : List ℕ) (size start : ℕ) (cs : List (List ℕ))
    → start < length text
    → chunk_from fuel text size (end_index text size start) ≡ some cs
    → chunk_from (suc fuel) text size start
      ≡ some (trim (slice text start (end_index text size start)) ∷ cs)
unfolding chunk_from
chunk_from_step fuel text size start cs more e = rw (lt→ltb _ _ more, e)

chunk_from_total :
    (fuel : ℕ) (text : List ℕ) (size start : ℕ)
    → IsChunkable text size
    → length text ≤ start + fuel
    → (cs : List (List ℕ)) × (chunk_from (suc fuel) text size start ≡ some cs)
unfolding chunk_from
chunk_from_total zero text size start h room = ([], ground arith)
chunk_from_total (suc fuel) text size start h room = elim (Bool-cases (ltb start (length text))) [
  | inl more ↦
      let inside = ltb→lt _ _ more in
      let moved = end_index_moves text size start (h start) inside in
      let (cs, e) = chunk_from_total fuel text size (end_index text size start) h (omega arith) in
      (_, chunk_from_step (suc fuel) text size start cs inside e)
  | inr done ↦ ([], rw done)
]

-- If every window of `size + 1` units that ends inside the text holds a space, then chunkText
-- returns, after at most one round for each unit and one more.
pub chunk_text_total :
    (text : List ℕ) (size : ℕ)
    → IsChunkable text size
    → (cs : List (List ℕ)) × (chunk_text (suc (length text)) text size ≡ some cs)
unfolding chunk_text
chunk_text_total text size h = chunk_from_total (length text) text size 0 h (omega arith)

-- If one window of `size + 1` units that ends inside the text holds no space (a word longer than
-- the chunk size), then no number of rounds is enough: chunkText never returns.
pub chunk_text_diverges :
    (text : List ℕ) (size w : ℕ)
    → w + size < length text
    → ¬ HasSpace text w (w + size)
    → (fuel : ℕ) → chunk_text fuel text size ≡ none
unfolding chunk_text
chunk_text_diverges text size w inside bare fuel =
    chunk_from-none fuel text size w 0 inside bare (omega arith)
