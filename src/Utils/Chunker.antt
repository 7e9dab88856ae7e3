-- ===== src/Utils/Chunker.antt =====
-- chunkText of agent/src/common/utils/chunker.ts. A text is the list of its UTF-16 code units, as
-- the source's `length`, `slice` and `lastIndexOf` count them.
pub mod Windows
pub mod Content
mod Examples
use mathlib.Core.Option
use freysa_spark_hackathon.Common.{
  ℕ, zero, suc, ◌+◌, ◌-◌, Bool, true, false, ◌||◌, ◌&&◌, Option, none, some, List, [], ◌∷◌, leb,
  ltb, ◌==◌, if◌then◌else◌, length, take, drop,
}

-- The white space and line terminators that `trim` removes.
unfoldable pub is_space : ℕ → Bool
is_space c =
    (leb 9 c && leb c 13)
    || c == 32
    || c == 160
    || c == 5760
    || (leb 8192 c && leb c 8202)
    || c == 8232
    || c == 8233
    || c == 8239
    || c == 8287
    || c == 12288
    || c == 65279

unfoldable pub trim_start : List ℕ → List ℕ
trim_start [] = []
trim_start (c ∷ s) = let rest = trim_start s in if is_space c then rest else c ∷ s

abbrev add_front : ℕ → List ℕ → List ℕ
add_front c [] = if is_space c then [] else c ∷ []
add_front c (d ∷ s) = c ∷ d ∷ s

unfoldable pub trim_end : List ℕ → List ℕ
trim_end [] = []
trim_end (c ∷ s) = add_front c (trim_end s)

unfoldable pub trim : List ℕ → List ℕ
trim s = trim_start (trim_end s)

-- `text.slice(from, to)`: empty where `to` does not exceed `from`.
abbrev pub slice : List ℕ → ℕ → ℕ → List ℕ
slice text from to = take (to - from) (drop from text)

-- `text.lastIndexOf(" ", last)`: the last space at an index up to `last`; `none` for -1.
unfoldable pub last_space : List ℕ → ℕ → Option ℕ
last_space [] last = none
last_space (c ∷ s) zero = if c == 32 then some 0 else none
last_space (c ∷ s) (suc last) = elim (last_space s last) [
  | some i ↦ some (suc i)
  | none ↦ if c == 32 then some 0 else none
]

abbrev after : Option ℕ → ℕ
after none = 0
after (some i) = i + 1

-- `endIndex` of one round.
unfoldable pub end_index : List ℕ → ℕ → ℕ → ℕ
end_index text size start =
    if ltb (start + size) (length text)
    then after (last_space text (start + size))
    else start + size

-- The loop, with `fuel` rounds; `none` where they do not suffice.
unfoldable pub chunk_from : ℕ → List ℕ → ℕ → ℕ → Option (List (List ℕ))
chunk_from zero text size start = none
chunk_from (suc fuel) text size start =
    let stop = end_index text size start in
    let rest =
      Option.map (λ cs. trim (slice text start stop) ∷ cs) (chunk_from fuel text size stop) in
    if ltb start (length text) then rest else some []

unfoldable pub chunk_text : ℕ → List ℕ → ℕ → Option (List (List ℕ))
chunk_text fuel text size = chunk_from fuel text size 0
