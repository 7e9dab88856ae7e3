-- ===== src/Utils/Chunker/Examples.antt =====
-- Runs of the chunker, and its theorems at concrete texts.
use freysa_spark_hackathon.Common.{ℕ, zero, suc, ◌≡◌, refl, none, some, List, [], ◌∷◌, arith}
use freysa_spark_hackathon.Utils.Chunker.{
  is_space, trim_start, trim_end, trim, last_space, end_index, chunk_from, chunk_text,
}
use freysa_spark_hackathon.Utils.Chunker.Windows.{
  HasSpace, IsChunkable, chunk_text_total, chunk_text_diverges,
}

-- "ab cd ef", and a chunk size of 4.
abbrev words : List ℕ
words = b'a' ∷ b'b' ∷ 32 ∷ b'c' ∷ b'd' ∷ 32 ∷ b'e' ∷ b'f' ∷ []

abbrev word_chunks : List (List ℕ)
word_chunks = (b'a' ∷ b'b' ∷ []) ∷ (b'c' ∷ b'd' ∷ []) ∷ (b'e' ∷ b'f' ∷ []) ∷ []

words_run : chunk_text 9 words 4 ≡ some word_chunks
unfolding chunk_text chunk_from end_index last_space trim trim_start trim_end is_space
words_run = refl

words-IsChunkable : IsChunkable words 4
words-IsChunkable zero h = (2, omega arith, omega arith, refl)
words-IsChunkable (suc zero) h = (2, omega arith, omega arith, refl)
words-IsChunkable (suc (suc zero)) h = (2, omega arith, omega arith, refl)
words-IsChunkable (suc (suc (suc zero))) h = (5, omega arith, omega arith, refl)
words-IsChunkable (suc (suc (suc (suc n)))) h = absurd (omega arith)

chunk_text_total_example : (cs : List (List ℕ)) × (chunk_text 9 words 4 ≡ some cs)
chunk_text_total_example = chunk_text_total words 4 words-IsChunkable

-- "a bcdef g" with a chunk size of 3: the word "bcdef" is too long.
abbrev long_word : List ℕ
long_word = b'a' ∷ 32 ∷ b'b' ∷ b'c' ∷ b'd' ∷ b'e' ∷ b'f' ∷ 32 ∷ b'g' ∷ []

long_word-bare : ¬ HasSpace long_word 2 5
long_word-bare (suc (suc zero), from, to, e) = ground arith
long_word-bare (suc (suc (suc zero)), from, to, e) = ground arith
long_word-bare (suc (suc (suc (suc zero))), from, to, e) = ground arith
long_word-bare (suc (suc (suc (suc (suc zero)))), from, to, e) = ground arith
long_word-bare (i, from, to, e) = omega arith

chunk_text_diverges_example : chunk_text 1000 long_word 3 ≡ none
chunk_text_diverges_example = chunk_text_diverges long_word 3 2 (omega arith) long_word-bare 1000
