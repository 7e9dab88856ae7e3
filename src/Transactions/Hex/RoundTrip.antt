-- ===== src/Transactions/Hex/RoundTrip.antt =====
-- Bytes survive the way to hexadecimal text and back, and exactly the texts of odd length fail.
use mathlib.Core.Option
use freysa_spark_hackathon.Common.{
  ℕ, zero, suc, ◌*◌, ◌%◌, ◌<◌, ◌≡◌, ◌⊎◌, inl, inr, refl, ap, ◌∙◌, Bool, true, ◌&&◌, none, some,
  List, [], ◌∷◌, ◌++◌, arith, ◌==◌, length, All,
}
use freysa_spark_hackathon.Utils.Chunker.{is_space, trim_start}
use freysa_spark_hackathon.Transactions.Hex.{
  hex_digit, hex_digits, to_string_16, pad_to_even, number_to_hex, pad_start_2, byte_to_hex,
  bytes_digits, bytes_to_hex, digit_value, parse_digits, parse_first, strip_0x, parse_signed,
  parse_int_16, to_uint8, hex_pairs, strip_prefix, hex_to_uint8_array,
}

-- The two units of a byte, and the byte that they are read as.
abbrev first : List ℕ → ℕ
first [] = 0
first (c ∷ s) = c

abbrev second : List ℕ → ℕ
second [] = 0
second (c ∷ s) = first s

survives : ℕ → Bool
survives b =
    length (byte_to_hex b) == 2
    && to_uint8 (parse_int_16 (first (byte_to_hex b) ∷ second (byte_to_hex b) ∷ [])) == b

-- Whether every byte value under a bound passes.
check_range : (ℕ → Bool) → ℕ → Bool
check_range p zero = true
check_range p (suc top) = check_range p top && p top

check_range-at : (p : ℕ → Bool) (top b : ℕ) → b < top → check_range p top ≡ true → p b ≡ true
unfolding check_range
check_range-at p zero b under e = elim under [ ]
check_range-at p (suc top) b under e = ground (arith, check_range-at p top b)

survives_table : check_range survives 256 ≡ true
unfolding check_range survives byte_to_hex pad_start_2 to_string_16 hex_digits hex_digit
    parse_int_16 trim_start is_space parse_signed strip_0x parse_first parse_digits digit_value
    to_uint8
survives_table = refl

byte_survives : (b : ℕ) → b < 256 → survives b ≡ true
byte_survives b h = check_range-at survives 256 b h survives_table

hex_pairs-two :
    (b : ℕ) (pair s : List ℕ)
    → length pair ≡ 2
    → to_uint8 (parse_int_16 (first pair ∷ second pair ∷ [])) ≡ b
    → hex_pairs (pair ++ s) ≡ Option.map (λ bs. b ∷ bs) (hex_pairs s)
unfolding hex_pairs
hex_pairs-two b [] s n e = absurd (omega arith)
hex_pairs-two b (c ∷ []) s n e = absurd (omega arith)
hex_pairs-two b (c ∷ d ∷ []) s n e = rw e
hex_pairs-two b (c ∷ d ∷ x ∷ r) s n e = absurd (omega arith)

byte_parts :
    (b : ℕ)
    → survives b ≡ true
    → (length (byte_to_hex b) ≡ 2)
      × (to_uint8 (parse_int_16 (first (byte_to_hex b) ∷ second (byte_to_hex b) ∷ [])) ≡ b)
unfolding survives
byte_parts b h = ground arith

hex_pairs-bytes_digits :
    (bs : List ℕ) → All (λ b. b < 256) bs → hex_pairs (bytes_digits bs) ≡ some bs
unfolding bytes_digits hex_pairs
hex_pairs-bytes_digits [] h = refl
hex_pairs-bytes_digits (b ∷ bs) (lt, h) =
    let (n, e) = byte_parts b (byte_survives b lt) in
    hex_pairs-two b (byte_to_hex b) (bytes_digits bs) n e
    ∙ ap (Option.map (λ r. b ∷ r)) (hex_pairs-bytes_digits bs h)

-- Bytes written as "0x" and two digits each, and read by hexToUint8Array, are the same bytes.
pub bytes_round_trip :
    (bs : List ℕ) → All (λ b. b < 256) bs → hex_to_uint8_array (bytes_to_hex bs) ≡ some bs
unfolding bytes_to_hex hex_to_uint8_array
bytes_round_trip bs h = hex_pairs-bytes_digits bs h

hex_pairs-even :
    (s : List ℕ)
    → ((hex_pairs s ≡ none) × (length s % 2 ≡ 1))
      ⊎ ((bs : List ℕ) × (hex_pairs s ≡ some bs) × (length s ≡ 2 * length bs))
unfolding hex_pairs
hex_pairs-even [] = inr ([], refl, omega arith)
hex_pairs-even (c ∷ []) = inl (refl, omega arith)
hex_pairs-even (c ∷ d ∷ s) = elim (hex_pairs-even s) [
  | inl (failed, odd) ↦ inl (rw failed, omega arith)
  | inr (bs, found, n) ↦ inr (to_uint8 (parse_int_16 (c ∷ d ∷ [])) ∷ bs, rw found, omega arith)
]

-- hexToUint8Array throws exactly where the text, without its prefix, has odd length; otherwise it
-- returns one byte for each two units.
pub hex_to_uint8_array-length :
    (s : List ℕ)
    → ((hex_to_uint8_array s ≡ none) × (length (strip_prefix s) % 2 ≡ 1))
      ⊎ ((bs : List ℕ) × (hex_to_uint8_array s ≡ some bs)
          × (length (strip_prefix s) ≡ 2 * length bs))
unfolding hex_to_uint8_array
hex_to_uint8_array-length s = hex_pairs-even (strip_prefix s)

length-pad_to_even : (s : List ℕ) → length (pad_to_even s) % 2 ≡ 0
unfolding pad_to_even
length-pad_to_even s = ground arith

-- A number written by numberToHex is read by hexToUint8Array without error.
pub number_to_hex_reads : (n : ℕ) → (bs : List ℕ) × (hex_to_uint8_array (number_to_hex n) ≡ some bs)
unfolding number_to_hex hex_to_uint8_array
number_to_hex_reads n = elim (hex_pairs-even (pad_to_even (to_string_16 n))) [
  | inl (_, odd) ↦ absurd (omega (arith, length-pad_to_even (to_string_16 n)))
  | inr (bs, found, _) ↦ (bs, found)
]
