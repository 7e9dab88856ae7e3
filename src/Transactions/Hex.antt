-- ===== src/Transactions/Hex.antt =====
-- Hexadecimal text of agent/src/common/transactions/executeTransaction.ts: padToEven, numberToHex,
-- hexToUint8Array and the inline bytes-to-hex conversion. A text is the list of its UTF-16 code units.
pub mod RoundTrip
mod Examples
use mathlib.Core.Option
use freysa_spark_hackathon.Common.{
  ℕ, zero, suc, ◌+◌, ◌-◌, ◌*◌, ◌/◌, ◌%◌, Bool, true, false, ◌&&◌, ◌||◌, Option, none, some, List,
  [], ◌∷◌, ◌++◌, leb, ltb, ◌==◌, if◌then◌else◌, length,
}
use freysa_spark_hackathon.Utils.Chunker.{trim_start}

-- One digit of `Number.prototype.toString(16)`.
unfoldable pub hex_digit : ℕ → ℕ
hex_digit d = if ltb d 10 then b'0' + d else b'a' + (d - 10)

-- The digits of `n.toString(16)`, in front of `acc`, within `fuel` digits.
unfoldable pub hex_digits : ℕ → ℕ → List ℕ → List ℕ
hex_digits zero n acc = acc
hex_digits (suc fuel) n acc =
    let rest = hex_digits fuel (n / 16) (hex_digit (n % 16) ∷ acc) in
    if ltb n 16 then hex_digit n ∷ acc else rest

-- `n.toString(16)`: a number has fewer hexadecimal digits than `suc n`.
unfoldable pub to_string_16 : ℕ → List ℕ
to_string_16 n = hex_digits (suc n) n []

unfoldable pub pad_to_even : List ℕ → List ℕ
pad_to_even hex = if length hex % 2 == 0 then hex else b'0' ∷ hex

unfoldable pub number_to_hex : ℕ → List ℕ
number_to_hex value = b'0' ∷ b'x' ∷ pad_to_even (to_string_16 value)

-- `padStart(2, "0")`.
unfoldable pub pad_start_2 : List ℕ → List ℕ
pad_start_2 [] = b'0' ∷ b'0' ∷ []
pad_start_2 (c ∷ []) = b'0' ∷ c ∷ []
pad_start_2 (c ∷ d ∷ s) = c ∷ d ∷ s

unfoldable pub byte_to_hex : ℕ → List ℕ
byte_to_hex b = pad_start_2 (to_string_16 b)

unfoldable pub bytes_digits : List ℕ → List ℕ
bytes_digits [] = []
bytes_digits (b ∷ bs) = byte_to_hex b ++ bytes_digits bs

-- `"0x" + Array.from(signedTxBytes).map(…).join("")`.
unfoldable pub bytes_to_hex : List ℕ → List ℕ
bytes_to_hex bs = b'0' ∷ b'x' ∷ bytes_digits bs

-- The value of one hexadecimal digit; `none` for any other unit.
unfoldable pub digit_value : ℕ → Option ℕ
digit_value c =
    if leb b'0' c && leb c b'9'
    then some (c - b'0')
    else if leb b'a' c && leb c b'f'
    then some (c - b'a' + 10)
    else if leb b'A' c && leb c b'F'
    then some (c - b'A' + 10)
    else none

-- What `parseInt` returns: NaN, or a number with its sign.
pub data ParsedInt : Type 0 where
  nan : ParsedInt
  parsed : Bool → ℕ → ParsedInt

-- The digits up to the first unit that is none.
unfoldable pub parse_digits : Bool → ℕ → List ℕ → ParsedInt
parse_digits negative acc [] = parsed negative acc
parse_digits negative acc (c ∷ s) = elim (digit_value c) [
  | none ↦ parsed negative acc
  | some d ↦ parse_digits negative (acc * 16 + d) s
]

unfoldable pub parse_first : Bool → List ℕ → ParsedInt
parse_first negative [] = nan
parse_first negative (c ∷ s) = elim (digit_value c) [
  | none ↦ nan
  | some d ↦ parse_digits negative d s
]

unfoldable pub strip_0x : List ℕ → List ℕ
strip_0x (c ∷ d ∷ s) = if c == b'0' && (d == b'x' || d == b'X') then s else c ∷ d ∷ s
strip_0x s = s

unfoldable pub parse_signed : List ℕ → ParsedInt
parse_signed [] = nan
parse_signed (c ∷ s) =
    if c == b'-'
    then parse_first true (strip_0x s)
    else if c == b'+'
    then parse_first false (strip_0x s)
    else parse_first false (strip_0x (c ∷ s))

-- `parseInt(s, 16)`.
unfoldable pub parse_int_16 : List ℕ → ParsedInt
parse_int_16 s = parse_signed (trim_start s)

-- A `Uint8Array` keeps an integer modulo 256, and NaN as 0.
unfoldable pub to_uint8 : ParsedInt → ℕ
to_uint8 nan = 0
to_uint8 (parsed false n) = n % 256
to_uint8 (parsed true n) = (256 - n % 256) % 256

-- The loop over pairs of units; `none` is the error for an odd length.
unfoldable pub hex_pairs : List ℕ → Option (List ℕ)
hex_pairs [] = some []
hex_pairs (c ∷ []) = none
hex_pairs (c ∷ d ∷ s) = Option.map (λ bs. to_uint8 (parse_int_16 (c ∷ d ∷ [])) ∷ bs) (hex_pairs s)

-- `hexString.startsWith("0x") ? hexString.slice(2) : hexString`.
unfoldable pub strip_prefix : List ℕ → List ℕ
strip_prefix (c ∷ d ∷ s) = if c == b'0' && d == b'x' then s else c ∷ d ∷ s
strip_prefix s = s

-- The whole parser, opened at once.
unfoldable pub hex_to_uint8_array : List ℕ → Option (List ℕ)
unfolding hex_pairs strip_prefix
hex_to_uint8_array s = hex_pairs (strip_prefix s)
