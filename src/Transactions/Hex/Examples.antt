-- ===== src/Transactions/Hex/Examples.antt =====
-- Runs of the hexadecimal helpers, and their theorems at concrete bytes.
use freysa_spark_hackathon.Common.{ℕ, ◌≡◌, refl, List, [], ◌∷◌}
use freysa_spark_hackathon.Transactions.Hex.{
  bytes_to_hex, number_to_hex, hex_digit, hex_digits, to_string_16, pad_to_even, pad_start_2,
  byte_to_hex, bytes_digits,
}

number_run : number_to_hex 300 ≡ b'0' ∷ b'x' ∷ b'0' ∷ b'1' ∷ b'2' ∷ b'c' ∷ []
unfolding number_to_hex pad_to_even to_string_16 hex_digits hex_digit
number_run = refl

bytes_run : bytes_to_hex (255 ∷ 7 ∷ []) ≡ b'0' ∷ b'x' ∷ b'f' ∷ b'f' ∷ b'0' ∷ b'7' ∷ []
unfolding bytes_to_hex bytes_digits byte_to_hex pad_start_2 to_string_16 hex_digits hex_digit
bytes_run = refl

abbrev odd_text : List ℕ
odd_text = b'0' ∷ b'x' ∷ b'a' ∷ []
