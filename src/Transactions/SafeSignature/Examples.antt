-- ===== src/Transactions/SafeSignature/Examples.antt =====
-- The adjustment of a signature, run and with its theorems at a concrete signature.
use freysa_spark_hackathon.Common.{ℕ, ◌≡◌, refl, true, false, none, some, [], ◌∷◌, Text, text_eq}
use freysa_spark_hackathon.Utils.Chunker.{trim_start, is_space}
use freysa_spark_hackathon.Transactions.Hex.{
  parsed, parse_int_16, to_string_16, hex_digits, hex_digit, parse_signed, strip_0x, parse_first,
  parse_digits, digit_value,
}
use freysa_spark_hackathon.Transactions.SafeSignature.{
  Viem, eth_sign, eth_sign_typed_data, last_two, without_last_two, ethereum_v, raise_v, as_hex,
  same_string, is_tx_hash_signed_with_prefix, adjusted_v, adjust_v_in_signature,
}
use freysa_spark_hackathon.Transactions.SafeSignature.Recovery.{IsSafeV, adjust_v-IsSafeV}

runs : Unit {0}
unfolding adjust_v_in_signature adjusted_v ethereum_v raise_v is_tx_hash_signed_with_prefix
    same_string as_hex text_eq to_string_16 hex_digits hex_digit parse_int_16 trim_start is_space
    parse_signed strip_0x parse_first parse_digits digit_value
runs = tt

-- Every signature recovers to the address "0xA".
abbrev one_owner : Viem
one_owner = record {
  is_hex = λ _. true;
  recover_address = λ _ _. some (b'0' ∷ b'x' ∷ b'A' ∷ []);
  to_lower_case = λ s. s;
}

-- "0xab01", with V = 1, and what it becomes without and with a prefix, "0xab1c" and "0xab20".
abbrev given : Text
given = b'0' ∷ b'x' ∷ b'a' ∷ b'b' ∷ b'0' ∷ b'1' ∷ []

abbrev plain : Text
plain = b'0' ∷ b'x' ∷ b'a' ∷ b'b' ∷ b'1' ∷ b'c' ∷ []

abbrev prefixed : Text
prefixed = b'0' ∷ b'x' ∷ b'a' ∷ b'b' ∷ b'2' ∷ b'0' ∷ []

abbrev other_owner : Text
other_owner = b'0' ∷ b'x' ∷ b'B' ∷ []

typed_run : adjust_v_in_signature one_owner eth_sign_typed_data given [] none ≡ some plain
unfolding runs
typed_run = refl

prefixed_run : adjust_v_in_signature one_owner eth_sign given [] (some other_owner) ≡ some prefixed
unfolding runs
prefixed_run = refl

invalid_run : adjust_v_in_signature one_owner eth_sign prefixed [] none ≡ none
unfolding runs
invalid_run = refl

given_v : ethereum_v (parse_int_16 (last_two given)) ≡ some 1
unfolding runs
given_v = refl

adjust_v-IsSafeV_example :
    (v : ℕ) × IsSafeV v
    × (parse_int_16 (last_two prefixed) ≡ parsed false v)
    × (without_last_two prefixed ≡ without_last_two given)
adjust_v-IsSafeV_example =
    adjust_v-IsSafeV one_owner [] (some other_owner) eth_sign given prefixed prefixed_run
