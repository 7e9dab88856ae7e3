-- ===== src/Transactions/SafeSignature.antt =====
-- The signature helpers of agent/src/common/transactions/safe.ts: asHex, sameString,
-- isTxHashSignedWithPrefix and adjustVInSignature. What viem does (`isHex`, `recoverAddress`) and the
-- engine's `toLowerCase` are parameters.
pub mod Recovery
mod Examples
use freysa_spark_hackathon.Common.{
  ℕ, zero, suc, ◌+◌, ◌-◌, Bool, true, false, not, ◌&&◌, ◌||◌, Option, none, some, List, [], ◌∷◌,
  ◌++◌, ltb, ◌==◌, if◌then◌else◌, length, take, drop, Text, text_eq, truthy,
}
use freysa_spark_hackathon.Transactions.Hex.{ParsedInt, nan, parsed, parse_int_16, to_string_16}

pub data SigningMethod : Type 0 where
  eth_sign eth_sign_typed_data : SigningMethod

pub record Viem : Type 0 where
  pub is_hex : Text → Bool
  -- `none` where the promise is rejected
  pub recover_address : Text → Text → Option Text
  pub to_lower_case : Text → Text

-- `signature.slice(-2)` and `signature.slice(0, -2)`.
abbrev pub last_two : Text → Text
last_two s = drop (length s - 2) s

abbrev pub without_last_two : Text → Text
without_last_two s = take (length s - 2) s

-- `ETHEREUM_V_VALUES.includes(signatureV)`, with the number; `-0` counts as 0.
unfoldable pub ethereum_v : ParsedInt → Option ℕ
ethereum_v nan = none
ethereum_v (parsed true v) = if v == 0 then some 0 else none
ethereum_v (parsed false v) = if v == 0 || v == 1 || v == 27 || v == 28 then some v else none

-- V values below `MIN_VALID_V_VALUE_FOR_SAFE_ECDSA` are raised by it.
unfoldable pub raise_v : ℕ → ℕ
raise_v v = if ltb v 27 then v + 27 else v

module _ (viem : Viem) where
  unfoldable pub as_hex : Text → Text
  as_hex hex = if viem.is_hex hex then hex else b'0' ∷ b'x' ∷ hex

  unfoldable pub same_string : Option Text → Option Text → Bool
  same_string none b = false
  same_string (some a) none = false
  same_string (some a) (some b) =
      truthy (some a) && truthy (some b) && text_eq (viem.to_lower_case a) (viem.to_lower_case b)

  unfoldable pub is_tx_hash_signed_with_prefix : Text → Text → Option Text → Bool
  is_tx_hash_signed_with_prefix tx_hash signature owner =
      elim (viem.recover_address tx_hash (as_hex signature)) [
        | none ↦ true
        | some recovered ↦ not (same_string (some recovered) owner)
      ]

  -- The V value that is written back, from one of the four accepted.
  unfoldable pub adjusted_v : SigningMethod → Text → ℕ → Text → Option Text → ℕ
  adjusted_v eth_sign signature v safe_tx_hash signer =
      let adjusted = without_last_two signature ++ to_string_16 (raise_v v) in
      if is_tx_hash_signed_with_prefix safe_tx_hash adjusted signer
      then raise_v v + 4
      else raise_v v
  adjusted_v eth_sign_typed_data signature v safe_tx_hash signer = raise_v v

  -- `none` is the error "Invalid signature".
  unfoldable pub adjust_v_in_signature : SigningMethod → Text → Text → Option Text → Option Text
  adjust_v_in_signature method signature safe_tx_hash signer =
      elim (ethereum_v (parse_int_16 (last_two signature))) [
        | none ↦ none
        | some v ↦ some (
            without_last_two signature
            ++ to_string_16 (adjusted_v method signature v safe_tx_hash signer))
      ]
