-- ===== src/Transactions/Signer/Examples.antt =====
-- The signer over fixed libraries.
use freysa_spark_hackathon.Common.{◌≡◌, refl, none, some, [], ok, ◌>>=◌, text_eq}
use freysa_spark_hackathon.Utils.Chunker.{trim_start, is_space}
use freysa_spark_hackathon.Transactions.Hex.{
  parse_int_16, to_string_16, hex_digits, hex_digit, parse_signed, strip_0x, parse_first,
  parse_digits, digit_value, bytes_to_hex, bytes_digits, byte_to_hex, pad_start_2,
}
use freysa_spark_hackathon.Transactions.GrpcClient.{
  GrpcClient, SigningKey, metadata_for, with_0x, client_sign_message, client_get_address,
}
use freysa_spark_hackathon.Transactions.SafeSignature.{
  ethereum_v, raise_v, as_hex, same_string, is_tx_hash_signed_with_prefix, adjusted_v,
  adjust_v_in_signature,
}
use freysa_spark_hackathon.Transactions.Signer.Config.{new_signer, present_index}
use freysa_spark_hackathon.Transactions.Signer.Operations.{
  meta_transaction, sign_and_broadcast_safe_transaction,
}
use freysa_spark_hackathon.Transactions.Signer.Samples.{ethers, kits, service, viem, config, signer}
use freysa_spark_hackathon.Transactions.Signer.Proposals.{Proposed, safe_transaction-Proposed}

signer_run : new_signer config ≡ ok signer
unfolding new_signer
signer_run = refl

no_index_run : present_index (some 0) ≡ none
unfolding present_index
no_index_run = refl

abbrev client : GrpcClient
client = record { server_url = "url"; bearer_token = none }

abbrev key : SigningKey
key = record { key_index = 1 }

safe_run :
    sign_and_broadcast_safe_transaction ethers kits service viem client "safe" none "rpc" key [] []
      [] 5
    ≡ (ok tt, 6)
unfolding sign_and_broadcast_safe_transaction ◌>>=◌ meta_transaction client_get_address
    client_sign_message metadata_for with_0x bytes_to_hex bytes_digits byte_to_hex pad_start_2
    adjust_v_in_signature adjusted_v ethereum_v raise_v is_tx_hash_signed_with_prefix same_string
    as_hex text_eq to_string_16 hex_digits hex_digit parse_int_16 trim_start is_space parse_signed
    strip_0x parse_first parse_digits digit_value
safe_run = refl

safe_transaction-Proposed_example : Proposed ethers kits service viem "safe" none [] [] [] 6
safe_transaction-Proposed_example =
    safe_transaction-Proposed ethers kits service viem client "safe" none "rpc" key [] [] [] 5 6
      safe_run
