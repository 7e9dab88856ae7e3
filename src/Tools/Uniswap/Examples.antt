-- ===== src/Tools/Uniswap/Examples.antt =====
-- The tool with a remote signer.
use freysa_spark_hackathon.Common.{ℕ, [], ◌∷◌, ok, pure}
use freysa_spark_hackathon.Transactions.Swap.{Contracts}
use freysa_spark_hackathon.Tools.Uniswap.{UniswapInput, Encoding}

abbrev contracts : Contracts ℕ
contracts = record {
  decimals = λ token. pure 18;
  parse_units = λ amount decimals. ok 100;
  allowance = λ token owner spender. pure 0;
  get_amounts_out = λ router amount path. pure (amount ∷ 200 ∷ []);
  now_seconds = pure 1000;
}

abbrev encoding : Encoding Unit
encoding = record {
  approve_to = λ tx. [];
  approve_data = λ tx. [];
  swap_to = λ tx. [];
  swap_data = λ tx. [];
  address_text = λ address. "address";
  broadcast_text = λ broadcast. "hash";
}

abbrev input : UniswapInput
input = record { token_input = "A"; token_output = "B"; amount_in = "1" }
