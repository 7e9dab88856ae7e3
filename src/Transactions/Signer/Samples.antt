-- ===== src/Transactions/Signer/Samples.antt =====
-- Fixed libraries and signers for examples.
use freysa_spark_hackathon.Common.{ℕ, ◌+◌, true, none, some, [], ◌∷◌, ok, pure}
use freysa_spark_hackathon.Transactions.GrpcClient.{KeyPoolService, new_client}
use freysa_spark_hackathon.Transactions.SafeSignature.{Viem}
use freysa_spark_hackathon.Transactions.Signer.Config.{
  SignerConfig, grpc_pk_signer, private_key_signer, private_key, Signer, Ethers, SafeKits, grpc_pk,
  MetaTransactionData,
}

-- The state counts the proposals.
abbrev pub ethers : Ethers ℕ
ethers = record {
  Transaction = Unit;
  Receipt = Unit;
  wallet_sign_message = λ _ m. pure m;
  wallet_address = λ _ _. pure [];
  send_transaction = λ _ _ _ _ _. pure tt;
  wait = λ _. pure tt;
  get_transaction_count = λ _ _. pure 0;
  get_gas_price = λ _. pure none;
  get_chain_id = λ _. pure 1;
  to_be_hex = λ n. n ∷ [];
  get_bytes = λ s. ok s;
  encode_rlp = λ _. [];
  broadcast_transaction = λ _ s. pure s;
}

abbrev pub kits : SafeKits ℕ
kits = record {
  Kit = Unit;
  SafeTx = MetaTransactionData;
  init = λ _ _. pure tt;
  create_transaction = λ _ m. pure m;
  get_transaction_hash = λ _ _. pure (b'h' ∷ []);
  propose_transaction = λ _ _ n. (ok tt, n + 1);
}

-- Every message has the signature 07 1b, and every key the address "0xA".
abbrev pub service : KeyPoolService ℕ
service = record {
  sign_message = λ _ _ _. pure (7 ∷ 27 ∷ []);
  sign_ethereum_transaction = λ _ _ _. pure [];
  get_ethereum_address = λ _ _ _. pure (b'A' ∷ []);
  utf8 = λ s. s;
}

abbrev pub viem : Viem
viem = record {
  is_hex = λ _. true;
  recover_address = λ _ _. some (b'0' ∷ b'x' ∷ b'A' ∷ []);
  to_lower_case = λ s. s;
}

abbrev pub config : SignerConfig
config = grpc_pk_signer "rpc" none none

abbrev pub signer : Signer
signer = record {
  transaction_origin = grpc_pk;
  private_key = none;
  rpc_url = some "rpc";
  safe_address = none;
  deployer_proxy = none;
  grpc_eth_client = some (new_client none none);
}

-- The wallet signs a message by itself, and its address is empty.
abbrev pub wallet_config : SignerConfig
wallet_config = private_key_signer "rpc" "key"

abbrev pub wallet : Signer
wallet = record {
  transaction_origin = private_key;
  private_key = some "key";
  rpc_url = some "rpc";
  safe_address = none;
  deployer_proxy = none;
  grpc_eth_client = none;
}
