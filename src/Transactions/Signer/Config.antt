-- ===== src/Transactions/Signer/Config.antt =====
-- The configurations and the fields of a SAFSigner, and what ethers and the Safe kits offer it.
use freysa_spark_hackathon.Common.{
  ℕ, suc, zero, Option, none, some, List, String, Text, is_truthy, if◌then◌else◌, Result, ok, err,
  Run,
}
use freysa_spark_hackathon.Transactions.GrpcClient.{GrpcClient, new_client}

pub data TransactionMode : Type 0 where
  safe_tee private_key grpc_pk : TransactionMode

pub data SignerConfig : Type 0 where
  -- rpc URL, Safe address, deployer proxy, gRPC URL, bearer token
  safe_signer : Option String → String → Option Text → Option String → Option String → SignerConfig
  -- rpc URL, private key
  private_key_signer : String → String → SignerConfig
  -- rpc URL, gRPC URL, bearer token
  grpc_pk_signer : String → Option String → Option String → SignerConfig
  -- a `type` that is none of the three, which only an untyped caller can pass
  unknown_signer : String → SignerConfig

pub record Signer : Type 0 where
  pub transaction_origin : TransactionMode
  pub private_key : Option String
  pub rpc_url : Option String
  pub safe_address : Option String
  pub deployer_proxy : Option Text
  pub grpc_eth_client : Option GrpcClient

-- The constructor.
unfoldable pub new_signer : SignerConfig → Result Signer
new_signer (safe_signer rpc safe proxy url token) = ok (record {
  transaction_origin = safe_tee;
  private_key = none;
  rpc_url = rpc;
  safe_address = some safe;
  deployer_proxy = proxy;
  grpc_eth_client = some (new_client url token);
})
new_signer (private_key_signer rpc key) = ok (record {
  transaction_origin = private_key;
  private_key = some key;
  rpc_url = some rpc;
  safe_address = none;
  deployer_proxy = none;
  grpc_eth_client = none;
})
new_signer (grpc_pk_signer rpc url token) = ok (record {
  transaction_origin = grpc_pk;
  private_key = none;
  rpc_url = some rpc;
  safe_address = none;
  deployer_proxy = none;
  grpc_eth_client = some (new_client url token);
})
new_signer (unknown_signer type) = err "Invalid transaction mode"

-- What `if (!field) throw` leaves: a text that is neither undefined nor empty.
unfoldable pub present : Option String → Option String
present none = none
present (some s) = if is_truthy s then some s else none

-- The same for a number: 0 is falsy.
unfoldable pub present_index : Option ℕ → Option ℕ
present_index none = none
present_index (some zero) = none
present_index (some (suc n)) = some (suc n)

-- ethers: a provider is its URL, a wallet its key.
pub record Ethers (W : Type 0) : Type 1 where
  pub Transaction : Type 0
  pub Receipt : Type 0
  pub wallet_sign_message : String → Text → Run W Text
  pub wallet_address : String → String → Run W Text
  -- rpc URL, key, to, data, value
  pub send_transaction : String → String → Text → Text → Text → Run W Transaction
  pub wait : Transaction → Run W Receipt
  pub get_transaction_count : String → Text → Run W ℕ
  -- `none` where the gas price is null
  pub get_gas_price : String → Run W (Option ℕ)
  pub get_chain_id : String → Run W ℕ
  pub to_be_hex : ℕ → Text
  -- throws on a text that is no hexadecimal data
  pub get_bytes : Text → Result (List ℕ)
  pub encode_rlp : List (List ℕ) → Text
  pub broadcast_transaction : String → Text → Run W Text

pub data OperationType : Type 0 where
  call delegate_call : OperationType

pub record MetaTransactionData : Type 0 where
  pub to : Text
  pub value : Text
  pub data_field : Text
  pub operation : OperationType

pub record Proposal (Tx : Type 0) : Type 0 where
  pub safe_address : String
  pub safe_transaction : Tx
  pub safe_tx_hash : Text
  pub sender_address : Text
  pub sender_signature : Text

-- The protocol kit and the API kit.
pub record SafeKits (W : Type 0) : Type 1 where
  pub Kit : Type 0
  pub SafeTx : Type 0
  -- rpc URL and Safe address; the signer is the process's own key
  pub init : String → String → Run W Kit
  pub create_transaction : Kit → MetaTransactionData → Run W SafeTx
  pub get_transaction_hash : Kit → SafeTx → Run W Text
  -- chain id, proposal
  pub propose_transaction : ℕ → Proposal SafeTx → Run W (Unit {0})
