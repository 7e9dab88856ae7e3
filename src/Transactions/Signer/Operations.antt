-- ===== src/Transactions/Signer/Operations.antt =====
-- signMessage, getWalletAddress and signTransactionAndBroadcast of SAFSigner.
use freysa_spark_hackathon.Common.{
  ℕ, zero, suc, ◌*◌, ◌^◌, Option, none, some, List, [], ◌∷◌, String, Text, Result, ok, Run, pure,
  lift, required, ◌>>=◌, ◌>>◌,
}
use freysa_spark_hackathon.Transactions.Hex.{hex_to_uint8_array, bytes_to_hex}
use freysa_spark_hackathon.Transactions.GrpcClient.{
  GrpcClient, KeyPoolService, SigningKey, client_sign_message, client_sign_transaction,
  client_get_address,
}
use freysa_spark_hackathon.Transactions.SafeSignature.{Viem, eth_sign, adjust_v_in_signature}
use freysa_spark_hackathon.Transactions.Signer.Config.{
  TransactionMode, safe_tee, private_key, grpc_pk, Signer, present, present_index, Ethers,
  MetaTransactionData, call, delegate_call, SafeKits,
}

-- What a broadcast returns: nothing for a Safe proposal, a receipt, or a transaction hash.
pub data Broadcast (Receipt : Type 0) : Type 0 where
  proposed : Broadcast Receipt
  receipt : Receipt → Broadcast Receipt
  hash : Text → Broadcast Receipt

-- `feeData.gasPrice || ethers.parseUnits("10", "gwei")`.
unfoldable pub gas_price_or_default : Option ℕ → ℕ
gas_price_or_default none = 10 * 10 ^ 9
gas_price_or_default (some zero) = 10 * 10 ^ 9
gas_price_or_default (some (suc n)) = suc n

abbrev pub no_client : String
no_client = "GrpcEthereumSignerClient is not initialized"

abbrev pub no_index : String
no_index = "signingKeyIndex is not initialized"

-- `opts.deployerProxy ? … : …`: a proxy takes the call as a delegate call.
unfoldable pub meta_transaction : Option Text → Text → Text → Text → MetaTransactionData
meta_transaction none to value input = record {
  to = to;
  value = value;
  data_field = input;
  operation = call;
}
meta_transaction (some []) to value input = record {
  to = to;
  value = value;
  data_field = input;
  operation = call;
}
meta_transaction (some (c ∷ proxy)) to value input = record {
  to = c ∷ proxy;
  value = value;
  data_field = input;
  operation = delegate_call;
}

-- `value = "0"` is the default of an absent value.
unfoldable pub value_or_zero : Option Text → Text
value_or_zero none = b'0' ∷ []
value_or_zero (some v) = v

module _ {W : Type 0} (ethers : Ethers W) (kits : SafeKits W) (service : KeyPoolService W)
    (viem : Viem) where
  -- The gRPC client and the signing key, which are checked in this order.
  unfoldable pub remote_key : Signer → Option ℕ → Run W (GrpcClient × SigningKey)
  remote_key s index = do
    client ← required s.grpc_eth_client no_client
    key ← required (present_index index) no_index
    pure (client, record { key_index = key })

  unfoldable pub sign_message_as : TransactionMode → Signer → Text → Option ℕ → Run W Text
  sign_message_as private_key s message index = do
    key ← required (present s.private_key) "Missing PRIVATE_KEY in SAFSigner"
    ethers.wallet_sign_message key message
  sign_message_as _ s message index = do
    (client, key) ← remote_key s index
    client_sign_message service client message key

  unfoldable pub sign_message : Signer → Text → Option ℕ → Run W Text
  unfolding sign_message_as
  sign_message s message index = sign_message_as s.transaction_origin s message index

  unfoldable pub get_wallet_address_as : TransactionMode → Signer → Option ℕ → Run W Text
  get_wallet_address_as private_key s index = do
    rpc ← required (present s.rpc_url) "Missing RPC_URL in SAFSigner"
    key ← required (present s.private_key) "Missing PRIVATE_KEY in SAFSigner"
    ethers.wallet_address rpc key
  get_wallet_address_as _ s index = do
    (client, key) ← remote_key s index
    client_get_address service client key

  unfoldable pub get_wallet_address : Signer → Option ℕ → Run W Text
  unfolding get_wallet_address_as
  get_wallet_address s index = get_wallet_address_as s.transaction_origin s index

  unfoldable pub sign_and_broadcast_pk_transaction :
      Signer → Text → Text → Text → Run W ethers.Receipt
  sign_and_broadcast_pk_transaction s to input value = do
    rpc ← required (present s.rpc_url) "Missing RPC_URL in SAFSigner"
    key ← required (present s.private_key) "Missing PRIVATE_KEY in SAFSigner"
    tx ← ethers.send_transaction rpc key to input value
    ethers.wait tx

  -- No operation calls this one.
  unfoldable pub execute_private_key_swap :
      Signer → Text → Text → Option Text → Run W ethers.Receipt
  unfolding value_or_zero
  execute_private_key_swap s to input value = do
    rpc ← required (present s.rpc_url) "Missing RPC_URL in SAFSigner"
    key ← required (present s.private_key) "Missing PRIVATE_KEY in SAFSigner"
    tx ← ethers.send_transaction rpc key to input (value_or_zero value)
    ethers.wait tx

  -- The field of a number; a nonce of 0 is the empty field.
  unfoldable pub number_field : ℕ → Result (List ℕ)
  number_field n = ethers.get_bytes (ethers.to_be_hex n)

  unfoldable pub nonce_field : ℕ → Result (List ℕ)
  nonce_field zero = ok []
  nonce_field (suc n) = number_field (suc n)

  unfoldable pub encode_raw_transaction_bytes : Signer → Text → Text → Text → Text → Run W Text
  encode_raw_transaction_bytes s signer_address to input value = do
    rpc ← required (present s.rpc_url) "Missing RPC_URL in SAFSigner"
    nonce ← ethers.get_transaction_count rpc signer_address
    gas_price ← ethers.get_gas_price rpc
    chain_id ← ethers.get_chain_id rpc
    nonce_bytes ← lift (nonce_field nonce)
    gas_price_bytes ← lift (number_field (gas_price_or_default gas_price))
    gas_limit_bytes ← lift (number_field 100000)
    to_bytes ← lift (ethers.get_bytes to)
    value_bytes ← lift (ethers.get_bytes value)
    input_bytes ← lift (ethers.get_bytes input)
    chain_id_bytes ← lift (number_field chain_id)
    pure (
        ethers.encode_rlp (
          nonce_bytes ∷ gas_price_bytes ∷ gas_limit_bytes ∷ to_bytes ∷ value_bytes ∷ input_bytes
          ∷ chain_id_bytes ∷ [] ∷ [] ∷ []))

  -- `adjustVInSignature` throws on an invalid signature.
  abbrev adjusted : Option Text → Run W Text
  adjusted signature = required signature "Invalid signature"

  unfoldable pub sign_and_broadcast_safe_transaction :
      GrpcClient
      → String
      → Option Text
      → String
      → SigningKey
      → Text
      → Text
      → Text
      → Run W (Unit {0})
  sign_and_broadcast_safe_transaction client safe proxy rpc key to value input = do
    chain_id ← ethers.get_chain_id rpc
    kit ← kits.init rpc safe
    tx ← kits.create_transaction kit (meta_transaction proxy to value input)
    tx_hash ← kits.get_transaction_hash kit tx
    wallet ← client_get_address service client key
    signature ← client_sign_message service client tx_hash key
    signature_v2 ← adjusted (adjust_v_in_signature viem eth_sign signature tx_hash (some wallet))
    kits.propose_transaction chain_id (record {
      safe_address = safe;
      safe_transaction = tx;
      safe_tx_hash = tx_hash;
      sender_address = wallet;
      sender_signature = signature_v2;
    })

  unfoldable pub broadcast_as :
      TransactionMode → Signer → Text → Text → Text → Option ℕ → Run W (Broadcast ethers.Receipt)
  broadcast_as safe_tee s to input value index = do
    client ← required s.grpc_eth_client no_client
    safe ← required (present s.safe_address) "Safe address is not initialized"
    rpc ← required (present s.rpc_url) "RPC URL is not initialized"
    key ← required (present_index index) no_index
    sign_and_broadcast_safe_transaction client safe s.deployer_proxy rpc
        (record { key_index = key }) to value input
    pure proposed
  broadcast_as private_key s to input value index = do
    r ← sign_and_broadcast_pk_transaction s to input value
    pure (receipt r)
  broadcast_as grpc_pk s to input value index = do
    key ← required (present_index index) no_index
    rpc ← required (present s.rpc_url) "RPC URL is not initialized"
    client ← required s.grpc_eth_client no_client
    wallet ← get_wallet_address s index
    rlp ← encode_raw_transaction_bytes s wallet to input value
    tx_data ← required (hex_to_uint8_array rlp) "Hex string must have an even number of characters"
    signed ← client_sign_transaction service client tx_data (record { key_index = key })
    h ← ethers.broadcast_transaction rpc (bytes_to_hex signed)
    pure (hash h)

  unfoldable pub sign_transaction_and_broadcast :
      Signer → Text → Text → Option Text → Option ℕ → Run W (Broadcast ethers.Receipt)
  unfolding broadcast_as value_or_zero
  sign_transaction_and_broadcast s to input value index =
      broadcast_as s.transaction_origin s to input (value_or_zero value) index
