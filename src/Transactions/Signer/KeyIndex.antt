-- ===== src/Transactions/Signer/KeyIndex.antt =====
-- What a signer does with its key index: both modes that sign remotely want one that is not 0.
use mathlib.Core.Path.{subst}
use freysa_spark_hackathon.Common.{
  ℕ, ◌≡◌, refl, Option, none, some, Text, Result, ok, err, ◌>>=◌, bind-err, required-throws, String,
}
use freysa_spark_hackathon.Transactions.GrpcClient.{new_client, GrpcClient, KeyPoolService}
use freysa_spark_hackathon.Transactions.SafeSignature.{Viem}
use freysa_spark_hackathon.Transactions.Signer.Config.{
  TransactionMode, safe_tee, private_key, grpc_pk, SignerConfig, safe_signer, private_key_signer,
  grpc_pk_signer, unknown_signer, Signer, new_signer, present, present_index, Ethers, SafeKits,
}
use freysa_spark_hackathon.Transactions.Signer.Operations.{
  no_index, remote_key, sign_message_as, sign_message, get_wallet_address_as, get_wallet_address,
  broadcast_as, sign_transaction_and_broadcast,
}

-- A configuration whose key is held by the key pool service.
abbrev pub IsRemote : SignerConfig → Type 0
IsRemote (safe_signer _ _ _ _ _) = Unit
IsRemote (grpc_pk_signer _ _ _) = Unit
IsRemote _ = ⊥

-- Such a signer has a client, and one of the two remote modes.
abbrev IsRemoteMode : TransactionMode → Type 0
IsRemoteMode private_key = ⊥
IsRemoteMode _ = Unit

abbrev RemoteResult : Result Signer → Type 0
RemoteResult (ok s) =
    (client : GrpcClient) × (s.grpc_eth_client ≡ some client) × IsRemoteMode s.transaction_origin
RemoteResult (err e) = Unit

new_signer-remote : (config : SignerConfig) → IsRemote config → RemoteResult (new_signer config)
unfolding new_signer
new_signer-remote (safe_signer rpc safe proxy url token) r = (new_client url token, refl, tt)
new_signer-remote (grpc_pk_signer rpc url token) r = (new_client url token, refl, tt)
new_signer-remote (private_key_signer rpc key) r = absurd r
new_signer-remote (unknown_signer type) r = absurd r

module _ {W : Type 0} (ethers : Ethers W) (kits : SafeKits W) (service : KeyPoolService W)
    (viem : Viem) where
  remote_key-none :
      (s : Signer) (client : GrpcClient) (index : Option ℕ) (w : W)
      → s.grpc_eth_client ≡ some client
      → present_index index ≡ none
      → remote_key ethers kits service viem s index w ≡ (err no_index, w)
  unfolding remote_key ◌>>=◌
  remote_key-none s client index w e h = rw (e, h)

  sign_message_as-remote :
      (mode : TransactionMode) (s : Signer) (index : Option ℕ) (message : Text) (w : W)
      → IsRemoteMode mode
      → remote_key ethers kits service viem s index w ≡ (err no_index, w)
      → sign_message_as ethers kits service viem mode s message index w ≡ (err no_index, w)
  unfolding sign_message_as
  sign_message_as-remote private_key s index message w r h = absurd r
  sign_message_as-remote _ s index message w r h = bind-err _ _ w h

  get_wallet_address_as-remote :
      (mode : TransactionMode) (s : Signer) (index : Option ℕ) (w : W)
      → IsRemoteMode mode
      → remote_key ethers kits service viem s index w ≡ (err no_index, w)
      → get_wallet_address_as ethers kits service viem mode s index w ≡ (err no_index, w)
  unfolding get_wallet_address_as
  get_wallet_address_as-remote private_key s index w r h = absurd r
  get_wallet_address_as-remote _ s index w r h = bind-err _ _ w h

  broadcast_as-remote :
      (mode : TransactionMode) (s : Signer) (index : Option ℕ) (to input value : Text) (w : W)
      → IsRemoteMode mode
      → present_index index ≡ none
      → (e : String) × (broadcast_as ethers kits service viem mode s to input value index w
          ≡ (err e, w))
  unfolding broadcast_as
  broadcast_as-remote private_key s index to input value w r h = absurd r
  broadcast_as-remote safe_tee s index to input value w r h =
      required-throws s.grpc_eth_client _ _ w λ client.
        required-throws (present s.safe_address) _ _ w
          λ safe. required-throws (present s.rpc_url) _ _ w λ rpc. (no_index, bind-err _ _ w (rw h))
  broadcast_as-remote grpc_pk s index to input value w r h = (no_index, bind-err _ _ w (rw h))

  -- A signer that the constructor makes for a remote key, called without a key index or with the
  -- index 0, throws in all three operations, for the missing index in signMessage and in
  -- getWalletAddress, and has called no service.
  pub remote_needs_index :
      (config : SignerConfig) (s : Signer) (index : Option ℕ) (message : Text) (to input : Text)
      (value : Option Text) (w : W)
      → IsRemote config
      → new_signer config ≡ ok s
      → present_index index ≡ none
      → (sign_message ethers kits service viem s message index w ≡ (err no_index, w))
        × (get_wallet_address ethers kits service viem s index w ≡ (err no_index, w))
        × ((e : String) × (sign_transaction_and_broadcast ethers kits service viem s to input value
                index w
              ≡ (err e, w)))
  unfolding sign_message get_wallet_address sign_transaction_and_broadcast
  remote_needs_index config s index message to input value w r e h =
      let (client, has, mode) = subst RemoteResult e (new_signer-remote config r) in
      let no_key = remote_key-none s client index w has h in
      (
        sign_message_as-remote s.transaction_origin s index message w mode no_key,
        get_wallet_address_as-remote s.transaction_origin s index w mode no_key,
        broadcast_as-remote s.transaction_origin s index to input _ w mode h,
      )
