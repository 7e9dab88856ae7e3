-- ===== src/Transactions/GrpcClient.antt =====
-- GrpcEthereumSignerClient of agent/src/common/transactions/grpcEthereumSignerClient.ts. The stub of
-- the key pool service is a parameter: one call for each method, over the state `W` of the service.
use Prim.Native.String
use freysa_spark_hackathon.Common.{
  ℕ, ◌&&◌, ◌==◌, Option, none, some, List, [], ◌∷◌, String, if◌then◌else◌, Text, is_truthy, Run,
  pure, ◌>>=◌,
}
use freysa_spark_hackathon.Transactions.Hex.{bytes_to_hex}

pub record SigningKey : Type 0 where
  pub key_index : ℕ

pub data HashFunction : Type 0 where
  unspecified sha256 keccak256 sha3_256 : HashFunction

pub record SignMessageRequest : Type 0 where
  pub signing_key : SigningKey
  pub hash_function : HashFunction
  pub message : List ℕ

pub record SignEthereumTransactionRequest : Type 0 where
  pub signing_key : SigningKey
  pub tx_data : List ℕ

-- The pairs that `metadata.add` put in.
abbrev pub Metadata : Type 0
Metadata = List (String × String)

pub record KeyPoolService (W : Type 0) : Type 0 where
  pub sign_message : String → Metadata → SignMessageRequest → Run W (List ℕ)
  pub sign_ethereum_transaction :
      String → Metadata → SignEthereumTransactionRequest → Run W (List ℕ)
  pub get_ethereum_address : String → Metadata → SigningKey → Run W Text
  -- `Buffer.from(message)`: the bytes of a text in UTF-8
  pub utf8 : Text → List ℕ

pub record GrpcClient : Type 0 where
  pub server_url : String
  pub bearer_token : Option String

-- The constructor, with the default of its first parameter (taken for `undefined` alone).
unfoldable pub new_client : Option String → Option String → GrpcClient
new_client none token = record { server_url = "unix:///tmp/enclave.sock"; bearer_token = token }
new_client (some url) token = record { server_url = url; bearer_token = token }

-- `if (this.bearerToken) metadata.add(name, …)`.
unfoldable pub metadata_for : String → Option String → Metadata
metadata_for name none = []
metadata_for name (some token) =
    if is_truthy token then (name, String.◌++◌ "Bearer " token) ∷ [] else []

-- `address.startsWith("0x") ? address : "0x" + address`.
unfoldable pub with_0x : Text → Text
with_0x [] = b'0' ∷ b'x' ∷ []
with_0x (c ∷ []) = b'0' ∷ b'x' ∷ c ∷ []
with_0x (c ∷ d ∷ s) = if c == b'0' && d == b'x' then c ∷ d ∷ s else b'0' ∷ b'x' ∷ c ∷ d ∷ s

module _ {W : Type 0} (service : KeyPoolService W) (client : GrpcClient) where
  -- a signature that came back is a `Buffer`, and truthy also where it is empty
  unfoldable pub client_sign_message : Text → SigningKey → Run W Text
  client_sign_message message key = do
    signature ←
        service.sign_message client.server_url (metadata_for "authorization" client.bearer_token)
          (record { signing_key = key; hash_function = keccak256; message = service.utf8 message })
    pure (bytes_to_hex signature)

  unfoldable pub client_sign_transaction : List ℕ → SigningKey → Run W (List ℕ)
  client_sign_transaction tx_data key =
      service.sign_ethereum_transaction client.server_url
        (metadata_for "authorization" client.bearer_token)
        (record { signing_key = key; tx_data = tx_data })

  unfoldable pub client_get_address : SigningKey → Run W Text
  client_get_address key = do
    address ←
        service.get_ethereum_address client.server_url
          (metadata_for "Authorization" client.bearer_token) key
    pure (with_0x address)
