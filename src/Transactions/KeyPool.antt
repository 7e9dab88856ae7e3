-- ===== src/Transactions/KeyPool.antt =====
-- The messages of agent/src/common/generated/proto/key_pool.ts and their wire format: encode, decode and
-- the serializers of the service's methods. The library's BinaryWriter and BinaryReader are a parameter.
-- A nested message is taken to end where its length says.
pub mod Fields
pub mod Service
pub mod RoundTrip
pub mod Responses
mod Examples
use freysa_spark_hackathon.Common.{
  ℕ, zero, suc, ◌+◌, Bool, true, false, not, Option, none, some, List, [], ◌∷◌, ◌++◌, Result, ok,
  err, ◌==◌, if◌then◌else◌, Text,
}
use freysa_spark_hackathon.Transactions.GrpcClient.{SigningKey}
use freysa_spark_hackathon.Transactions.KeyPool.Fields.{
  Bytes, Field, varint, bytes_field, end_mark, skipped, Wire, and_then, decode_from, write_bytes,
  write_bool, write_uint32, write_int32, low_32,
}

pub record EcdsaSignature : Type 0 where
  pub r : Bytes
  pub s : Bytes
  pub is_y_odd : Bool
  pub is_x_reduced : Bool

pub record DigestRequest : Type 0 where
  pub signing_key : Option SigningKey
  pub digest : Bytes

-- A number of the enum HashFunction is kept as its 32 bits.
pub record MessageRequest : Type 0 where
  pub signing_key : Option SigningKey
  pub hash_function : ℕ
  pub message : Bytes

pub record TransactionRequest : Type 0 where
  pub signing_key : Option SigningKey
  pub tx_data : Bytes

abbrev pub encode_ecdsa : EcdsaSignature → List Field
encode_ecdsa m =
    write_bytes 1 m.r
    ++ (write_bytes 2 m.s ++ (write_bool 3 m.is_y_odd ++ write_bool 4 m.is_x_reduced))

abbrev pub base_ecdsa : EcdsaSignature
base_ecdsa = record { r = []; s = []; is_y_odd = false; is_x_reduced = false }

abbrev pub ecdsa_field : EcdsaSignature → Field → Result EcdsaSignature
ecdsa_field m (bytes_field n b) =
    ok (if n == 1 then record m { r = b } else if n == 2 then record m { s = b } else m)
ecdsa_field m (varint n v) = ok (
    if n == 3
    then record m { is_y_odd = not (v == 0) }
    else if n == 4
    then record m { is_x_reduced = not (v == 0) }
    else m)
ecdsa_field m (end_mark) = ok m
ecdsa_field m (skipped n) = ok m

abbrev pub encode_key : SigningKey → Result (List Field)
encode_key k = write_uint32 1 k.key_index

abbrev pub base_key : SigningKey
base_key = record { key_index = 0 }

abbrev pub key_field : SigningKey → Field → Result SigningKey
key_field m (varint n v) = ok (if n == 1 then record m { key_index = low_32 v } else m)
key_field m (bytes_field n b) = ok m
key_field m (end_mark) = ok m
key_field m (skipped n) = ok m

module _ (wire : Wire) where
  -- `SigningKey.encode(message.signingKey, writer.uint32(10).fork()).join()`.
  abbrev pub write_key : Option SigningKey → Result (List Field)
  write_key none = ok []
  write_key (some k) = and_then (encode_key k) λ fs. ok (bytes_field 1 (wire.finish fs) ∷ [])

  abbrev pub decode_key : Bytes → Result SigningKey
  decode_key b = and_then (wire.fields b) (decode_from key_field base_key)

  abbrev pub encode_digest_request : DigestRequest → Result (List Field)
  encode_digest_request m =
      and_then (write_key m.signing_key) λ key. ok (key ++ write_bytes 2 m.digest)

  abbrev pub base_digest_request : DigestRequest
  base_digest_request = record { signing_key = none; digest = [] }

  abbrev pub digest_request_field : DigestRequest → Field → Result DigestRequest
  digest_request_field m (bytes_field n b) =
      if n == 1
      then and_then (decode_key b) (λ k. ok (record m { signing_key = some k }))
      else ok (if n == 2 then record m { digest = b } else m)
  digest_request_field m (varint n v) = ok m
  digest_request_field m (end_mark) = ok m
  digest_request_field m (skipped n) = ok m

  abbrev pub encode_message_request : MessageRequest → Result (List Field)
  encode_message_request m = and_then (write_key m.signing_key) λ key.
      and_then (write_int32 2 m.hash_function) λ hash. ok (key ++ (hash ++ write_bytes 3 m.message))

  abbrev pub base_message_request : MessageRequest
  base_message_request = record { signing_key = none; hash_function = 0; message = [] }

  abbrev pub message_request_field : MessageRequest → Field → Result MessageRequest
  message_request_field m (bytes_field n b) =
      if n == 1
      then and_then (decode_key b) (λ k. ok (record m { signing_key = some k }))
      else ok (if n == 3 then record m { message = b } else m)
  message_request_field m (varint n v) =
      ok (if n == 2 then record m { hash_function = low_32 v } else m)
  message_request_field m (end_mark) = ok m
  message_request_field m (skipped n) = ok m

  abbrev pub encode_transaction_request : TransactionRequest → Result (List Field)
  encode_transaction_request m =
      and_then (write_key m.signing_key) λ key. ok (key ++ write_bytes 2 m.tx_data)

  abbrev pub base_transaction_request : TransactionRequest
  base_transaction_request = record { signing_key = none; tx_data = [] }

  abbrev pub transaction_request_field : TransactionRequest → Field → Result TransactionRequest
  transaction_request_field m (bytes_field n b) =
      if n == 1
      then and_then (decode_key b) (λ k. ok (record m { signing_key = some k }))
      else ok (if n == 2 then record m { tx_data = b } else m)
  transaction_request_field m (varint n v) = ok m
  transaction_request_field m (end_mark) = ok m
  transaction_request_field m (skipped n) = ok m

  -- GetEthereumAddressRequest, whose only field is the key.
  abbrev pub encode_address_request : Option SigningKey → Result (List Field)
  encode_address_request key = write_key key

  abbrev pub address_request_field : Option SigningKey → Field → Result (Option SigningKey)
  address_request_field m (bytes_field n b) =
      if n == 1 then and_then (decode_key b) (λ k. ok (some k)) else ok m
  address_request_field m (varint n v) = ok m
  address_request_field m (end_mark) = ok m
  address_request_field m (skipped n) = ok m

  -- SignDigestResponse, whose only field is the signature.
  abbrev pub encode_digest_response : Option EcdsaSignature → List Field
  encode_digest_response none = []
  encode_digest_response (some m) = bytes_field 1 (wire.finish (encode_ecdsa m)) ∷ []

  abbrev pub decode_ecdsa : Bytes → Result EcdsaSignature
  decode_ecdsa b = and_then (wire.fields b) (decode_from ecdsa_field base_ecdsa)

  abbrev pub digest_response_field : Option EcdsaSignature → Field → Result (Option EcdsaSignature)
  digest_response_field m (bytes_field n b) =
      if n == 1 then and_then (decode_ecdsa b) (λ e. ok (some e)) else ok m
  digest_response_field m (varint n v) = ok m
  digest_response_field m (end_mark) = ok m
  digest_response_field m (skipped n) = ok m

  -- SignMessageResponse, whose only field is the signature.
  abbrev pub encode_message_response : Bytes → List Field
  encode_message_response signature = write_bytes 1 signature

  abbrev pub signature_response_field : Bytes → Field → Result Bytes
  signature_response_field m (bytes_field n b) = ok (if n == 1 then b else m)
  signature_response_field m (varint n v) = ok m
  signature_response_field m (end_mark) = ok m
  signature_response_field m (skipped n) = ok m

  -- SignEthereumTransactionResponse, whose only field is the signed transaction.
  abbrev pub encode_transaction_response : Bytes → List Field
  encode_transaction_response tx_data = write_bytes 1 tx_data

  abbrev pub tx_data_response_field : Bytes → Field → Result Bytes
  tx_data_response_field m (bytes_field n b) = ok (if n == 1 then b else m)
  tx_data_response_field m (varint n v) = ok m
  tx_data_response_field m (end_mark) = ok m
  tx_data_response_field m (skipped n) = ok m

  -- GetEthereumAddressResponse, whose only field is the address.
  abbrev pub encode_address_response : Text → List Field
  encode_address_response [] = []
  encode_address_response (c ∷ address) = bytes_field 1 (wire.utf8 (c ∷ address)) ∷ []

  abbrev pub address_response_field : Text → Field → Result Text
  address_response_field m (bytes_field n b) = ok (if n == 1 then wire.text_of_utf8 b else m)
  address_response_field m (varint n v) = ok m
  address_response_field m (end_mark) = ok m
  address_response_field m (skipped n) = ok m
