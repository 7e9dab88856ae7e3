-- ===== src/Transactions/KeyPool/Service.antt =====
-- The serializers of the methods of KeyPoolServiceService.
use freysa_spark_hackathon.Common.{Option, none, List, [], Result, ok, Text}
use freysa_spark_hackathon.Transactions.GrpcClient.{SigningKey}
use freysa_spark_hackathon.Transactions.KeyPool.{
  EcdsaSignature, DigestRequest, MessageRequest, TransactionRequest, encode_digest_request,
  base_digest_request, digest_request_field, encode_message_request, base_message_request,
  message_request_field, encode_transaction_request, base_transaction_request,
  transaction_request_field, encode_address_request, address_request_field, encode_digest_response,
  digest_response_field, signature_response_field, tx_data_response_field, encode_message_response,
  encode_transaction_response, encode_address_response, address_response_field,
}
use freysa_spark_hackathon.Transactions.KeyPool.Fields.{Bytes, Field, Wire, and_then, decode_from}

pub data Method : Type 0 where
  sign_digest sign_message sign_ethereum_transaction get_ethereum_address : Method

pub data Request : Type 0 where
  digest_request : DigestRequest → Request
  message_request : MessageRequest → Request
  transaction_request : TransactionRequest → Request
  address_request : Option SigningKey → Request

pub data Response : Type 0 where
  digest_response : Option EcdsaSignature → Response
  message_response : Bytes → Response
  transaction_response : Bytes → Response
  address_response : Text → Response

-- The method that a request or a response belongs to.
abbrev pub method_of : Request → Method
method_of (digest_request m) = sign_digest
method_of (message_request m) = sign_message
method_of (transaction_request m) = sign_ethereum_transaction
method_of (address_request m) = get_ethereum_address

abbrev pub method_of_response : Response → Method
method_of_response (digest_response m) = sign_digest
method_of_response (message_response m) = sign_message
method_of_response (transaction_response m) = sign_ethereum_transaction
method_of_response (address_response m) = get_ethereum_address

module _ (wire : Wire) where
  abbrev pub encode_request : Request → Result (List Field)
  encode_request (digest_request m) = encode_digest_request wire m
  encode_request (message_request m) = encode_message_request wire m
  encode_request (transaction_request m) = encode_transaction_request wire m
  encode_request (address_request m) = encode_address_request wire m

  abbrev pub encode_response : Response → List Field
  encode_response (digest_response m) = encode_digest_response wire m
  encode_response (message_response m) = encode_message_response wire m
  encode_response (transaction_response m) = encode_transaction_response wire m
  encode_response (address_response m) = encode_address_response wire m

  abbrev pub decode_request : Method → List Field → Result Request
  decode_request sign_digest fs =
      and_then (decode_from (digest_request_field wire) (base_digest_request wire) fs)
        λ m. ok (digest_request m)
  decode_request sign_message fs =
      and_then (decode_from (message_request_field wire) (base_message_request wire) fs)
        λ m. ok (message_request m)
  decode_request sign_ethereum_transaction fs =
      and_then (decode_from (transaction_request_field wire) (base_transaction_request wire) fs)
        λ m. ok (transaction_request m)
  decode_request get_ethereum_address fs =
      and_then (decode_from (address_request_field wire) none fs) λ m. ok (address_request m)

  abbrev pub decode_response : Method → List Field → Result Response
  decode_response sign_digest fs =
      and_then (decode_from (digest_response_field wire) none fs) λ m. ok (digest_response m)
  decode_response sign_message fs =
      and_then (decode_from (signature_response_field wire) [] fs) λ m. ok (message_response m)
  decode_response sign_ethereum_transaction fs =
      and_then (decode_from (tx_data_response_field wire) [] fs) λ m. ok (transaction_response m)
  decode_response get_ethereum_address fs =
      and_then (decode_from (address_response_field wire) [] fs) λ m. ok (address_response m)

  unfoldable pub request_serialize : Request → Result Bytes
  request_serialize r = and_then (encode_request r) λ fs. ok (wire.finish fs)

  unfoldable pub request_deserialize : Method → Bytes → Result Request
  request_deserialize method b = and_then (wire.fields b) (decode_request method)

  unfoldable pub response_serialize : Response → Bytes
  response_serialize r = wire.finish (encode_response r)

  unfoldable pub response_deserialize : Method → Bytes → Result Response
  response_deserialize method b = and_then (wire.fields b) (decode_response method)
