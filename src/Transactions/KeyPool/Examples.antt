-- ===== src/Transactions/KeyPool/Examples.antt =====
-- A request and a response over a library that knows a few messages.
use freysa_spark_hackathon.Common.{
  zero, suc, ◌≡◌, refl, false, true, some, List, [], ◌∷◌, Result, ok, err, arith,
}
use freysa_spark_hackathon.Transactions.KeyPool.Fields.{Bytes, Field, varint, bytes_field, Wire}
use freysa_spark_hackathon.Transactions.KeyPool.Service.{
  sign_message, sign_digest, Request, message_request, Response, digest_response, request_serialize,
  request_deserialize, response_serialize, response_deserialize,
}
use freysa_spark_hackathon.Transactions.KeyPool.RoundTrip.{request_serialize-request_deserialize}
use freysa_spark_hackathon.Transactions.KeyPool.Responses.{response_serialize-response_deserialize}

-- The key 5, and a message of two bytes with the hash function Keccak.
abbrev key_fields : List Field
key_fields = varint 1 5 ∷ []

abbrev request_fields : List Field
request_fields = bytes_field 1 (0 ∷ []) ∷ varint 2 2 ∷ bytes_field 3 (104 ∷ 105 ∷ []) ∷ []

abbrev signature_fields : List Field
signature_fields = bytes_field 1 (7 ∷ []) ∷ bytes_field 2 (8 ∷ []) ∷ varint 3 1 ∷ []

abbrev finish : List Field → Bytes
finish (varint n v ∷ []) = 0 ∷ []
finish (bytes_field n b ∷ []) = 1 ∷ []
finish (bytes_field n b ∷ varint m v ∷ rest) = 2 ∷ []
finish (bytes_field n b ∷ bytes_field m c ∷ rest) = 3 ∷ []
finish _ = []

abbrev fields : Bytes → Result (List Field)
fields (zero ∷ []) = ok key_fields
fields (suc zero ∷ []) = ok (bytes_field 1 (3 ∷ []) ∷ [])
fields (suc (suc zero) ∷ []) = ok request_fields
fields (suc (suc (suc zero)) ∷ []) = ok signature_fields
fields _ = err "premature EOF"

abbrev wire : Wire
wire = record { finish = finish; fields = fields; utf8 = λ s. s; text_of_utf8 = λ b. b }

abbrev request : Request
request = message_request (record {
  signing_key = some (record { key_index = 5 });
  hash_function = 2;
  message = 104 ∷ 105 ∷ [];
})

request_serialize-request_deserialize_example :
    (b : Bytes) × (request_serialize wire request ≡ ok b)
    × (request_deserialize wire sign_message b ≡ ok request)
request_serialize-request_deserialize_example =
    request_serialize-request_deserialize wire request (omega arith, (omega arith, refl)) refl

abbrev response : Response
response =
    digest_response
      (some (record { r = 7 ∷ []; s = 8 ∷ []; is_y_odd = true; is_x_reduced = false }))

response_serialize-response_deserialize_example :
    response_deserialize wire sign_digest (response_serialize wire response) ≡ ok response
response_serialize-response_deserialize_example =
    response_serialize-response_deserialize wire response refl refl
