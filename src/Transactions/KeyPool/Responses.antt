-- ===== src/Transactions/KeyPool/Responses.antt =====
-- What the key pool service writes, its client reads.
use freysa_spark_hackathon.Common.{◌≡◌, refl, Bool, true, false, none, some, [], ◌∷◌, ◌++◌, ok}
use freysa_spark_hackathon.Transactions.KeyPool.{encode_ecdsa, base_ecdsa, ecdsa_field}
use freysa_spark_hackathon.Transactions.KeyPool.Fields.{
  Bytes, Wire, decode_from, write_bytes, write_bool,
}
use freysa_spark_hackathon.Transactions.KeyPool.Service.{
  Response, digest_response, message_response, transaction_response, address_response,
  method_of_response, encode_response, decode_response, response_serialize, response_deserialize,
}
use freysa_spark_hackathon.Transactions.KeyPool.RoundTrip.{Reads}

read_flags :
    (r s : Bytes) (y x : Bool)
    → decode_from ecdsa_field
        (record base_ecdsa { r = r; s = s })
        (write_bool 3 y ++ write_bool 4 x)
      ≡ ok (record { r = r; s = s; is_y_odd = y; is_x_reduced = x })
unfolding decode_from
read_flags r s false false = refl
read_flags r s false true = refl
read_flags r s true false = refl
read_flags r s true true = refl

read_s :
    (r s : Bytes) (y x : Bool)
    → decode_from ecdsa_field
        (record base_ecdsa { r = r })
        (write_bytes 2 s ++ (write_bool 3 y ++ write_bool 4 x))
      ≡ ok (record { r = r; s = s; is_y_odd = y; is_x_reduced = x })
unfolding decode_from
read_s r [] y x = read_flags r [] y x
read_s r (c ∷ s) y x = read_flags r (c ∷ s) y x

read_ecdsa :
    (r s : Bytes) (y x : Bool)
    → decode_from ecdsa_field base_ecdsa
        (encode_ecdsa (record { r = r; s = s; is_y_odd = y; is_x_reduced = x }))
      ≡ ok (record { r = r; s = s; is_y_odd = y; is_x_reduced = x })
unfolding decode_from
read_ecdsa [] s y x = read_s [] s y x
read_ecdsa (c ∷ r) s y x = read_s (c ∷ r) s y x

module _ (wire : Wire) where
  -- The library reads a nested signature as it was written, and an address from its UTF-8.
  abbrev pub PartsRead : Response → Type 0
  PartsRead (digest_response none) = Unit
  PartsRead (digest_response (some m)) = Reads wire (ok (encode_ecdsa m))
  PartsRead (message_response m) = Unit
  PartsRead (transaction_response m) = Unit
  PartsRead (address_response address) = wire.text_of_utf8 (wire.utf8 address) ≡ address

  response-read :
      (r : Response)
      → PartsRead r
      → decode_response wire (method_of_response r) (encode_response wire r) ≡ ok r
  unfolding decode_from
  response-read (digest_response none) h = refl
  response-read (digest_response (some m)) h =
      let read = read_ecdsa m.r m.s m.is_y_odd m.is_x_reduced in rw (h, read) refl
  response-read (message_response []) h = refl
  response-read (message_response (c ∷ m)) h = refl
  response-read (transaction_response []) h = refl
  response-read (transaction_response (c ∷ m)) h = refl
  response-read (address_response []) h = refl
  response-read (address_response (c ∷ address)) h = rw h refl

  -- Where the library reads the fields of a response and of its signature as they were written, and an
  -- address from its UTF-8: what the client reads of a response of any method is the response.
  pub response_serialize-response_deserialize :
      (r : Response)
      → PartsRead r
      → Reads wire (ok (encode_response wire r))
      → response_deserialize wire (method_of_response r) (response_serialize wire r) ≡ ok r
  unfolding response_serialize response_deserialize
  response_serialize-response_deserialize r h reads = rw (reads, response-read r h) refl
