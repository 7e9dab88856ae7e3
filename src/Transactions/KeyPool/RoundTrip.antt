-- ===== src/Transactions/KeyPool/RoundTrip.antt =====
-- What one side of the key pool service writes, the other side reads.
use native.Mathlib.Nat.{mod-eq_of_lt, add-mul-mod_self_left}
use freysa_spark_hackathon.Common.{
  ℕ, zero, suc, ◌<◌, ◌≡◌, refl, ◌∙◌, inl, inr, Option, none, some, List, [], ◌∷◌, ◌++◌, Result, ok,
  err, ltb, lt→ltb, Bool-cases,
}
use freysa_spark_hackathon.Transactions.GrpcClient.{SigningKey}
use freysa_spark_hackathon.Transactions.KeyPool.{
  encode_key, write_key, decode_key, base_message_request, message_request_field,
}
use freysa_spark_hackathon.Transactions.KeyPool.Fields.{
  Bytes, Field, varint, bytes_field, Wire, decode_from, write_bytes, write_uint32, sign_extended,
  write_int32, low_32,
}
use freysa_spark_hackathon.Transactions.KeyPool.Service.{
  Request, digest_request, message_request, transaction_request, address_request, method_of,
  encode_request, decode_request, request_serialize, request_deserialize,
}

low_32-sign_extended : (v : ℕ) → v < 4294967296 → low_32 (sign_extended v) ≡ v
low_32-sign_extended v h = elim (Bool-cases (ltb v 2147483648)) [
  | inl e ↦ rw e (mod-eq_of_lt h)
  | inr e ↦ rw e (add-mul-mod_self_left v 4294967296 4294967295 ∙ mod-eq_of_lt h)
]

-- What BinaryReader reads of written fields: these fields.
abbrev pub Reads : Wire → Result (List Field) → Type 0
Reads wire (ok fs) = wire.fields (wire.finish fs) ≡ ok fs
Reads wire (err e) = Unit

abbrev pub KeyReads : Wire → Option SigningKey → Type 0
KeyReads wire none = Unit
KeyReads wire (some k) = (k.key_index < 4294967296) × Reads wire (encode_key k)

module _ (wire : Wire) where
  -- A key is written as one field, and read back.
  abbrev KeyWritten : Option SigningKey → Type 0
  KeyWritten none = Unit
  KeyWritten (some k) =
      (b : Bytes) × (write_key wire (some k) ≡ ok (bytes_field 1 b ∷ []))
      × (decode_key wire b ≡ ok k)

  number-KeyWritten :
      (n : ℕ)
      → n < 4294967296
      → Reads wire (write_uint32 1 n)
      → KeyWritten (some (record { key_index = n }))
  unfolding decode_from
  number-KeyWritten zero h reads = (wire.finish [], refl, rw reads refl)
  number-KeyWritten (suc n) h reads =
      let small = lt→ltb (suc n) 4294967296 h in
      let there = rw small at reads in
      (wire.finish (varint 1 (suc n) ∷ []), rw small refl, rw (there, mod-eq_of_lt h) refl)

  key-KeyWritten : (key : Option SigningKey) → KeyReads wire key → KeyWritten key
  key-KeyWritten none h = tt
  key-KeyWritten (some k) (h, reads) = number-KeyWritten k.key_index h reads

  -- The fields of a request, and the request that is read of them.
  abbrev Written : Request → Type 0
  Written r =
      (fs : List Field) × (encode_request wire r ≡ ok fs)
      × (decode_request wire (method_of r) fs ≡ ok r)

  digest-Written :
      (key : Option SigningKey) (d : Bytes)
      → KeyWritten key
      → Written (digest_request (record { signing_key = key; digest = d }))
  unfolding decode_from
  digest-Written none [] k = ([], refl, refl)
  digest-Written none (c ∷ d) k = (bytes_field 2 (c ∷ d) ∷ [], refl, refl)
  digest-Written (some key) [] (b, w, r) = (bytes_field 1 b ∷ [], rw w refl, rw r refl)
  digest-Written (some key) (c ∷ d) (b, w, r) =
      (bytes_field 1 b ∷ bytes_field 2 (c ∷ d) ∷ [], rw w refl, rw r refl)

  transaction-Written :
      (key : Option SigningKey) (d : Bytes)
      → KeyWritten key
      → Written (transaction_request (record { signing_key = key; tx_data = d }))
  unfolding decode_from
  transaction-Written none [] k = ([], refl, refl)
  transaction-Written none (c ∷ d) k = (bytes_field 2 (c ∷ d) ∷ [], refl, refl)
  transaction-Written (some key) [] (b, w, r) = (bytes_field 1 b ∷ [], rw w refl, rw r refl)
  transaction-Written (some key) (c ∷ d) (b, w, r) =
      (bytes_field 1 b ∷ bytes_field 2 (c ∷ d) ∷ [], rw w refl, rw r refl)

  address-Written : (key : Option SigningKey) → KeyWritten key → Written (address_request key)
  unfolding decode_from
  address-Written none k = ([], refl, refl)
  address-Written (some key) (b, w, r) = (bytes_field 1 b ∷ [], w, rw r refl)

  -- The hash function and the message of a SignMessageRequest, after its key.
  message_rest :
      (key : Option SigningKey) (n : ℕ) (d : Bytes)
      → n < 4294967296
      → (hash : List Field) × (write_int32 2 n ≡ ok hash)
        × (decode_from
              (message_request_field wire)
              (record (base_message_request wire) { signing_key = key })
              (hash ++ write_bytes 3 d)
            ≡ ok (record { signing_key = key; hash_function = n; message = d }))
  unfolding decode_from
  message_rest key zero [] h = ([], refl, refl)
  message_rest key zero (c ∷ d) h = ([], refl, refl)
  message_rest key (suc n) [] h = (
    varint 2 (sign_extended (suc n)) ∷ [],
    rw (lt→ltb (suc n) 4294967296 h) refl,
    rw (low_32-sign_extended (suc n) h) refl,
  )
  message_rest key (suc n) (c ∷ d) h = (
    varint 2 (sign_extended (suc n)) ∷ [],
    rw (lt→ltb (suc n) 4294967296 h) refl,
    rw (low_32-sign_extended (suc n) h) refl,
  )

  message-Written :
      (key : Option SigningKey) (n : ℕ) (d : Bytes)
      → n < 4294967296
      → KeyWritten key
      → Written (message_request (record { signing_key = key; hash_function = n; message = d }))
  unfolding decode_from
  message-Written none n d h k =
      let (hash, w, r) = message_rest none n d h in (hash ++ write_bytes 3 d, rw w refl, rw r refl)
  message-Written (some key) n d h (b, w, r) =
      let (hash, v, q) = message_rest (some key) n d h in
      (bytes_field 1 b ∷ (hash ++ write_bytes 3 d), rw (w, v) refl, rw (r, q) refl)

  -- The key's index and the number of the hash function are 32 bits, and the reader reads the key.
  abbrev pub Encodable : Request → Type 0
  Encodable (digest_request m) = KeyReads wire m.signing_key
  Encodable (message_request m) = (m.hash_function < 4294967296) × KeyReads wire m.signing_key
  Encodable (transaction_request m) = KeyReads wire m.signing_key
  Encodable (address_request key) = KeyReads wire key

  request-Written : (r : Request) → Encodable r → Written r
  request-Written (digest_request m) h =
      digest-Written m.signing_key m.digest (key-KeyWritten m.signing_key h)
  request-Written (message_request m) (n, h) =
      message-Written m.signing_key m.hash_function m.message n (key-KeyWritten m.signing_key h)
  request-Written (transaction_request m) h =
      transaction-Written m.signing_key m.tx_data (key-KeyWritten m.signing_key h)
  request-Written (address_request key) h = address-Written key (key-KeyWritten key h)

  -- Where the library reads the fields of a request and of its key as they were written, and the key's index
  -- and the number of the hash function are below 2 ^ 32: a request of any method is written without an
  -- error, and what the other side reads of it for this method is the same request.
  pub request_serialize-request_deserialize :
      (r : Request)
      → Encodable r
      → Reads wire (encode_request wire r)
      → (b : Bytes) × (request_serialize wire r ≡ ok b)
        × (request_deserialize wire (method_of r) b ≡ ok r)
  unfolding request_serialize request_deserialize
  request_serialize-request_deserialize r h reads =
      let (fs, w, read) = request-Written r h in
      let back = rw w at reads in (wire.finish fs, rw w refl, rw back read)
