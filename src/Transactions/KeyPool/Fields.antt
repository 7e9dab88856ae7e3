-- ===== src/Transactions/KeyPool/Fields.antt =====
-- The fields of a message on the wire, and the writer and the reader of @bufbuild/protobuf as the generated
-- code uses them.
use freysa_spark_hackathon.Common.{
  ℕ, zero, suc, ◌+◌, Bool, true, false, List, [], ◌∷◌, Result, ok, err, ltb, if◌then◌else◌, Text,
}
use Prim.Native.Nat.{◌%◌}

abbrev pub Bytes : Type 0
Bytes = List ℕ

-- The wire types that the code reads, with the field's number: a varint, bytes with their length, and any
-- other that it skips. A tag of 0 or with the wire type 4 ends a message.
pub data Field : Type 0 where
  varint : ℕ → ℕ → Field
  bytes_field : ℕ → List ℕ → Field
  end_mark : Field
  skipped : ℕ → Field

-- What BinaryWriter.finish writes of fields, and what BinaryReader reads of bytes up to an end mark, or its
-- error; both for texts in UTF-8 too.
pub record Wire : Type 0 where
  pub finish : List Field → List ℕ
  pub fields : List ℕ → Result (List Field)
  pub utf8 : Text → List ℕ
  pub text_of_utf8 : List ℕ → Text

abbrev pub and_then : {A B : Type 0} → Result A → (A → Result B) → Result B
and_then (ok a) f = f a
and_then (err e) f = err e

-- The loop of decode over a message's fields.
unfoldable pub decode_from : {M : Type 0} → (M → Field → Result M) → M → List Field → Result M
decode_from step m [] = ok m
decode_from step m (end_mark ∷ fs) = ok m
decode_from step m (varint n v ∷ fs) = and_then (step m (varint n v)) λ t. decode_from step t fs
decode_from step m (bytes_field n b ∷ fs) =
    and_then (step m (bytes_field n b)) λ t. decode_from step t fs
decode_from step m (skipped n ∷ fs) = and_then (step m (skipped n)) λ t. decode_from step t fs

-- A field is written only where it has not its default value.
abbrev pub write_bytes : ℕ → Bytes → List Field
write_bytes n [] = []
write_bytes n (c ∷ b) = bytes_field n (c ∷ b) ∷ []

abbrev pub write_bool : ℕ → Bool → List Field
write_bool n false = []
write_bool n true = varint n 1 ∷ []

abbrev pub write_number : Bool → ℕ → ℕ → Result (List Field)
write_number true n v = ok (varint n v ∷ [])
write_number false n v = err "invalid number"

-- `writer.uint32` throws at a number that 32 bits do not hold.
abbrev pub write_uint32 : ℕ → ℕ → Result (List Field)
write_uint32 n zero = ok []
write_uint32 n (suc v) = write_number (ltb (suc v) 4294967296) n (suc v)

-- A negative number is written with 64 bits.
abbrev pub sign_extended : ℕ → ℕ
sign_extended v = if ltb v 2147483648 then v else v + 18446744069414584320

abbrev pub write_int32 : ℕ → ℕ → Result (List Field)
write_int32 n zero = ok []
write_int32 n (suc v) = write_number (ltb (suc v) 4294967296) n (sign_extended (suc v))

-- `reader.uint32()` and `reader.int32()` keep the low 32 bits.
abbrev pub low_32 : ℕ → ℕ
low_32 v = v % 4294967296
