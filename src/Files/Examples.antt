-- ===== src/Files/Examples.antt =====
-- A picture that is not found, stored by LocalStorage and refused by S3Storage.
use freysa_spark_hackathon.Common.{ℕ, suc, true, false, none, some, [], ◌∷◌, ◌++◌, ok, Text}
use freysa_spark_hackathon.Files.{Response, Outside, S3Config, file_name}

abbrev missing : Response
missing = record { is_ok = false; status_text = "Not Found"; body = ok (52 ∷ 48 ∷ 52 ∷ []) }

-- The state counts the calls that change something.
abbrev outside : Outside ℕ
outside = record {
  fetch = λ url n. (ok missing, suc n);
  now = λ n. b'1' ∷ [];
  random = λ n. b'r' ∷ [];
  exists = λ path n. (ok true, n);
  mkdir = λ path n. (ok tt, suc n);
  write_file = λ path bytes n. (ok tt, suc n);
  join = λ base name. base ++ b'/' ∷ name;
  put_object = λ bucket key bytes n. (ok tt, suc n);
}

abbrev config : S3Config
config = record {
  bucket = b'b' ∷ [];
  region = b'r' ∷ [];
  prefix = some (b'/' ∷ b'p' ∷ b'/' ∷ []);
  base_url_override = none;
}

abbrev key : Text
key = b'p' ∷ b'/' ∷ file_name outside 1
