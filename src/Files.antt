-- ===== src/Files.antt =====
-- The storages for images: agent/src/common/storage and agent/src/common/utils/filesystem.ts. A path, a
-- key or a URL is a text of UTF-16 code units; the network, the file system and S3 are parameters.
mod Examples
use Prim.Native.String
use freysa_spark_hackathon.Common.{
  ℕ, Bool, true, false, String, Option, none, some, List, [], ◌∷◌, ◌++◌, Result, ok, err, Run, pure,
  throw, lift, ◌>>=◌, ◌>>◌, Text, ◌==◌, if◌then◌else◌, not,
}

-- What fetch answers; reading its body may throw.
pub record Response : Type 0 where
  pub is_ok : Bool
  pub status_text : String
  pub body : Result (List ℕ)

-- The calls outside the program, and what the clock and Math.random give as texts.
pub record Outside (W : Type 0) : Type 0 where
  pub fetch : Text → Run W Response
  pub now : W → Text
  pub random : W → Text
  pub exists : Text → Run W Bool
  pub mkdir : Text → Run W (Unit {0})
  pub write_file : Text → List ℕ → Run W (Unit {0})
  pub join : Text → Text → Text
  pub put_object : Text → Text → List ℕ → Run W (Unit {0})

pub record S3Config : Type 0 where
  pub bucket : Text
  pub region : Text
  pub prefix : Option Text
  pub base_url_override : Option Text

-- `replace(/^\/+|\/+$/g, "")`.
unfoldable pub drop_slashes : Text → Text
drop_slashes [] = []
drop_slashes (c ∷ s) = let rest = drop_slashes s in if c == b'/' then rest else c ∷ s

abbrev pub put_back : ℕ → Text → Text
put_back c [] = if c == b'/' then [] else c ∷ []
put_back c (d ∷ s) = c ∷ d ∷ s

unfoldable pub drop_last_slashes : Text → Text
drop_last_slashes [] = []
drop_last_slashes (c ∷ s) = put_back c (drop_last_slashes s)

abbrev pub trim_slashes : Text → Text
trim_slashes s = drop_last_slashes (drop_slashes s)

abbrev pub under : Text → Text → Text
under [] filename = filename
under (c ∷ prefix) filename = (c ∷ prefix) ++ b'/' ∷ filename

-- `prefix ? … : filename`.
unfoldable pub key_of : Option Text → Text → Text
key_of none filename = filename
key_of (some prefix) filename = under (trim_slashes prefix) filename

abbrev pub https : Text
https = b'h' ∷ b't' ∷ b't' ∷ b'p' ∷ b's' ∷ b':' ∷ b'/' ∷ b'/' ∷ []

abbrev pub dot_s3 : Text
dot_s3 = b'.' ∷ b's' ∷ b'3' ∷ b'.' ∷ []

abbrev pub amazon : Text
amazon =
    b'.' ∷ b'a' ∷ b'm' ∷ b'a' ∷ b'z' ∷ b'o' ∷ b'n' ∷ b'a' ∷ b'w' ∷ b's' ∷ b'.' ∷ b'c' ∷ b'o' ∷ b'm'
    ∷ []

abbrev pub object_base : S3Config → Option Text → Text
object_base config none = https ++ (config.bucket ++ (dot_s3 ++ (config.region ++ amazon)))
object_base config (some []) = https ++ (config.bucket ++ (dot_s3 ++ (config.region ++ amazon)))
object_base config (some (c ∷ base)) = c ∷ base

unfoldable pub object_url : S3Config → Text → Text
object_url config key = object_base config config.base_url_override ++ b'/' ∷ key

abbrev pub download_error : Response → String
download_error response = String.◌++◌ "Failed to download image: " response.status_text

module _ {W : Type 0} (outside : Outside W) where
  -- The texts of the clock and of the random number, and the file's ending.
  abbrev pub file_name : W → Text
  file_name w = outside.now w ++ b'-' ∷ (outside.random w ++ b'.' ∷ b'p' ∷ b'n' ∷ b'g' ∷ [])

  abbrev pub named : Run W Text
  named w = (ok (file_name w), w)

  -- saveUrlToFile.
  abbrev pub make_directory : Text → Bool → Run W (Unit {0})
  make_directory base true = pure tt
  make_directory base false = outside.mkdir base

  unfoldable pub save_url_to_file : Text → Text → Text → Run W (Unit {0})
  save_url_to_file url base filename = do
    exists ← outside.exists base
    make_directory base exists
    response ← outside.fetch url
    buffer ← lift response.body
    outside.write_file (outside.join base filename) buffer

  -- LocalStorage.upload.
  unfoldable pub local_upload : Text → Text → Run W Text
  local_upload assets_path url = do
    filename ← named
    save_url_to_file url assets_path filename
    pure (outside.join assets_path filename)

  -- `if (!response.ok) throw`.
  abbrev pub check_ok : Response → Run W (Unit {0})
  check_ok response = if response.is_ok then pure tt else throw (download_error response)

  -- S3Storage.upload.
  unfoldable pub s3_upload : S3Config → Text → Run W Text
  s3_upload config url = do
    response ← outside.fetch url
    check_ok response
    buffer ← lift response.body
    filename ← named
    outside.put_object config.bucket (key_of config.prefix filename) buffer
    pure (object_url config (key_of config.prefix filename))
