-- ===== src/Tools/Images.antt =====
-- ReplicateImageGenerationTool and its calls: agent/src/common/tools/replicate. The web service is a
-- parameter, and a storage is its two operations.
pub mod Counts
mod Examples
use freysa_spark_hackathon.Common.{
  ℕ, zero, suc, Bool, true, false, Option, none, some, List, [], ◌∷◌, ◌++◌, Run, pure, throw, ◌>>=◌,
  Text, String, is_truthy, if◌then◌else◌,
}

pub record FileStorage (W : Type 0) : Type 0 where
  pub upload : Text → Run W Text
  pub get_location : Text

-- The environment's token, the service's `output` for a token, a model, a prompt and a number of outputs, and
-- the text of a number.
pub record Replicate (W : Type 0) : Type 0 where
  pub token : Option String
  pub predict : String → String → String → ℕ → Run W (Option Text)
  pub show : ℕ → Text

pub record ImageTool (W : Type 0) : Type 0 where
  pub model : String
  pub num_outputs : ℕ
  pub storage : FileStorage W
  pub include_urls : Bool

-- `if (data.output) return [data.output]`.
abbrev pub outputs : Option Text → List Text
outputs none = []
outputs (some []) = []
outputs (some (c ∷ url)) = (c ∷ url) ∷ []

abbrev pub commas : List Text → Text
commas [] = []
commas (t ∷ []) = t
commas (t ∷ u ∷ ts) = t ++ b',' ∷ commas (u ∷ ts)

abbrev pub generated : Text
generated = b'G' ∷ b'e' ∷ b'n' ∷ b'e' ∷ b'r' ∷ b'a' ∷ b't' ∷ b'e' ∷ b'd' ∷ b' ' ∷ []

abbrev pub images_at : Text
images_at = b' ' ∷ b'i' ∷ b'm' ∷ b'a' ∷ b'g' ∷ b'e' ∷ b's' ∷ b' ' ∷ b'a' ∷ b't' ∷ b' ' ∷ []

abbrev pub count : {A : Type 0} → List A → ℕ
count [] = 0
count (x ∷ xs) = suc (count xs)

module _ {W : Type 0} (replicate : Replicate W) where
  abbrev pub with_token : Option String → String → String → ℕ → Run W (List Text)
  with_token none prompt model n = throw "REPLICATE_API_TOKEN is not set"
  with_token (some token) prompt model n =
      if is_truthy token
      then (replicate.predict token model prompt n >>= λ output. pure (outputs output))
      else throw "REPLICATE_API_TOKEN is not set"

  -- replicateAPICall.
  unfoldable pub replicate_api_call : String → String → ℕ → Run W (List Text)
  replicate_api_call prompt model n = with_token replicate.token prompt model n

  -- The uploads of Promise.all, which is given one URL at most.
  unfoldable pub upload_all : FileStorage W → List Text → Run W (List Text)
  upload_all storage [] = pure []
  upload_all storage (url ∷ urls) = do
    stored ← storage.upload url
    rest ← upload_all storage urls
    pure (stored ∷ rest)

  -- replicateRunAndSave.
  unfoldable pub replicate_run_and_save : String → String → FileStorage W → ℕ → Run W (List Text)
  replicate_run_and_save prompt model storage n = do
    urls ← replicate_api_call prompt model n
    upload_all storage urls

  abbrev pub report : ImageTool W → List Text → Text
  report tool urls =
      if tool.include_urls
      then commas urls
      else generated
        ++ (replicate.show (count urls) ++ (images_at ++ (tool.storage.get_location ++ b'.' ∷ [])))

  unfoldable pub execute_images : ImageTool W → String → Run W Text
  execute_images tool prompt = do
    urls ← replicate_run_and_save prompt tool.model tool.storage tool.num_outputs
    pure (report tool urls)
