-- ===== src/Tools/Images/Examples.antt =====
-- A tool for four images that stores one.
use freysa_spark_hackathon.Common.{ℕ, suc, ◌≡◌, refl, false, some, [], ◌∷◌, ok, ◌>>=◌}
use freysa_spark_hackathon.Tools.Images.{
  FileStorage, Replicate, ImageTool, report, upload_all, replicate_api_call, replicate_run_and_save,
  execute_images,
}

abbrev storage : FileStorage ℕ
storage = record { upload = λ url n. (ok url, suc n); get_location = b'a' ∷ [] }

abbrev replicate : Replicate ℕ
replicate = record {
  token = some "token";
  predict = λ token model prompt outputs n. (ok (some (b'u' ∷ [])), suc n);
  show = λ n. n ∷ [];
}

abbrev tool : ImageTool ℕ
tool = record { model = "flux"; num_outputs = 4; storage = storage; include_urls = false }

stored :
    execute_images replicate tool "a cat" 0 ≡ (ok (report replicate tool ((b'u' ∷ []) ∷ [])), 2)
unfolding execute_images replicate_run_and_save replicate_api_call upload_all ◌>>=◌
stored = refl
