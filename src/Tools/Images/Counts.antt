-- ===== src/Tools/Images/Counts.antt =====
-- How many images the tool stores.
use mathlib.Core.Path.{subst}
use freysa_spark_hackathon.Common.{
  ℕ, ◌≡◌, ap, ◌∙◌, ◌⊎◌, inl, inr, Option, none, some, List, [], ◌∷◌, ok, Text, String, Bool-cases,
  bind-eq-ok, pure-eq-ok, is_truthy,
}
use freysa_spark_hackathon.Tools.Images.{
  FileStorage, Replicate, ImageTool, outputs, with_token, replicate_api_call, upload_all,
  replicate_run_and_save, report, execute_images,
}

-- A text that a storage gave for some URL.
abbrev pub UploadedBy : {W : Type 0} → FileStorage W → Text → Type 0
UploadedBy {W} storage stored =
    (url : Text) × (v : W) × (w : W) × (storage.upload url v ≡ (ok stored, w))

-- No text, or one that the storage gave.
abbrev pub AtMostOne : {W : Type 0} → FileStorage W → List Text → Type 0
AtMostOne storage urls =
    (urls ≡ []) ⊎ ((stored : Text) × UploadedBy storage stored × (urls ≡ stored ∷ []))

module _ {W : Type 0} (replicate : Replicate W) where
  with_token-outputs :
      (token : Option String) (prompt model : String) (n : ℕ) (v w : W) (urls : List Text)
      → with_token replicate token prompt model n v ≡ (ok urls, w)
      → (output : Option Text) × (urls ≡ outputs output)
  with_token-outputs none prompt model n v w urls e = cc
  with_token-outputs (some token) prompt model n v w urls e = elim (Bool-cases (is_truthy token)) [
    | inr missing ↦ let bad = rw missing at e in cc
    | inl there ↦
        let (output, t, asked, given) = bind-eq-ok _ _ v (rw there at e) in
        (output, pure-eq-ok (outputs output) t given)
  ]

  upload_all-AtMostOne :
      (storage : FileStorage W) (output : Option Text) (v w : W) (urls : List Text)
      → upload_all replicate storage (outputs output) v ≡ (ok urls, w)
      → AtMostOne storage urls
  unfolding upload_all
  upload_all-AtMostOne storage none v w urls e = inl cc
  upload_all-AtMostOne storage (some []) v w urls e = inl cc
  upload_all-AtMostOne storage (some (c ∷ url)) v w urls e =
      let (stored, t, up, more) = bind-eq-ok _ _ v e in
      let (rest, u, none_left, done) = bind-eq-ok _ _ t more in
      let empty = pure-eq-ok [] t none_left in
      inr (
        stored,
        ((c ∷ url), v, t, up),
        pure-eq-ok (stored ∷ rest) u done ∙ ap (λ r. stored ∷ r) empty,
      )

  -- Whatever the number of outputs is that the tool is made for, a run that returns reports no image, or one
  -- that the storage was given.
  pub execute_images-AtMostOne :
      (tool : ImageTool W) (prompt : String) (v w : W) (text : Text)
      → execute_images replicate tool prompt v ≡ (ok text, w)
      → (urls : List Text) × AtMostOne tool.storage urls × (text ≡ report replicate tool urls)
  unfolding execute_images replicate_run_and_save replicate_api_call
  execute_images-AtMostOne tool prompt v w text e =
      let (urls, t, run, told) = bind-eq-ok _ _ v e in
      let (found, u, asked, saved) = bind-eq-ok _ _ v run in
      let (output, same) =
        with_token-outputs replicate.token prompt tool.model tool.num_outputs v u found asked in
      (
        urls,
        upload_all-AtMostOne tool.storage output u t urls
            (subst (λ us. upload_all replicate tool.storage us u ≡ (ok urls, t)) same saved),
        pure-eq-ok (report replicate tool urls) t told,
      )
