-- ===== src/Generator/Projects.antt =====
-- What a failed run of createNewProject leaves.
use Prim.Native.String
use freysa_spark_hackathon.Common.{
  ◌≡◌, refl, ◌∙◌, ap, inl, inr, Bool, true, false, Bool-cases, [], ◌∷◌, ◌++◌, String, ok, err, Run,
  pure, throw, ◌>>=◌, ◌>>◌, bind-err, Keeps, Keeps-bind, if◌then◌else◌,
}
use freysa_spark_hackathon.Generator.{
  FilePath, FileSystem, need, enclave_in, dockerfile_in, exists_message, fill_project,
  create_new_project,
}

-- What is there is to be read off the world; a directory that is made is there, and copying removes nothing.
pub record Directories {W : Type 0} (fs : FileSystem W) : Type 0 where
  pub is_there : FilePath → W → Bool
  pub by_exists : (p : FilePath) (w : W) → fs.path_exists p w ≡ (ok (is_there p w), w)
  pub made : (p : FilePath) (w w' : W) → fs.mkdirp p w ≡ (ok tt, w') → is_there p w' ≡ true
  pub by_copy :
      (p from to : FilePath) (w : W) → is_there p w ≡ true → is_there p (fs.copy from to w).1 ≡ true

module _ {W : Type 0} {fs : FileSystem W} (directories : Directories fs) (templates : FilePath)
    (resolve : String → FilePath) (path_text : FilePath → String) where
  abbrev pub is_there : FilePath → W → Bool
  is_there = directories.is_there

  abbrev Stays : FilePath → W → W → Type 0
  Stays p w w' = is_there p w ≡ true → is_there p w' ≡ true

  need-run :
      (p : FilePath) (message : String) (w : W)
      → need fs p message w ≡ (if is_there p w then pure tt else throw message) w
  unfolding ◌>>=◌
  need-run p message w = rw (directories.by_exists p w)

  need-Stays : (p q : FilePath) (message : String) → Keeps (Stays p) (need fs q message)
  need-Stays p q message w h = elim (Bool-cases (is_there q w)) [
    | inl e ↦ rw (need-run q message w, e) h
    | inr e ↦ rw (need-run q message w, e) h
  ]

  abbrev trans : (p : FilePath) (s t u : W) → Stays p s t → Stays p t u → Stays p s u
  trans p s t u f g h = g (f h)

  -- What fill_project does once the directory is made.
  abbrev filled : FilePath → Run W (Unit {0})
  filled target = do
    need fs (enclave_in templates)
        (String.◌++◌ "Missing enclave directory: " (path_text (enclave_in templates)))
    need fs (dockerfile_in templates)
        (String.◌++◌ "Missing Dockerfile.agent: " (path_text (dockerfile_in templates)))
    fs.copy (enclave_in templates) (target ++ "enclave" ∷ [])
    fs.copy (dockerfile_in templates) (target ++ "Dockerfile.agent" ∷ [])

  filled-Stays : (p target : FilePath) → Keeps (Stays p) (filled target)
  filled-Stays p target =
      Keeps-bind (Stays p) (λ w h. h) (trans p) _ _ (need-Stays p _ _)
        λ _.
          Keeps-bind (Stays p) (λ w h. h) (trans p) _ _ (need-Stays p _ _)
            λ _.
              Keeps-bind (Stays p) (λ w h. h) (trans p) _ _ (directories.by_copy p _ _)
                λ _. directories.by_copy p _ _

  create-existing :
      (name : String) (w : W)
      → is_there (resolve name) w ≡ true
      → create_new_project fs templates resolve path_text name w ≡ (err (exists_message name), w)
  unfolding create_new_project ◌>>=◌
  create-existing name w h = rw (directories.by_exists (resolve name) w, h) refl

  create-new :
      (name : String) (w w1 : W)
      → is_there (resolve name) w ≡ false
      → fs.mkdirp (resolve name) w ≡ (ok tt, w1)
      → create_new_project fs templates resolve path_text name w ≡ filled (resolve name) w1
  unfolding create_new_project fill_project ◌>>=◌
  create-new name w w1 h made = rw (directories.by_exists (resolve name) w, h, made) refl

  -- Over a file system where what is made is there, and copying removes nothing (Directories): if the project's
  -- directory is not there and can be made, but the template's enclave folder is missing, then
  -- createNewProject throws "Missing enclave directory", and so does the next run with the same name, with
  -- "already exists", although the project was not created.
  pub create_new_project_blocks :
      (name : String) (w w1 : W)
      → is_there (resolve name) w ≡ false
      → fs.mkdirp (resolve name) w ≡ (ok tt, w1)
      → is_there (enclave_in templates) w1 ≡ false
      → ((create_new_project fs templates resolve path_text name w).0
          ≡ err (String.◌++◌ "Missing enclave directory: " (path_text (enclave_in templates))))
        × (create_new_project fs templates resolve path_text name
              (create_new_project fs templates resolve path_text name w).1
            ≡ (
              err (exists_message name),
              (create_new_project fs templates resolve path_text name w).1,
            ))
  create_new_project_blocks name w w1 new made missing =
      let run = create-new name w w1 new made in
      let there : is_there (resolve name) (filled (resolve name) w1).1 ≡ true =
        filled-Stays (resolve name) (resolve name) w1 (directories.made _ w w1 made) in
      let message = String.◌++◌ "Missing enclave directory: " (path_text (enclave_in templates)) in
      let fails : need fs (enclave_in templates) message w1 ≡ (err message, w1) =
        need-run (enclave_in templates) message w1 ∙ rw missing refl in
      (
        ap (λ r. r.0) run ∙ ap (λ r. r.0) (bind-err _ _ w1 fails),
        create-existing name _ (ap (λ r. is_there (resolve name) r.1) run ∙ there),
      )
