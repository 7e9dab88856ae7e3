-- ===== src/Generator/Placeholders.antt =====
-- Which files the URL of --docker-url reaches.
use mathlib.Core.List.{append_cancel_left}
use freysa_spark_hackathon.Common.{
  ◌≡◌, ◌≢◌, refl, sym, ◌∙◌, ap, Bool, true, false, Option, none, some, List, [], ◌∷◌, ◌++◌,
  append_assoc, String, ok, pure, throw, ◌>>=◌, bind-eq-ok, bind-ok, Keeps, Keeps-bind, Text,
  if◌then◌else◌,
}
use freysa_spark_hackathon.Generator.{
  FilePath, FileSystem, placeholder, includes, replace_all, need, enclave_in, dockerfile_in,
  inject_file, inject_files, inject, copy_scaffold, wrap_agent_folder,
}

-- The content of a file is to be read off the world. Only writing and copying change contents, those of
-- the path that is written and of the paths below the one that is copied to.
pub record Contents {W : Type 0} (fs : FileSystem W) : Type 0 where
  pub content : FilePath → W → Option Text
  pub by_exists : (p q : FilePath) (w : W) → content p (fs.path_exists q w).1 ≡ content p w
  pub by_readdir : (p q : FilePath) (w : W) → content p (fs.readdir q w).1 ≡ content p w
  pub by_is_file : (p q : FilePath) (w : W) → content p (fs.is_file q w).1 ≡ content p w
  pub by_read : (p q : FilePath) (w : W) → content p (fs.read_file q w).1 ≡ content p w
  pub by_write :
      (p q : FilePath) (t : Text) (w : W) → p ≢ q → content p (fs.write_file q t w).1 ≡ content p w
  pub by_copy :
      (p from to : FilePath) (w : W)
      → ((below : FilePath) → p ≢ to ++ below)
      → content p (fs.copy from to w).1 ≡ content p w
  pub copied :
      (from to below : FilePath) (t : Text) (w w' : W)
      → fs.copy from to w ≡ (ok tt, w')
      → content (from ++ below) w ≡ some t
      → content (to ++ below) w' ≡ some t

module _ {W : Type 0} {fs : FileSystem W} (contents : Contents fs) (templates : FilePath)
    (resolve : String → FilePath) (path_text : FilePath → String) where
  abbrev pub content : FilePath → W → Option Text
  content = contents.content

  -- Nothing happens to the file at `p`.
  abbrev Same : FilePath → W → W → Type 0
  Same p w w' = content p w' ≡ content p w

  module _ (p : FilePath) where
    abbrev trans : (s t u : W) → Same p s t → Same p t u → Same p s u
    trans s t u e f = f ∙ e

    checked-Keeps :
        (b : Bool) (message : String) → Keeps (Same p) (if b then pure tt else throw message)
    checked-Keeps true message w = refl
    checked-Keeps false message w = refl

    need-Keeps : (q : FilePath) (message : String) → Keeps (Same p) (need fs q message)
    need-Keeps q message =
        Keeps-bind (Same p) (λ w. refl) trans _ _ (contents.by_exists p q)
          λ b. checked-Keeps b message

    module _ (target : FilePath) (url : Text)
        (apart : (file : String) → p ≢ target ++ file ∷ []) where
      written-Keeps :
          (b : Bool) (file : String) (t : Text)
          → Keeps (Same p) (if b then fs.write_file (target ++ file ∷ []) t else pure tt)
      written-Keeps true file t w = contents.by_write p _ t w (apart file)
      written-Keeps false file t w = refl

      plain-Keeps :
          (b : Bool) (file : String)
          → Keeps (Same p) (
              if b
              then (fs.read_file (target ++ file ∷ []) >>= λ t.
                  if includes placeholder t
                  then fs.write_file (target ++ file ∷ []) (replace_all url t)
                  else pure tt)
              else pure tt)
      plain-Keeps true file w =
          Keeps-bind (Same p) (λ w. refl) trans _ _ (contents.by_read p _)
            (λ t. written-Keeps (includes placeholder t) file (replace_all url t)) w
      plain-Keeps false file w = refl

      inject_files-Keeps :
          (files : List String)
          → Keeps (Same p) (inject_files fs templates resolve path_text target url files)
      unfolding inject_files inject_file
      inject_files-Keeps [] w = refl
      inject_files-Keeps (file ∷ files) w =
          Keeps-bind (Same p) (λ w. refl) trans _ _
            (Keeps-bind (Same p) (λ w. refl) trans _ _ (contents.by_is_file p _)
              λ b. plain-Keeps b file)
            (λ _. inject_files-Keeps files) w

    inject-Keeps :
        (target : FilePath) (docker_url : Option Text)
        → ((file : String) → p ≢ target ++ file ∷ [])
        → Keeps (Same p) (inject fs templates resolve path_text target docker_url)
    inject-Keeps target none apart w = refl
    inject-Keeps target (some []) apart w = refl
    inject-Keeps target (some (c ∷ url)) apart w =
        Keeps-bind (Same p) (λ w. refl) trans _ _ (contents.by_readdir p _)
          (inject_files-Keeps target (c ∷ url) apart) w

  dockerfile-apart :
      (target below : FilePath) (file : String)
      → target ++ "enclave" ∷ file ∷ [] ≢ (target ++ "Dockerfile.agent" ∷ []) ++ below
  dockerfile-apart target below file e =
      let same =
        append_cancel_left target ("enclave" ∷ file ∷ []) ("Dockerfile.agent" ∷ below)
          (e ∙ append_assoc target ("Dockerfile.agent" ∷ []) below) in
      cc

  root-apart :
      (target : FilePath) (file name : String)
      → target ++ "enclave" ∷ file ∷ [] ≢ target ++ name ∷ []
  root-apart target file name e =
      let same = append_cancel_left target ("enclave" ∷ file ∷ []) (name ∷ []) e in cc

  -- A file of the enclave folder, across the two copies.
  copies-hold :
      (target : FilePath) (file : String) (t : Text) (w w1 w2 : W)
      → fs.copy (enclave_in templates) (target ++ "enclave" ∷ []) w ≡ (ok tt, w1)
      → fs.copy (dockerfile_in templates) (target ++ "Dockerfile.agent" ∷ []) w1 ≡ (ok tt, w2)
      → content (enclave_in templates ++ file ∷ []) w ≡ some t
      → content (target ++ "enclave" ∷ file ∷ []) w2 ≡ some t
  copies-hold target file t w w1 w2 first second there =
      let inside = append_assoc target ("enclave" ∷ []) (file ∷ []) in
      let held =
        ap (λ p. content p w1) (sym inside) ∙ contents.copied _ _ (file ∷ []) t w w1 first there in
      ap (λ r. content (target ++ "enclave" ∷ file ∷ []) r.1) (sym second)
      ∙ (contents.by_copy (target ++ "enclave" ∷ file ∷ []) (dockerfile_in templates)
            (target ++ "Dockerfile.agent" ∷ []) w1 (λ below. dockerfile-apart target below file)
          ∙ held)

  -- Over a file system where only writing and copying change files (Contents): if the scaffold has been
  -- copied, each file of the template's enclave folder stands in the target's as the template has it:
  -- whatever the URL is, no placeholder of it is replaced.
  pub wrap_agent_folder_leaves :
      (source : String) (docker_url : Option Text) (w w' : W) (file : String) (t : Text)
      → copy_scaffold fs templates resolve path_text (resolve source) source w ≡ (ok tt, w')
      → content (enclave_in templates ++ file ∷ []) w ≡ some t
      → content
          (resolve source ++ "enclave" ∷ file ∷ [])
          (wrap_agent_folder fs templates resolve path_text source docker_url w).1
        ≡ some t
  unfolding wrap_agent_folder copy_scaffold
  wrap_agent_folder_leaves source docker_url w w' file t copied there =
      let (a, w1, e1, r1) = bind-eq-ok _ _ _ copied in
      let (b, w2, e2, r2) = bind-eq-ok _ _ _ r1 in
      let (c, w3, e3, r3) = bind-eq-ok _ _ _ r2 in
      let (d, w4, e4, r4) = bind-eq-ok _ _ _ r3 in
      let q = enclave_in templates ++ file ∷ [] in
      let k1 = sym (ap (λ r. content q r.1) e1) ∙ need-Keeps q _ _ w in
      let k2 = sym (ap (λ r. content q r.1) e2) ∙ need-Keeps q _ _ w1 in
      let k3 = sym (ap (λ r. content q r.1) e3) ∙ need-Keeps q _ _ w2 in
      let held = copies-hold (resolve source) file t w3 w4 w' e4 r4 (k3 ∙ (k2 ∙ (k1 ∙ there))) in
      ap (λ r. content (resolve source ++ "enclave" ∷ file ∷ []) r.1) (bind-ok _ _ w copied)
      ∙ (inject-Keeps (resolve source ++ "enclave" ∷ file ∷ []) (resolve source) docker_url
            (root-apart (resolve source) file) w'
          ∙ held)
