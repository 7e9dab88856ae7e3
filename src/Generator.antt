-- ===== src/Generator.antt =====
-- The command line program create-sovereign-agent/cli.js, over a file system that is a parameter (fs-extra).
-- A path is its list of names. What the program prints is left out.
pub mod Placeholders
pub mod Projects
mod Examples
use Prim.Native.String
use freysa_spark_hackathon.Common.{
  ℕ, zero, suc, ◌==◌, Bool, true, false, ◌&&◌, ◌||◌, Option, none, some, List, [], ◌∷◌, ◌++◌,
  String, Run, pure, throw, ◌>>=◌, ◌>>◌, Text, truthy, if◌then◌else◌,
}

abbrev pub FilePath : Type 0
FilePath = List String

pub record FileSystem (W : Type 0) : Type 0 where
  pub path_exists : FilePath → Run W Bool
  pub mkdirp : FilePath → Run W (Unit {0})
  pub copy : FilePath → FilePath → Run W (Unit {0})
  pub readdir : FilePath → Run W (List String)
  -- `(await fs.stat(path)).isFile()`; stat throws where there is nothing.
  pub is_file : FilePath → Run W Bool
  pub read_file : FilePath → Run W Text
  pub write_file : FilePath → Text → Run W (Unit {0})

-- `{{DOCKER_IMAGE_URL}}`.
abbrev pub placeholder : Text
placeholder =
    b'{' ∷ b'{' ∷ b'D' ∷ b'O' ∷ b'C' ∷ b'K' ∷ b'E' ∷ b'R' ∷ b'_' ∷ b'I' ∷ b'M' ∷ b'A' ∷ b'G' ∷ b'E'
    ∷ b'_' ∷ b'U' ∷ b'R' ∷ b'L' ∷ b'}' ∷ b'}' ∷ []

unfoldable pub begins : Text → Text → Bool
begins [] s = true
begins (c ∷ p) [] = false
begins (c ∷ p) (d ∷ s) = c == d && begins p s

unfoldable pub includes : Text → Text → Bool
includes p [] = begins p []
includes p (c ∷ s) = begins p (c ∷ s) || includes p s

-- The text with the URL, which has no dollar sign, for each placeholder; `skip` characters are passed first.
unfoldable pub replace_from : ℕ → Text → Text → Text
replace_from skip url [] = []
replace_from (suc skip) url (c ∷ s) = replace_from skip url s
replace_from zero url (c ∷ s) =
    let replaced = url ++ replace_from 19 url s in
    let kept = c ∷ replace_from 0 url s in if begins placeholder (c ∷ s) then replaced else kept

unfoldable pub replace_all : Text → Text → Text
replace_all url content = replace_from 0 url content

-- A path that has to be there.
abbrev pub need : {W : Type 0} → FileSystem W → FilePath → String → Run W (Unit {0})
need fs path message = do there ← fs.path_exists path; if there then pure tt else throw message

-- What the program copies from its template directory.
abbrev pub enclave_in : FilePath → FilePath
enclave_in templates = templates ++ "enclave" ∷ []

abbrev pub dockerfile_in : FilePath → FilePath
dockerfile_in templates = templates ++ "Dockerfile.agent" ∷ []

abbrev pub exists_message : String → String
exists_message name = String.◌++◌ "Directory \"" (String.◌++◌ name "\" already exists.")

-- `templates` is the program's template directory, `working` the working directory, in which a name is
-- resolved, and `path_text` writes a path.
module _ {W : Type 0} (fs : FileSystem W) (templates : FilePath) (resolve : String → FilePath)
    (path_text : FilePath → String) where
  -- One file of the loop over the templates.
  unfoldable pub inject_file : FilePath → Text → String → Run W (Unit {0})
  inject_file target url file = do
    plain ← fs.is_file (target ++ file ∷ [])
    if plain
        then (do
          content ← fs.read_file (target ++ file ∷ [])
          if includes placeholder content
              then fs.write_file (target ++ file ∷ []) (replace_all url content)
              else pure tt)
        else pure tt

  unfoldable pub inject_files : FilePath → Text → List String → Run W (Unit {0})
  inject_files target url [] = pure tt
  inject_files target url (file ∷ files) = do
    inject_file target url file
    inject_files target url files

  abbrev pub inject : FilePath → Option Text → Run W (Unit {0})
  inject target none = pure tt
  inject target (some url) =
      if truthy (some url)
      then (fs.readdir (enclave_in templates) >>= inject_files target url)
      else pure tt

  -- wrapAgentFolder up to the copies, and all of it.
  unfoldable pub copy_scaffold : FilePath → String → Run W (Unit {0})
  copy_scaffold target source = do
    need fs target (String.◌++◌ "Source folder \"" (String.◌++◌ source "\" does not exist."))
    need fs (enclave_in templates)
        (String.◌++◌ "Missing enclave template directory: " (path_text (enclave_in templates)))
    need fs (dockerfile_in templates)
        (String.◌++◌ "Missing Dockerfile.agent template: " (path_text (dockerfile_in templates)))
    fs.copy (enclave_in templates) (target ++ "enclave" ∷ [])
    fs.copy (dockerfile_in templates) (target ++ "Dockerfile.agent" ∷ [])

  unfoldable pub wrap_agent_folder : String → Option Text → Run W (Unit {0})
  wrap_agent_folder source docker_url = do
    copy_scaffold (resolve source) source
    inject (resolve source) docker_url

  -- createNewProject from the directory on.
  unfoldable pub fill_project : FilePath → Run W (Unit {0})
  fill_project target = do
    fs.mkdirp target
    need fs (enclave_in templates)
        (String.◌++◌ "Missing enclave directory: " (path_text (enclave_in templates)))
    need fs (dockerfile_in templates)
        (String.◌++◌ "Missing Dockerfile.agent: " (path_text (dockerfile_in templates)))
    fs.copy (enclave_in templates) (target ++ "enclave" ∷ [])
    fs.copy (dockerfile_in templates) (target ++ "Dockerfile.agent" ∷ [])

  unfoldable pub create_new_project : String → Run W (Unit {0})
  create_new_project name = do
    there ← fs.path_exists (resolve name)
    if there then throw (exists_message name) else fill_project (resolve name)
