-- ===== src/Generator/Examples.antt =====
-- The generator over small file systems.
use text.Mathlib.Text.{◌==◌ as str_eq}
use freysa_spark_hackathon.Common.{
  ◌≡◌, ◌≢◌, refl, sym, ap, ◌∙◌, inl, inr, Bool, true, false, ◌&&◌, ◌||◌, any, Bool-cases, Option,
  none, some, List, [], ◌∷◌, ◌++◌, ◌>>=◌, String, Result, ok, err, pure, Text, if◌then◌else◌,
  eq_iff, eq_refl,
}
use freysa_spark_hackathon.Generator.{
  FilePath, FileSystem, placeholder, begins, replace_from, replace_all, copy_scaffold,
  wrap_agent_folder, create_new_project, exists_message,
}
use freysa_spark_hackathon.Generator.Placeholders.{Contents, content, wrap_agent_folder_leaves}
use freysa_spark_hackathon.Generator.Projects.{Directories, create_new_project_blocks}

-- `FROM {{DOCKER_IMAGE_URL}}!` with a URL of two letters.
replaced :
    replace_all (b'u' ∷ b'v' ∷ []) (b'F' ∷ (placeholder ++ b'!' ∷ []))
    ≡ b'F' ∷ b'u' ∷ b'v' ∷ b'!' ∷ []
unfolding replace_all replace_from begins
replaced = refl

abbrev same_path : FilePath → FilePath → Bool
same_path [] [] = true
same_path [] (t ∷ q) = false
same_path (s ∷ p) [] = false
same_path (s ∷ p) (t ∷ q) = str_eq s t && same_path p q

same_path_refl : (p : FilePath) → same_path p p ≡ true
same_path_refl [] = refl
same_path_refl (s ∷ p) = rw (eq_refl s) (same_path_refl p)

same_path-true : (p q : FilePath) → same_path p q ≡ true → p ≡ q
same_path-true [] [] h = refl
same_path-true [] (t ∷ q) h = cc
same_path-true (s ∷ p) [] h = cc
same_path-true (s ∷ p) (t ∷ q) h = elim (Bool-cases (str_eq s t)) [
  | inl e ↦
      let heads : s ≡ t = (eq_iff s t).0 e in
      let tails : p ≡ q = same_path-true p q (rw e at h) in cc
  | inr e ↦ cc (rw e at h)
]

same_path-false : (p q : FilePath) → p ≢ q → same_path p q ≡ false
same_path-false p q differ = elim (Bool-cases (same_path p q)) [
  | inl e ↦ absurd (differ (same_path-true p q e))
  | inr e ↦ e
]

-- What stands below a path.
abbrev below_of : FilePath → FilePath → Option FilePath
below_of [] p = some p
below_of (s ∷ d) [] = none
below_of (s ∷ d) (t ∷ p) = let rest = below_of d p in if str_eq s t then rest else none

below_of-append : (d below : FilePath) → below_of d (d ++ below) ≡ some below
below_of-append [] below = refl
below_of-append (s ∷ d) below = rw (eq_refl s) (below_of-append d below)

below_of-some : (d p below : FilePath) → below_of d p ≡ some below → p ≡ d ++ below
below_of-some [] p below h = cc
below_of-some (s ∷ d) [] below h = cc
below_of-some (s ∷ d) (t ∷ p) below h = elim (Bool-cases (str_eq s t)) [
  | inl e ↦
      let heads : s ≡ t = (eq_iff s t).0 e in
      let tails : p ≡ d ++ below = below_of-some d p below (rw e at h) in cc
  | inr e ↦ cc (rw e at h)
]

abbrev Files : Type 0
Files = FilePath → Option Text

abbrev or_else_file : Option Text → Option Text → Option Text
or_else_file (some t) o = some t
or_else_file none o = o

abbrev found_below : Files → FilePath → FilePath → Option FilePath → Option Text
found_below files from p (some below) = or_else_file (files (from ++ below)) (files p)
found_below files from p none = files p

abbrev stat : Option Text → Result Bool
stat none = err "ENOENT"
stat (some t) = ok true

abbrev text_or_empty : Option Text → Text
text_or_empty none = []
text_or_empty (some t) = t

abbrev disk : FileSystem Files
disk = record {
  path_exists = λ p. pure true;
  mkdirp = λ p. pure tt;
  copy = λ from to files. (ok tt, λ p. found_below files from p (below_of to p));
  readdir = λ p. pure ("Dockerfile" ∷ []);
  is_file = λ p files. (stat (files p), files);
  read_file = λ p files. (ok (text_or_empty (files p)), files);
  write_file = λ q t files. (ok tt, λ p. if same_path p q then some t else files p);
}

elsewhere :
    (p from to : FilePath) (files : Files)
    → ((below : FilePath) → p ≢ to ++ below)
    → (o : Option FilePath) → below_of to p ≡ o
    → found_below files from p (below_of to p) ≡ files p
elsewhere p from to files apart none e = rw e refl
elsewhere p from to files apart (some below) e = absurd (apart below (below_of-some to p below e))

copied :
    (from to below : FilePath) (t : Text) (w w' : Files)
    → disk.copy from to w ≡ (ok tt, w')
    → w (from ++ below) ≡ some t
    → w' (to ++ below) ≡ some t
copied from to below t w w' e h =
    let same = ap (λ r. r.1) e in
    ap (λ g. g (to ++ below)) (sym same) ∙ rw (below_of-append to below, h) refl

contents : Contents disk
contents = record {
  content = λ p files. files p;
  by_exists = λ p q files. refl;
  by_readdir = λ p q files. refl;
  by_is_file = λ p q files. refl;
  by_read = λ p q files. refl;
  by_write = λ p q t files differ. rw (same_path-false p q differ) refl;
  by_copy = λ p from to files apart. elsewhere p from to files apart (below_of to p) refl;
  copied = copied;
}

abbrev templates : FilePath
templates = "templates" ∷ []

abbrev resolve : String → FilePath
resolve name = "home" ∷ name ∷ []

abbrev path_text : FilePath → String
path_text p = "a path"

-- A Dockerfile that is the placeholder alone.
abbrev installed : Files
installed p =
    if same_path p ("templates" ∷ "enclave" ∷ "Dockerfile" ∷ []) then some placeholder else none

abbrev url : Text
url = b'u' ∷ []

wrap_agent_folder_leaves_example :
    content contents templates resolve path_text
      ("home" ∷ "my-agent" ∷ "enclave" ∷ "Dockerfile" ∷ [])
      (wrap_agent_folder disk templates resolve path_text "my-agent" (some url) installed).1
    ≡ some placeholder
unfolding copy_scaffold ◌>>=◌ contents
wrap_agent_folder_leaves_example =
    wrap_agent_folder_leaves contents templates resolve path_text "my-agent" (some url) installed
      (copy_scaffold disk templates resolve path_text (resolve "my-agent") "my-agent" installed).1
      "Dockerfile" placeholder refl refl

-- A file system that knows which paths are there.
abbrev places : FileSystem (List FilePath)
places = record {
  path_exists = λ p w. (ok (any (same_path p) w), w);
  mkdirp = λ p w. (ok tt, p ∷ w);
  copy = λ from to w. (ok tt, to ∷ w);
  readdir = λ p. pure [];
  is_file = λ p. pure true;
  read_file = λ p. pure [];
  write_file = λ p t. pure tt;
}

or_true : (b c : Bool) → c ≡ true → (b || c) ≡ true
or_true true c h = refl
or_true false c h = h

made :
    (p : FilePath) (w w' : List FilePath)
    → places.mkdirp p w ≡ (ok tt, w')
    → any (same_path p) w' ≡ true
made p w w' e = ap (λ r. any (same_path p) r.1) (sym e) ∙ rw (same_path_refl p) refl

directories : Directories places
directories = record {
  is_there = λ p w. any (same_path p) w;
  by_exists = λ p w. refl;
  made = made;
  by_copy = λ p from to w h. or_true (same_path p to) (any (same_path p) w) h;
}

create_new_project_blocks_example :
    ((create_new_project places templates resolve path_text "bot" []).0
      ≡ err "Missing enclave directory: a path")
    × (create_new_project places templates resolve path_text "bot"
          (create_new_project places templates resolve path_text "bot" []).1
        ≡ (
          err (exists_message "bot"),
          (create_new_project places templates resolve path_text "bot" []).1,
        ))
unfolding directories
create_new_project_blocks_example =
    create_new_project_blocks directories templates resolve path_text "bot" []
      (("home" ∷ "bot" ∷ []) ∷ []) refl refl refl
