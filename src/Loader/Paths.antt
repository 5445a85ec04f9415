-- ===== src/Loader/Paths.antt =====
-- The class path and the search for class files on it (classloader.c). A string is the list of its bytes
-- before the terminating 0.
pub mod Combined
use cs_562_jvm.Base.{
  ℕ, suc, zero, ◌+◌, ◌*◌, ◌==◌, Bool, true, false, List, [], ◌∷◌, ◌++◌, Option, none, some,
  if◌then◌else◌, length, drop, max,
}
use cs_562_jvm.Classfile.{Name}
use cs_562_jvm.Strings.{starts_with, ends_with}

-- classpath, of which the first classpathUsed entries are set, classpathLength and maxClassPathLen
pub record ClassPath : Type 0 where
  pub classpath : List Name
  pub classpath_length : ℕ
  pub max_class_path_len : ℕ

abbrev pub current_directory : Name
current_directory = b'.' ∷ b'/' ∷ []

abbrev pub runtime : Name
runtime = b'r' ∷ b'u' ∷ b'n' ∷ b't' ∷ b'i' ∷ b'm' ∷ b'e' ∷ []

-- the loop over the default class paths in initClassLoader
abbrev pub max_length : List Name → ℕ → ℕ
max_length [] n = n
max_length (dir ∷ dirs) n = max_length dirs (max n (length dir))

unfoldable pub default_class_path : ClassPath
default_class_path = record {
  classpath = current_directory ∷ runtime ∷ [];
  classpath_length = 8;
  max_class_path_len = max_length (current_directory ∷ runtime ∷ []) 0;
}

-- `classpath[classpathUsed++] = classpathLocation` and what follows
abbrev pub append_location : Name → ClassPath → ClassPath
append_location location p = record p {
  classpath = p.classpath ++ location ∷ [];
  max_class_path_len = max p.max_class_path_len (length location);
}

-- `reallocs` is whether realloc succeeds; the result says whether the location was added.
unfoldable pub add_to_classpath : Bool → Name → ClassPath → Bool × ClassPath
add_to_classpath reallocs location p =
    if length p.classpath == p.classpath_length
    then if reallocs
      then (true, append_location location (record p { classpath_length = p.classpath_length * 2 }))
      else (false, p)
    else (true, append_location location p)

abbrev pub slash : Name
slash = b'/' ∷ []

-- what is written to `dest`; the strings lie at different addresses
unfoldable pub combine_path : Name → Name → Name
combine_path dir subpath =
    (dir ++ (if ends_with (some (0, dir)) (some (1, slash)) then [] else slash))
    ++ (if starts_with (some (0, subpath)) (some (1, slash)) then drop 1 subpath else subpath)

abbrev pub class_suffix : Name
class_suffix = b'.' ∷ b'c' ∷ b'l' ∷ b'a' ∷ b's' ∷ b's' ∷ []

-- the sizes of the buffers classSubPath and classLoc
abbrev pub sub_path_len : Name → ℕ
sub_path_len class_name = length class_name + 7

abbrev pub max_path_len : ClassPath → Name → ℕ
max_path_len p class_name = p.max_class_path_len + sub_path_len class_name + 2

-- the loop of findClassFile; `opens` is whether fopen succeeds
unfoldable pub first_file : (Name → Bool) → Name → List Name → Option Name
first_file opens sub_path [] = none
first_file opens sub_path (dir ∷ dirs) =
    let rest = first_file opens sub_path dirs in
    let class_loc = combine_path dir sub_path in if opens class_loc then some class_loc else rest

-- the path of the file that is opened
unfoldable pub find_class_file : (Name → Bool) → (ℕ → Bool) → ClassPath → Name → Option Name
find_class_file opens mallocs p class_name =
    if mallocs (sub_path_len class_name)
    then if mallocs (max_path_len p class_name)
      then first_file opens (class_name ++ class_suffix) p.classpath
      else none
    else none
