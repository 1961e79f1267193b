-- ===== src/Paths.antt =====
-- The paths of a model's files: `GetDirectoryContents`, `IsDirectory`, `JoinPath` and `ModelPaths` of
-- src/backend_common.cc, as built for Linux. The file system is a parameter.
pub mod Found
use Prim.Native.Char.{Char, code}
use Prim.Native.String
use Prim.Native.String.{String}
use backend_radius_ai.Prelude.{
  ℕ, Bool, true, false, not, Option, none, some, List, [], ◌∷◌, ◌==◌, ◌||◌, if◌then◌else◌,
}
use backend_radius_ai.Prelude.Strings.{eq_string}
use backend_radius_ai.Triton.{Result, ok, err, internal, ◌>>=◌}
use backend_radius_ai.Config.Controls.{contains}
use backend_radius_ai.Model.{add, emplace}

-- What is asked of the file system: the names that readdir returns in turn, where opendir succeeds,
-- and whether a path is a directory, where stat succeeds. `to_string` is std::to_string.
pub record FileSystem : Type 0 where
  pub entries : String → Option (List String)
  pub directory : String → Option Bool
  pub to_string : ℕ → String

unfoldable starts_with_slash : String → Bool
starts_with_slash String.[] = false
starts_with_slash (String.◌∷◌ c s) = code c == 47

unfoldable ends_with_slash : String → Bool
ends_with_slash String.[] = false
ends_with_slash (String.◌∷◌ c String.[]) = code c == 47
ends_with_slash (String.◌∷◌ c (String.◌∷◌ d s)) = ends_with_slash (String.◌∷◌ d s)

-- `substr(1)` of a segment that is not empty.
unfoldable behind_first : String → String
behind_first String.[] = String.[]
behind_first (String.◌∷◌ c s) = s

-- One round of the loop of `JoinPath`.
unfoldable join_segment : String → String → String
unfolding starts_with_slash ends_with_slash behind_first eq_string
join_segment joined seg =
    if eq_string joined ""
    then seg
    else if starts_with_slash seg
    then String.◌++◌ joined (if ends_with_slash joined then behind_first seg else seg)
    else String.◌++◌ (if ends_with_slash joined then joined else String.◌++◌ joined "/") seg

unfoldable join_segments : String → List String → String
unfolding join_segment
join_segments joined [] = joined
join_segments joined (seg ∷ segments) = join_segments (join_segment joined seg) segments

-- `JoinPath`
unfoldable pub join_path : List String → String
unfolding join_segments
join_path segments = join_segments "" segments

-- The loop of `GetDirectoryContents` over what readdir returns.
unfoldable pub insert_names : List String → List String → List String
unfolding add eq_string
insert_names [] contents = contents
insert_names (name ∷ names) contents =
    insert_names names
      (if eq_string name "." || eq_string name ".." then contents else add name contents)

-- The loop that fills the map.
unfoldable pub emplace_paths :
    String → List String → List (String × String) → List (String × String)
unfolding emplace join_path
emplace_paths path [] model_paths = model_paths
emplace_paths path (name ∷ names) model_paths =
    emplace_paths path names (emplace name (join_path (path ∷ name ∷ [])) model_paths)

module _ (fs : FileSystem) where
  open fs use {entries, directory, to_string}

  -- `GetDirectoryContents`
  unfoldable pub get_directory_contents : String → Result (List String)
  unfolding insert_names
  get_directory_contents path = elim (entries path) [
    | none ↦ err internal
    | some names ↦ ok (insert_names names [])
  ]

  -- `IsDirectory`
  unfoldable pub is_directory : String → Result Bool
  is_directory path = elim (directory path) [ none ↦ err internal | some is_dir ↦ ok is_dir ]

  -- One of the two loops that erase: only what is a directory, or only what is none, stays.
  unfoldable pub keep : Bool → String → List String → Result (List String)
  unfolding is_directory join_path
  keep directories path [] = ok []
  keep directories path (name ∷ names) = do
    is_dir ← is_directory (join_path (path ∷ name ∷ []))
    rest ← keep directories path names
    ok (if (if is_dir then directories else not directories) then name ∷ rest else rest)

  unfoldable pub keep_if : Bool → Bool → String → List String → Result (List String)
  unfolding keep
  keep_if wanted directories path names = if wanted then keep directories path names else ok names

  -- `ModelPaths`
  unfoldable pub model_paths :
      String → ℕ → Bool → Bool → List (String × String) → Result (List (String × String))
  unfolding get_directory_contents keep_if emplace_paths join_path
  model_paths model_repository_path version ignore_directories ignore_files found = do
    let path = join_path (model_repository_path ∷ to_string version ∷ [])
    contents ← get_directory_contents path
    files ← keep_if ignore_directories false path contents
    model_files ← keep_if ignore_files true path files
    ok (emplace_paths path model_files found)
