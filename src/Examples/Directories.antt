-- ===== src/Examples/Directories.antt =====
-- A model's directory with one file and one directory.
use Prim.Native.String.{String}
use backend_radius_ai.Prelude.{◌≡◌, refl, true, false, none, some, List, [], ◌∷◌, if◌then◌else◌}
use backend_radius_ai.Prelude.Strings.{eq_string}
use backend_radius_ai.Model.{lookup}
use backend_radius_ai.Model.Outputs.{or_else}
use backend_radius_ai.Paths.{FileSystem, join_path, model_paths}
use backend_radius_ai.Paths.Found.{is_kept, model_paths-lookup}

abbrev names : List String
names = "." ∷ ".." ∷ "model.plan" ∷ "assets" ∷ []

abbrev file_system : FileSystem
file_system = record {
  entries = λ path. if eq_string path "/models/m/3" then some names else none;
  directory = λ path. some (eq_string path "/models/m/3/assets");
  to_string = λ n. "3";
}

abbrev paths : List (String × String)
paths = ("model.plan", "/models/m/3/model.plan") ∷ []

model_paths-lookup_example :
    (entries : List String) × (file_system.entries (join_path ("/models/m" ∷ "3" ∷ []))
      ≡ some entries)
    × ((s : String)
        → lookup s paths
          ≡ or_else none (
              if is_kept file_system true false (join_path ("/models/m" ∷ "3" ∷ [])) entries s
              then some (join_path (join_path ("/models/m" ∷ "3" ∷ []) ∷ s ∷ []))
              else none))
unfolding model_paths eq_string lookup
model_paths-lookup_example = model_paths-lookup file_system "/models/m" 3 true false [] paths refl
