-- ===== src/Paths/Found.antt =====
-- Which files `ModelPaths` finds.
use Prim.Native.String.{String}
use backend_radius_ai.Prelude.{
  ℕ, ◌≡◌, ◌≢◌, ◌↔◌, refl, ap, ◌∙◌, sym, Bool, true, false, not, ◌||◌, ◌&&◌, none, some, List, [],
  ◌∷◌, if◌then◌else◌, arith, Bool-cases, Option-cases, inl, inr,
}
use backend_radius_ai.Prelude.Strings.{eq_string, eq_string_iff}
use backend_radius_ai.Triton.{ok, err, internal}
use backend_radius_ai.Config.Chains.{unbind, ok_injective}
use backend_radius_ai.Config.Controls.{contains}
use backend_radius_ai.Model.{add, emplace, lookup}
use backend_radius_ai.Model.Inputs.{contains-add}
use backend_radius_ai.Model.Outputs.{or_else, or_else_assoc, lookup-emplace}
use backend_radius_ai.Paths.{
  FileSystem, join_path, insert_names, get_directory_contents, is_directory, keep, keep_if,
  emplace_paths, model_paths,
}

abbrev special : String → Bool
special name = eq_string name "." || eq_string name ".."

same_special :
    (name s : String) (b : Bool) → special name ≡ b → eq_string name s ≡ true → special s ≡ b
same_special name s b e same = ap special (sym ((eq_string_iff name s).0 same)) ∙ e

skip_special :
    (c e n p : Bool) → (e ≡ true → p ≡ true) → (c || (n && not p)) ≡ (c || ((e || n) && not p))
skip_special c true n p h = rw (h refl) (ground arith)
skip_special c false n p h = refl

take_file :
    (c e n p : Bool)
    → (e ≡ true → p ≡ false)
    → ((e || c) || (n && not p)) ≡ (c || ((e || n) && not p))
take_file c true n p h = rw (h refl) (ground arith)
take_file c false n p h = refl

contains-insert_names :
    (s : String) (names contents : List String)
    → contains s (insert_names names contents)
      ≡ (contains s contents || (contains s names && not (special s)))
unfolding insert_names
contains-insert_names s [] contents = ground arith
contains-insert_names s (name ∷ names) contents = elim (Bool-cases (special name)) [
  | inl dots ↦ rw dots (
      contains-insert_names s names contents
      ∙ skip_special (contains s contents) (eq_string name s) (contains s names) (special s)
          (same_special name s true dots))
  | inr file ↦ rw file (
      contains-insert_names s names (add name contents)
      ∙ rw (contains-add s name contents) (
          take_file (contains s contents) (eq_string name s) (contains s names) (special s)
            (same_special name s false file)))
]

lookup-emplace_paths :
    (s path : String) (names : List String) (found : List (String × String))
    → lookup s (emplace_paths path names found)
      ≡ or_else
          (lookup s found)
          (if contains s names then some (join_path (path ∷ s ∷ [])) else none)
unfolding emplace_paths
lookup-emplace_paths s path [] found = ground arith
lookup-emplace_paths s path (name ∷ names) found =
    lookup-emplace_paths s path names (emplace name (join_path (path ∷ name ∷ [])) found)
    ∙ rw (lookup-emplace s name (join_path (path ∷ name ∷ [])) found) (
        or_else_assoc (lookup s found) _ _
        ∙ ap (or_else (lookup s found)) (same_path (eq_string_iff name s)))
  where
    same_path :
        (eq_string name s ≡ true) ↔ (name ≡ s)
        → or_else
            (if eq_string name s then some (join_path (path ∷ name ∷ [])) else none)
            (if contains s names then some (join_path (path ∷ s ∷ [])) else none)
          ≡ (if eq_string name s || contains s names
              then some (join_path (path ∷ s ∷ []))
              else none)
    same_path known = elim (Bool-cases (eq_string name s)) [
      | inl same ↦ rw same (ap (λ t. some (join_path (path ∷ t ∷ []))) (known.0 same))
      | inr other ↦ rw other refl
    ]

err≢ok : (b : Bool) → err internal ≢ ok b
err≢ok b e = cc

-- One entry at the head of what is kept.
contains-head :
    (s name : String) (keeps keeps_s : Bool) (rest : List String) (n : Bool)
    → (eq_string name s ≡ true → keeps ≡ keeps_s)
    → contains s rest ≡ (n && keeps_s)
    → contains s (if keeps then name ∷ rest else rest) ≡ ((eq_string name s || n) && keeps_s)
contains-head s name true keeps_s rest n same e = elim (Bool-cases (eq_string name s)) [
  | inl here ↦ rw (here, ← same here) refl
  | inr other ↦ rw other e
]
contains-head s name false keeps_s rest n same e = elim (Bool-cases (eq_string name s)) [
  | inl here ↦ ground (arith, here, same here, e)
  | inr other ↦ rw other e
]

module _ (fs : FileSystem) where
  -- Whether an entry of the directory is one itself; `false` also where stat fails.
  abbrev pub is_dir : String → String → Bool
  is_dir path name = elim (fs.directory (join_path (path ∷ name ∷ []))) [
    | none ↦ false
    | some b ↦ b
  ]

  -- An entry is kept unless it is the directory itself or its parent, or is ignored.
  abbrev pub is_kept : Bool → Bool → String → List String → String → Bool
  is_kept ignore_directories ignore_files path names name =
      contains name names
      && not (special name)
      && (if ignore_directories then not (is_dir path name) else true)
      && (if ignore_files then is_dir path name else true)

  is_directory-inv :
      (path name : String) (b : Bool)
      → is_directory fs (join_path (path ∷ name ∷ [])) ≡ ok b
      → b ≡ is_dir path name
  unfolding is_directory
  is_directory-inv path name b e =
      elim (Option-cases (fs.directory (join_path (path ∷ name ∷ [])))) [
        | inl failed ↦ absurd (err≢ok b (rw (failed, is_directory) at e))
        | inr (d, is) ↦ rw (is_dir, is) (sym (ok_injective (rw (is, is_directory) at e)))
      ]

  contains-keep :
      (s : String) (directories : Bool) (path : String) (names rest : List String)
      → keep fs directories path names ≡ ok rest
      → contains s rest
        ≡ (contains s names && (if is_dir path s then directories else not directories))
  unfolding keep
  contains-keep s directories path [] rest e = rw (← ok_injective e) refl
  contains-keep s directories path (name ∷ names) rest e =
      unbind (is_directory fs (join_path (path ∷ name ∷ []))) _ e λ d first e₁.
        unbind (keep fs directories path names) _ e₁ λ rest' later e₂.
          let is = is_directory-inv path name d first in
          let ih = contains-keep s directories path names rest' later in
          rw (← ok_injective e₂) (
            contains-head s name (if d then directories else not directories)
              (if is_dir path s then directories else not directories) rest' (contains s names)
              (λ same.
                ap (λ b. if b then directories else not directories)
                  (is ∙ ap (is_dir path) ((eq_string_iff name s).0 same)))
              ih)

  contains-keep_if :
      (s : String) (wanted directories : Bool) (path : String) (names rest : List String)
      → keep_if fs wanted directories path names ≡ ok rest
      → contains s rest ≡ (
          contains s names
          && (if wanted then (if is_dir path s then directories else not directories) else true))
  unfolding keep_if
  contains-keep_if s true directories path names rest e =
      contains-keep s directories path names rest e
  contains-keep_if s false directories path names rest e = rw (← ok_injective e) (ground arith)

  get_directory_contents-inv :
      (path : String) (contents : List String)
      → get_directory_contents fs path ≡ ok contents
      → (names : List String) × (fs.entries path ≡ some names) × (contents ≡ insert_names names [])
  unfolding get_directory_contents
  get_directory_contents-inv path contents e = elim (Option-cases (fs.entries path)) [
    | inl failed ↦ absurd (none_read (rw (failed, get_directory_contents) at e))
    | inr (names, opened) ↦
        (names, opened, sym (ok_injective (rw (opened, get_directory_contents) at e)))
  ]
    where
      none_read : err internal ≢ ok contents
      none_read h = cc

  kept_twice :
      (c p d i f : Bool)
      → ((c && not p)
          && (if i then (if d then false else not false) else true)
          && (if f then (if d then true else not true) else true))
        ≡ (c && not p && (if i then not d else true) && (if f then d else true))
  kept_twice c p d i f = ground arith

  -- Where `ModelPaths` succeeds, it could open the directory of the model's version, and has added
  -- to the map exactly the entries of the directory that are kept: not "." and "..", and not
  -- what is ignored. Each leads to its path in the directory; a name that was in the map before is
  -- left as it was.
  pub model_paths-lookup :
      (repository : String) (version : ℕ) (ignore_directories ignore_files : Bool)
      (found paths : List (String × String))
      → model_paths fs repository version ignore_directories ignore_files found ≡ ok paths
      → (names : List String) × (fs.entries (join_path (repository ∷ fs.to_string version ∷ []))
          ≡ some names)
        × ((s : String)
            → lookup s paths
              ≡ or_else (lookup s found) (
                  if is_kept ignore_directories ignore_files
                    (join_path (repository ∷ fs.to_string version ∷ []))
                    names
                    s
                  then some
                      (join_path (join_path (repository ∷ fs.to_string version ∷ []) ∷ s ∷ []))
                  else none))
  unfolding model_paths
  model_paths-lookup repository version ignore_directories ignore_files found paths e =
      let path = join_path (repository ∷ fs.to_string version ∷ []) in
      unbind (get_directory_contents fs path) _ e λ contents read e₁.
        unbind (keep_if fs ignore_directories false path contents) _ e₁ λ files first e₂.
          unbind (keep_if fs ignore_files true path files) _ e₂ λ model_files second e₃.
            let (names, opened, inserted) = get_directory_contents-inv path contents read in
            let kept : (s : String)
                → contains s model_files ≡ is_kept ignore_directories ignore_files path names s =
              λ s.
                contains-keep_if s ignore_files true path files model_files second
                ∙ rw
                    (
                      contains-keep_if s ignore_directories false path contents files first,
                      inserted,
                      contains-insert_names s names [],
                    )
                    (kept_twice (contains s names) (special s) (is_dir path s) ignore_directories
                      ignore_files) in
            (
              names,
              opened,
              λ s. rw (← ok_injective e₃) (
                  lookup-emplace_paths s path model_files found
                  ∙ ap
                      (λ b.
                        or_else (lookup s found)
                          (if b then some (join_path (path ∷ s ∷ [])) else none))
                      (kept s)),
            )
