-- ===== src/Presets/Exchange.antt =====
-- presets.cc: the user's presets and favorites as files, their export and import, and the lists
-- that stepping through presets reads.
pub mod Written
pub mod RoundTrip
pub mod Favorite
mod Tests
use amprack_6_pc.Base.{
  ℕ, ◌+◌, ◌==◌, Bool, true, false, Option, none, some, List, [], ◌∷◌, ◌++◌, if◌then◌else◌, ◌>>=◌,
  ◌>>◌, assert,
}
use amprack_6_pc.Decimal.{key_of}
use amprack_6_pc.Files.{Bytes, FileSystem, Json, filename_to_json, json_to_filename, remove_file}

-- The JSON library: texts of values, an empty value after `ex [key] = j` for the pairs in turn, the values
-- that a loop over a value goes through, whether `j ["name"]` can be asked for and is a text, and
-- its dump without the first and the last byte.
pub record PresetJson (J : Type 0) : Type 0 where
  pub json : Json J
  pub object : List (Bytes × J) → J
  pub elements : J → List J
  pub is_object : J → Bool
  pub is_text : J → Bool
  pub name : J → Bytes

-- `list_of_presets` by number of the tab: 0 for quick presets, 1 for the user's, 2 for the library, 3 for
-- favorites. The directories end as the code writes them, and the widgets are not kept.
pub record Shelf (J : Type 0) : Type 0 where
  pub presets_dir : Bytes
  pub dir : Bytes
  pub favs_dir : Bytes
  pub list_of_presets : ℕ → List J
  pub fs : FileSystem

-- "/favs/"
abbrev pub favs : Bytes
favs = 47 ∷ 102 ∷ 97 ∷ 118 ∷ 115 ∷ 47 ∷ []

module _ {J : Type 0} (l : PresetJson J) where
  -- `push_back` on a list; the label of the new widget throws on a name that is no text.
  pub add_preset : J → ℕ → Shelf J → Option (Shelf J)
  add_preset j which s = do
    assert (l.is_text j)
    some (record s {
      list_of_presets =
          λ i. if i == which then s.list_of_presets i ++ j ∷ [] else s.list_of_presets i;
    })

  pub add_presets : List J → ℕ → Shelf J → Option (Shelf J)
  unfolding add_preset
  add_presets [] which s = some s
  add_presets (j ∷ js) which s = do s' ← add_preset j which s; add_presets js which s'

  -- `add_preset_multi`
  pub add_preset_multi : J → ℕ → Shelf J → Option (Shelf J)
  unfolding add_presets
  add_preset_multi j which s = add_presets (l.elements j) which s

  pub load_entries : List Bytes → ℕ → Shelf J → Option (Shelf J)
  unfolding add_preset
  load_entries [] which s = some s
  load_entries (p ∷ ps) which s = do
    j ← filename_to_json l.json s.fs p
    s' ← add_preset j which s
    load_entries ps which s'

  -- An iterator over a directory that is missing throws.
  pub load_user : Bool → Shelf J → Option (Shelf J)
  unfolding load_entries
  load_user is_fav s = do
    entries ← s.fs.directories s.fs.files (if is_fav then s.favs_dir else s.presets_dir)
    load_entries entries (if is_fav then 3 else 1) s

  -- The assignments `ex [std::to_string (i++)] = j` of the loop over the directory.
  pub gather : FileSystem → ℕ → List Bytes → Option (List (Bytes × J))
  gather fs i [] = some []
  gather fs i (p ∷ ps) = do
    j ← filename_to_json l.json fs p
    rest ← gather fs (i + 1) ps
    some ((key_of i, j) ∷ rest)

  pub get_all_user_presets : Shelf J → Option J
  unfolding gather
  get_all_user_presets s = do
    entries ← s.fs.directories s.fs.files s.presets_dir
    kvs ← gather s.fs 0 entries
    some (l.object kvs)

  pub save_presets_to_json : Bytes → Shelf J → Option (Shelf J)
  unfolding gather
  save_presets_to_json filename s = do
    entries ← s.fs.directories s.fs.files s.presets_dir
    kvs ← gather s.fs 0 entries
    some (record s { fs = json_to_filename l.json (l.object kvs) filename s.fs })

  -- The loop of `import_presets_from_json`, with its count.
  pub import_all : List J → ℕ → Shelf J → Option (ℕ × Shelf J)
  unfolding add_preset
  import_all [] how_many s = some (how_many, s)
  import_all (j ∷ js) how_many s = do
    assert (l.is_object j)
    s' ←
        add_preset j 1
          (record s { fs = json_to_filename l.json j (s.presets_dir ++ l.name j) s.fs })
    import_all js (how_many + 1) s'

  pub import_presets_from_json : J → Shelf J → Option (ℕ × Shelf J)
  unfolding import_all
  import_presets_from_json j s = import_all (l.elements j) 0 s

  -- What `presets_on_response` does with the file that was chosen.
  pub import_file : Bytes → Shelf J → Option (ℕ × Shelf J)
  unfolding import_presets_from_json
  import_file filename s = do
    j ← filename_to_json l.json s.fs filename
    import_presets_from_json j s

  -- `delete_callback`; the file is that of the name, and the widget goes with it.
  pub delete_preset : Bytes → Shelf J → Shelf J
  delete_preset name s = record s { fs = (remove_file (s.presets_dir ++ name) s.fs).1 }

  -- `preset_fav_cb`, by the state of the button; the file name is that which `add_preset` made.
  pub toggle_fav : Bool → J → Shelf J → Option (Shelf J)
  unfolding add_preset
  toggle_fav true j s =
      add_preset j 3
        (record s { fs = json_to_filename l.json j (s.dir ++ (favs ++ l.name j)) s.fs })
  toggle_fav false j s = some (record s { fs = (remove_file (s.dir ++ (favs ++ l.name j)) s.fs).1 })
