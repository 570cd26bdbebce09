-- ===== src/Presets/Exchange/Favorite.antt =====
-- presets.cc: a favorite that is taken back.
use amprack_6_pc.Base.{
  ◌==◌, ◌≡◌, refl, ap, ◌∙◌, true, false, none, some, [], ◌∷◌, ◌++◌, if◌then◌else◌,
}
use amprack_6_pc.Files.{Bytes, lookup, eq_bytes, json_to_filename, remove_file}
use amprack_6_pc.Files.Copies.{json_to_filename-put, lookup-put, lookup-remove_file, eq_bytes_refl}
use amprack_6_pc.Presets.Exchange.{PresetJson, Shelf, favs, add_preset, toggle_fav}
use amprack_6_pc.Presets.Exchange.Written.{text_of}

module _ {J : Type 0} (l : PresetJson J) where
  abbrev pub fav_file : J → Shelf J → Bytes
  fav_file j s = s.dir ++ (favs ++ l.name j)

  -- For a preset whose name is a text and whose file can be made: the button puts the preset into its file and
  -- at the end of the list of favorites. Pressed again it removes the file, and no other, but the
  -- list keeps the preset.
  pub toggle_fav-keeps :
      (j : J) (s : Shelf J)
      → l.is_text j ≡ true
      → s.fs.writable (fav_file j s) ≡ true
      → (s' : Shelf J) × (s'' : Shelf J) × (toggle_fav l true j s ≡ some s')
        × (lookup (fav_file j s) s'.fs.files ≡ some (text_of l j))
        × (toggle_fav l false j s' ≡ some s'')
        × (lookup (fav_file j s) s''.fs.files ≡ none)
        × ((p : Bytes)
            → eq_bytes (fav_file j s) p ≡ false
            → lookup p s''.fs.files ≡ lookup p s.fs.files)
        × (s''.list_of_presets 3 ≡ s.list_of_presets 3 ++ j ∷ [])
  unfolding toggle_fav add_preset
  toggle_fav-keeps j s text can =
      let file = fav_file j s in
      let s' : Shelf J = record s {
        list_of_presets =
            λ i. if i == 3 then s.list_of_presets i ++ j ∷ [] else s.list_of_presets i;
        fs = json_to_filename l.json j file s.fs;
      } in
      let put_at = json_to_filename-put l.json j file s.fs can in
      let holds : (p : Bytes)
          → lookup p s'.fs.files
            ≡ (if eq_bytes file p then some (text_of l j) else lookup p s.fs.files) =
        λ p. ap (λ f. lookup p f.files) put_at ∙ lookup-put file p (text_of l j) s.fs.files in
      (
        s',
        record s' { fs = (remove_file file s'.fs).1 },
        rw text refl,
        holds file ∙ rw (eq_bytes_refl file) refl,
        refl,
        lookup-remove_file file file s'.fs ∙ rw (eq_bytes_refl file) refl,
        λ p other. lookup-remove_file file p s'.fs ∙ rw other (holds p ∙ rw other refl),
        refl,
      )
