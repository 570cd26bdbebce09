-- ===== src/Presets/Exchange/RoundTrip.antt =====
-- presets.cc: presets that were exported are imported again.
use mathlib.Core.Path.{subst}
use mathlib.Core.List.{Permᴰ}
use amprack_6_pc.Base.{
  ℕ, ◌+◌, ◌≡◌, refl, sym, ap, ◌∙◌, arith, true, some, List, [], ◌∷◌, ◌++◌, map, length, ◌≢◌, In,
  IsDistinct, Permᴰ-SameElements, length-Permᴰ,
}
use amprack_6_pc.Decimal.{keyed}
use amprack_6_pc.Decimal.Keys.{keyed-IsDistinct, keyed-values}
use amprack_6_pc.Files.{Bytes, FileSystem, lookup, filename_to_json, json_to_filename}
use amprack_6_pc.Files.Copies.{
  json_to_filename-put, lookup-put, eq_bytes_refl, filename_to_json-file,
}
use amprack_6_pc.Presets.Exchange.{
  PresetJson, Shelf, gather, save_presets_to_json, import_presets_from_json, import_file,
}
use amprack_6_pc.Presets.Exchange.Written.{
  text_of, CanImport, import_all-written, written-name, written-other,
}

module _ {J : Type 0} (l : PresetJson J) where
  -- The files hold these presets.
  abbrev pub Hold : FileSystem → List Bytes → List J → Type 0
  Hold fs [] [] = Unit
  Hold fs [] (j ∷ js) = ⊥
  Hold fs (p ∷ ps) [] = ⊥
  Hold fs (p ∷ ps) (j ∷ js) = (filename_to_json l.json fs p ≡ some j) × Hold fs ps js

  gather-keyed :
      (fs : FileSystem) (i : ℕ) (ps : List Bytes) (js : List J)
      → Hold fs ps js
      → gather l fs i ps ≡ some (keyed i js)
  unfolding gather
  gather-keyed fs i [] [] h = refl
  gather-keyed fs i [] (j ∷ js) h = absurd h
  gather-keyed fs i (p ∷ ps) [] h = absurd h
  gather-keyed fs i (p ∷ ps) (j ∷ js) (e, h) = rw (e, gather-keyed fs (i + 1) ps js h) refl

  -- A loop over an object goes through the values of different keys, each once, in some order.
  abbrev pub GoesThrough : Type 0
  GoesThrough =
      (kvs : List (Bytes × J))
      → IsDistinct (map (λ x. x.0) kvs)
      → Permᴰ (l.elements (l.object kvs)) (map (λ x. x.1) kvs)

  -- The presets of an exported file, whichever their number: the same presets, each once.
  exported_elements : (js : List J) → GoesThrough → Permᴰ (l.elements (l.object (keyed 0 js))) js
  exported_elements js through =
      subst (λ vs. Permᴰ (l.elements (l.object (keyed 0 js))) vs) (keyed-values 0 js)
        (through (keyed 0 js) (keyed-IsDistinct 0 js))

  save_presets_to_json-text :
      (s : Shelf J) (file : Bytes) (entries : List Bytes) (js : List J)
      → s.fs.directories s.fs.files s.presets_dir ≡ some entries
      → Hold s.fs entries js
      → s.fs.writable file ≡ true
      → (s' : Shelf J) × (save_presets_to_json l file s ≡ some s')
        × (lookup file s'.fs.files ≡ some (text_of l (l.object (keyed 0 js))))
  unfolding save_presets_to_json
  save_presets_to_json-text s file entries js listed hold can = (
    record s { fs = json_to_filename l.json (l.object (keyed 0 js)) file s.fs },
    rw (listed, gather-keyed s.fs 0 entries js hold) refl,
    rw
        (
          json_to_filename-put l.json (l.object (keyed 0 js)) file s.fs can,
          lookup-put file file (text_of l (l.object (keyed 0 js))) s.fs.files,
          eq_bytes_refl file,
        )
        refl,
  )

  -- A directory of presets is exported to a file; the file is on a shelf, on the same or another machine,
  -- where the presets can be imported; presets of one name are the same; the JSON library parses its
  -- own text of the export and goes through the values of an object. Then the export is that
  -- file, and the import counts the presets, puts each into the file of its name, leaves all other
  -- files, and appends the presets to the user's list, each as often as it was exported, in some order.
  pub import_file-save_presets_to_json :
      (s t : Shelf J) (file : Bytes) (entries : List Bytes) (js : List J)
      → GoesThrough
      → l.json.parse (text_of l (l.object (keyed 0 js))) ≡ some (l.object (keyed 0 js))
      → s.fs.directories s.fs.files s.presets_dir ≡ some entries
      → Hold s.fs entries js
      → s.fs.writable file ≡ true
      → lookup file t.fs.files ≡ some (text_of l (l.object (keyed 0 js)))
      → ((j : J) → In j js → CanImport l t j)
      → ((j k : J) → In j js → In k js → l.name j ≡ l.name k → j ≡ k)
      → ((s' : Shelf J) × (save_presets_to_json l file s ≡ some s')
          × (lookup file s'.fs.files ≡ lookup file t.fs.files))
        × ((t' : Shelf J) × (import_file l file t ≡ some (length js, t'))
            × ((j : J)
                → In j js
                → lookup (t.presets_dir ++ l.name j) t'.fs.files ≡ some (text_of l j))
            × ((p : Bytes)
                → ((j : J) → In j js → t.presets_dir ++ l.name j ≢ p)
                → lookup p t'.fs.files ≡ lookup p t.fs.files)
            × ((ks : List J) × Permᴰ ks js × (t'.list_of_presets 1 ≡ t.list_of_presets 1 ++ ks)))
  unfolding import_file import_presets_from_json
  import_file-save_presets_to_json s t file entries js through own listed hold can there fits one =
      let (s', saves, text) = save_presets_to_json-text s file entries js listed hold can in
      let ks = l.elements (l.object (keyed 0 js)) in
      let order = exported_elements js through in
      let same = Permᴰ-SameElements order in
      let long = length-Permᴰ order in
      let (t', run, files, list, others) =
        import_all-written l ks 0 t (λ j at. fits j ((same j).0 at)) in
      let reads : filename_to_json l.json t.fs file ≡ some (l.object (keyed 0 js)) =
        filename_to_json-file l.json file (text_of l (l.object (keyed 0 js))) t.fs there ∙ own in
      (
        (s', saves, text ∙ sym there),
        (
          t',
          rw reads (
              run
              ∙ ap (λ n. some (n, t')) {x = 0 + length ks} {y = length js} (omega (arith, long))),
          λ j at.
              files (t.presets_dir ++ l.name j)
              ∙ written-name l t.presets_dir ks j (lookup (t.presets_dir ++ l.name j) t.fs.files)
                  (λ k at'. one j k at ((same k).0 at')) ((same j).1 at),
          λ p h.
              files p
              ∙ written-other l t.presets_dir ks p (lookup p t.fs.files)
                  (λ j at. h j ((same j).0 at)),
          (ks, order, list),
        ),
      )
