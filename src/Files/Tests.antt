-- ===== src/Files/Tests.antt =====
-- util.cc: a file system with one directory and one file.
use amprack_6_pc.Base.{◌≡◌, map, none, some, [], ◌∷◌, if◌then◌else◌, not}
use amprack_6_pc.Files.{Bytes, eq_bytes, FileSystem, lookup, exists, read, copy_file}
use amprack_6_pc.Files.Copies.{copy_file_lem}

-- "/a/b" holds 1, 2, 3; "/a" is a directory with it.
abbrev fs : FileSystem
fs = record {
  files = (47 ∷ 97 ∷ 47 ∷ 98 ∷ [], 1 ∷ 2 ∷ 3 ∷ []) ∷ [];
  directories = λ files p. if eq_bytes p (47 ∷ 97 ∷ []) then some (map (λ f. f.0) files) else none;
  writable = λ p. not (eq_bytes p (47 ∷ 97 ∷ []));
}

copy_file_lem_example :
    ((p : Bytes)
      → lookup p (copy_file (47 ∷ 97 ∷ 47 ∷ 98 ∷ []) (47 ∷ 99 ∷ []) fs).files
        ≡ (if eq_bytes (47 ∷ 99 ∷ []) p then some (1 ∷ 2 ∷ 3 ∷ []) else lookup p fs.files))
    × (copy_file
          (47 ∷ 97 ∷ [])
          (47 ∷ 99 ∷ [])
          (copy_file (47 ∷ 97 ∷ 47 ∷ 98 ∷ []) (47 ∷ 99 ∷ []) fs)
        ≡ copy_file (47 ∷ 97 ∷ 47 ∷ 98 ∷ []) (47 ∷ 99 ∷ []) fs)
unfolding exists lookup eq_bytes read
copy_file_lem_example = copy_file_lem (47 ∷ 97 ∷ 47 ∷ 98 ∷ []) (47 ∷ 97 ∷ []) (47 ∷ 99 ∷ []) fs
