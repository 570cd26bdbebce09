-- ===== src/Files/Copies.antt =====
-- util.cc: what the file system holds after a file was written or copied, and the array of a listing.
use amprack_6_pc.Base.{
  ℕ, ◌+◌, ◌*◌, ◌<◌, ◌≡◌, ◌↔◌, refl, sym, ap, ◌∙◌, arith, leb, true, false, none, some, List, [],
  ◌∷◌, ◌++◌, map, length, not, Bool-cases, Option-cases, inl, inr, ◌&&◌, if◌then◌else◌, length-map,
  eq→==,
}
use amprack_6_pc.Files.{
  Bytes, eq_bytes, FileSystem, lookup, exists, read, put, write, copy_file, Json, filename_to_json,
  json_to_filename, erase, remove_file, store_names, list_directory, pointer_size, behind_last,
  slash,
}

pub eq_bytes_refl : (xs : Bytes) → eq_bytes xs xs ≡ true
unfolding eq_bytes
eq_bytes_refl [] = refl
eq_bytes_refl (x ∷ xs) = rw (eq→== x x refl, eq_bytes_refl xs) refl

pub eq_of_eq_bytes : (xs ys : Bytes) → eq_bytes xs ys ≡ true → xs ≡ ys
unfolding eq_bytes
eq_of_eq_bytes [] [] e = refl
eq_of_eq_bytes [] (y ∷ ys) e = cc
eq_of_eq_bytes (x ∷ xs) [] e = cc
eq_of_eq_bytes (x ∷ xs) (y ∷ ys) e = ground (arith, eq_of_eq_bytes xs ys)

pub eq_bytes_iff : (xs ys : Bytes) → (eq_bytes xs ys ≡ true) ↔ (xs ≡ ys)
eq_bytes_iff xs ys = (eq_of_eq_bytes xs ys, λ e. ap (eq_bytes xs) (sym e) ∙ eq_bytes_refl xs)

pub lookup-put :
    (p q v : Bytes) (fs : List (Bytes × Bytes))
    → lookup q (put p v fs) ≡ (if eq_bytes p q then some v else lookup q fs)
unfolding lookup put
lookup-put p q v [] = refl
lookup-put p q v ((r, w) ∷ fs) =
    ground (arith, eq_bytes_iff p q, eq_bytes_iff r p, eq_bytes_iff r q, lookup-put p q v fs)

pub lookup-write :
    (p q v : Bytes) (fs : FileSystem)
    → lookup q (write p v fs).files
      ≡ (if fs.writable p && eq_bytes p q then some v else lookup q fs.files)
unfolding write
lookup-write p q v fs = elim (Bool-cases (fs.writable p)) [
  | inl can ↦ rw can (lookup-put p q v fs.files)
  | inr cannot ↦ rw cannot refl
]

pub write-exists :
    (p v : Bytes) (fs : FileSystem) → fs.writable p ≡ true → exists (write p v fs) p ≡ true
unfolding exists
write-exists p v fs can = rw (exists, lookup-write p p v fs, can, eq_bytes_refl p) refl

pub write-read : (p v : Bytes) (fs : FileSystem) → fs.writable p ≡ true → read (write p v fs) p ≡ v
unfolding read
write-read p v fs can = rw (read, lookup-write p p v fs, can, eq_bytes_refl p) refl

pub eq_bytes-append : (d a b : Bytes) → eq_bytes (d ++ a) (d ++ b) ≡ eq_bytes a b
unfolding eq_bytes
eq_bytes-append [] a b = refl
eq_bytes-append (x ∷ d) a b = rw (eq→== x x refl) (eq_bytes-append d a b)

-- The file of a JSON value, where a file can be made.
pub json_to_filename-put :
    {J : Type 0} (json : Json J) (j : J) (filename : Bytes) (fs : FileSystem)
    → fs.writable filename ≡ true
    → json_to_filename json j filename fs
      ≡ record fs { files = put filename (json.dump j ++ 10 ∷ []) fs.files }
unfolding json_to_filename write
json_to_filename-put json j filename fs can = rw can refl

unwritten : (p v : Bytes) (fs : FileSystem) → fs.writable p ≡ false → write p v fs ≡ fs
unfolding write
unwritten p v fs cannot = rw cannot refl

-- After a copy a path that did not exist, and where a file can be made, has what the source had; every
-- other file is as it was. A second copy to the same path, of whatever file, changes nothing.
pub copy_file_lem :
    (source again dest : Bytes) (fs : FileSystem)
    → ((p : Bytes)
        → lookup p (copy_file source dest fs).files ≡ (
            if not (exists fs dest) && (fs.writable dest && eq_bytes dest p)
            then some (read fs source)
            else lookup p fs.files))
      × (copy_file again dest (copy_file source dest fs) ≡ copy_file source dest fs)
unfolding copy_file
copy_file_lem source again dest fs = elim (Bool-cases (exists fs dest)) [
  | inl there ↦ (λ p. rw there refl, rw there (rw there refl))
  | inr new ↦ (
    λ p. rw new (lookup-write dest p (read fs source) fs),
    rw new (elim (Bool-cases (fs.writable dest)) [
      | inl can ↦ rw (write-exists dest (read fs source) fs can) refl
      | inr cannot ↦
          rw (unwritten dest (read fs source) fs cannot, new)
            (unwritten dest (read fs again) fs cannot)
    ]),
  )
]

lookup-erase :
    (p q : Bytes) (fs : List (Bytes × Bytes))
    → lookup q (erase p fs) ≡ (if eq_bytes p q then none else lookup q fs)
unfolding lookup erase
lookup-erase p q [] = ground arith
lookup-erase p q ((r, w) ∷ fs) =
    ground (arith, eq_bytes_iff p q, eq_bytes_iff r p, eq_bytes_iff r q, lookup-erase p q fs)

-- After a removal the path has no file; every other file is as it was.
pub lookup-remove_file :
    (p q : Bytes) (fs : FileSystem)
    → lookup q (remove_file p fs).1.files ≡ (if eq_bytes p q then none else lookup q fs.files)
unfolding remove_file
lookup-remove_file p q fs = elim (Option-cases (lookup p fs.files)) [
  | inr (v, there) ↦ rw (remove_file, there) (lookup-erase p q fs.files)
  | inl missing ↦
      rw (remove_file, missing)
        (elim (Bool-cases (eq_bytes p q)) [
          | inl same ↦
              rw same (ap (λ r. lookup r fs.files) (sym ((eq_bytes_iff p q).0 same)) ∙ missing)
          | inr other ↦ rw other refl
        ])
]

-- The JSON value of a file that is there.
pub filename_to_json-file :
    {J : Type 0} (json : Json J) (filename content : Bytes) (fs : FileSystem)
    → lookup filename fs.files ≡ some content
    → filename_to_json json fs filename ≡ json.parse content
unfolding filename_to_json exists read
filename_to_json-file json filename content fs there =
    rw (filename_to_json, exists, there) (rw (read, there) refl)

-- A JSON value that was written to a file is read back, where a file can be made there and a value's
-- own text is parsed as the value.
pub filename_to_json-json_to_filename :
    {J : Type 0} (json : Json J) (j : J) (filename : Bytes) (fs : FileSystem)
    → json.parse (json.dump j ++ 10 ∷ []) ≡ some j
    → fs.writable filename ≡ true
    → filename_to_json json (json_to_filename json j filename fs) filename ≡ some j
unfolding filename_to_json json_to_filename
filename_to_json-json_to_filename json j filename fs own can =
    rw
      (
        write-exists filename (json.dump j ++ 10 ∷ []) fs can,
        write-read filename (json.dump j ++ 10 ∷ []) fs can,
      )
      own

store_names-outside :
    (names : List Bytes) (size i : ℕ)
    → size < pointer_size * (i + length names + 1)
    → store_names size i names ≡ none
unfolding store_names
store_names-outside [] size i h = ground arith
store_names-outside (n ∷ names) size i h =
    let rest = store_names-outside names size (i + 1) (omega arith) in
    elim (Bool-cases (leb (pointer_size * (i + 1)) size)) [
      | inl fits ↦ rw (fits, rest) refl
      | inr over ↦ rw over refl
    ]

-- Whatever the directory holds, the array is too small for its pointers.
pub list_directory-overflows : (fs : FileSystem) (dir : Bytes) → list_directory fs dir ≡ none
unfolding list_directory
list_directory-overflows fs dir = elim (Bool-cases (exists fs dir)) [
  | inr missing ↦ rw missing (store_names-outside [] 1 0 (omega arith))
  | inl there ↦ elim (Option-cases (fs.directories fs.files dir)) [
    | inl file ↦ rw (there, file) refl
    | inr (entries, e) ↦
        rw (there, e)
          (store_names-outside (map (behind_last slash) entries) (length entries + 1) 0
            (omega (arith, length-map (behind_last slash) entries)))
  ]
]
