-- ===== src/Files.antt =====
-- util.cc: JSON files, copies of files, and the listing of a directory.
pub mod Copies
mod Tests
use amprack_6_pc.Base.{
  ℕ, zero, suc, ◌+◌, ◌*◌, ◌==◌, leb, Bool, true, false, Option, none, some, List, [], ◌∷◌, ◌++◌,
  map, length, ◌&&◌, ◌||◌, not, if◌then◌else◌, ◌>>=◌, ◌>>◌, assert,
}

-- A text or the content of a file: its bytes.
abbrev pub Bytes : Type 0
Bytes = List ℕ

unfoldable pub eq_bytes : Bytes → Bytes → Bool
eq_bytes [] [] = true
eq_bytes [] (y ∷ ys) = false
eq_bytes (x ∷ xs) [] = false
eq_bytes (x ∷ xs) (y ∷ ys) = x == y && eq_bytes xs ys

abbrev pub slash : ℕ
slash = 47

-- `s.substr (s.find_last_of (c) + 1)`: what stands behind the last `c`, or all of it. The result
-- tells also whether there was one.
unfoldable pub split_last : ℕ → Bytes → Bool × Bytes
split_last c [] = (false, [])
split_last c (x ∷ xs) =
    let rest = split_last c xs in
    if rest.0 then rest else if x == c then (true, xs) else (false, x ∷ xs)

unfoldable pub behind_last : ℕ → Bytes → Bytes
unfolding split_last
behind_last c s = (split_last c s).1

-- The files and their contents; the paths that an iterator over a directory gives while these are
-- the files, `none` where there is no such directory; and where a new file can be made. Nothing else
-- uses the file system meanwhile.
pub record FileSystem : Type 0 where
  pub files : List (Bytes × Bytes)
  pub directories : List (Bytes × Bytes) → Bytes → Option (List Bytes)
  pub writable : Bytes → Bool

unfoldable pub lookup {ℓ} : {V : Type ℓ} → Bytes → List (Bytes × V) → Option V
unfolding eq_bytes
lookup p [] = none
lookup p ((q, v) ∷ fs) = if eq_bytes q p then some v else lookup p fs

-- `std::filesystem::exists`
pub exists : FileSystem → Bytes → Bool
unfolding lookup
exists fs p = elim (lookup p fs.files) [
  | some v ↦ true
  | none ↦ elim (fs.directories fs.files p) [ some d ↦ true | none ↦ false ]
]

-- A stream on a path that is no file gives nothing.
pub read : FileSystem → Bytes → Bytes
unfolding lookup
read fs p = elim (lookup p fs.files) [ some v ↦ v | none ↦ [] ]

pub put : Bytes → Bytes → List (Bytes × Bytes) → List (Bytes × Bytes)
unfolding eq_bytes
put p v [] = (p, v) ∷ []
put p v ((q, w) ∷ fs) = if eq_bytes q p then (p, v) ∷ fs else (q, w) ∷ put p v fs

-- `std::ofstream` on a path: what was there is lost, and a path where no file can be made takes
-- nothing.
pub write : Bytes → Bytes → FileSystem → FileSystem
unfolding put
write p v fs = if fs.writable p then record fs { files = put p v fs.files } else fs

-- `remove` and `std::filesystem::remove` of a file, and whether there was one.
pub erase : Bytes → List (Bytes × Bytes) → List (Bytes × Bytes)
unfolding eq_bytes
erase p [] = []
erase p ((q, w) ∷ fs) = if eq_bytes q p then erase p fs else (q, w) ∷ erase p fs

pub remove_file : Bytes → FileSystem → Bool × FileSystem
unfolding lookup erase
remove_file p fs = elim (lookup p fs.files) [
  | none ↦ (false, fs)
  | some v ↦ (true, record fs { files = erase p fs.files })
]

pub copy_file : Bytes → Bytes → FileSystem → FileSystem
unfolding exists read write
copy_file source dest fs = if exists fs dest then fs else write dest (read fs source) fs

-- JSON values and their texts; `parse` is `none` where it throws.
pub record Json (J : Type 0) : Type 0 where
  pub parse : Bytes → Option J
  pub dump : J → Bytes

-- "/usr/share/amprack/"
abbrev pub share_dir : Bytes
share_dir =
    47 ∷ 117 ∷ 115 ∷ 114 ∷ 47 ∷ 115 ∷ 104 ∷ 97 ∷ 114 ∷ 101 ∷ 47 ∷ 97 ∷ 109 ∷ 112 ∷ 114 ∷ 97 ∷ 99
    ∷ 107 ∷ 47 ∷ []

-- "{}"
abbrev pub empty_object : Bytes
empty_object = 123 ∷ 125 ∷ []

module _ {J : Type 0} (json : Json J) where
  pub filename_to_json : FileSystem → Bytes → Option J
  unfolding exists read
  filename_to_json fs filename =
      if exists fs filename
      then json.parse (read fs filename)
      else if exists fs (share_dir ++ filename)
      then json.parse (read fs (share_dir ++ filename))
      else json.parse empty_object

  -- `dump` has the indentation of `std::setw (4)`; `std::endl` adds the end of the line.
  pub json_to_filename : J → Bytes → FileSystem → FileSystem
  unfolding write
  json_to_filename j filename fs = write filename (json.dump j ++ 10 ∷ []) fs

-- A pointer stored at index `i` of a block of `size` bytes; one outside is a fault.
abbrev pub pointer_size : ℕ
pointer_size = 8

pub store_names : ℕ → ℕ → List Bytes → Option (List Bytes)
store_names size i [] = do assert (leb (pointer_size * (i + 1)) size); some []
store_names size i (f ∷ fs) = do
  assert (leb (pointer_size * (i + 1)) size)
  rest ← store_names size (i + 1) fs
  some (f ∷ rest)

-- The names that the array holds before the null pointer.
pub list_directory : FileSystem → Bytes → Option (List Bytes)
unfolding exists behind_last store_names
list_directory fs dir =
    if not (exists fs dir) then store_names 1 0 [] else elim (fs.directories fs.files dir) [
      | none ↦ none
      | some entries ↦ store_names (length entries + 1) 0 (map (behind_last slash) entries)
    ]
