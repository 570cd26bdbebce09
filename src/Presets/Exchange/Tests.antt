-- ===== src/Presets/Exchange/Tests.antt =====
-- presets.cc: two presets on their way from one machine to another, and a favorite.
use mathlib.Core.Path.{subst}
use mathlib.Core.List.{Permᴰ}
use mathlib.Core.List.Permᴰ
use amprack_6_pc.Base.{
  ℕ, zero, suc, ◌≡◌, ◌≢◌, refl, sym, ap, arith, get_or, ◌∙◌, if◌then◌else◌, true, false, Bool,
  Option, none, some, List, [], ◌∷◌, ◌++◌, map, inl, inr, In,
}
use amprack_6_pc.Decimal.{keyed}
use amprack_6_pc.Files.{Bytes, eq_bytes, lookup}
use amprack_6_pc.Files.Copies.{filename_to_json-file}
use amprack_6_pc.Presets.Exchange.{PresetJson, Shelf, save_presets_to_json, import_file, favs}
use amprack_6_pc.Presets.Exchange.Written.{text_of, CanImport}
use amprack_6_pc.Presets.Exchange.RoundTrip.{GoesThrough, Hold, import_file-save_presets_to_json}

-- A preset by its name, or an object.
data Value : Type 0 where
  empty : Value
  preset : ℕ → Value
  entry : Value → Value → Value

abbrev elements : Value → List Value
elements empty = []
elements (preset n) = []
elements (entry v vs) = v ∷ elements vs

abbrev object : List (Bytes × Value) → Value
object [] = empty
object ((k, v) ∷ kvs) = entry v (object kvs)

elements-object : (kvs : List (Bytes × Value)) → elements (object kvs) ≡ map (λ x. x.1) kvs
elements-object [] = refl
elements-object ((k, v) ∷ kvs) = ap (◌∷◌ v) (elements-object kvs)

abbrev dump : Value → Bytes
dump empty = 2 ∷ []
dump (preset n) = 0 ∷ n ∷ []
dump (entry v vs) = 1 ∷ dump v ++ dump vs

-- Presets as single files, and the object of the two presets.
abbrev parse : Bytes → Option Value
parse (zero ∷ n ∷ rest) = some (preset n)
parse (suc zero ∷ zero ∷ a ∷ suc zero ∷ zero ∷ b ∷ rest) =
    some (entry (preset a) (entry (preset b) empty))
parse _ = none

abbrev is_preset : Value → Bool
is_preset (preset n) = true
is_preset _ = false

abbrev name : Value → Bytes
name (preset n) = n ∷ []
name _ = []

abbrev library : PresetJson Value
library = record {
  json = record { parse = parse; dump = dump };
  object = object;
  elements = elements;
  is_object = is_preset;
  is_text = is_preset;
  name = name;
}

-- "/" with the presets 5 and 6; a stick at 7.
abbrev slash : Bytes
slash = 47 ∷ []

abbrev stick : Bytes
stick = 7 ∷ []

abbrev shelf : List (Bytes × Bytes) → Shelf Value
shelf files = record {
  presets_dir = slash;
  dir = 8 ∷ [];
  favs_dir = 8 ∷ favs;
  list_of_presets = λ i. [];
  fs = record {
    files = files;
    directories = λ fs d. if eq_bytes d slash then some (map (λ f. f.0) fs) else none;
    writable = λ p. true;
  };
}

abbrev old_machine : Shelf Value
old_machine =
    shelf
      ((47 ∷ 5 ∷ [], text_of library (preset 5)) ∷ (47 ∷ 6 ∷ [], text_of library (preset 6)) ∷ [])

abbrev both : List Value
both = preset 5 ∷ preset 6 ∷ []

abbrev new_machine : Shelf Value
new_machine = shelf ((stick, text_of library (object (keyed 0 both))) ∷ [])

both-CanImport : (j : Value) → In j both → CanImport library new_machine j
both-CanImport j (inl e) = record {
  has_name = ap is_preset e;
  is_text = ap is_preset e;
  can_write = refl;
}
both-CanImport j (inr (inl e)) = record {
  has_name = ap is_preset e;
  is_text = ap is_preset e;
  can_write = refl;
}
both-CanImport j (inr (inr there)) = absurd there

five_ne_six : (j k : Value) → j ≡ preset 5 → k ≡ preset 6 → name j ≡ name k → j ≡ k
five_ne_six j k e d same =
    let h : ◌≡◌ {A = List ℕ} (5 ∷ []) (6 ∷ []) = sym (ap name e) ∙ same ∙ ap name d in
    absurd (omega (arith, ap (λ ns. get_or ns 0 0) h))

both-differ : (j k : Value) → In j both → In k both → name j ≡ name k → j ≡ k
both-differ j k (inl e) (inl d) same = e ∙ sym d
both-differ j k (inl e) (inr (inl d)) same = five_ne_six j k e d same
both-differ j k (inr (inl e)) (inl d) same = sym (five_ne_six k j d e (sym same))
both-differ j k (inr (inl e)) (inr (inl d)) same = e ∙ sym d
both-differ j k (inr (inr there)) m same = absurd there
both-differ j k m (inr (inr there)) same = absurd there

library-GoesThrough : GoesThrough library
library-GoesThrough kvs h =
    subst (λ vs. Permᴰ vs (map (λ x. x.1) kvs)) (sym (elements-object kvs))
      (Permᴰ.refl (map (λ x. x.1) kvs))

old_machine-Hold : Hold library old_machine.fs ((47 ∷ 5 ∷ []) ∷ (47 ∷ 6 ∷ []) ∷ []) both
unfolding eq_bytes lookup
old_machine-Hold = (
  filename_to_json-file library.json (47 ∷ 5 ∷ []) (text_of library (preset 5)) old_machine.fs refl,
  (
    filename_to_json-file library.json (47 ∷ 6 ∷ []) (text_of library (preset 6)) old_machine.fs
        refl,
    tt,
  ),
)

import_file-save_presets_to_json_example :
    ((s' : Shelf Value) × (save_presets_to_json library stick old_machine ≡ some s')
      × (lookup stick s'.fs.files ≡ lookup stick new_machine.fs.files))
    × ((t' : Shelf Value) × (import_file library stick new_machine ≡ some (2, t'))
        × ((j : Value)
            → In j both
            → lookup (slash ++ name j) t'.fs.files ≡ some (text_of library j))
        × ((p : Bytes)
            → ((j : Value) → In j both → slash ++ name j ≢ p)
            → lookup p t'.fs.files ≡ lookup p new_machine.fs.files)
        × ((ks : List Value) × Permᴰ ks both × (t'.list_of_presets 1 ≡ ks)))
unfolding eq_bytes lookup
import_file-save_presets_to_json_example =
    import_file-save_presets_to_json library old_machine new_machine stick
      ((47 ∷ 5 ∷ []) ∷ (47 ∷ 6 ∷ []) ∷ []) both library-GoesThrough refl refl old_machine-Hold refl
      refl both-CanImport both-differ
