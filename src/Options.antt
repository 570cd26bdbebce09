-- ===== src/Options.antt =====
-- Plugin.cpp: `OptionsURIDs`, `options_get` and `options_set`, by which a plugin asks for the block
-- length, the sequence size and the sample rate, or sets them.
pub mod Keys
mod Tests
use Prim.Native.String.{String}
use amprack_6_pc.Base.{
  ℕ, zero, suc, ◌==◌, leb, ◌&&◌, ◌||◌, Bool, true, false, Option, none, some, List, [], ◌∷◌, ◌>>=◌,
  if◌then◌else◌,
}
use amprack_6_pc.Urid.{map_all}

-- `OptionsURIDs`
pub record OptionsUrids : Type 0 where
  pub atom_int : ℕ
  pub atom_float : ℕ
  pub atom_path : ℕ
  pub atom_string : ℕ
  pub atom_sequence : ℕ
  pub atom_event_transfer : ℕ
  pub patch_set : ℕ
  pub patch_property : ℕ
  pub patch_value : ℕ
  pub min_block_length : ℕ
  pub max_block_length : ℕ
  pub nominal_block_length : ℕ
  pub sequence_size : ℕ
  pub sample_rate : ℕ

-- The host's values, each the four bytes of an `int32_t` or a `float`.
pub record OptionState : Type 0 where
  pub block_length : ℕ
  pub sequence_size : ℕ
  pub sample_rate : ℕ

-- `LV2_Options_Option`: `kind` is the field `type`, and `value` is what the pointer leads to, four
-- bytes, or `none` for a null pointer.
pub record OptionField : Type 0 where
  pub key : ℕ
  pub size : ℕ
  pub kind : ℕ
  pub value : Option ℕ

-- The URIs that the constructor of `Plugin` maps. All are macros of the LV2 headers, which are not
-- part of the program, but the last, a text in the source.
pub record OptionUris : Type 0 where
  pub atom_int : String
  pub atom_float : String
  pub atom_path : String
  pub atom_string : String
  pub atom_sequence : String
  pub atom_event_transfer : String
  pub patch_set : String
  pub patch_property : String
  pub patch_value : String
  pub min_block_length : String
  pub max_block_length : String
  pub nominal_block_length : String
  pub sequence_size : String

-- In the order in which the constructor maps them.
abbrev pub uri_list : OptionUris → List String
uri_list n =
    n.atom_int ∷ n.atom_float ∷ n.atom_path ∷ n.atom_string ∷ n.atom_sequence
    ∷ n.atom_event_transfer ∷ n.patch_set ∷ n.patch_property ∷ n.patch_value ∷ n.min_block_length
    ∷ n.max_block_length ∷ n.nominal_block_length ∷ n.sequence_size
    ∷ "http://lv2plug.in/ns/lv2core#sampleRate" ∷ []

-- The calls of `simple_map` in the constructor; the result has as many numbers as there are URIs.
pub map_options : OptionUris → List String → Option (OptionsUrids × List String)
map_options names uris =
    let mapped = map_all uris (uri_list names) in
    elim mapped.0 as (λ _. Option (OptionsUrids × List String)) [
      | a ∷ b ∷ c ∷ d ∷ e ∷ f ∷ g ∷ h ∷ i ∷ j ∷ k ∷ l ∷ m ∷ n ∷ [] ↦ some (
        record {
          atom_int = a;
          atom_float = b;
          atom_path = c;
          atom_string = d;
          atom_sequence = e;
          atom_event_transfer = f;
          patch_set = g;
          patch_property = h;
          patch_value = i;
          min_block_length = j;
          max_block_length = k;
          nominal_block_length = l;
          sequence_size = m;
          sample_rate = n;
        },
        mapped.1,
      )
      | _ ↦ none
    ]

-- The test for the end of the array.
abbrev pub is_end : OptionField → Bool
is_end o = elim o.value [ none ↦ o.key == 0 | some v ↦ false ]

abbrev pub is_block_key : OptionsUrids → ℕ → Bool
is_block_key u key =
    key == u.min_block_length || key == u.max_block_length || key == u.nominal_block_length

-- One answer of `options_get`: four bytes, if there is room for them. Writing through a null
-- pointer is a fault.
pub answer : ℕ → ℕ → OptionField → Option OptionField
answer kind word o =
    if leb 4 o.size
    then (elim o.value [
      | none ↦ none
      | some v ↦ some (record o { value = some word; kind = kind; size = 4 })
    ])
    else some o

pub get_option : OptionsUrids → OptionState → OptionField → Option OptionField
unfolding answer
get_option u s o =
    if is_block_key u o.key
    then answer u.atom_int s.block_length o
    else if o.key == u.sequence_size
    then answer u.atom_int s.sequence_size o
    else if o.key == u.sample_rate
    then answer u.atom_float s.sample_rate o
    else some (record o { kind = 0; size = 0 })

-- The loops run to the end mark; an array without one is a fault.
pub options_get : OptionsUrids → OptionState → List OptionField → Option (List OptionField)
unfolding get_option
options_get u s [] = none
options_get u s (o ∷ os) =
    let rest = options_get u s os in
    if is_end o then some (o ∷ os) else (do o' ← get_option u s o; os' ← rest; some (o' ∷ os'))

-- One round of `options_set`. A null pointer is read only if type and size are right.
pub set_option : OptionsUrids → OptionField → OptionState → Option OptionState
set_option u o s =
    if is_block_key u o.key
    then (if o.kind == u.atom_int && o.size == 4
        then (do v ← o.value; some (record s { block_length = v }))
        else some s)
    else if o.key == u.sequence_size
    then (if o.kind == u.atom_int && o.size == 4
        then (do v ← o.value; some (record s { sequence_size = v }))
        else some s)
    else if o.key == u.sample_rate
    then (if o.kind == u.atom_float && o.size == 4
        then (do v ← o.value; some (record s { sample_rate = v }))
        else some s)
    else some s

pub options_set : OptionsUrids → List OptionField → OptionState → Option OptionState
unfolding set_option
options_set u [] s = none
options_set u (o ∷ os) s =
    if is_end o then some s else (set_option u o s >>= λ s'. options_set u os s')
