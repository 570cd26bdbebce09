-- ===== src/Options/Tests.antt =====
-- Plugin.cpp: the options of a host with 512 frames in a block.
use Prim.Native.String.{String}
use amprack_6_pc.Base.{ℕ, ◌≡◌, refl, arith, some, List, [], get_elem?}
use amprack_6_pc.Urid.{map_all, simple_map, find_uri}
use amprack_6_pc.Urid.Interning.{IsTable, empty-IsTable, map_all-IsTable}
use amprack_6_pc.Options.{
  OptionsUrids, OptionUris, OptionState, uri_list, map_options, options_get, options_set,
}
use amprack_6_pc.Options.Keys.{
  IsSeparate, map_options-IsSeparate, options_set-get, set_array, all_keys,
}

abbrev names : OptionUris
names = record {
  atom_int = "atom#Int";
  atom_float = "atom#Float";
  atom_path = "atom#Path";
  atom_string = "atom#String";
  atom_sequence = "atom#Sequence";
  atom_event_transfer = "atom#eventTransfer";
  patch_set = "patch#Set";
  patch_property = "patch#property";
  patch_value = "patch#value";
  min_block_length = "buf-size#minBlockLength";
  max_block_length = "buf-size#maxBlockLength";
  nominal_block_length = "buf-size#nominalBlockLength";
  sequence_size = "buf-size#sequenceSize";
}

mapped_names : (map_all [] (uri_list names)).1 ≡ uri_list names
unfolding map_all simple_map find_uri
mapped_names = refl

names-differ :
    (i j : ℕ) (u : String)
    → get_elem? (uri_list names) i ≡ some u
    → get_elem? (uri_list names) j ≡ some u
    → i ≡ j
names-differ i j u p q =
    let table : IsTable (uri_list names) =
      rw mapped_names at (map_all-IsTable (uri_list names) [] empty-IsTable) in
    table.distinct i j u p q

map_options-IsSeparate_example :
    (u : OptionsUrids) × (t : List String) × (map_options names [] ≡ some (u, t)) × IsSeparate u
map_options-IsSeparate_example =
    map_options-IsSeparate names [] empty-IsTable (omega arith) names-differ

abbrev urids : OptionsUrids
urids = record {
  atom_int = 1;
  atom_float = 2;
  atom_path = 3;
  atom_string = 4;
  atom_sequence = 5;
  atom_event_transfer = 6;
  patch_set = 7;
  patch_property = 8;
  patch_value = 9;
  min_block_length = 10;
  max_block_length = 11;
  nominal_block_length = 12;
  sequence_size = 13;
  sample_rate = 14;
}

urids-IsSeparate : IsSeparate urids
urids-IsSeparate = record {
  min_sequence = λ e. omega arith;
  max_sequence = λ e. omega arith;
  nominal_sequence = λ e. omega arith;
  min_rate = λ e. omega arith;
  max_rate = λ e. omega arith;
  nominal_rate = λ e. omega arith;
  sequence_rate = λ e. omega arith;
}

abbrev host : OptionState
host = record { block_length = 512; sequence_size = 8192; sample_rate = 48000 }

options_set-get_example :
    (s' : OptionState) × (options_set urids (set_array urids 256 4096 44100) host ≡ some s')
    × (options_get urids s' (all_keys urids 0 0 0 0 0) ≡ some (all_keys urids 256 4096 44100 1 2))
options_set-get_example = options_set-get urids host 256 4096 44100 0 0 0 0 0 urids-IsSeparate
