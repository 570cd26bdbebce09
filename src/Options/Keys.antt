-- ===== src/Options/Keys.antt =====
-- Plugin.cpp: the option keys are told apart, and what `options_set` stores `options_get` reads.
use Prim.Native.String.{String}
use amprack_6_pc.Base.{
  ℕ, ◌+◌, ◌≤◌, ◌≡◌, ◌≢◌, refl, sym, arith, none, some, List, [], ◌∷◌, length, get_elem?, ◌==◌,
  ne→==, eq→==, true, false,
}
use amprack_6_pc.Urid.{map_all}
use amprack_6_pc.Urid.Interning.{IsTable, map_all-interns}
use amprack_6_pc.Options.{
  OptionsUrids, OptionUris, OptionState, OptionField, uri_list, map_options, answer, get_option,
  options_get, set_option, options_set, is_block_key,
}

-- The keys for different values differ.
pub record IsSeparate (u : OptionsUrids) : Type 0 where
  pub min_sequence : u.min_block_length ≢ u.sequence_size
  pub max_sequence : u.max_block_length ≢ u.sequence_size
  pub nominal_sequence : u.nominal_block_length ≢ u.sequence_size
  pub min_rate : u.min_block_length ≢ u.sample_rate
  pub max_rate : u.max_block_length ≢ u.sample_rate
  pub nominal_rate : u.nominal_block_length ≢ u.sample_rate
  pub sequence_rate : u.sequence_size ≢ u.sample_rate

module _ (n : OptionUris) (us : List String) (v : IsTable us) (room : length us + 14 ≤ 1000)
    (differ : (i j : ℕ) (u : String)
      → get_elem? (uri_list n) i ≡ some u
      → get_elem? (uri_list n) j ≡ some u
      → i ≡ j) where
  ids-ne :
      (i j : ℕ) (u w : String) (a b : ℕ)
      → i ≢ j
      → get_elem? (uri_list n) i ≡ some u
      → get_elem? (uri_list n) j ≡ some w
      → get_elem? (map_all us (uri_list n)).0 i ≡ some a
      → get_elem? (map_all us (uri_list n)).0 j ≡ some b
      → a ≢ b
  ids-ne i j u w a b apart p q r t e =
      let (_, _, iff) = map_all-interns us (uri_list n) v room i j u w a b p q r t in
      apart (differ i j u p (rw (iff.0 e) q))

  -- While the table has room for 14 more URIs, and the 14 are different, the constructor gets
  -- numbers that keep the option keys apart.
  pub map_options-IsSeparate :
      (u : OptionsUrids) × (t : List String) × (map_options n us ≡ some (u, t)) × IsSeparate u
  unfolding map_options map_all
  map_options-IsSeparate = (
    _,
    _,
    refl,
    record {
      min_sequence = ids-ne 9 12 _ _ _ _ (omega arith) refl refl refl refl;
      max_sequence = ids-ne 10 12 _ _ _ _ (omega arith) refl refl refl refl;
      nominal_sequence = ids-ne 11 12 _ _ _ _ (omega arith) refl refl refl refl;
      min_rate = ids-ne 9 13 _ _ _ _ (omega arith) refl refl refl refl;
      max_rate = ids-ne 10 13 _ _ _ _ (omega arith) refl refl refl refl;
      nominal_rate = ids-ne 11 13 _ _ _ _ (omega arith) refl refl refl refl;
      sequence_rate = ids-ne 12 13 _ _ _ _ (omega arith) refl refl refl refl;
    },
  )

abbrev pub field : ℕ → ℕ → ℕ → OptionField
field key kind v = record { key = key; size = 4; kind = kind; value = some v }

abbrev pub end_mark : OptionField
end_mark = record { key = 0; size = 0; kind = 0; value = none }

-- The host's three values set by one array.
abbrev pub set_array : OptionsUrids → ℕ → ℕ → ℕ → List OptionField
set_array u b q r =
    field u.nominal_block_length u.atom_int b
    ∷ field u.sequence_size u.atom_int q
    ∷ field u.sample_rate u.atom_float r
    ∷ end_mark
    ∷ []

-- All five keys asked for, or answered.
abbrev pub all_keys : OptionsUrids → ℕ → ℕ → ℕ → ℕ → ℕ → List OptionField
all_keys u b q r int float =
    field u.min_block_length int b
    ∷ field u.max_block_length int b
    ∷ field u.nominal_block_length int b
    ∷ field u.sequence_size int q
    ∷ field u.sample_rate float r
    ∷ end_mark
    ∷ []

-- How the tests on the keys come out.
record Tests (u : OptionsUrids) : Type 0 where
  min_block : is_block_key u u.min_block_length ≡ true
  max_block : is_block_key u u.max_block_length ≡ true
  nominal_block : is_block_key u u.nominal_block_length ≡ true
  sequence_block : is_block_key u u.sequence_size ≡ false
  rate_block : is_block_key u u.sample_rate ≡ false
  sequence_self : (u.sequence_size == u.sequence_size) ≡ true
  rate_sequence : (u.sample_rate == u.sequence_size) ≡ false
  rate_self : (u.sample_rate == u.sample_rate) ≡ true
  int_self : (u.atom_int == u.atom_int) ≡ true
  float_self : (u.atom_float == u.atom_float) ≡ true

IsSeparate-Tests : (u : OptionsUrids) → IsSeparate u → Tests u
IsSeparate-Tests u v = record {
  min_block = ground (arith, v);
  max_block = ground (arith, v);
  nominal_block = ground (arith, v);
  sequence_block = ground (arith, v);
  rate_block = ground (arith, v);
  sequence_self = eq→== u.sequence_size u.sequence_size refl;
  rate_sequence = ne→== u.sample_rate u.sequence_size (λ e. v.sequence_rate (sym e));
  rate_self = eq→== u.sample_rate u.sample_rate refl;
  int_self = eq→== u.atom_int u.atom_int refl;
  float_self = eq→== u.atom_float u.atom_float refl;
}

-- With separate keys, a block length, a sequence size and a sample rate that `options_set` was
-- given are what `options_get` then answers, with their types, under all three block length keys.
pub options_set-get :
    (u : OptionsUrids) (s : OptionState) (b q r x y z k l : ℕ)
    → IsSeparate u
    → (s' : OptionState) × (options_set u (set_array u b q r) s ≡ some s')
      × (options_get u s' (all_keys u x y z k l) ≡ some (all_keys u b q r u.atom_int u.atom_float))
unfolding options_set options_get set_option get_option answer
options_set-get u s b q r x y z k l v =
    let t : Tests u = IsSeparate-Tests u v in
    (
      record { block_length = b; sequence_size = q; sample_rate = r },
      simp (
        t.nominal_block, t.sequence_block, t.rate_block, t.sequence_self, t.rate_sequence,
        t.rate_self, t.int_self, t.float_self,
      ),
      simp (
        t.min_block, t.max_block, t.nominal_block, t.sequence_block, t.rate_block, t.sequence_self,
        t.rate_sequence, t.rate_self,
      ),
    )
