-- ===== src/Control.antt =====
-- PluginControl.h and PluginControl.cpp: `PluginControl`, the range, the step sizes and the default
-- value of one control of a plugin.
pub mod Range
mod Tests
use Prim.Native.String.{String}
use amprack_6_pc.Base.{
  ℕ, zero, suc, ◌==◌, not, ◌&&◌, bit_and, Bool, true, false, Option, none, some, if◌then◌else◌,
  ◌>>=◌,
}

-- `float` arithmetic, which is the machine's. `blend k a b` is `a * (1 - k / 4) + b * (k / 4)`, which
-- the code computes in `double`; `stof` is the C++ library's, with `none` where it throws.
pub record Floats (F : Type 0) : Type 0 where
  pub num : ℕ → F
  pub neg : F → F
  pub mul : F → F → F
  pub sub : F → F → F
  pub div : F → F → F
  pub blend : ℕ → F → F → F
  pub nearbyint : F → F
  pub lt : F → F → Bool
  pub eq : F → F → Bool
  pub stof : String → Option F

-- `Type`
pub data ControlKind : Type 0 where
  float_control int_control toggle_control atom_control : ControlKind

-- `def` is what the pointer leads to, the value that the plugin reads. `fine` and `coarse` are the
-- members of `inc`. A field that a constructor does not set is `none`.
pub record Control (F : Type 0) : Type 0 where
  pub port : ℕ
  pub min : F
  pub max : F
  pub def : Option F
  pub kind : Option ControlKind
  pub fine : Option F
  pub coarse : Option F
  pub sel : Option F
  pub val : Option F
  pub is_logarithmic : Bool

-- A bit of a LADSPA hint: `((x) & BIT)` as a condition.
abbrev pub has : ℕ → ℕ → Bool
has x bit = not (bit_and x bit == 0)

-- The bits and masks of ladspa.h.
abbrev pub bounded_below : ℕ
bounded_below = 0x1

abbrev pub bounded_above : ℕ
bounded_above = 0x2

abbrev pub toggled : ℕ
toggled = 0x4

abbrev pub sample_rate : ℕ
sample_rate = 0x8

abbrev pub integer : ℕ
integer = 0x20

abbrev pub default_mask : ℕ
default_mask = 0x3C0

-- `LADSPA_PortRangeHint`
pub record RangeHint (F : Type 0) : Type 0 where
  pub hints : ℕ
  pub lower : F
  pub upper : F

-- A number in the JSON description of a plugin is a number or a text.
pub data JsonNumber (F : Type 0) : Type 0 where
  number : F → JsonNumber F
  text : String → JsonNumber F

-- One port of that description; `none` is a key that is missing.
pub record JsonPort (F : Type 0) : Type 0 where
  pub index : ℕ
  pub logarithmic : Option Bool
  pub input_port : Option Bool
  pub control_port : Option Bool
  pub atom_port : Option Bool
  pub minimum_size : Option ℕ
  pub toggle : Option Bool
  pub maximum : JsonNumber F
  pub minimum : JsonNumber F
  pub default : JsonNumber F

abbrev pub is_true : Option Bool → Bool
is_true (some true) = true
is_true _ = false

module _ {F : Type 0} (f : Floats F) where
  -- -678 stands for a control without a default.
  abbrev pub unset : F
  unset = f.neg (f.num 678)

  abbrev pub scaled : ℕ → F → F
  scaled hints x = if has hints sample_rate then f.mul x (f.num 48000) else x

  -- `min` and `max` before the overrides.
  abbrev pub lower_limit : ℕ → F → F
  lower_limit hints lower =
      if has hints bounded_below
      then lower
      else if has hints bounded_above
      then f.num 0
      else f.neg (f.num 1)

  abbrev pub upper_limit : ℕ → F → F
  upper_limit hints upper = if has hints bounded_above then upper else f.num 1

  -- The `switch` on the kind of default.
  abbrev pub hinted_default : ℕ → F → F → F
  hinted_default hint lower upper =
      if hint == 0x40
      then lower
      else if hint == 0x80
      then f.blend 1 lower upper
      else if hint == 0xC0
      then f.blend 2 lower upper
      else if hint == 0x100
      then f.blend 3 lower upper
      else if hint == 0x140
      then upper
      else if hint == 0x200
      then f.num 0
      else if hint == 0x240
      then f.num 1
      else if hint == 0x280
      then f.num 100
      else if hint == 0x2C0
      then f.num 440
      else unset

  -- The two tests of "Check the default", one after the other.
  abbrev pub raise : F → F → F
  raise lo d = if f.lt d lo then lo else d

  abbrev pub cap : F → F → F
  cap hi d = if f.lt hi d then hi else d

  abbrev pub clamp : F → F → F → F
  clamp lo hi d = cap hi (raise lo d)

  abbrev pub ladspa_default : ℕ → F → F → F
  ladspa_default hints lower upper =
      if has hints default_mask
      then hinted_default (bit_and hints default_mask) lower upper
      else unset

  -- "control->inc & Overrides": range, steps, type and default, by the hints.
  pub override : ℕ → ℕ → F → F → F → Control F
  override port hints lo hi d =
      if has hints toggled
      then record {
        port = port;
        min = f.num 0;
        max = f.num 1;
        def = some (f.nearbyint d);
        kind = some toggle_control;
        fine = some (f.num 1);
        coarse = some (f.num 1);
        sel = none;
        val = none;
        is_logarithmic = false;
      }
      else if has hints integer
      then record {
        port = port;
        min = f.nearbyint lo;
        max = f.nearbyint hi;
        def = some (f.nearbyint d);
        kind = some int_control;
        fine = some (f.num 1);
        coarse = some (f.num 1);
        sel = none;
        val = none;
        is_logarithmic = false;
      }
      else record {
        port = port;
        min = lo;
        max = hi;
        def = some d;
        kind = some float_control;
        fine = some (f.div (f.sub hi lo) (f.num 500));
        coarse = some (f.div (f.sub hi lo) (f.num 50));
        sel = none;
        val = none;
        is_logarithmic = false;
      }

  -- The end of the constructor: `sel` and `val` keep the default, and a default that is still -678
  -- becomes 0.
  pub settle : Control F → Control F
  settle c = record c {
    sel = c.def;
    val = c.def;
    def = c.def >>= λ d. some (if f.eq d unset then f.num 0 else d);
  }

  -- `PluginControl (const LADSPA_Descriptor *, int)`
  pub from_ladspa : ℕ → RangeHint F → Control F
  unfolding override settle
  from_ladspa port h =
      let lower = scaled h.hints h.lower in
      let upper = scaled h.hints h.upper in
      let lo = lower_limit h.hints lower in
      let hi = upper_limit h.hints upper in
      settle (override port h.hints lo hi (clamp lo hi (ladspa_default h.hints lower upper)))

  abbrev pub read_number : JsonNumber F → Option F
  read_number (number x) = some x
  read_number (text t) = f.stof t

  -- A control port of `PluginControl (const LV2_Descriptor *, json)`.
  pub json_control : JsonPort F → Option (Control F)
  json_control j = do
    hi ← read_number j.maximum
    lo ← read_number j.minimum
    d ← read_number j.default
    let v = clamp lo hi d
    some (record {
      port = j.index;
      min = lo;
      max = hi;
      def = some v;
      kind = some (if is_true j.toggle then toggle_control else float_control);
      fine = none;
      coarse = none;
      sel = some v;
      val = some v;
      is_logarithmic = is_true j.logarithmic;
    })

  -- The whole constructor. `junk` is what a field holds that is not set; a look at a key that is
  -- missing is a fault, and the value of an atom port is never set.
  unfoldable pub from_json : F → JsonPort F → Option (Control F)
  unfolding json_control
  from_json junk j = if is_true j.input_port && is_true j.control_port then json_control j else do
    input ← j.input_port
    atom ← (if input then j.atom_port else some false)
    size ← (if atom then j.minimum_size else some 0)
    some (record {
      port = j.index;
      min = if atom then f.num 0 else junk;
      max = if atom then f.num 1 else junk;
      def = none;
      kind = if atom then some atom_control else none;
      fine = none;
      coarse = none;
      sel = none;
      val = none;
      is_logarithmic = is_true j.logarithmic;
    })

  -- `control_rounding`
  pub control_rounding : Control F → F → F
  control_rounding c x = elim c.kind [
    | some int_control ↦ f.nearbyint x
    | some toggle_control ↦ f.nearbyint x
    | _ ↦ x
  ]

  pub set_value : F → Control F → Control F
  set_value x c = record c { def = some x }
