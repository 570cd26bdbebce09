-- ===== src/Control/Tests.antt =====
-- PluginControl.cpp on whole numbers from -1000 on, `x` standing for `x - 1000`.
use amprack_6_pc.Base.{ℕ, ◌+◌, ◌-◌, ◌*◌, ◌/◌, ◌≡◌, refl, arith, ltb, ◌==◌, true, none, some, le→ltb}
use amprack_6_pc.Control.{Floats, RangeHint, JsonPort, number, from_ladspa}
use amprack_6_pc.Control.Range.{IsIrreflexive, Within, from_ladspa-Within}

abbrev whole : Floats ℕ
whole = record {
  num = λ n. n + 1000;
  neg = λ x. 2000 - x;
  mul = λ x y. (x - 1000) * (y - 1000) + 1000;
  sub = λ x y. x + 1000 - y;
  div = λ x y. (x - 1000) / (y - 1000) + 1000;
  blend = λ k a b. (a * (4 - k) + b * k) / 4;
  nearbyint = λ x. x;
  lt = ltb;
  eq = λ x y. x == y;
  stof = λ t. none;
}

whole-IsIrreflexive : IsIrreflexive whole
whole-IsIrreflexive x = le→ltb x x (omega arith)

-- From 0 to 10, with 12 for a default.
abbrev gain : JsonPort ℕ
gain = record {
  index = 4;
  logarithmic = none;
  input_port = some true;
  control_port = some true;
  atom_port = none;
  minimum_size = none;
  toggle = none;
  maximum = number 1010;
  minimum = number 1000;
  default = number 1012;
}

-- From 0 to 10, half way.
abbrev drive : RangeHint ℕ
drive = record { hints = 0xC3; lower = 1000; upper = 1010 }

from_ladspa-Within_example :
    (v : ℕ) × ((from_ladspa whole 3 drive).def ≡ some v)
    × Within whole (from_ladspa whole 3 drive).min (from_ladspa whole 3 drive).max v
from_ladspa-Within_example =
    from_ladspa-Within whole 3 drive whole-IsIrreflexive refl refl refl refl

abbrev switch : RangeHint ℕ
switch = record { hints = 0x4; lower = 1000; upper = 1000 }
