-- ===== src/Plugin/Json/Loaded/Tests.antt =====
-- Plugin.cpp: `load` on a plugin of seven ports, on the whole numbers.
use Prim.Native.String.{String}
use amprack_6_pc.Base.{
  ℕ, ◌-◌, ◌≡◌, refl, ltb, ◌==◌, Bool, true, false, Option, none, some, List, [], ◌∷◌, map,
}
use amprack_6_pc.Control.{Floats, JsonPort, Control, number, float_control, atom_control, from_json}
use amprack_6_pc.Plugin.Json.{Element, Loading, Host, load_ports, unloaded, allocate}
use amprack_6_pc.Plugin.Json.Loaded.{class_of}
use amprack_6_pc.Plugin.Json.Loaded.Wired.{Wired}
use amprack_6_pc.Plugin.Json.Loaded.Made.{controls_of, first_minimum}
use amprack_6_pc.Plugin.Json.Loaded.Finds.{load_ports-finds}

abbrev whole : Floats ℕ
whole = record {
  num = λ n. n;
  neg = λ x. 0;
  mul = λ x y. x;
  sub = λ x y. x - y;
  div = λ x y. x;
  blend = λ k a b. a;
  nearbyint = λ x. x;
  lt = ltb;
  eq = λ x y. x == y;
  stof = λ t. none;
}

abbrev host : Host ℕ
host = record { header = 24; urid = λ name. 7; junk = 0; floats = whole }

-- Keys that are there are true.
abbrev keys : ℕ → Option Bool → Option Bool → Option Bool → JsonPort ℕ
keys index input control atom = record {
  index = index;
  logarithmic = none;
  input_port = input;
  control_port = control;
  atom_port = atom;
  minimum_size = none;
  toggle = none;
  maximum = number 10;
  minimum = number 1;
  default = number 5;
}

abbrev element : String → Bool → Bool → Option ℕ → JsonPort ℕ → Element ℕ
element key audio output least control = record {
  key = key;
  name = "port";
  audio_port = audio;
  output_port = output;
  control = record control { minimum_size = least };
}

abbrev knob : Control ℕ
knob = record {
  port = 3;
  min = 1;
  max = 10;
  def = some 5;
  kind = some float_control;
  fine = none;
  coarse = none;
  sel = some 5;
  val = some 5;
  is_logarithmic = false;
}

abbrev file : ℕ → Control ℕ
file index = record {
  port = index;
  min = 0;
  max = 1;
  def = none;
  kind = some atom_control;
  fine = none;
  coarse = none;
  sel = none;
  val = none;
  is_logarithmic = false;
}

-- The second atom input asks for more bytes than the first.
abbrev rows : List (Element ℕ × Control ℕ)
rows =
    (element "-1" false false none (keys 0 none none none), knob)
    ∷ (element "1" true false none (keys 1 (some true) none none), knob)
    ∷ (element "2" true true none (keys 2 none none none), knob)
    ∷ (element "3" false false none (keys 3 (some true) (some true) none), knob)
    ∷ (element "4" false true none (keys 4 none (some true) none), knob)
    ∷ (element "5" false false (some 100) (keys 5 (some true) none (some true)), file 5)
    ∷ (element "6" false false (some 900) (keys 6 (some true) none (some true)), file 6)
    ∷ (element "7" false true (some 200) (keys 7 none none (some true)), knob)
    ∷ []

load_ports-finds_example :
    (l : Loading ℕ) × (load_ports host (map (λ r. r.0) rows) unloaded ≡ some l)
    × (l.scan.inputs ≡ (some 1, none))
    × (l.scan.outputs ≡ (some 2, none))
    × (map (λ c. c.0) l.scan.connections ≡ 3 ∷ 4 ∷ 5 ∷ 6 ∷ 7 ∷ [])
    × (l.scan.controls
        ≡ record { control = knob; urid = none }
          ∷ record { control = file 5; urid = some 7 }
          ∷ record { control = file 6; urid = some 7 }
          ∷ [])
    × Wired l.scan.connections l.scan.controls
    × (l.file_size ≡ some 125)
    × (l.notify_size ≡ some 225)
unfolding class_of controls_of first_minimum allocate from_json
load_ports-finds_example =
    load_ports-finds host rows (
      tt,
      (tt, (tt, (refl, (tt, ((refl, (100, refl)), ((refl, (900, refl)), ((200, refl), tt))))))),
    )
