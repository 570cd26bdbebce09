-- ===== src/Plugin/Tests.antt =====
-- Plugin.cpp: two small plugins, on the whole numbers.
use amprack_6_pc.Base.{
  ℕ, ◌-◌, ◌≡◌, arith, ltb, ◌==◌, if◌then◌else◌, Bool, true, false, Option, none, some, List, [],
  ◌∷◌, map,
}
use amprack_6_pc.Control.{Floats}
use amprack_6_pc.Plugin.Ports.Rounds.{own, numbered}
use amprack_6_pc.Plugin.Lilv.{LilvPort, LilvPlugin, scan_lilv_ports, new_plugin}
use amprack_6_pc.Plugin.Lilv.Scanned.{scan_lilv_ports-finds}
use amprack_6_pc.Plugin.Ladspa.{LadspaPort, scan_ladspa_ports}
use amprack_6_pc.Plugin.Ladspa.Scanned.{scan_ladspa_ports-finds}

abbrev whole : Floats ℕ
whole = record {
  num = λ n. n;
  neg = λ x. 0;
  mul = λ x y. x;
  sub = λ x y. x - y;
  div = λ x y. x;
  blend = λ k a b. a;
  nearbyint = λ x. x;
  lt = ltb;
  eq = λ x y. x == y;
  stof = λ t. none;
}

abbrev lilv_port_of : Bool → Bool → Bool → Bool → Bool → LilvPort ℕ
lilv_port_of audio control atomic input output = record {
  is_audio = audio;
  is_control = control;
  is_atom = atomic;
  is_input = input;
  is_output = output;
  name = "port";
  min = 0;
  max = 10;
  def = 5;
}

-- An audio input, an audio output, a control input, a control output and an atom input.
abbrev lilv_ports : List (LilvPort ℕ)
lilv_ports =
    lilv_port_of true false false true false
    ∷ lilv_port_of true false false false true
    ∷ lilv_port_of false true false true false
    ∷ lilv_port_of false true false false true
    ∷ lilv_port_of false false true true false
    ∷ []

scan_lilv_ports-finds_example :
    ((scan_lilv_ports lilv_ports).inputs ≡ (some 0, none))
    × ((scan_lilv_ports lilv_ports).outputs ≡ (some 1, none))
    × (map (λ c. c.0) (scan_lilv_ports lilv_ports).connections ≡ 0 ∷ 1 ∷ 2 ∷ 3 ∷ 4 ∷ [])
    × (map (λ c. c.lilv_port_index) (scan_lilv_ports lilv_ports).controls ≡ 2 ∷ 4 ∷ [])
    × (own (scan_lilv_ports lilv_ports).connections
        ≡ numbered (λ c. c.lilv_port_index) 0 (scan_lilv_ports lilv_ports).controls)
scan_lilv_ports-finds_example = scan_lilv_ports-finds lilv_ports

-- A library that knows 48000 Hz alone, and 7 in the member before it is set.
abbrev instantiate : ℕ → Option ℕ
instantiate r = if r == 48000 then some 1 else none

abbrev made : LilvPlugin ℕ ℕ
made = new_plugin true instantiate 7 48000 lilv_ports

abbrev ladspa_port_of : ℕ → LadspaPort ℕ
ladspa_port_of bits = record {
  descriptor = bits;
  hint = record { hints = 0xC3; lower = 0; upper = 10 };
}

-- Two audio inputs, two audio outputs, a control input and a control output.
abbrev ladspa_ports : List (LadspaPort ℕ)
ladspa_ports = map ladspa_port_of (9 ∷ 9 ∷ 10 ∷ 10 ∷ 5 ∷ 6 ∷ [])

scan_ladspa_ports-finds_example :
    ((scan_ladspa_ports whole 1 ladspa_ports).inputs ≡ (some 0, some 1))
    × ((scan_ladspa_ports whole 1 ladspa_ports).outputs ≡ (some 2, some 3))
    × (map (λ c. c.0) (scan_ladspa_ports whole 1 ladspa_ports).connections ≡ 4 ∷ 5 ∷ [])
    × (map (λ c. c.port) (scan_ladspa_ports whole 1 ladspa_ports).controls ≡ 4 ∷ [])
    × (own (scan_ladspa_ports whole 1 ladspa_ports).connections
        ≡ numbered (λ c. c.port) 0 (scan_ladspa_ports whole 1 ladspa_ports).controls)
scan_ladspa_ports-finds_example = scan_ladspa_ports-finds whole 1 (omega arith) ladspa_ports
