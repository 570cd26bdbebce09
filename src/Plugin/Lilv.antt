-- ===== src/Plugin/Lilv.antt =====
-- Plugin.cpp: `Plugin (char *, unsigned long, LilvWorld *, const LilvPlugins *)`, which makes an LV2
-- plugin by liblilv.
pub mod Scanned
pub mod Rate
use Prim.Native.String.{String}
use amprack_6_pc.Base.{
  ℕ, ◌+◌, not, Bool, true, false, Option, none, some, List, [], ◌∷◌, if◌then◌else◌,
}
use amprack_6_pc.Plugin.Ports.{
  Target, dummy, cell, sequence, Scan, no_ports, add_input, add_output, connect, add_control,
  scan_all,
}

-- What liblilv tells of one port: `lilv_port_is_a` of the five classes, its name and its range.
pub record LilvPort (F : Type 0) : Type 0 where
  pub is_audio : Bool
  pub is_control : Bool
  pub is_atom : Bool
  pub is_input : Bool
  pub is_output : Bool
  pub name : String
  pub min : F
  pub max : F
  pub def : F

-- `LV2_ATOM_INPUT_PORT` and `LV2_ATOM_OUTPUT_PORT`.
pub data AtomKind : Type 0 where
  atom_input atom_output : AtomKind

-- The fields that the constructor sets in a new `PluginControl`; `none` where it sets nothing.
pub record LilvControl (F : Type 0) : Type 0 where
  pub lilv_port_index : ℕ
  pub lv2_name : String
  pub min : Option F
  pub max : Option F
  pub default_value : Option F
  pub def : Option F
  pub kind : Option AtomKind

module _ {F : Type 0} where
  -- `type` is not set here, nor by the constructor of `PluginControl`.
  abbrev pub knob : ℕ → LilvPort F → LilvControl F
  knob i p = record {
    lilv_port_index = i;
    lv2_name = p.name;
    min = some p.min;
    max = some p.max;
    default_value = some p.def;
    def = some p.def;
    kind = none;
  }

  abbrev pub atom : ℕ → LilvPort F → LilvControl F
  atom i p = record {
    lilv_port_index = i;
    lv2_name = p.name;
    min = none;
    max = none;
    default_value = none;
    def = none;
    kind = some (if p.is_input then atom_input else atom_output);
  }

  -- An audio port, before it is connected to the dummy value.
  abbrev pub audio_port : ℕ → LilvPort F → Scan (LilvControl F) → Scan (LilvControl F)
  audio_port i p s = if p.is_output then add_output i s else if p.is_input then add_input i s else s

  -- One round of the loop over the ports.
  pub lilv_port : ℕ → LilvPort F → Scan (LilvControl F) → Scan (LilvControl F)
  lilv_port i p s =
      if p.is_audio
      then connect i dummy (audio_port i p s)
      else if p.is_control
      then (if not p.is_input then connect i dummy s else add_control i (knob i p) cell s)
      else if p.is_atom
      then add_control i (atom i p) sequence s
      else s

  pub scan_lilv_ports : List (LilvPort F) → Scan (LilvControl F)
  unfolding lilv_port scan_all
  scan_lilv_ports ps = scan_all lilv_port 0 ps no_ports

-- A plugin made by liblilv. `uri` is false where it is null.
pub record LilvPlugin (F I : Type 0) : Type 0 where
  pub uri : Bool
  pub instance_ptr : Option I
  pub sample_rate : ℕ
  pub ports : Scan (LilvControl F)

-- `instantiate` is liblilv's, by sample rate; `junk` is what the member `sampleRate` holds before it
-- is set, which is after the call.
pub new_plugin : {F I : Type 0} → Bool → (ℕ → Option I) → ℕ → ℕ → List (LilvPort F) → LilvPlugin F I
unfolding scan_lilv_ports
new_plugin uri_ok instantiate junk rate ps =
    if not uri_ok
    then record { uri = false; instance_ptr = none; sample_rate = junk; ports = no_ports }
    else elim (instantiate junk) [
      | none ↦ record { uri = false; instance_ptr = none; sample_rate = junk; ports = no_ports }
      | some x ↦ record {
        uri = true;
        instance_ptr = some x;
        sample_rate = rate;
        ports = scan_lilv_ports ps;
      }
    ]
