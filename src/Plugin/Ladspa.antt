-- ===== src/Plugin/Ladspa.antt =====
-- Plugin.cpp: `Plugin (const LADSPA_Descriptor *, unsigned long, PluginType)`, its loop over the
-- ports of a LADSPA plugin.
pub mod Scanned
use amprack_6_pc.Base.{ℕ, ◌==◌, ◌&&◌, Bool, true, false, Option, none, some, List, if◌then◌else◌}
use amprack_6_pc.Control.{Floats, Control, RangeHint, has, from_ladspa}
use amprack_6_pc.Plugin.Ports.{
  dummy, cell, Scan, no_ports, add_input, add_output, connect, add_control, scan_all,
}

-- The bits of a port in ladspa.h.
abbrev pub port_input : ℕ
port_input = 0x1

abbrev pub port_output : ℕ
port_output = 0x2

abbrev pub port_control : ℕ
port_control = 0x4

abbrev pub port_audio : ℕ
port_audio = 0x8

-- One index of `PortDescriptors` and `PortRangeHints`.
pub record LadspaPort (F : Type 0) : Type 0 where
  pub descriptor : ℕ
  pub hint : RangeHint F

-- The sample rate that the plugin keeps.
pub kept_rate : ℕ → ℕ
kept_rate rate = if rate == 0 then 48000 else rate

module _ {F : Type 0} (f : Floats F) where
  abbrev pub new_control : ℕ → LadspaPort F → Control F
  new_control i p = from_ladspa f i p.hint

  -- The special case of the plugin with the number 2606, whose ports have no class.
  abbrev pub special_port : ℕ → LadspaPort F → Scan (Control F) → Scan (Control F)
  special_port i p s =
      if i == 2
      then record s { inputs = (some i, s.inputs.1) }
      else if i == 3
      then record s { outputs = (some i, s.outputs.1) }
      else if i == 0
      then add_control i (record (new_control i p) { min = f.num 0; max = f.num 25 }) cell s
      else if i == 1
      then add_control i (record (new_control i p) { min = f.neg (f.num 24); max = f.num 24 }) cell
          s
      else s

  abbrev pub audio_port : ℕ → LadspaPort F → Scan (Control F) → Scan (Control F)
  audio_port i p s =
      if has p.descriptor port_input
      then add_input i s
      else if has p.descriptor port_output
      then add_output i s
      else s

  -- One round of the loop.
  pub ladspa_port : ℕ → ℕ → LadspaPort F → Scan (Control F) → Scan (Control F)
  ladspa_port unique_id i p s =
      if has p.descriptor port_audio
      then audio_port i p s
      else if has p.descriptor port_control && has p.descriptor port_input
      then add_control i (new_control i p) cell s
      else if has p.descriptor port_control && has p.descriptor port_output
      then connect i dummy s
      else if unique_id == 2606
      then special_port i p s
      else connect i dummy s

  pub scan_ladspa_ports : ℕ → List (LadspaPort F) → Scan (Control F)
  unfolding ladspa_port scan_all
  scan_ladspa_ports unique_id ps = scan_all (ladspa_port unique_id) 0 ps no_ports
