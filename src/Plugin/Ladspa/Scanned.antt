-- ===== src/Plugin/Ladspa/Scanned.antt =====
-- Plugin.cpp: what the loop over the ports of a LADSPA plugin finds.
use amprack_6_pc.Base.{
  ℕ, ◌≡◌, ◌≢◌, refl, ne→==, Bool, true, false, not, ◌&&◌, List, map, get_elem?, length,
  if◌then◌else◌,
}
use amprack_6_pc.Control.{Floats, Control, has}
use amprack_6_pc.Control.Range.{from_ladspa-port}
use amprack_6_pc.Plugin.Ports.{dummy, cell, Scan, connect, add_control, add_input, add_output}
use amprack_6_pc.Plugin.Ports.Rounds.{
  own, indices, numbered, Round, Round-input, Round-output, Round-nothing, Round-connect, Owned,
  dummy-Owned, control-Owned, Round-control,
}
use amprack_6_pc.Plugin.Ports.Found.{all_fine, scan_all-finds}
use amprack_6_pc.Plugin.Ladspa.{
  LadspaPort, port_input, port_output, port_control, port_audio, new_control, ladspa_port,
  scan_ladspa_ports,
}

module _ {F : Type 0} where
  abbrev pub is_audio_input : LadspaPort F → Bool
  is_audio_input p = has p.descriptor port_audio && has p.descriptor port_input

  abbrev pub is_audio_output : LadspaPort F → Bool
  is_audio_output p =
      has p.descriptor port_audio
      && not (has p.descriptor port_input)
      && has p.descriptor port_output

  -- A port that gets a control of its own.
  abbrev pub is_knob : LadspaPort F → Bool
  is_knob p =
      not (has p.descriptor port_audio)
      && has p.descriptor port_control
      && has p.descriptor port_input

  abbrev pub is_connected : LadspaPort F → Bool
  is_connected p = not (has p.descriptor port_audio)

  abbrev pub port_of : Control F → ℕ
  port_of c = c.port

  -- A round on a plugin other than the special one, by the four bits.
  abbrev by_bits : Bool → Bool → Bool → Bool → ℕ → Control F → Scan (Control F) → Scan (Control F)
  by_bits audio control input output i k s =
      if audio
      then (if input then add_input i s else if output then add_output i s else s)
      else if control && input
      then add_control i k cell s
      else if control && output
      then connect i dummy s
      else connect i dummy s

  by_bits-Round :
      (audio control input output : Bool) (i : ℕ) (k : Control F) (s : Scan (Control F))
      → k.port ≡ i
      → Round port_of
          (Owned port_of)
          (audio && input)
          (audio && not input && output)
          (not audio)
          (not audio && control && input)
          i
          s
          (by_bits audio control input output i k s)
  by_bits-Round true control true output i k s ki = Round-input port_of (Owned port_of) i s
  by_bits-Round true control false true i k s ki = Round-output port_of (Owned port_of) i s
  by_bits-Round true control false false i k s ki = Round-nothing port_of (Owned port_of) i s
  by_bits-Round false true true output i k s ki =
      Round-control port_of (Owned port_of) i s k cell ki
        (control-Owned port_of i s.connections s.controls k (cell (length s.controls)) ki refl)
  by_bits-Round false true false true i k s ki =
      Round-connect port_of (Owned port_of) i dummy s s (dummy-Owned port_of i)
        (Round-nothing port_of (Owned port_of) i s)
  by_bits-Round false true false false i k s ki =
      Round-connect port_of (Owned port_of) i dummy s s (dummy-Owned port_of i)
        (Round-nothing port_of (Owned port_of) i s)
  by_bits-Round false false input output i k s ki =
      Round-connect port_of (Owned port_of) i dummy s s (dummy-Owned port_of i)
        (Round-nothing port_of (Owned port_of) i s)

  module _ (f : Floats F) (unique_id : ℕ) (usual : unique_id ≢ 2606) where
    new_control-port : (i : ℕ) (p : LadspaPort F) → (new_control f i p).port ≡ i
    new_control-port i p = from_ladspa-port f i p.hint

    ladspa_port-by_bits :
        (i : ℕ) (p : LadspaPort F) (s : Scan (Control F))
        → ladspa_port f unique_id i p s
          ≡ by_bits
              (has p.descriptor port_audio)
              (has p.descriptor port_control)
              (has p.descriptor port_input)
              (has p.descriptor port_output)
              i
              (new_control f i p)
              s
    unfolding ladspa_port
    ladspa_port-by_bits i p s = rw (ne→== unique_id 2606 usual) refl

    ladspa_port-Round :
        (i : ℕ) (p : LadspaPort F) (s : Scan (Control F))
        → Round port_of
            (Owned port_of)
            (is_audio_input p)
            (is_audio_output p)
            (is_connected p)
            (is_knob p)
            i
            s
            (ladspa_port f unique_id i p s)
    ladspa_port-Round i p s = rw (ladspa_port-by_bits i p s) (
        by_bits-Round (has p.descriptor port_audio) (has p.descriptor port_control)
          (has p.descriptor port_input) (has p.descriptor port_output) i (new_control f i p) s
          (new_control-port i p))

    -- On a plugin whose number is not 2606, the loop finds the first two audio inputs and the first
    -- two audio outputs, connects every other port exactly once and in order, makes a control for
    -- every control input, and connects each of these to its own control and no other port to one.
    pub scan_ladspa_ports-finds :
        (ps : List (LadspaPort F))
        → ((scan_ladspa_ports f unique_id ps).inputs ≡ (
          get_elem? (indices is_audio_input 0 ps) 0,
          get_elem? (indices is_audio_input 0 ps) 1,
        ))
          × ((scan_ladspa_ports f unique_id ps).outputs ≡ (
            get_elem? (indices is_audio_output 0 ps) 0,
            get_elem? (indices is_audio_output 0 ps) 1,
          ))
          × (map (λ c. c.0) (scan_ladspa_ports f unique_id ps).connections
              ≡ indices is_connected 0 ps)
          × (map port_of (scan_ladspa_ports f unique_id ps).controls ≡ indices is_knob 0 ps)
          × (own (scan_ladspa_ports f unique_id ps).connections
              ≡ numbered port_of 0 (scan_ladspa_ports f unique_id ps).controls)
    unfolding scan_ladspa_ports
    scan_ladspa_ports-finds ps =
        scan_all-finds port_of (Owned port_of) (λ j _. j) is_audio_input is_audio_output
          is_connected is_knob (λ _. Unit) (ladspa_port f unique_id)
          (λ i p s _. ladspa_port-Round i p s) ps (all_fine (λ _. Unit) (λ _. tt) ps) refl
