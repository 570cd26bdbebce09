-- ===== src/Plugin/Lilv/Scanned.antt =====
-- Plugin.cpp: what the loop over the ports of an LV2 plugin finds.
use amprack_6_pc.Base.{
  ℕ, ◌≡◌, refl, Bool, true, false, not, ◌&&◌, ◌||◌, List, map, get_elem?, length, if◌then◌else◌,
}
use amprack_6_pc.Plugin.Ports.{
  dummy, cell, sequence, Scan, connect, add_control, add_input, add_output,
}
use amprack_6_pc.Plugin.Ports.Rounds.{
  own, indices, numbered, Round, Round-input, Round-output, Round-nothing, Round-connect, Owned,
  dummy-Owned, control-Owned, Round-control,
}
use amprack_6_pc.Plugin.Ports.Found.{all_fine, scan_all-finds}
use amprack_6_pc.Plugin.Lilv.{LilvPort, LilvControl, knob, atom, lilv_port, scan_lilv_ports}

module _ {F : Type 0} where
  abbrev pub is_audio_input : LilvPort F → Bool
  is_audio_input p = p.is_audio && not p.is_output && p.is_input

  abbrev pub is_audio_output : LilvPort F → Bool
  is_audio_output p = p.is_audio && p.is_output

  -- A port that gets a control of its own.
  abbrev pub is_own : LilvPort F → Bool
  is_own p = not p.is_audio && (if p.is_control then p.is_input else p.is_atom)

  abbrev pub is_known : LilvPort F → Bool
  is_known p = p.is_audio || p.is_control || p.is_atom

  abbrev pub port_of : LilvControl F → ℕ
  port_of c = c.lilv_port_index

  -- `lilv_port` by the five tests, with the two controls that it can make.
  abbrev by_class :
      Bool
      → Bool
      → Bool
      → Bool
      → Bool
      → ℕ
      → LilvControl F
      → LilvControl F
      → Scan (LilvControl F)
      → Scan (LilvControl F)
  by_class audio control atomic input output i k a s =
      if audio
      then connect i dummy (if output then add_output i s else if input then add_input i s else s)
      else if control
      then (if not input then connect i dummy s else add_control i k cell s)
      else if atomic
      then add_control i a sequence s
      else s

  by_class-Round :
      (audio control atomic input output : Bool) (i : ℕ) (k a : LilvControl F)
      (s : Scan (LilvControl F))
      → k.lilv_port_index ≡ i
      → a.lilv_port_index ≡ i
      → Round port_of
          (Owned port_of)
          (audio && not output && input)
          (audio && output)
          (audio || control || atomic)
          (not audio && (if control then input else atomic))
          i
          s
          (by_class audio control atomic input output i k a s)
  by_class-Round true control atomic input true i k a s ki ai =
      Round-connect port_of (Owned port_of) i dummy s (add_output i s) (dummy-Owned port_of i)
        (Round-output port_of (Owned port_of) i s)
  by_class-Round true control atomic true false i k a s ki ai =
      Round-connect port_of (Owned port_of) i dummy s (add_input i s) (dummy-Owned port_of i)
        (Round-input port_of (Owned port_of) i s)
  by_class-Round true control atomic false false i k a s ki ai =
      Round-connect port_of (Owned port_of) i dummy s s (dummy-Owned port_of i)
        (Round-nothing port_of (Owned port_of) i s)
  by_class-Round false true atomic false output i k a s ki ai =
      Round-connect port_of (Owned port_of) i dummy s s (dummy-Owned port_of i)
        (Round-nothing port_of (Owned port_of) i s)
  by_class-Round false true atomic true output i k a s ki ai =
      Round-control port_of (Owned port_of) i s k cell ki
        (control-Owned port_of i s.connections s.controls k (cell (length s.controls)) ki refl)
  by_class-Round false false true input output i k a s ki ai =
      Round-control port_of (Owned port_of) i s a sequence ai
        (control-Owned port_of i s.connections s.controls a (sequence (length s.controls)) ai refl)
  by_class-Round false false false input output i k a s ki ai =
      Round-nothing port_of (Owned port_of) i s

  lilv_port-Round :
      (i : ℕ) (p : LilvPort F) (s : Scan (LilvControl F))
      → Round port_of
          (Owned port_of)
          (is_audio_input p)
          (is_audio_output p)
          (is_known p)
          (is_own p)
          i
          s
          (lilv_port i p s)
  unfolding lilv_port
  lilv_port-Round i p s =
      by_class-Round p.is_audio p.is_control p.is_atom p.is_input p.is_output i (knob i p)
        (atom i p) s refl refl

  -- The loop finds the first two audio inputs and the first two audio outputs, connects every port
  -- of a known class exactly once and in order, makes a control for every control input and every
  -- atom port, and connects each of these ports to its own control and no other port to a control.
  pub scan_lilv_ports-finds :
      (ps : List (LilvPort F))
      → ((scan_lilv_ports ps).inputs
          ≡ (get_elem? (indices is_audio_input 0 ps) 0, get_elem? (indices is_audio_input 0 ps) 1))
        × ((scan_lilv_ports ps).outputs ≡ (
          get_elem? (indices is_audio_output 0 ps) 0,
          get_elem? (indices is_audio_output 0 ps) 1,
        ))
        × (map (λ c. c.0) (scan_lilv_ports ps).connections ≡ indices is_known 0 ps)
        × (map port_of (scan_lilv_ports ps).controls ≡ indices is_own 0 ps)
        × (own (scan_lilv_ports ps).connections ≡ numbered port_of 0 (scan_lilv_ports ps).controls)
  unfolding scan_lilv_ports
  scan_lilv_ports-finds ps =
      scan_all-finds port_of (Owned port_of) (λ j _. j) is_audio_input is_audio_output is_known
        is_own (λ _. Unit) lilv_port (λ i p s _. lilv_port-Round i p s) ps
        (all_fine (λ _. Unit) (λ _. tt) ps) refl
