-- ===== src/Plugin/Json/Loaded/Finds.antt =====
-- Plugin.cpp: what `load` finds on the whole, by the classes of the ports.
use mathlib.Core.Path.{subst}
use amprack_6_pc.Base.{
  ℕ, ◌+◌, ◌≡◌, refl, sym, ap, ◌∙◌, Bool, true, none, some, List, [], ◌∷◌, map, arith, get_elem?,
  length,
}
use amprack_6_pc.Control.{Control}
use amprack_6_pc.Control.Range.{from_json-port}
use amprack_6_pc.Plugin.Ports.{
  dummy, file_port, notify_port, cell, Scan, connect, add_control, add_input, add_output, scan_all,
}
use amprack_6_pc.Plugin.Ports.Rounds.{
  marked, Round, Round-input, Round-output, Round-nothing, Round-connect, Round-control,
}
use amprack_6_pc.Plugin.Ports.Found.{AllFine, scan_all-finds}
use amprack_6_pc.Plugin.Json.{Element, LoadedControl, Loading, Host, allocate, load_ports, unloaded}
use amprack_6_pc.Plugin.Json.Loaded.{
  PortClass, audio_in, audio_out, audio_other, control_in, control_out, atom_in, atom_out, other,
  class_of, FitsBy, AllFit, advance_by, advance, advance_all, load_ports-advance,
}
use amprack_6_pc.Plugin.Json.Loaded.Wired.{
  is_input, is_output, has_control, is_connected, port_of, Wired, aside-Wired, control-Wired,
}
use amprack_6_pc.Plugin.Json.Loaded.Made.{
  controls_of, first_minimum, is_file, is_notify, advance_all-controls, advance_all-sizes,
}

-- The indices of the ports of a class.
abbrev pub ports : {F : Type 0} → (PortClass → Bool) → List (Element F × Control F) → List ℕ
ports test rs = marked (λ _ r. r.0.control.index) (λ r. test (class_of r.0)) 0 rs

module _ {F : Type 0} (h : Host F) where
  -- A round on the ports alone.
  scan_by : PortClass → Element F → Control F → Scan (LoadedControl F) → Scan (LoadedControl F)
  scan_by audio_in e c s = add_input e.control.index s
  scan_by audio_out e c s = add_output e.control.index s
  scan_by audio_other e c s = s
  scan_by control_in e c s =
      add_control e.control.index (record { control = c; urid = none }) cell s
  scan_by control_out e c s = connect e.control.index dummy s
  scan_by atom_in e c s =
      add_control e.control.index (record { control = c; urid = some (h.urid e.name) })
        (λ _. file_port) s
  scan_by atom_out e c s = connect e.control.index notify_port s
  scan_by other e c s = s

  scan_element : ℕ → Element F × Control F → Scan (LoadedControl F) → Scan (LoadedControl F)
  unfolding scan_by
  scan_element i (e, c) s = scan_by (class_of e) e c s

  advance_by-scan :
      (k : PortClass) (e : Element F) (c : Control F) (l : Loading F)
      → (advance_by h k e c l).scan ≡ scan_by k e c l.scan
  unfolding advance_by scan_by
  advance_by-scan audio_in e c l = refl
  advance_by-scan audio_out e c l = refl
  advance_by-scan audio_other e c l = refl
  advance_by-scan control_in e c l = refl
  advance_by-scan control_out e c l = refl
  advance_by-scan atom_in e c l = refl
  advance_by-scan atom_out e c l = refl
  advance_by-scan other e c l = refl

  advance_all-scan :
      (rs : List (Element F × Control F)) (i : ℕ) (l : Loading F)
      → (advance_all h rs l).scan ≡ scan_all scan_element i rs l.scan
  unfolding advance_all advance scan_all scan_element
  advance_all-scan [] i l = refl
  advance_all-scan ((e, c) ∷ rs) i l =
      advance_all-scan rs (i + 1) (advance h (e, c) l)
      ∙ ap (scan_all scan_element (i + 1) rs) (advance_by-scan (class_of e) e c l)

  -- A control that is read has the index of its port.
  abbrev SamePort : PortClass → Element F → Control F → Type 0
  SamePort k e c = has_control k ≡ true → c.port ≡ e.control.index

  scan_by-Round :
      (k : PortClass) (e : Element F) (c : Control F) (s : Scan (LoadedControl F))
      → SamePort k e c
      → Round port_of Wired
          (is_input k)
          (is_output k)
          (is_connected k)
          (has_control k)
          e.control.index
          s
          (scan_by k e c s)
  unfolding scan_by
  scan_by-Round audio_in e c s v = Round-input port_of Wired e.control.index s
  scan_by-Round audio_out e c s v = Round-output port_of Wired e.control.index s
  scan_by-Round audio_other e c s v = Round-nothing port_of Wired e.control.index s
  scan_by-Round control_in e c s v =
      Round-control port_of Wired e.control.index s (record { control = c; urid = none }) cell
        (v refl)
        (control-Wired e.control.index (cell (length s.controls)) s.connections s.controls
          (record { control = c; urid = none })
          (ap (λ (n : ℕ). (e.control.index, n) ∷ []) {y = 0 + length s.controls} (omega arith)
            ∙ ap (λ (n : ℕ). (n, 0 + length s.controls) ∷ []) (sym (v refl)))
          refl)
  scan_by-Round control_out e c s v =
      Round-connect port_of Wired e.control.index dummy s s
        (λ cn cs. aside-Wired e.control.index dummy cn cs refl refl)
        (Round-nothing port_of Wired e.control.index s)
  scan_by-Round atom_in e c s v =
      Round-control port_of Wired e.control.index s
        (record { control = c; urid = some (h.urid e.name) }) (λ _. file_port) (v refl)
        (control-Wired e.control.index file_port s.connections s.controls
          (record { control = c; urid = some (h.urid e.name) }) refl
          (ap (λ (n : ℕ). n ∷ []) (sym (v refl))))
  scan_by-Round atom_out e c s v =
      Round-connect port_of Wired e.control.index notify_port s s
        (λ cn cs. aside-Wired e.control.index notify_port cn cs refl refl)
        (Round-nothing port_of Wired e.control.index s)
  scan_by-Round other e c s v = Round-nothing port_of Wired e.control.index s

  FitsBy-SamePort :
      (k : PortClass) (e : Element F) (c : Control F) → FitsBy h k e c → SamePort k e c
  FitsBy-SamePort control_in e c v _ = from_json-port h.floats h.junk e.control c v
  FitsBy-SamePort atom_in e c v _ = from_json-port h.floats h.junk e.control c v.0
  FitsBy-SamePort audio_in e c v x = cc
  FitsBy-SamePort audio_out e c v x = cc
  FitsBy-SamePort audio_other e c v x = cc
  FitsBy-SamePort control_out e c v x = cc
  FitsBy-SamePort atom_out e c v x = cc
  FitsBy-SamePort other e c v x = cc

  abbrev Fine : Element F × Control F → Type 0
  Fine (e, c) = SamePort (class_of e) e c

  AllFit-AllFine : (rs : List (Element F × Control F)) → AllFit h rs → AllFine Fine rs
  AllFit-AllFine [] v = tt
  AllFit-AllFine ((e, c) ∷ rs) v = (FitsBy-SamePort (class_of e) e c v.0, AllFit-AllFine rs v.1)

  scan_element-Round :
      (i : ℕ) (r : Element F × Control F) (s : Scan (LoadedControl F))
      → Fine r
      → Round port_of Wired
          (is_input (class_of r.0))
          (is_output (class_of r.0))
          (is_connected (class_of r.0))
          (has_control (class_of r.0))
          r.0.control.index
          s
          (scan_element i r s)
  unfolding scan_element
  scan_element-Round i (e, c) s v = scan_by-Round (class_of e) e c s v

  -- When every control port is read as its control and every atom port has a least size, the loop
  -- succeeds. It finds the first two audio inputs and outputs, and connects every port of a known
  -- class exactly once and in order. The controls are those of the control inputs and the atom inputs,
  -- in order. Each control input is connected to the value of its own control, and every atom input to
  -- the one sequence for files. This sequence and the one for messages have the size of the first port
  -- that needs them.
  pub load_ports-finds :
      (rs : List (Element F × Control F))
      → AllFit h rs
      → (l : Loading F) × (load_ports h (map (λ r. r.0) rs) unloaded ≡ some l)
        × (l.scan.inputs ≡ (get_elem? (ports is_input rs) 0, get_elem? (ports is_input rs) 1))
        × (l.scan.outputs ≡ (get_elem? (ports is_output rs) 0, get_elem? (ports is_output rs) 1))
        × (map (λ c. c.0) l.scan.connections ≡ ports is_connected rs)
        × (l.scan.controls ≡ controls_of h rs)
        × Wired l.scan.connections l.scan.controls
        × (l.file_size ≡ allocate h.header (first_minimum is_file rs) none)
        × (l.notify_size ≡ allocate h.header (first_minimum is_notify rs) none)
  load_ports-finds rs v =
      let l = advance_all h rs unloaded in
      let same = advance_all-scan rs 0 unloaded in
      let (file, notify) = advance_all-sizes h rs unloaded v in
      let (inputs, outputs, connected, _, wired) =
        scan_all-finds port_of Wired (λ _ r. r.0.control.index) (λ r. is_input (class_of r.0))
          (λ r. is_output (class_of r.0)) (λ r. is_connected (class_of r.0))
          (λ r. has_control (class_of r.0)) Fine scan_element scan_element-Round rs
          (AllFit-AllFine rs v) (record { own_values = refl; sequences = refl }) in
      (
        l,
        load_ports-advance h rs unloaded v,
        ap (λ s. s.inputs) same ∙ inputs,
        ap (λ s. s.outputs) same ∙ outputs,
        ap (λ s. map (λ c. c.0) s.connections) same ∙ connected,
        advance_all-controls h rs unloaded,
        subst (λ s. Wired s.connections s.controls) (sym same) wired,
        file,
        notify,
      )
