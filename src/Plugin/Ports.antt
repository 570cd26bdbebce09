-- ===== src/Plugin/Ports.antt =====
-- Plugin.h and Plugin.cpp: the ports of a plugin, as the constructors find them one after the other.
pub mod Found
pub mod Rounds
use amprack_6_pc.Base.{
  ℕ, ◌+◌, Bool, true, false, Option, none, some, List, [], ◌∷◌, ◌++◌, map, length, if◌then◌else◌,
}

-- What a port is connected to: the one dummy value, the value or the sequence of the plugin's control
-- with a number, or one of the two sequences that the plugin has for files.
pub data Target : Type 0 where
  dummy file_port notify_port : Target
  cell sequence : ℕ → Target

-- `inputPort` and `inputPort2`, `outputPort` and `outputPort2`, with `none` for -1; `pluginControls`;
-- and the calls of `connect_port` so far, oldest first.
pub record Scan (C : Type 0) : Type 0 where
  pub inputs : Option ℕ × Option ℕ
  pub outputs : Option ℕ × Option ℕ
  pub controls : List C
  pub connections : List (ℕ × Target)

abbrev pub no_ports : {C : Type 0} → Scan C
no_ports = record { inputs = (none, none); outputs = (none, none); controls = []; connections = [] }

-- The first of the two that is -1 is set; a third port is only logged.
unfoldable pub first_free : ℕ → Option ℕ × Option ℕ → Option ℕ × Option ℕ
first_free i (none, b) = (some i, b)
first_free i (some a, none) = (some a, some i)
first_free i (some a, some b) = (some a, some b)

module _ {C : Type 0} where
  abbrev pub add_input : ℕ → Scan C → Scan C
  add_input i s = record s { inputs = first_free i s.inputs }

  abbrev pub add_output : ℕ → Scan C → Scan C
  add_output i s = record s { outputs = first_free i s.outputs }

  abbrev pub connect : ℕ → Target → Scan C → Scan C
  connect i t s = record s { connections = s.connections ++ (i, t) ∷ [] }

  -- `push_back` of a new control, and the port connected to it.
  abbrev pub add_control : ℕ → C → (ℕ → Target) → Scan C → Scan C
  add_control i c target s = record s {
    controls = s.controls ++ c ∷ [];
    connections = s.connections ++ (i, target (length s.controls)) ∷ [];
  }

  -- The loop over the ports, from index `i` on, with its body `step`.
  unfoldable pub scan_all : {P : Type 0} → (ℕ → P → Scan C → Scan C) → ℕ → List P → Scan C → Scan C
  scan_all step i [] s = s
  scan_all step i (p ∷ ps) s = scan_all step (i + 1) ps (step i p s)
