-- ===== src/Plugin/Json.antt =====
-- Plugin.cpp: `load`, for an LV2 plugin whose ports are described by a JSON file.
pub mod Loaded
use Prim.Native.String.{String}
use text.Mathlib.Text.{◌==◌ as text_eq}
use amprack_6_pc.Base.{
  ℕ, ◌+◌, ◌&&◌, Bool, true, false, Option, none, some, List, [], ◌∷◌, ◌++◌, if◌then◌else◌, ◌>>=◌,
}
use amprack_6_pc.Control.{Floats, JsonPort, Control, from_json}
use amprack_6_pc.Plugin.Ports.{
  dummy, file_port, notify_port, cell, Scan, no_ports, connect, add_control, add_input, add_output,
}

-- An element of the JSON object: its key and its value. `audio_port` and `output_port` tell whether
-- the keys are there; `control` has the keys that the constructor of `PluginControl` reads.
pub record Element (F : Type 0) : Type 0 where
  pub key : String
  pub name : String
  pub audio_port : Bool
  pub output_port : Bool
  pub control : JsonPort F

-- A `PluginControl` with its `urid`, which is set for an atom port only.
pub record LoadedControl (F : Type 0) : Type 0 where
  pub control : Control F
  pub urid : Option ℕ

-- The ports found, and the bytes allocated for `filePort` and `notifyPort`, `none` for null.
pub record Loading (F : Type 0) : Type 0 where
  pub scan : Scan (LoadedControl F)
  pub file_size : Option ℕ
  pub notify_size : Option ℕ

-- The parts of `load` that are not the program's: the size of the headers of an atom sequence, the
-- number for the URI of a port name behind the prefix, and what an unset field holds.
pub record Host (F : Type 0) : Type 0 where
  pub header : ℕ
  pub urid : String → ℕ
  pub junk : F
  pub floats : Floats F

abbrev pub is_there : {A : Type 0} → Option A → Bool
is_there none = false
is_there (some a) = true

-- What is allocated already, or else `minimumSize`, the headers, and one byte. A missing
-- `minimumSize` is a fault.
pub allocate : ℕ → Option ℕ → Option ℕ → Option ℕ
allocate header minimum (some size) = some size
allocate header none none = none
allocate header (some m) none = some (m + header + 1)

module _ {F : Type 0} (h : Host F) where
  abbrev pub keep_scan : Loading F → Scan (LoadedControl F) → Option (Loading F)
  keep_scan l s = some (record l { scan = s })

  -- A control port: `addPluginControl`, and the port connected to the new control's value.
  abbrev pub load_control : Element F → Loading F → Option (Loading F)
  load_control e l = do
    c ← from_json h.floats h.junk e.control
    keep_scan l (add_control e.control.index (record { control = c; urid = none }) cell l.scan)

  -- An atom port: all of them are connected to the one `filePort`, allocated for the first.
  abbrev pub load_file : Element F → Loading F → Option (Loading F)
  load_file e l = do
    size ← allocate h.header e.control.minimum_size l.file_size
    c ← from_json h.floats h.junk e.control
    let loaded : LoadedControl F = record { control = c; urid = some (h.urid e.name) }
    some (record l {
      scan = add_control e.control.index loaded (λ _. file_port) l.scan;
      file_size = some size;
    })

  abbrev pub load_notify : Element F → Loading F → Option (Loading F)
  load_notify e l = do
    size ← allocate h.header e.control.minimum_size l.notify_size
    some (record l { scan = connect e.control.index notify_port l.scan; notify_size = some size })

  -- The body of the loop, for a key that is not "-1".
  pub load_port : Element F → Loading F → Option (Loading F)
  unfolding allocate
  load_port e l =
      let port = e.control.index in
      let input = is_there e.control.input_port in
      let control = is_there e.control.control_port in
      let atom = is_there e.control.atom_port in
      if e.audio_port
      then (if input
          then keep_scan l (add_input port l.scan)
          else if e.output_port
          then keep_scan l (add_output port l.scan)
          else some l)
      else if input && control
      then load_control e l
      else if e.output_port && control
      then keep_scan l (connect port dummy l.scan)
      else if atom && input
      then load_file e l
      else if atom && e.output_port
      then load_notify e l
      else some l

  -- The loop over the elements.
  pub load_ports : List (Element F) → Loading F → Option (Loading F)
  unfolding load_port
  load_ports [] l = some l
  load_ports (e ∷ es) l =
      (if text_eq e.key "-1" then some l else load_port e l) >>= λ l'. load_ports es l'

abbrev pub unloaded : {F : Type 0} → Loading F
unloaded = record { scan = no_ports; file_size = none; notify_size = none }
