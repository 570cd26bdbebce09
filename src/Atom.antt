-- ===== src/Atom.antt =====
-- atom.h, atom.cpp, Plugin.cpp's `setAtomPortValue` and `check_notify`, and engine.cc's `set_atom_port`
-- and `check_notify`: file names that are sent to LV2 plugins as messages.
pub mod Messages
pub mod Overflow
mod Tests
use amprack_6_pc.Base.{
  ℕ, zero, suc, ◌+◌, ◌==◌, leb, Bool, true, false, Option, none, some, List, [], ◌∷◌, ◌++◌,
  get_elem?, set, length, if◌then◌else◌, ◌>>=◌, ◌>>◌, assert,
}
use amprack_6_pc.Files.{Bytes, FileSystem, copy_file, behind_last, slash}
use amprack_6_pc.Sound.{models}

-- A property of an LV2 object: a number or a path.
pub data Value : Type 0 where
  urid : ℕ → Value
  path : Bytes → Value

-- An event of a sequence: the type of its object, and the properties by key.
pub record Event : Type 0 where
  pub otype : ℕ
  pub properties : List (ℕ × Value)

-- The LV2 forge. A run of calls on a buffer of a capacity: the events that the buffer holds then, and how many
-- of its bytes were written.
pub record Forge : Type 0 where
  pub written : ℕ → List Event → List Event × ℕ

-- A block of `size` bytes that a port is connected to, with the sequence in it.
pub record Port : Type 0 where
  pub size : ℕ
  pub events : List Event

-- `HostURIs`, as far as messages use them.
pub record HostUris : Type 0 where
  pub patch_set : ℕ
  pub patch_property : ℕ
  pub patch_value : ℕ

-- `sizeof (LV2_Atom)`
abbrev pub atom_size : ℕ
atom_size = 8

module _ (forge : Forge) where
  -- The forge writes into a block as if it had `capacity` bytes; a write past its end is a fault.
  pub forge_into : ℕ → List Event → Port → Option Port
  forge_into capacity es port = do
    assert (leb (forge.written capacity es).1 port.size)
    some (record port { events = (forge.written capacity es).0 })

  pub write_control : HostUris → ℕ → ℕ → Bytes → Port → Option Port
  unfolding forge_into
  write_control u port_size uri filename port =
      forge_into (port_size + atom_size)
        (record {
          otype = u.patch_set;
          properties = (u.patch_property, urid uri) ∷ (u.patch_value, path filename) ∷ [];
        }
          ∷ [])
        port

  pub reset_atom : ℕ → Port → Option Port
  unfolding forge_into
  reset_atom port_size port =
      forge_into (port_size + atom_size) (record { otype = 0; properties = [] } ∷ []) port

-- `lv2_atom_object_get` for one key.
pub object_get : ℕ → List (ℕ × Value) → Option Value
object_get key [] = none
object_get key ((k, v) ∷ ps) = let rest = object_get key ps in if k == key then some v else rest

-- The loop ends in its first round.
pub has_file_path : HostUris → Port → Bool
unfolding object_get
has_file_path u port = elim port.events [
  | [] ↦ false
  | ◌∷◌ e es ↦ elim (object_get u.patch_value e.properties) [ none ↦ false | some v ↦ true ]
]

-- The part of a plugin that messages use. `amp_atom` is null before the first atom port was loaded.
pub record Receiver : Type 0 where
  pub lv2_name : Bytes
  pub lv2_descriptor : Bool
  pub control_urids : List ℕ
  pub amp_atom : Option HostUris
  pub file_port : Option Port
  pub file_port_size : ℕ
  pub notify_port : Option Port
  pub loaded_file_name : Bytes
  pub loaded_file_type : Option ℕ

module _ (forge : Forge) where
  pub send_control : Option Port → Option ℕ → Option HostUris → Bytes → Receiver → Option Receiver
  unfolding write_control
  send_control none uri u text p = some p
  send_control (some port) none u text p = none
  send_control (some port) (some uri) none text p = none
  send_control (some port) (some uri) (some u) text p = do
    port' ← write_control forge u p.file_port_size uri text port
    some (record p { file_port = some port' })

  -- `setAtomPortValue`; a control out of range throws, and `ampAtom` is followed.
  pub set_atom_port_value : ℕ → Bytes → Receiver → Option Receiver
  unfolding send_control
  set_atom_port_value control text p =
      send_control p.file_port (get_elem? p.control_urids control) p.amp_atom text p

  -- Both ports are reset with the size of the one for files.
  pub reset_ports : Port → Port → Receiver → Option (Bool × Receiver)
  unfolding reset_atom
  reset_ports file notify p = do
    file' ← reset_atom forge p.file_port_size file
    notify' ← reset_atom forge p.file_port_size notify
    some (true, record p { file_port = some file'; notify_port = some notify' })

  pub check_ports :
      Option Port → Option HostUris → Option Port → Receiver → Option (Bool × Receiver)
  unfolding has_file_path reset_ports
  check_ports none u file p = some (true, p)
  check_ports (some notify) none file p = some (false, p)
  check_ports (some notify) (some u) none p = some (false, p)
  check_ports (some notify) (some u) (some file) p =
      let reset = reset_ports file notify p in
      if has_file_path u file then reset else some (false, p)

  -- `Plugin::check_notify`
  pub check_notify : Receiver → Option (Bool × Receiver)
  unfolding check_ports
  check_notify p = check_ports p.notify_port p.amp_atom p.file_port p

  -- `Engine::check_notify`, with its count; it is the engine's function on the queue manager's thread.
  pub check_all : List Receiver → Option (ℕ × List Receiver)
  unfolding check_notify
  check_all [] = some (0, [])
  check_all (p ∷ ps) = elim p.file_port as (λ _. Option (ℕ × List Receiver)) [
    | none ↦ (do rest ← check_all ps; some (rest.0, p ∷ rest.1))
    | some port ↦ (do
      checked ← check_notify p
      rest ← check_all ps
      some (rest.0 + 1, checked.1 ∷ rest.1))
  ]

-- The plugins of the rack, bypass, and the files.
pub record Host : Type 0 where
  pub receivers : List Receiver
  pub bypass : Bool
  pub fs : FileSystem
  pub home : Bytes

module _ (forge : Forge) where
  -- `set_atom_port`
  pub set_atom_port : ℕ → ℕ → Bytes → Host → Option Host
  unfolding set_atom_port_value
  set_atom_port index control filename h = do
    p ← get_elem? h.receivers index
    p' ← if p.lv2_descriptor then set_atom_port_value forge control filename p else some p
    some (record h {
      receivers = set h.receivers index (record p' { loaded_file_type = some 2 });
      bypass = false;
      fs =
          copy_file p'.loaded_file_name
            (h.home ++ (models ++ (p'.lv2_name ++ (47 ∷ behind_last slash filename)))) h.fs;
    })
