-- ===== src/Atom/Overflow.antt =====
-- atom.cpp: `write_control` and `resetAtom` tell the forge that the block has eight bytes more.
use amprack_6_pc.Base.{
  ℕ, ◌+◌, ◌≤◌, ◌<◌, ◌≡◌, refl, ◌∙◌, arith, leb, true, false, none, some, List, get_elem?,
}
use amprack_6_pc.Files.{Bytes}
use amprack_6_pc.Atom.{
  Event, Forge, Port, HostUris, atom_size, forge_into, write_control, has_file_path, Receiver,
  set_atom_port_value, send_control, reset_ports, check_ports, check_notify,
}
use amprack_6_pc.Atom.Messages.{IsForge, message, reset_message, forge_into-fits}

lt→leb : (a b : ℕ) → b < a → leb a b ≡ false
lt→leb a b h = ground arith

module _ (forge : Forge) (size : List Event → ℕ) (law : IsForge forge size) where
  forge_into-overflows :
      (capacity : ℕ) (es : List Event) (port : Port)
      → size es ≤ capacity
      → port.size < size es
      → forge_into forge capacity es port ≡ none
  unfolding forge_into
  forge_into-overflows capacity es port room over =
      rw (forge_into, law capacity es room, lt→leb (size es) port.size over) refl

  -- With a forge that writes what there is room for: a message that takes up to eight bytes more than the
  -- block for files, where this has the size that is kept of it, is written past its end; and where a
  -- file name is found, and the block for answers is smaller than the message that empties it,
  -- but the block for files is not, check_notify writes past the end of the block for answers.
  pub messages-overflow :
      (p : Receiver) (file notify : Port) (u : HostUris) (control uri : ℕ) (filename : Bytes)
      → p.file_port ≡ some file
      → p.notify_port ≡ some notify
      → p.amp_atom ≡ some u
      → get_elem? p.control_urids control ≡ some uri
      → file.size ≡ p.file_port_size
      → (file.size < size (message u uri filename)
          → size (message u uri filename) ≤ file.size + 8
          → set_atom_port_value forge control filename p ≡ none)
        × (has_file_path u file ≡ true
            → notify.size < size reset_message
            → size reset_message ≤ file.size
            → check_notify forge p ≡ none)
  unfolding set_atom_port_value write_control check_notify
  messages-overflow p file notify u control uri filename file_port notify_port amp_atom control_urid
        same =
      (
        λ over room.
            (λ i. send_control forge (file_port i) (control_urid i) (amp_atom i) filename p)
            ∙ rw
                (
                  send_control,
                  forge_into-overflows (p.file_port_size + atom_size) (message u uri filename) file
                      (omega (arith, room, same)) over,
                )
                refl,
        λ has over room.
            (λ i. check_ports forge (notify_port i) (amp_atom i) (file_port i) p)
            ∙ rw (check_ports, has)
                (rw
                  (
                    reset_ports,
                    forge_into-fits forge size law (p.file_port_size + atom_size) reset_message file
                        (omega (arith, room, same)) room,
                  )
                  (rw
                    (forge_into-overflows (p.file_port_size + atom_size) reset_message notify
                      (omega (arith, room, same)) over)
                    refl)),
      )
