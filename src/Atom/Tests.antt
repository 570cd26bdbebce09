-- ===== src/Atom/Tests.antt =====
-- atom.cpp: a plugin with a port for files and one for answers, in blocks of 120 and of 30 bytes.
use amprack_6_pc.Base.{
  ℕ, ◌+◌, ◌*◌, ◌<◌, ◌≤◌, ◌≡◌, refl, arith, leb, true, false, none, some, List, [], ◌∷◌, length,
  if◌then◌else◌,
}
use amprack_6_pc.Atom.{
  Event, Forge, Port, HostUris, has_file_path, Receiver, set_atom_port_value, check_notify, Host,
}
use amprack_6_pc.Atom.Messages.{
  IsForge, CanReceive, message, reset_message, le→leb, set_atom_port_value-once,
}
use amprack_6_pc.Atom.Overflow.{messages-overflow}

abbrev size : List Event → ℕ
size [] = 16
size (e ∷ es) = 24 + 24 * length e.properties + size es

abbrev forge : Forge
forge = record {
  written = λ capacity es. if leb (size es) capacity then (es, size es) else ([], 0);
}

forge-IsForge : IsForge forge size
forge-IsForge capacity es h = rw (le→leb (size es) capacity h) refl

abbrev uris : HostUris
uris = record { patch_set = 7; patch_property = 8; patch_value = 9 }

abbrev port : ℕ → Port
port n = record { size = n; events = [] }

abbrev receiver : ℕ → ℕ → Receiver
receiver n m = record {
  lv2_name = 112 ∷ [];
  lv2_descriptor = true;
  control_urids = 5 ∷ 6 ∷ [];
  amp_atom = some uris;
  file_port = some (port n);
  file_port_size = n;
  notify_port = some (port m);
  loaded_file_name = 98 ∷ [];
  loaded_file_type = none;
}

receiver-CanReceive : CanReceive forge size forge-IsForge (receiver 120 60) 1 (47 ∷ 97 ∷ [])
receiver-CanReceive = record {
  file = port 120;
  notify = port 60;
  uris = uris;
  uri = 6;
  file_port = refl;
  notify_port = refl;
  amp_atom = refl;
  control_urid = refl;
  message_fits = omega arith;
  reset_fits = omega arith;
  notify_fits = omega arith;
  no_more = omega arith;
}

abbrev host : Host
host = record {
  receivers = receiver 120 60 ∷ [];
  bypass = false;
  fs = record { files = []; directories = λ files p. none; writable = λ p. true };
  home = 104 ∷ [];
}

set_atom_port_value-once_example :
    (p' : Receiver) × (p'' : Receiver) × (set_atom_port_value forge 1
        (47 ∷ 97 ∷ [])
        (receiver 120 60)
      ≡ some p')
    × (p'.file_port ≡ some (record { size = 120; events = message uris 6 (47 ∷ 97 ∷ []) }))
    × (check_notify forge p' ≡ some (true, p''))
    × (p''.file_port ≡ some (record { size = 120; events = reset_message }))
    × (p''.notify_port ≡ some (record { size = 60; events = reset_message }))
    × (check_notify forge p'' ≡ some (false, p''))
unfolding receiver-CanReceive
set_atom_port_value-once_example =
    set_atom_port_value-once forge size forge-IsForge (receiver 120 60) 1 (47 ∷ 97 ∷ [])
      receiver-CanReceive

messages-overflow_example :
    (80 < 88 → 88 ≤ 88 → set_atom_port_value forge 1 (47 ∷ 97 ∷ []) (receiver 80 30) ≡ none)
    × (has_file_path uris (port 80) ≡ true
        → 30 < 40
        → 40 ≤ 80
        → check_notify forge (receiver 80 30) ≡ none)
messages-overflow_example =
    messages-overflow forge size forge-IsForge (receiver 80 30) (port 80) (port 30) uris 1 6
      (47 ∷ 97 ∷ []) refl refl refl refl refl
