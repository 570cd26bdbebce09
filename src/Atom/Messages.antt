-- ===== src/Atom/Messages.antt =====
-- atom.cpp and Plugin.cpp: a message from `setAtomPortValue` until `check_notify` clears it.
use amprack_6_pc.Base.{
  ℕ, ◌+◌, ◌≤◌, ◌≡◌, refl, ap, ◌∙◌, arith, leb, ◌==◌, eq→==, Bool, Bool-cases, inl, inr, true, false,
  Option, none, some, List, [], ◌∷◌, ◌++◌, get_elem?, set, if◌then◌else◌, ◌>>=◌,
}
use amprack_6_pc.Files.{Bytes, copy_file, behind_last, slash}
use amprack_6_pc.Sound.{models}
use amprack_6_pc.Base.{get_elem?-set_there}
use amprack_6_pc.Atom.{
  Value, urid, path, Event, Forge, Port, HostUris, atom_size, forge_into, write_control, reset_atom,
  object_get, has_file_path, Receiver, set_atom_port_value, send_control, reset_ports, check_ports,
  check_notify, Host, set_atom_port,
}

-- The forge writes a sequence whole where it has the room, and takes the bytes of its size.
abbrev pub IsForge : Forge → (List Event → ℕ) → Type 0
IsForge forge size =
    (capacity : ℕ) (es : List Event)
    → size es ≤ capacity
    → forge.written capacity es ≡ (es, size es)

abbrev pub message : HostUris → ℕ → Bytes → List Event
message u uri filename =
    record {
      otype = u.patch_set;
      properties = (u.patch_property, urid uri) ∷ (u.patch_value, path filename) ∷ [];
    }
    ∷ []

abbrev pub reset_message : List Event
reset_message = record { otype = 0; properties = [] } ∷ []

pub le→leb : (a b : ℕ) → a ≤ b → leb a b ≡ true
le→leb a b h = ground arith

module _ (forge : Forge) (size : List Event → ℕ) (law : IsForge forge size) where
  pub forge_into-fits :
      (capacity : ℕ) (es : List Event) (port : Port)
      → size es ≤ capacity
      → size es ≤ port.size
      → forge_into forge capacity es port ≡ some (record port { events = es })
  unfolding forge_into
  forge_into-fits capacity es port room fits =
      rw (forge_into, law capacity es room, le→leb (size es) port.size fits) refl

  -- A plugin that can be sent a file name: its ports have the room for the messages, and the control has a
  -- number.
  pub record CanReceive (p : Receiver) (control : ℕ) (filename : Bytes) : Type 0 where
    pub file : Port
    pub notify : Port
    pub uris : HostUris
    pub uri : ℕ
    pub file_port : p.file_port ≡ some file
    pub notify_port : p.notify_port ≡ some notify
    pub amp_atom : p.amp_atom ≡ some uris
    pub control_urid : get_elem? p.control_urids control ≡ some uri
    pub message_fits : size (message uris uri filename) ≤ file.size
    pub reset_fits : size reset_message ≤ file.size
    pub notify_fits : size reset_message ≤ notify.size
    pub no_more : file.size ≤ p.file_port_size

  object_get-second :
      (key k : ℕ) (v x : Value) → (w : Value) × (object_get key ((k, v) ∷ (key, x) ∷ []) ≡ some w)
  unfolding object_get
  object_get-second key k v x = elim (Bool-cases (k == key)) [
    | inl same ↦ (v, rw same refl)
    | inr other ↦ (x, rw (other, eq→== key key refl) refl)
  ]

  has_path :
      (u : HostUris) (uri : ℕ) (filename : Bytes) (port : Port)
      → has_file_path u (record port { events = message u uri filename }) ≡ true
  unfolding has_file_path
  has_path u uri filename port =
      let (w, there) =
        object_get-second u.patch_value u.patch_property (urid uri) (path filename) in
      ap (λ o. elim o as (λ _. Bool) [ none ↦ false | some v ↦ true ]) there

  sent : {p : Receiver} {control : ℕ} {filename : Bytes} → CanReceive p control filename → Receiver
  sent {p} {control} {filename} v = record p {
    file_port = some (record v.file { events = message v.uris v.uri filename });
  }

  set_atom_port_value-sent :
      (p : Receiver) (control : ℕ) (filename : Bytes) (v : CanReceive p control filename)
      → set_atom_port_value forge control filename p ≡ some (sent v)
  unfolding set_atom_port_value send_control write_control sent
  set_atom_port_value-sent p control filename v =
      (λ i. send_control forge (v.file_port i) (v.control_urid i) (v.amp_atom i) filename p)
      ∙ rw
          (
            send_control,
            forge_into-fits (p.file_port_size + atom_size) (message v.uris v.uri filename) v.file
                (omega (arith, v.message_fits, v.no_more)) v.message_fits,
          )
          refl

  cleared :
      {p : Receiver} {control : ℕ} {filename : Bytes} → CanReceive p control filename → Receiver
  cleared {p} v = record p {
    file_port = some (record v.file { events = reset_message });
    notify_port = some (record v.notify { events = reset_message });
  }

  check_notify-sent :
      (p : Receiver) (control : ℕ) (filename : Bytes) (v : CanReceive p control filename)
      → check_notify forge (sent v) ≡ some (true, cleared v)
  unfolding check_notify check_ports reset_ports reset_atom sent cleared
  check_notify-sent p control filename v =
      (λ i.
        check_ports forge (v.notify_port i) (v.amp_atom i)
          (some (record v.file { events = message v.uris v.uri filename })) (sent v))
      ∙ rw (check_ports, has_path v.uris v.uri filename v.file)
          (rw
            (
              reset_ports,
              forge_into-fits (p.file_port_size + atom_size) reset_message
                  (record v.file { events = message v.uris v.uri filename })
                  (omega (arith, v.reset_fits, v.no_more)) v.reset_fits,
            )
            (rw
              (forge_into-fits (p.file_port_size + atom_size) reset_message v.notify
                (omega (arith, v.reset_fits, v.no_more)) v.notify_fits)
              refl))

  check_notify-cleared :
      (p : Receiver) (control : ℕ) (filename : Bytes) (v : CanReceive p control filename)
      → check_notify forge (cleared v) ≡ some (false, cleared v)
  unfolding check_notify check_ports cleared has_file_path object_get
  check_notify-cleared p control filename v = λ i.
      check_ports forge (some (record v.notify { events = reset_message })) (v.amp_atom i)
        (some (record v.file { events = reset_message })) (cleared v)

  -- A forge that writes what there is room for, and a plugin with room for the messages in its ports, and a
  -- number for its control. Then setAtomPortValue puts the file's name under this number into the port
  -- for files; the next check_notify finds it, and empties this port and that for answers; and
  -- another one finds nothing and changes nothing.
  pub set_atom_port_value-once :
      (p : Receiver) (control : ℕ) (filename : Bytes) (v : CanReceive p control filename)
      → (p' : Receiver) × (p'' : Receiver) × (set_atom_port_value forge control filename p
          ≡ some p')
        × (p'.file_port ≡ some (record v.file { events = message v.uris v.uri filename }))
        × (check_notify forge p' ≡ some (true, p''))
        × (p''.file_port ≡ some (record v.file { events = reset_message }))
        × (p''.notify_port ≡ some (record v.notify { events = reset_message }))
        × (check_notify forge p'' ≡ some (false, p''))
  unfolding sent cleared
  set_atom_port_value-once p control filename v = (
    sent v,
    cleared v,
    set_atom_port_value-sent p control filename v,
    refl,
    check_notify-sent p control filename v,
    refl,
    refl,
    check_notify-cleared p control filename v,
  )

  -- A forge that writes what there is room for, and a plugin with room for the messages in its ports, and a
  -- number for its control. For an LV2 plugin of the rack, set_atom_port succeeds, but what it copies
  -- among the models, under the name of the new file, is the file that was loaded before, whose
  -- name the plugin keeps.
  pub set_atom_port-copies_old :
      (h : Host) (index : ℕ) (p : Receiver) (control : ℕ) (filename : Bytes)
      → get_elem? h.receivers index ≡ some p
      → p.lv2_descriptor ≡ true
      → CanReceive p control filename
      → (h' : Host) × (p' : Receiver) × (set_atom_port forge index control filename h ≡ some h')
        × (get_elem? h'.receivers index ≡ some p')
        × (p'.loaded_file_name ≡ p.loaded_file_name)
        × (h'.fs
            ≡ copy_file p.loaded_file_name
                (h.home ++ (models ++ (p.lv2_name ++ (47 ∷ behind_last slash filename))))
                h.fs)
  unfolding set_atom_port sent
  set_atom_port-copies_old h index p control filename there lv2 v =
      let p' : Receiver = record (sent v) { loaded_file_type = some 2 } in
      let kept : Receiver → Option Host = λ q. some (record h {
        receivers = set h.receivers index (record q { loaded_file_type = some 2 });
        bypass = false;
        fs =
            copy_file q.loaded_file_name
              (h.home ++ (models ++ (q.lv2_name ++ (47 ∷ behind_last slash filename)))) h.fs;
      }) in
      (
        record h {
          receivers = set h.receivers index p';
          bypass = false;
          fs =
              copy_file p.loaded_file_name
                (h.home ++ (models ++ (p.lv2_name ++ (47 ∷ behind_last slash filename)))) h.fs;
        },
        p',
        rw (set_atom_port, there)
            (ap (λ b. (if b then set_atom_port_value forge control filename p else some p) >>= kept)
                lv2
              ∙ ap (λ r. r >>= kept) (set_atom_port_value-sent p control filename v)),
        get_elem?-set_there h.receivers index p p' there,
        refl,
        refl,
      )
