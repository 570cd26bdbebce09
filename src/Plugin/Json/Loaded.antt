-- ===== src/Plugin/Json/Loaded.antt =====
-- Plugin.cpp: what the loop of `load` makes of the ports of a JSON description.
pub mod Wired
pub mod Made
pub mod Finds
mod Tests
use text.Mathlib.Text.{◌==◌ as text_eq}
use amprack_6_pc.Base.{
  ℕ, suc, ◌+◌, ◌≡◌, refl, sym, ap, ◌∙◌, ◌&&◌, Bool, true, false, Option, none, some, List, [], ◌∷◌,
  ◌++◌, map, get_elem?, length, Bool-cases, inl, inr, append_assoc, append-nil, if◌then◌else◌,
  ◌>>=◌,
}
use amprack_6_pc.Control.{Control, from_json}
use amprack_6_pc.Plugin.Ports.{
  dummy, file_port, notify_port, cell, Scan, connect, add_control, add_input, add_output, no_ports,
}
use amprack_6_pc.Plugin.Json.{
  Element, LoadedControl, Loading, Host, is_there, allocate, load_port, load_ports, unloaded,
  load_control, load_file, load_notify, keep_scan,
}

-- What the keys of an element say of its port.
pub data PortClass : Type 0 where
  audio_in audio_out audio_other control_in control_out atom_in atom_out other : PortClass

-- By the keys `AudioPort`, `InputPort`, `OutputPort`, `ControlPort` and `AtomPort`.
pub by_keys : Bool → Bool → Bool → Bool → Bool → PortClass
by_keys true true output control atom = audio_in
by_keys true false true control atom = audio_out
by_keys true false false control atom = audio_other
by_keys false true output true atom = control_in
by_keys false false true true atom = control_out
by_keys false true output false true = atom_in
by_keys false true output false false = other
by_keys false false true false true = atom_out
by_keys false false true false false = other
by_keys false false false control atom = other

-- The element that holds the name of the plugin is no port.
pub class_of : {F : Type 0} → Element F → PortClass
unfolding by_keys
class_of e =
    if text_eq e.key "-1"
    then other
    else by_keys e.audio_port (is_there e.control.input_port) e.output_port
        (is_there e.control.control_port) (is_there e.control.atom_port)

pick {ℓ} : {X : Type ℓ} → PortClass → X → X → X → X → X → X → X → X
pick audio_in a b c d e f n = a
pick audio_out a b c d e f n = b
pick audio_other a b c d e f n = n
pick control_in a b c d e f n = c
pick control_out a b c d e f n = d
pick atom_in a b c d e f n = e
pick atom_out a b c d e f n = f
pick other a b c d e f n = n

pick-by_keys {ℓ} :
    {X : Type ℓ} (audio input output control atom : Bool) (a b c d e f n : X)
    → (if audio
        then (if input then a else if output then b else n)
        else if input && control
        then c
        else if output && control
        then d
        else if atom && input
        then e
        else if atom && output
        then f
        else n)
      ≡ pick (by_keys audio input output control atom) a b c d e f n
unfolding pick by_keys
pick-by_keys true true output control atom a b c d e f n = refl
pick-by_keys true false true control atom a b c d e f n = refl
pick-by_keys true false false control atom a b c d e f n = refl
pick-by_keys false true output true atom a b c d e f n = refl
pick-by_keys false false true true atom a b c d e f n = refl
pick-by_keys false true true false true a b c d e f n = refl
pick-by_keys false true false false true a b c d e f n = refl
pick-by_keys false true true false false a b c d e f n = refl
pick-by_keys false true false false false a b c d e f n = refl
pick-by_keys false false true false true a b c d e f n = refl
pick-by_keys false false true false false a b c d e f n = refl
pick-by_keys false false false true true a b c d e f n = refl
pick-by_keys false false false true false a b c d e f n = refl
pick-by_keys false false false false true a b c d e f n = refl
pick-by_keys false false false false false a b c d e f n = refl

module _ {F : Type 0} (h : Host F) where
  load_class : Element F → Loading F → Option (Loading F)
  load_class e l =
      pick (class_of e) (keep_scan h l (add_input e.control.index l.scan))
        (keep_scan h l (add_output e.control.index l.scan)) (load_control h e l)
        (keep_scan h l (connect e.control.index dummy l.scan)) (load_file h e l) (load_notify h e l)
        (some l)

  load_port-class :
      (e : Element F) (l : Loading F)
      → (if text_eq e.key "-1" then some l else load_port h e l) ≡ load_class e l
  unfolding load_port load_class class_of pick
  load_port-class e l = elim (Bool-cases (text_eq e.key "-1")) [
    | inl name ↦ rw name refl
    | inr port ↦ rw port (
        pick-by_keys e.audio_port (is_there e.control.input_port) e.output_port
          (is_there e.control.control_port) (is_there e.control.atom_port)
          (keep_scan h l (add_input e.control.index l.scan))
          (keep_scan h l (add_output e.control.index l.scan)) (load_control h e l)
          (keep_scan h l (connect e.control.index dummy l.scan)) (load_file h e l)
          (load_notify h e l) (some l))
  ]

  -- What a round does with the element's own control, if it makes one.
  pub advance_by : PortClass → Element F → Control F → Loading F → Loading F
  advance_by audio_in e c l = record l { scan = add_input e.control.index l.scan }
  advance_by audio_out e c l = record l { scan = add_output e.control.index l.scan }
  advance_by audio_other e c l = l
  advance_by control_in e c l = record l {
    scan = add_control e.control.index (record { control = c; urid = none }) cell l.scan;
  }
  advance_by control_out e c l = record l { scan = connect e.control.index dummy l.scan }
  advance_by atom_in e c l = record l {
    scan =
        add_control e.control.index (record { control = c; urid = some (h.urid e.name) })
          (λ _. file_port) l.scan;
    file_size = allocate h.header e.control.minimum_size l.file_size;
  }
  advance_by atom_out e c l = record l {
    scan = connect e.control.index notify_port l.scan;
    notify_size = allocate h.header e.control.minimum_size l.notify_size;
  }
  advance_by other e c l = l

  -- A port with a control is read as that control, and an atom port has a `minimumSize`.
  abbrev pub FitsBy : PortClass → Element F → Control F → Type 0
  FitsBy control_in e c = from_json h.floats h.junk e.control ≡ some c
  FitsBy atom_in e c =
      (from_json h.floats h.junk e.control ≡ some c) × ((m : ℕ) × (e.control.minimum_size ≡ some m))
  FitsBy atom_out e c = (m : ℕ) × (e.control.minimum_size ≡ some m)
  FitsBy _ e c = Unit

  abbrev pub AllFit : List (Element F × Control F) → Type 0
  AllFit [] = Unit
  AllFit ((e, c) ∷ rs) = FitsBy (class_of e) e c × AllFit rs

  allocate-some :
      (header m : ℕ) (old : Option ℕ) → (n : ℕ) × (allocate header (some m) old ≡ some n)
  unfolding allocate
  allocate-some header m none = (m + header + 1, refl)
  allocate-some header m (some n) = (n, refl)

  load_by-advance :
      (k : PortClass) (e : Element F) (c : Control F) (l : Loading F)
      → FitsBy k e c
      → pick k
          (keep_scan h l (add_input e.control.index l.scan))
          (keep_scan h l (add_output e.control.index l.scan))
          (load_control h e l)
          (keep_scan h l (connect e.control.index dummy l.scan))
          (load_file h e l)
          (load_notify h e l)
          (some l)
        ≡ some (advance_by k e c l)
  unfolding pick advance_by
  load_by-advance audio_in e c l v = refl
  load_by-advance audio_out e c l v = refl
  load_by-advance audio_other e c l v = refl
  load_by-advance control_in e c l v = rw v refl
  load_by-advance control_out e c l v = refl
  load_by-advance atom_in e c l (read, (m, minimum)) =
      let (n, got) = allocate-some h.header m l.file_size in
      rw (ap (λ o. allocate h.header o l.file_size) minimum ∙ got, read) refl
  load_by-advance atom_out e c l (m, minimum) =
      let (n, got) = allocate-some h.header m l.notify_size in rw (minimum, got) refl
  load_by-advance other e c l v = refl

  pub advance : Element F × Control F → Loading F → Loading F
  unfolding advance_by
  advance (e, c) l = advance_by (class_of e) e c l

  pub advance_all : List (Element F × Control F) → Loading F → Loading F
  unfolding advance
  advance_all [] l = l
  advance_all (r ∷ rs) l = advance_all rs (advance r l)

  pub load_ports-advance :
      (rs : List (Element F × Control F)) (l : Loading F)
      → AllFit rs
      → load_ports h (map (λ r. r.0) rs) l ≡ some (advance_all rs l)
  unfolding load_ports advance_all advance load_class
  load_ports-advance [] l v = refl
  load_ports-advance ((e, c) ∷ rs) l v =
      ap (λ o. o >>= λ l'. load_ports h (map (λ r. r.0) rs) l')
        (load_port-class e l ∙ load_by-advance (class_of e) e c l v.0)
      ∙ load_ports-advance rs (advance (e, c) l) v.1
