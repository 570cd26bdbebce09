-- ===== src/Plugin/Json/Loaded/Wired.antt =====
-- Plugin.cpp: the ports, controls and connections that `load` makes.
use amprack_6_pc.Base.{
  ℕ, suc, ◌+◌, ◌≡◌, refl, sym, ap, ◌∙◌, Bool, true, false, Option, none, some, List, [], ◌∷◌, ◌++◌,
  arith, length, append-nil,
}
use amprack_6_pc.Plugin.Ports.{Target, dummy, file_port, notify_port, cell, sequence}
use amprack_6_pc.Plugin.Ports.Rounds.{own, own-append}
use amprack_6_pc.Plugin.Json.{LoadedControl}
use amprack_6_pc.Plugin.Json.Loaded.{
  PortClass, audio_in, audio_out, control_in, control_out, atom_in, atom_out,
}

abbrev pub is_input : PortClass → Bool
is_input audio_in = true
is_input _ = false

abbrev pub is_output : PortClass → Bool
is_output audio_out = true
is_output _ = false

-- A port that gets a control.
abbrev pub has_control : PortClass → Bool
has_control control_in = true
has_control atom_in = true
has_control _ = false

-- A port that `connect_port` is called for.
abbrev pub is_connected : PortClass → Bool
is_connected control_in = true
is_connected control_out = true
is_connected atom_in = true
is_connected atom_out = true
is_connected _ = false

-- The ports that are connected to the sequence for files.
abbrev pub to_file : List (ℕ × Target) → List ℕ
to_file [] = []
to_file ((i, dummy) ∷ cs) = to_file cs
to_file ((i, file_port) ∷ cs) = i ∷ to_file cs
to_file ((i, notify_port) ∷ cs) = to_file cs
to_file ((i, cell k) ∷ cs) = to_file cs
to_file ((i, sequence k) ∷ cs) = to_file cs

to_file-append : (xs ys : List (ℕ × Target)) → to_file (xs ++ ys) ≡ to_file xs ++ to_file ys
to_file-append [] ys = refl
to_file-append ((i, dummy) ∷ xs) ys = to_file-append xs ys
to_file-append ((i, file_port) ∷ xs) ys = ap (◌∷◌ i) (to_file-append xs ys)
to_file-append ((i, notify_port) ∷ xs) ys = to_file-append xs ys
to_file-append ((i, cell k) ∷ xs) ys = to_file-append xs ys
to_file-append ((i, sequence k) ∷ xs) ys = to_file-append xs ys

-- An entry for a control without a `urid`, or for one that has it.
abbrev pub if_value : {X : Type 0} → Option ℕ → X → List X → List X
if_value none x xs = x ∷ xs
if_value (some u) x xs = xs

abbrev pub if_file : {X : Type 0} → Option ℕ → X → List X → List X
if_file none x xs = xs
if_file (some u) x xs = x ∷ xs

if_value-append :
    {X : Type 0} (u : Option ℕ) (x : X) (xs ys : List X)
    → if_value u x (xs ++ ys) ≡ if_value u x xs ++ ys
if_value-append none x xs ys = refl
if_value-append (some u) x xs ys = refl

if_file-append :
    {X : Type 0} (u : Option ℕ) (x : X) (xs ys : List X)
    → if_file u x (xs ++ ys) ≡ if_file u x xs ++ ys
if_file-append none x xs ys = refl
if_file-append (some u) x xs ys = refl

module _ {F : Type 0} where
  abbrev pub port_of : LoadedControl F → ℕ
  port_of c = c.control.port

  -- The controls without a `urid`: port and number, from `k` on.
  abbrev pub values : ℕ → List (LoadedControl F) → List (ℕ × ℕ)
  values k [] = []
  values k (c ∷ cs) = if_value c.urid (port_of c, k) (values (k + 1) cs)

  -- The ports of those with one.
  abbrev pub files : List (LoadedControl F) → List ℕ
  files [] = []
  files (c ∷ cs) = if_file c.urid (port_of c) (files cs)

  -- The connections to values are those of the controls without a `urid`, each to its own value, and
  -- the connections to the sequence for files are those of the controls with one.
  pub record Wired (cn : List (ℕ × Target)) (cs : List (LoadedControl F)) : Type 0 where
    pub own_values : own cn ≡ values 0 cs
    pub sequences : to_file cn ≡ files cs

  values-snoc :
      (k : ℕ) (cs : List (LoadedControl F)) (c : LoadedControl F)
      → values k (cs ++ c ∷ []) ≡ values k cs ++ if_value c.urid (port_of c, k + length cs) []
  values-snoc k [] c = ap (λ (t : ℕ). if_value c.urid (port_of c, t) []) (omega arith)
  values-snoc k (d ∷ cs) c =
      ap (if_value d.urid (port_of d, k)) (
        values-snoc (k + 1) cs c
        ∙ ap (λ (t : ℕ). values (k + 1) cs ++ if_value c.urid (port_of c, t) []) (omega arith))
      ∙ if_value-append d.urid (port_of d, k) (values (k + 1) cs)
          (if_value c.urid (port_of c, k + suc (length cs)) [])

  files-snoc :
      (cs : List (LoadedControl F)) (c : LoadedControl F)
      → files (cs ++ c ∷ []) ≡ files cs ++ if_file c.urid (port_of c) []
  files-snoc [] c = refl
  files-snoc (d ∷ cs) c =
      ap (if_file d.urid (port_of d)) (files-snoc cs c)
      ∙ if_file-append d.urid (port_of d) (files cs) (if_file c.urid (port_of c) [])

  -- A port connected to neither.
  pub aside-Wired :
      (i : ℕ) (t : Target) (cn : List (ℕ × Target)) (cs : List (LoadedControl F))
      → own ((i, t) ∷ []) ≡ []
      → to_file ((i, t) ∷ []) ≡ []
      → Wired cn cs
      → Wired (cn ++ (i, t) ∷ []) cs
  aside-Wired i t cn cs no_value no_file v = record {
    own_values =
        own-append cn ((i, t) ∷ [])
        ∙ ap (◌++◌ (own cn)) no_value
        ∙ append-nil (own cn)
        ∙ v.own_values;
    sequences =
        to_file-append cn ((i, t) ∷ [])
        ∙ ap (◌++◌ (to_file cn)) no_file
        ∙ append-nil (to_file cn)
        ∙ v.sequences;
  }

  pub control-Wired :
      (i : ℕ) (t : Target) (cn : List (ℕ × Target)) (cs : List (LoadedControl F))
      (c : LoadedControl F)
      → own ((i, t) ∷ []) ≡ if_value c.urid (port_of c, 0 + length cs) []
      → to_file ((i, t) ∷ []) ≡ if_file c.urid (port_of c) []
      → Wired cn cs
      → Wired (cn ++ (i, t) ∷ []) (cs ++ c ∷ [])
  control-Wired i t cn cs c value file v = record {
    own_values =
        own-append cn ((i, t) ∷ [])
        ∙ ap (◌++◌ (own cn)) value
        ∙ ap (λ l. l ++ if_value c.urid (port_of c, 0 + length cs) []) v.own_values
        ∙ sym (values-snoc 0 cs c);
    sequences =
        to_file-append cn ((i, t) ∷ [])
        ∙ ap (◌++◌ (to_file cn)) file
        ∙ ap (λ l. l ++ if_file c.urid (port_of c) []) v.sequences
        ∙ sym (files-snoc cs c);
  }
