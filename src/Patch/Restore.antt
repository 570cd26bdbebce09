-- ===== src/Patch/Restore.antt =====
-- engine.cc and pluginui.cpp: what the sliders of a plugin show after its own saved text was read.
use amprack_6_pc.Base.{
  ℕ, ◌+◌, ◌≤◌, ◌≡◌, refl, ap, ◌∙◌, true, false, some, List, [], ◌∷◌, ◌++◌, Bool-cases, inl, inr,
  ◌≢◌, ◌⊎◌, arith, length, append_assoc, lt→ltb, ne→==, if◌then◌else◌, Bool,
}
use amprack_6_pc.Patch.{
  Knob, Effect, save_effect, Toolkit, float_type, lv2_atom_input_port, lv2_atom_output_port,
  semicolon, is_skipped, is_file, split_item, getline, controls_text, sliders, load_preset,
}

-- A text without a semicolon.
unfoldable pub NoSemicolon : List ℕ → Type 0
NoSemicolon [] = Unit
NoSemicolon (c ∷ cs) = (c ≢ semicolon) × NoSemicolon cs

split_item-append :
    (xs rest : List ℕ) → NoSemicolon xs → split_item (xs ++ semicolon ∷ rest) ≡ (xs, rest)
unfolding split_item NoSemicolon
split_item-append [] rest h = refl
split_item-append (x ∷ xs) rest h = rw (ne→== x semicolon h.0, split_item-append xs rest h.1) refl

getline-append :
    (xs rest : List ℕ) → NoSemicolon xs → getline (xs ++ semicolon ∷ rest) ≡ some (xs, rest)
unfolding getline NoSemicolon
getline-append [] rest h = ap some (split_item-append [] rest h)
getline-append (x ∷ xs) rest h = ap some (split_item-append (x ∷ xs) rest h)

module _ {F S : Type 0} (k : Toolkit F S) where
  -- The values that `getPreset` writes.
  unfoldable pub saved_values : List (Knob F) → List F
  unfolding is_skipped
  saved_values [] = []
  saved_values (c ∷ cs) =
      let rest = saved_values cs in if is_skipped c.kind then rest else c.def ∷ rest

  -- One slider after the other gets a value, until either runs out.
  unfoldable pub assign : List F → List S → List S
  assign vs [] = []
  assign [] (s ∷ ss) = s ∷ ss
  assign (v ∷ vs) (s ∷ ss) = k.set_value (k.atof (k.to_string v)) s ∷ assign vs ss

  joined_text : List F → List ℕ
  joined_text [] = []
  joined_text (v ∷ vs) = k.to_string v ++ semicolon ∷ joined_text vs

  joined_text-if :
      (b : Bool) (v : F) (vs : List F)
      → (if b then joined_text vs else k.to_string v ++ (semicolon ∷ []) ++ joined_text vs)
        ≡ joined_text (if b then vs else v ∷ vs)
  unfolding joined_text
  joined_text-if true v vs = refl
  joined_text-if false v vs = append_assoc (k.to_string v) (semicolon ∷ []) (joined_text vs)

  controls_text-joined :
      (x size : ℕ) (cs : List (Knob F))
      → x + length cs ≤ size
      → controls_text k x size cs ≡ joined_text (saved_values cs)
  unfolding controls_text saved_values joined_text
  controls_text-joined x size [] h = refl
  controls_text-joined x size (c ∷ cs) h =
      rw
        (
          lt→ltb x (size + 2) (omega (arith, h)),
          controls_text-joined (x + 1) size cs (omega (arith, h)),
        )
        (joined_text-if (is_skipped c.kind) c.def (saved_values cs))

  load_preset-cons :
      (str item rest : List ℕ) (s : S) (ss : List S)
      → getline str ≡ some (item, rest)
      → load_preset k str (s ∷ ss) ≡ k.set_value (k.atof item) s ∷ load_preset k rest ss
  unfolding load_preset
  load_preset-cons str item rest s ss e = rw (load_preset, e) refl

  load_preset-joined :
      ((v : F) → NoSemicolon (k.to_string v))
      → (vs : List F) (ss : List S) → load_preset k (joined_text vs) ss ≡ assign vs ss
  unfolding load_preset joined_text assign getline
  load_preset-joined clean [] [] = refl
  load_preset-joined clean [] (s ∷ ss) = refl
  load_preset-joined clean (v ∷ vs) [] = refl
  load_preset-joined clean (v ∷ vs) (s ∷ ss) =
      load_preset-cons (joined_text (v ∷ vs)) (k.to_string v) (joined_text vs) s ss
        (getline-append (k.to_string v) (joined_text vs) (clean v))
      ∙ ap (◌∷◌ (k.set_value (k.atof (k.to_string v)) s)) (load_preset-joined clean vs ss)

  -- The sliders of a plugin, when the ports among the controls are only of type `ATOM`.
  unfoldable pub NoLv2Ports : List (Knob F) → Type 0
  NoLv2Ports [] = Unit
  NoLv2Ports (c ∷ cs) = (is_skipped c.kind ≡ is_file c.kind) × NoLv2Ports cs

  abbrev pub fresh : Knob F → S
  fresh c = k.set_value c.val (k.new_slider c.min c.max c.val)

  -- A slider made anew for a control, and set to the value that the control's saved text stands for.
  unfoldable pub restored : List (Knob F) → List S
  unfolding is_file
  restored [] = []
  restored (c ∷ cs) =
      let rest = restored cs in
      if is_file c.kind then rest else k.set_value (k.atof (k.to_string c.def)) (fresh c) ∷ rest

  assign-restored :
      (cs : List (Knob F)) → NoLv2Ports cs → assign (saved_values cs) (sliders k cs) ≡ restored cs
  unfolding assign saved_values sliders NoLv2Ports restored
  assign-restored [] h = refl
  assign-restored (c ∷ cs) h = rw (h.0) (elim (Bool-cases (is_file c.kind)) [
    | inl e ↦ rw e (assign-restored cs h.1)
    | inr e ↦
        rw e
          (ap (◌∷◌ (k.set_value (k.atof (k.to_string c.def)) (fresh c))) (assign-restored cs h.1))
  ])

  load_preset-assign :
      (e : Effect F) (ss : List S)
      → ((v : F) → NoSemicolon (k.to_string v))
      → load_preset k (save_effect k e).controls ss ≡ assign (saved_values e.controls) ss
  unfolding save_effect
  load_preset-assign e ss clean =
      rw (controls_text-joined 0 (length e.controls) e.controls (omega arith))
        (load_preset-joined clean (saved_values e.controls) ss)

  -- When no control is an LV2 atom port, and numbers are written without semicolons, new sliders of
  -- a plugin that read what getPreset saved of it get, each, the value of their own control, as the
  -- text of it stands for.
  pub load_preset-restores :
      (e : Effect F)
      → ((v : F) → NoSemicolon (k.to_string v))
      → NoLv2Ports e.controls
      → load_preset k (save_effect k e).controls (sliders k e.controls) ≡ restored e.controls
  load_preset-restores e clean plain =
      load_preset-assign e (sliders k e.controls) clean ∙ assign-restored e.controls plain

  -- When numbers are written without semicolons, the first control of the plugin is an LV2 atom port
  -- for input or output, and the second a float control, the slider of the port gets the value of the
  -- float control, and the values of the others go to the sliders from that of the float control on.
  pub load_preset-shifts :
      (e : Effect F) (c d : Knob F) (ds : List (Knob F))
      → ((v : F) → NoSemicolon (k.to_string v))
      → e.controls ≡ c ∷ d ∷ ds
      → (c.kind ≡ lv2_atom_input_port) ⊎ (c.kind ≡ lv2_atom_output_port)
      → d.kind ≡ float_type
      → load_preset k (save_effect k e).controls (sliders k e.controls)
        ≡ k.set_value (k.atof (k.to_string d.def)) (fresh c)
          ∷ assign (saved_values ds) (fresh d ∷ sliders k ds)
  unfolding assign saved_values sliders is_skipped is_file
  load_preset-shifts e c d ds clean all port knob =
      load_preset-assign e (sliders k e.controls) clean ∙ elim port [
        | inl input ↦ rw (all, input, knob) refl
        | inr output ↦ rw (all, output, knob) refl
      ]
