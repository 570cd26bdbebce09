-- ===== src/Storage/Loaded.antt =====
-- rack.cc and engine.cc: what `load_preset` makes of the rack, its widgets and the files of its plugins.
use mathlib.Core.Path.{subst}
use mathlib.Core.Option.{none-ne-some}
use amprack_6_pc.Base.{
  ℕ, ◌+◌, ◌-◌, ◌≤◌, ◌≡◌, refl, sym, ap, ◌∙◌, arith, true, false, inl, inr, Option, Option-cases,
  none, some, List, [], ◌∷◌, ◌++◌, eq_of_some-eq, length, get_elem?, get_elem?-append_right,
  append_assoc, append-nil, length-append, ◌>>=◌,
}
use amprack_6_pc.Plugin.{Plugin}
use amprack_6_pc.Engine.Build.{switched_on}
use amprack_6_pc.Engine.Order.{switched_on-append}
use amprack_6_pc.Rack.{Rack, ℤ}
use amprack_6_pc.Rack.Adding.{Catalogue, add_plugin_by_name, found}
use amprack_6_pc.Rack.Adding.Loaded.{
  Shows, clear-Shows, is_some_plugin, found-cases, add_plugin_by_name-Shows,
}
use amprack_6_pc.Patch.{Knob, Saved, Toolkit, sliders, load_preset}
use amprack_6_pc.Sound.{Studio}
use amprack_6_pc.Storage.{
  Library, Loader, Desk, Preset, escaped, give_file, add_player, fill_panel, load_all, cleared,
  load_json,
}

module _ {A F S B : Type 0} (l : Library) (k : Toolkit F S) (ld : Loader A B) (c : Catalogue A)
    (knobs : Plugin A → List (Knob F)) where
  -- The plugins that a preset stands for.
  unfoldable pub plugins_of : List Saved → List (Plugin A)
  plugins_of [] = []
  plugins_of (s ∷ ss) = found c (l.escape s.name) ++ plugins_of ss

  -- The sliders of their widgets.
  unfoldable pub panel_of : Saved → List (Plugin A) → List (List S)
  panel_of s [] = []
  panel_of s (q ∷ qs) = load_preset k (l.escape_text s.controls) (sliders k (knobs q)) ∷ []

  unfoldable pub panels_of : List Saved → List (List S)
  unfolding panel_of
  panels_of [] = []
  panels_of (s ∷ ss) = panel_of s (found c (l.escape s.name)) ++ panels_of ss

  -- The plugins' own loads of their files in turn, each for its place in the rack.
  unfoldable pub give_found : ℕ → Saved → List (Plugin A) → Studio B → Option (ℕ × Studio B)
  give_found i s [] st = some (i, st)
  give_found i s (q ∷ qs) st =
      give_file ld i (escaped l s.file) (add_player ld q st) >>= λ st'. some (i + 1, st')

  unfoldable pub files_after : ℕ → List Saved → Studio B → Option (Studio B)
  unfolding give_found
  files_after i [] st = some st
  files_after i (s ∷ ss) st =
      give_found i s (found c (l.escape s.name)) st >>= λ r. files_after r.0 ss r.1

  load_all-skip :
      (s : Saved) (ss : List Saved) (i : ℕ) (d : Desk A S B) (r : Rack A)
      → add_plugin_by_name c (l.escape s.name) d.rack ≡ some (false, r)
      → load_all l k ld c knobs (s ∷ ss) i d ≡ load_all l k ld c knobs ss i (record d { rack = r })
  unfolding load_all
  load_all-skip s ss i d r run = rw (load_all, run) refl

  load_all-step :
      (s : Saved) (ss : List Saved) (i : ℕ) (d : Desk A S B) (r : Rack A) (q : Plugin A)
      → add_plugin_by_name c (l.escape s.name) d.rack ≡ some (true, r)
      → get_elem? r.engine.active_plugins (length r.engine.active_plugins - 1) ≡ some q
      → load_all l k ld c knobs (s ∷ ss) i d
        ≡ (fill_panel l k ld c knobs s i r q d >>= λ d'. load_all l k ld c knobs ss (i + 1) d')
  unfolding load_all
  load_all-step s ss i d r q run last = rw (load_all, run, last) refl

  last-snoc :
      (xs ps : List (Plugin A)) (p : Plugin A)
      → xs ≡ ps ++ p ∷ []
      → get_elem? xs (length xs - 1) ≡ some p
  last-snoc xs ps p e =
      ap (λ l. get_elem? l (length l - 1)) e
      ∙ ap (get_elem? (ps ++ p ∷ [])) {x = length (ps ++ p ∷ []) - 1} {y = length ps + 0}
          (omega (arith, length-append ps (p ∷ [])))
      ∙ get_elem?-append_right ps (p ∷ []) 0

  files_after-skip :
      (s : Saved) (ss : List Saved) (i : ℕ) (st : Studio B)
      → found c (l.escape s.name) ≡ []
      → files_after i (s ∷ ss) st ≡ files_after i ss st
  unfolding files_after give_found
  files_after-skip s ss i st e = rw (files_after, e) refl

  files_after-step :
      (s : Saved) (ss : List Saved) (i : ℕ) (st : Studio B) (q : Plugin A)
      → found c (l.escape s.name) ≡ q ∷ []
      → files_after i (s ∷ ss) st ≡ (
          give_file ld i (escaped l s.file) (add_player ld q st) >>= λ st'.
          files_after (i + 1) ss st')
  unfolding files_after give_found
  files_after-step s ss i st q e =
      elim (Option-cases (give_file ld i (escaped l s.file) (add_player ld q st))) [
        | inl a ↦ rw (files_after, e) (rw a refl)
        | inr (st', a) ↦ rw (files_after, e) (rw a refl)
      ]

  -- What the loop makes of the rack, the widgets and the files, and when it is a fault.
  pub record Loads (old : List ℤ) (ss : List Saved) (i : ℕ) (ps : List (Plugin A)) (d : Desk A S B)
      (run : Option (Desk A S B)) : Type 0 where
    pub succeeds :
        (st : Studio B)
        → files_after i ss d.studio ≡ some st
        → (d' : Desk A S B) × (run ≡ some d')
          × Shows c old d'.rack (ps ++ plugins_of ss)
          × (d'.panels ≡ d.panels ++ panels_of ss)
          × (d'.studio ≡ st)
    pub faults : files_after i ss d.studio ≡ none → run ≡ none

  skip-Loads :
      (old : List ℤ) (s : Saved) (ss : List Saved) (i : ℕ) (ps : List (Plugin A)) (d : Desk A S B)
      (r : Rack A)
      → found c (l.escape s.name) ≡ []
      → add_plugin_by_name c (l.escape s.name) d.rack ≡ some (false, r)
      → Loads old ss i ps
          (record d { rack = r })
          (load_all l k ld c knobs ss i (record d { rack = r }))
      → Loads old (s ∷ ss) i ps d (load_all l k ld c knobs (s ∷ ss) i d)
  unfolding plugins_of panels_of panel_of
  skip-Loads old s ss i ps d r missing run later =
      let same = load_all-skip s ss i d r run in
      let files = files_after-skip s ss i d.studio missing in
      let plugins : plugins_of (s ∷ ss) ≡ plugins_of ss = rw (plugins_of, missing) refl in
      let panels : panels_of (s ∷ ss) ≡ panels_of ss = rw (panels_of, missing) refl in
      record {
        succeeds = λ st e.
            let (d', done, shows, filled, studio) = later.succeeds st (sym files ∙ e) in
            (
              d',
              same ∙ done,
              subst (λ q. Shows c old d'.rack (ps ++ q)) (sym plugins) shows,
              filled ∙ ap (λ q. d.panels ++ q) (sym panels),
              studio,
            );
        faults = λ e. same ∙ later.faults (sym files ∙ e);
      }

  -- The desk after a plugin was filled.
  abbrev pub filled : Saved → Rack A → Plugin A → Desk A S B → Studio B → Desk A S B
  filled s r q d st = record { rack = r; panels = d.panels ++ panel_of s (q ∷ []); studio = st }

  step-Loads :
      (old : List ℤ) (s : Saved) (ss : List Saved) (i : ℕ) (ps : List (Plugin A)) (d : Desk A S B)
      (r : Rack A) (q : Plugin A)
      → found c (l.escape s.name) ≡ q ∷ []
      → add_plugin_by_name c (l.escape s.name) d.rack ≡ some (true, r)
      → get_elem? r.engine.active_plugins (length r.engine.active_plugins - 1) ≡ some q
      → ((st : Studio B)
          → Loads old ss
              (i + 1)
              (ps ++ q ∷ [])
              (filled s r q d st)
              (load_all l k ld c knobs ss (i + 1) (filled s r q d st)))
      → Loads old (s ∷ ss) i ps d (load_all l k ld c knobs (s ∷ ss) i d)
  unfolding plugins_of panels_of panel_of fill_panel
  step-Loads old s ss i ps d r q here run last later =
      let same = load_all-step s ss i d r q run last in
      let files = files_after-step s ss i d.studio q here in
      let plugins : ps ++ plugins_of (s ∷ ss) ≡ (ps ++ q ∷ []) ++ plugins_of ss =
        rw (plugins_of, here) (sym (append_assoc ps (q ∷ []) (plugins_of ss))) in
      let panels : d.panels ++ panels_of (s ∷ ss)
          ≡ (d.panels ++ panel_of s (q ∷ [])) ++ panels_of ss =
        rw (panels_of, here) (sym (append_assoc d.panels (panel_of s (q ∷ [])) (panels_of ss))) in
      elim (Option-cases (give_file ld i (escaped l s.file) (add_player ld q d.studio))) [
        | inl fault ↦ record {
          succeeds = λ st e.
              let never : none ≡ some st =
                sym (ap (λ o. o >>= λ x. files_after (i + 1) ss x) fault) ∙ sym files ∙ e in
              absurd (none-ne-some st never);
          faults = λ _. same ∙ rw fault refl;
        }
        | inr (st', given) ↦
            let v = later st' in
            let files' = files ∙ ap (λ o. o >>= λ x. files_after (i + 1) ss x) given in
            let same' = same ∙ rw given refl in
            record {
              succeeds = λ st e.
                  let (d', done, shows, all, studio) = v.succeeds st (sym files' ∙ e) in
                  (
                    d',
                    same' ∙ done,
                    subst (λ qs. Shows c old d'.rack qs) (sym plugins) shows,
                    all ∙ sym panels,
                    studio,
                  );
              faults = λ e. same' ∙ v.faults (sym files' ∙ e);
            }
      ]

  pub load_all-Loads :
      (old : List ℤ) (ss : List Saved) (i : ℕ) (ps : List (Plugin A)) (d : Desk A S B)
      → Shows c old d.rack ps
      → length (switched_on (ps ++ plugins_of ss)) ≤ 10
      → Loads old ss i ps d (load_all l k ld c knobs ss i d)
  unfolding load_all plugins_of panels_of files_after
  load_all-Loads old [] i ps d h few = record {
    succeeds = λ st e. (d, refl, rw (append-nil ps) h, sym (append-nil d.panels), eq_of_some-eq e);
    faults = λ e. cc;
  }
  load_all-Loads old (s ∷ ss) i ps d h few =
      let n = l.escape s.name in
      let grouped = append_assoc ps (found c n) (plugins_of ss) in
      let (ok, r, run, shows, is) = add_plugin_by_name-Shows c old n d.rack ps h (
        omega (
          arith,
          few,
          ap (λ q. length (switched_on q)) grouped,
          ap length (switched_on-append (ps ++ found c n) (plugins_of ss)),
          length-append (switched_on (ps ++ found c n)) (switched_on (plugins_of ss)),
        )) in
      let few' : length (switched_on ((ps ++ found c n) ++ plugins_of ss)) ≤ 10 =
        omega (arith, few, ap (λ q. length (switched_on q)) grouped) in
      elim (found-cases c n) [
        | inl missing ↦
            let alone : ps ++ found c n ≡ ps = ap (λ q. ps ++ q) missing ∙ append-nil ps in
            skip-Loads old s ss i ps d r missing
              (run ∙ ap (λ b. some (b, r)) (is ∙ ap is_some_plugin missing))
              (load_all-Loads old ss i ps (record d { rack = r })
                (subst (Shows c old r) alone shows)
                (omega (arith, few', ap (λ q. length (switched_on (q ++ plugins_of ss))) alone)))
        | inr (q, here) ↦
            let shown = subst (λ qs. Shows c old r (ps ++ qs)) here shows in
            step-Loads old s ss i ps d r q here
              (run ∙ ap (λ b. some (b, r)) (is ∙ ap is_some_plugin here))
              (last-snoc r.engine.active_plugins ps q shown.runs.plugins)
              (λ st. load_all-Loads old ss (i + 1) (ps ++ q ∷ []) (filled s r q d st) shown (
                omega (
                  arith,
                  few',
                  ap (λ qs. length (switched_on ((ps ++ qs) ++ plugins_of ss))) here,
                )))
      ]

  -- A preset is loaded of whose plugins at most ten are switched on, and the plugins' loads of their
  -- files, in turn and each for its place, run without a fault. Then the load succeeds: the rack holds the
  -- plugins that were found, in the order of the preset, the audio thread goes through those that are
  -- switched on, new widgets have the indices of the plugins and the sliders that the preset says, and
  -- the files are loaded.
  pub load_json-Shows :
      (ss : List Saved) (j : Preset) (d : Desk A S B) (st : Studio B)
      → j.controls ≡ some ss
      → length d.rack.engine.processor.slots ≡ 10
      → length (switched_on (plugins_of ss)) ≤ 10
      → files_after 0 ss (cleared d.studio) ≡ some st
      → (d' : Desk A S B) × (load_json l k ld c knobs j d ≡ some d')
        × Shows c d.rack.uiv d'.rack (plugins_of ss)
        × (d'.panels ≡ d.panels ++ panels_of ss)
        × (d'.studio ≡ st)
  unfolding load_json
  load_json-Shows ss j d st controls long few files =
      let (e, clears, empty) = clear-Shows c d.rack long in
      let d₀ : Desk A S B = record d {
        rack = record d.rack { engine = e };
        studio = cleared d.studio;
      } in
      let v = load_all-Loads d.rack.uiv ss 0 [] d₀ empty few in
      let (d', run, shows, panels, studio) = v.succeeds st files in
      (d', rw (load_json, clears, controls) run, shows, panels, studio)

  -- Where the load of a file is a fault, so is that of the preset.
  pub load_json-faults :
      (ss : List Saved) (j : Preset) (d : Desk A S B)
      → j.controls ≡ some ss
      → length d.rack.engine.processor.slots ≡ 10
      → length (switched_on (plugins_of ss)) ≤ 10
      → files_after 0 ss (cleared d.studio) ≡ none
      → load_json l k ld c knobs j d ≡ none
  unfolding load_json
  load_json-faults ss j d controls long few files =
      let (e, clears, empty) = clear-Shows c d.rack long in
      let d₀ : Desk A S B = record d {
        rack = record d.rack { engine = e };
        studio = cleared d.studio;
      } in
      rw (load_json, clears, controls)
        ((load_all-Loads d.rack.uiv ss 0 [] d₀ empty few).faults files)
