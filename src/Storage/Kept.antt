-- ===== src/Storage/Kept.antt =====
-- rack.cc: loading a preset keeps the rack and the arrays of the audio thread in step.
use mathlib.Core.Path.{subst}
use amprack_6_pc.Base.{
  ℕ, ◌+◌, ◌-◌, ◌≡◌, refl, sym, ap, ◌∙◌, inl, inr, Option-cases, Bool, true, false, Option, none,
  some, List, [], ◌∷◌, ◌++◌, length, get_elem?, ◌>>=◌, bind-some, eq_of_some-eq,
}
use amprack_6_pc.Plugin.{Plugin}
use amprack_6_pc.Engine.{Engine, clear}
use amprack_6_pc.Engine.Steps.{InStep, clear-InStep}
use amprack_6_pc.Rack.{Rack}
use amprack_6_pc.Rack.Adding.{Catalogue, add_plugin_by_name}
use amprack_6_pc.Rack.Adding.Kept.{add_plugin_by_name-InStep}
use amprack_6_pc.Patch.{Knob, Saved, Toolkit, sliders, load_preset}
use amprack_6_pc.Storage.{
  Library, Loader, Desk, Preset, escaped, give_file, add_player, cleared, fill_panel, load_all,
  load_json,
}

module _ {A F S B : Type 0} (l : Library) (k : Toolkit F S) (ld : Loader A B) (c : Catalogue A)
    (knobs : Plugin A → List (Knob F)) where
  -- The file and the widget of a plugin leave the rack as it is.
  fill_panel-rack :
      (p : Saved) (i : ℕ) (r : Rack A) (q : Plugin A) (d d' : Desk A S B)
      → fill_panel l k ld c knobs p i r q d ≡ some d'
      → r ≡ d'.rack
  unfolding fill_panel
  fill_panel-rack p i r q d d' run =
      let (s, _, last) =
        bind-some (give_file ld i (escaped l p.file) (add_player ld q d.studio))
          (λ s. some (record {
            rack = r;
            panels =
                d.panels ++ load_preset k (l.escape_text p.controls) (sliders k (knobs q)) ∷ [];
            studio = s;
          }))
          d' run in
      ap (λ (x : Desk A S B). x.rack) (eq_of_some-eq last)

  -- What follows the addition of a plugin.
  abbrev after_adding : Saved → List Saved → ℕ → Desk A S B → Bool × Rack A → Option (Desk A S B)
  after_adding p ps i d added = elim added.0 as (λ _. Option (Desk A S B)) [
    | false ↦ load_all l k ld c knobs ps i (record d { rack = added.1 })
    | true ↦
        get_elem? added.1.engine.active_plugins (length added.1.engine.active_plugins - 1) >>= λ q.
        fill_panel l k ld c knobs p i added.1 q d >>= λ d'. load_all l k ld c knobs ps (i + 1) d'
  ]

  after_adding-InStep :
      (p : Saved) (ps : List Saved) (i : ℕ) (d d' : Desk A S B) (ok : Bool) (r : Rack A)
      → ((i : ℕ) (x : Desk A S B)
          → InStep x.rack.engine
          → load_all l k ld c knobs ps i x ≡ some d'
          → InStep d'.rack.engine)
      → InStep r.engine
      → after_adding p ps i d (ok, r) ≡ some d'
      → InStep d'.rack.engine
  after_adding-InStep p ps i d d' false r later v run = later i (record d { rack = r }) v run
  after_adding-InStep p ps i d d' true r later v run =
      let fill : Plugin A → Option (Desk A S B) =
        λ q. fill_panel l k ld c knobs p i r q d >>= λ x. load_all l k ld c knobs ps (i + 1) x in
      let (q, _, rest) =
        bind-some (get_elem? r.engine.active_plugins (length r.engine.active_plugins - 1)) fill d'
          run in
      let (x, filled, last) =
        bind-some (fill_panel l k ld c knobs p i r q d) (λ x. load_all l k ld c knobs ps (i + 1) x)
          d' rest in
      later (i + 1) x
        (subst (λ (y : Rack A). InStep y.engine) (fill_panel-rack p i r q d x filled) v) last

  load_all-InStep :
      (ps : List Saved) (i : ℕ) (d d' : Desk A S B)
      → InStep d.rack.engine
      → load_all l k ld c knobs ps i d ≡ some d'
      → InStep d'.rack.engine
  unfolding load_all
  load_all-InStep [] i d d' v run =
      subst (λ (x : Desk A S B). InStep x.rack.engine) (eq_of_some-eq run) v
  load_all-InStep (p ∷ ps) i d d' v run =
      let ((ok, r), added, rest) =
        bind-some (add_plugin_by_name c (l.escape p.name) d.rack) (after_adding p ps i d) d' run in
      after_adding-InStep p ps i d d' ok r (λ i x. load_all-InStep ps i x d')
        (add_plugin_by_name-InStep c (l.escape p.name) d.rack ok r v added) rest

  pub load_json-InStep :
      (j : Preset) (d d' : Desk A S B)
      → InStep d.rack.engine
      → load_json l k ld c knobs j d ≡ some d'
      → InStep d'.rack.engine
  unfolding load_json
  load_json-InStep j d d' v run =
      let emptied : Engine A → Desk A S B =
        λ e. record d { rack = record d.rack { engine = e }; studio = cleared d.studio } in
      let fill : Engine A → Option (Desk A S B) = λ e.
        elim j.controls as (λ _. Option (Desk A S B)) [
          | none ↦ some (emptied e)
          | some ps ↦ load_all l k ld c knobs ps 0 (emptied e)
        ] in
      let (e, clears, rest) = bind-some (clear d.rack.engine) fill d' run in
      let kept = clear-InStep d.rack.engine e v clears in
      elim (Option-cases j.controls) [
        | inl missing ↦
            let same : fill e ≡ some (emptied e) = rw missing refl in
            let done : some (emptied e) ≡ some d' = sym same ∙ rest in
            subst (λ (x : Desk A S B). InStep x.rack.engine) (eq_of_some-eq done) kept
        | inr (ps, there) ↦
            let loads : fill e ≡ load_all l k ld c knobs ps 0 (emptied e) = rw there refl in
            load_all-InStep ps 0 (emptied e) d' kept (sym loads ∙ rest)
      ]
