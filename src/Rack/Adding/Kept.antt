-- ===== src/Rack/Adding/Kept.antt =====
-- rack.cc: adding plugins by name keeps the rack and the arrays of the audio thread in step.
use Prim.Native.String.{String}
use mathlib.Core.Path.{subst}
use amprack_6_pc.Base.{
  ◌-◌, ◌≡◌, refl, sym, ap, ◌∙◌, Bool, true, false, Option, Option-cases, some, inl, inr, List, [],
  ◌∷◌, ◌++◌, length, if◌then◌else◌, ◌>>=◌, bind-some, eq_of_some-eq,
}
use amprack_6_pc.Engine.{Engine, add_plugin}
use amprack_6_pc.Engine.Steps.{InStep, add_plugin-InStep}
use amprack_6_pc.Rack.{Rack, pos}
use amprack_6_pc.Rack.Adding.{Entry, Catalogue, find_entry, try_table, add_plugin_by_name}

module _ {A : Type 0} (c : Catalogue A) where
  try_table-InStep :
      (xs : List Entry) (requested : String) (e : Engine A) (ok : Bool) (e' : Engine A)
      → InStep e
      → try_table c xs requested e ≡ some (ok, e')
      → InStep e'
  unfolding try_table
  try_table-InStep xs requested e ok e' v run = elim (Option-cases (find_entry xs requested)) [
    | inl missing ↦
        let same : try_table c xs requested e ≡ some (false, e) = rw (try_table, missing) refl in
        subst InStep (ap (λ (r : Bool × Engine A). r.1) (eq_of_some-eq (sym same ∙ run))) v
    | inr (x, found) ↦
        let same : try_table c xs requested e ≡ add_plugin (c.load x.library x.index) e =
          rw (try_table, found) refl in
        add_plugin-InStep (c.load x.library x.index) e ok e' v (sym same ∙ run)
  ]

  -- The LADSPA table is tried where the LV2 table has not added a plugin.
  second_table-InStep :
      (requested : String) (added : Bool) (e : Engine A) (ok : Bool) (e' : Engine A)
      → InStep e
      → (if added then some (added, e) else try_table c c.ladspa_json requested e) ≡ some (ok, e')
      → InStep e'
  second_table-InStep requested true e ok e' v run =
      subst InStep (ap (λ (r : Bool × Engine A). r.1) (eq_of_some-eq run)) v
  second_table-InStep requested false e ok e' v run =
      try_table-InStep c.ladspa_json requested e ok e' v run

  abbrev with_widget : Rack A → Bool × Engine A → Bool × Rack A
  with_widget r second =
      if second.0
      then (
        true,
        record { engine = second.1; uiv = r.uiv ++ pos (length second.1.active_plugins - 1) ∷ [] },
      )
      else (false, record r { engine = second.1 })

  with_widget-engine :
      (r : Rack A) (ok : Bool) (e : Engine A) → (with_widget r (ok, e)).1.engine ≡ e
  with_widget-engine r true e = refl
  with_widget-engine r false e = refl

  pub add_plugin_by_name-InStep :
      (requested : String) (r : Rack A) (ok : Bool) (r' : Rack A)
      → InStep r.engine
      → add_plugin_by_name c requested r ≡ some (ok, r')
      → InStep r'.engine
  unfolding add_plugin_by_name
  add_plugin_by_name-InStep requested r ok r' v run =
      let second_table : Bool × Engine A → Option (Bool × Engine A) =
        λ first. if first.0 then some first else try_table c c.ladspa_json requested first.1 in
      let ((ok₁, e₁), first, rest) =
        bind-some (try_table c c.lv2_json requested r.engine)
          (λ first. second_table first >>= λ second. some (with_widget r second)) (ok, r') run in
      let ((ok₂, e₂), second, last) =
        bind-some (second_table (ok₁, e₁)) (λ second. some (with_widget r second)) (ok, r') rest in
      let v₁ = try_table-InStep c.lv2_json requested r.engine ok₁ e₁ v first in
      let same = ap (λ (x : Bool × Rack A). x.1.engine) (eq_of_some-eq last) in
      subst InStep (sym (with_widget-engine r ok₂ e₂) ∙ same)
        (second_table-InStep requested ok₁ e₁ ok₂ e₂ v₁ second)
