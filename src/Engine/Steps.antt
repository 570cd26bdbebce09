-- ===== src/Engine/Steps.antt =====
-- engine.cc: the rack and the arrays of the audio thread stay in step.
use mathlib.Core.Path.{subst}
use native.Mathlib.Decide.{dec_le}
use amprack_6_pc.Base.{
  ℕ, ◌+◌, ◌-◌, ◌≤◌, ◌≡◌, sym, ap, ◌∙◌, arith, ◌==◌, Bool, true, false, inl, inr, Option, none, some,
  List, [], ◌∷◌, ◌++◌, map, length, ◌>>=◌, bind-some, if-some, eq_of_some-eq,
}
use amprack_6_pc.Plugin.{Plugin}
use amprack_6_pc.Engine.{
  Engine, build_plugin_chain, set_bypass, add_plugin, rotate, move_active_plugin_down,
  move_active_plugin_up, clear,
}
use amprack_6_pc.Engine.Build.{
  switched_on, plugin_wiring, chain, build_plugin_chain-entries, build_plugin_chain-overflows,
}

module _ {A : Type 0} where
  -- The audio thread goes through the plugins that are switched on, in rack order, and they are at most ten.
  pub record InStep (e : Engine A) : Type 0 where
    pub entries : chain e.processor ≡ map plugin_wiring (switched_on e.active_plugins)
    pub size : length e.processor.slots ≡ 10
    pub few : length (switched_on e.active_plugins) ≤ 10

  pub build_plugin_chain-InStep :
      (e e' : Engine A) → length e.processor.slots ≡ 10 → build_plugin_chain e ≡ some e' → InStep e'
  build_plugin_chain-InStep e e' long run =
      elim (dec_le (length (switched_on e.active_plugins)) 10) [
        | yes few ↦
            let (f, built, entries, same, _, size, _) = build_plugin_chain-entries e long few in
            let f_InStep : InStep f = record {
              entries = entries ∙ ap (λ ps. map plugin_wiring (switched_on ps)) (sym same);
              size = size;
              few = omega (arith, few, ap (λ ps. length (switched_on ps)) same);
            } in
            subst InStep (eq_of_some-eq (sym built ∙ run)) f_InStep
        | no many ↦ let fault = build_plugin_chain-overflows e long (omega (arith, many)) in cc
      ]

  set_bypass-InStep : (value : Bool) (e : Engine A) → InStep e → InStep (set_bypass value e)
  set_bypass-InStep value e v = record { entries = v.entries; size = v.size; few = v.few }

  pub add_plugin-InStep :
      (made : Option (Plugin A)) (e : Engine A) (ok : Bool) (e' : Engine A)
      → InStep e
      → add_plugin made e ≡ some (ok, e')
      → InStep e'
  unfolding add_plugin
  add_plugin-InStep none e ok e' v run =
      subst InStep (ap (λ r. r.1) (eq_of_some-eq run)) (set_bypass-InStep false e v)
  add_plugin-InStep (some p) e ok e' v run =
      let e₁ : Engine A = record (set_bypass true e) {
        active_plugins = e.active_plugins ++ p ∷ [];
      } in
      let (e₂, built, rest) =
        bind-some (build_plugin_chain e₁) (λ x. some (true, set_bypass false x)) (ok, e') run in
      subst InStep (ap (λ r. r.1) (eq_of_some-eq rest))
        (set_bypass-InStep false e₂ (build_plugin_chain-InStep e₁ e₂ v.size built))

  pub move_active_plugin_down-InStep :
      (p q : ℕ) (e e' : Engine A)
      → InStep e
      → move_active_plugin_down p e ≡ some (q, e')
      → InStep e'
  unfolding move_active_plugin_down
  move_active_plugin_down-InStep p q e e' v run =
      let build : List (Plugin A) → Option (ℕ × Engine A) =
        λ ps. build_plugin_chain (record e { active_plugins = ps }) >>= λ f. some (p + 1, f) in
      elim (if-some (p == length e.active_plugins) (some (p, e))
        (rotate p (p + 1) (p + 2) e.active_plugins >>= build) (q, e') run) [
          | inl held ↦ subst InStep (ap (λ (r : ℕ × Engine A). r.1) (eq_of_some-eq held)) v
          | inr moved ↦
              let (ps, _, then_build) =
                bind-some (rotate p (p + 1) (p + 2) e.active_plugins) build (q, e') moved in
              let e₁ : Engine A = record e { active_plugins = ps } in
              let (f, built, rest) =
                bind-some (build_plugin_chain e₁) (λ f. some (p + 1, f)) (q, e') then_build in
              subst InStep (ap (λ (r : ℕ × Engine A). r.1) (eq_of_some-eq rest))
                (build_plugin_chain-InStep e₁ f v.size built)
        ]

  pub move_active_plugin_up-InStep :
      (p q : ℕ) (e e' : Engine A) → InStep e → move_active_plugin_up p e ≡ some (q, e') → InStep e'
  unfolding move_active_plugin_up
  move_active_plugin_up-InStep p q e e' v run =
      let build : List (Plugin A) → Option (ℕ × Engine A) = λ ps.
        build_plugin_chain (record (set_bypass true e) { active_plugins = ps }) >>= λ f.
        some (p - 1, set_bypass false f) in
      elim (if-some (p == 0) (some (p, e)) (rotate (p - 1) p (p + 1) e.active_plugins >>= build)
        (q, e') run) [
          | inl held ↦ subst InStep (ap (λ (r : ℕ × Engine A). r.1) (eq_of_some-eq held)) v
          | inr moved ↦
              let (ps, _, then_build) =
                bind-some (rotate (p - 1) p (p + 1) e.active_plugins) build (q, e') moved in
              let e₁ : Engine A = record (set_bypass true e) { active_plugins = ps } in
              let (f, built, rest) =
                bind-some (build_plugin_chain e₁) (λ f. some (p - 1, set_bypass false f)) (q, e')
                  then_build in
              subst InStep (ap (λ (r : ℕ × Engine A). r.1) (eq_of_some-eq rest))
                (set_bypass-InStep false f (build_plugin_chain-InStep e₁ f v.size built))
        ]

  pub clear-InStep : (e e' : Engine A) → InStep e → clear e ≡ some e' → InStep e'
  unfolding clear
  clear-InStep e e' v run =
      build_plugin_chain-InStep (record e { active_plugins = [] }) e' v.size run
