-- ===== src/Rack/Buttons/Kept.antt =====
-- pluginui.cpp and rack.cc: the buttons of the widgets keep the rack and the arrays of the audio thread in step.
use mathlib.Core.Path.{subst}
use amprack_6_pc.Base.{
  ℕ, zero, suc, ◌+◌, ◌≡◌, ◌==◌, leb, ltb, ap, Bool, Option, some, inl, inr, List, ◌++◌, get_elem?,
  set, take, drop, length, ◌>>=◌, assert, bind-some, if-some, eq_of_some-eq,
}
use amprack_6_pc.Plugin.{Plugin}
use amprack_6_pc.Engine.{Engine, build_plugin_chain, move_active_plugin_down, move_active_plugin_up}
use amprack_6_pc.Engine.Steps.{
  InStep, build_plugin_chain-InStep, move_active_plugin_down-InStep, move_active_plugin_up-InStep,
}
use amprack_6_pc.Rack.{
  Rack, ℤ, pos, negsuc, move_down_at, move_down, move_up_at, move_up, lower, lift,
}
use amprack_6_pc.Rack.Buttons.{
  Board, delete_button, bypass, bypasses, switch_button, down_button, up_button, without,
}

module _ {A : Type 0} where
  -- After the engine has moved the plugin, only the indices of the widgets change.
  renumber-InStep :
      (f : Engine A) (first : Option (List ℤ)) (second : List ℤ → Option (List ℤ)) (r' : Rack A)
      → InStep f
      → (first >>= λ others. second others >>= λ all. some (record { engine = f; uiv = all }))
        ≡ some r'
      → InStep r'.engine
  renumber-InStep f first second r' v run =
      let (others, _, rest) =
        bind-some first (λ others. second others >>= λ all. some (record { engine = f; uiv = all }))
          r' run in
      let (all, _, last) =
        bind-some (second others) (λ all. some (record { engine = f; uiv = all })) r' rest in
      subst InStep (ap (λ (x : Rack A). x.engine) (eq_of_some-eq last)) v

  move_down_at-InStep :
      (w : ℕ) (i : ℤ) (r r' : Rack A)
      → InStep r.engine
      → move_down_at w i r ≡ some r'
      → InStep r'.engine
  unfolding move_down_at
  move_down_at-InStep w (negsuc n) r r' v run = subst (λ x. InStep x.engine) (eq_of_some-eq run) v
  move_down_at-InStep w (pos index) r r' v run =
      let build : ℕ × Engine A → Option (Rack A) = λ moved. lower (index + 1) r.uiv >>= λ others.
      lift w others >>= λ all. some (record { engine = moved.1; uiv = all }) in
      let move : Option (Rack A) = move_active_plugin_down index r.engine >>= build in
      elim (if-some (leb (length r.engine.active_plugins) index) (some r) move r' run) [
        | inl held ↦ subst (λ x. InStep x.engine) (eq_of_some-eq held) v
        | inr moves ↦
            let ((q, f), moved, then_number) =
              bind-some (move_active_plugin_down index r.engine) build r' moves in
            renumber-InStep f (lower (index + 1) r.uiv) (lift w) r'
              (move_active_plugin_down-InStep index q r.engine f v moved) then_number
      ]

  move_down-InStep :
      (w : ℕ) (r r' : Rack A) → InStep r.engine → move_down w r ≡ some r' → InStep r'.engine
  unfolding move_down
  move_down-InStep w r r' v run =
      let (i, _, rest) = bind-some (get_elem? r.uiv w) (λ i. move_down_at w i r) r' run in
      move_down_at-InStep w i r r' v rest

  move_up_at-InStep :
      (w : ℕ) (i : ℤ) (r r' : Rack A)
      → InStep r.engine
      → move_up_at w i r ≡ some r'
      → InStep r'.engine
  unfolding move_up_at
  move_up_at-InStep w (negsuc n) r r' v run = cc
  move_up_at-InStep w (pos index) r r' v run =
      let build : ℕ × Engine A → Option (Rack A) = λ moved. lift (index + 1) r.uiv >>= λ others.
      lower w others >>= λ all. some (record { engine = moved.1; uiv = all }) in
      let move : Option (Rack A) = move_active_plugin_up index r.engine >>= build in
      elim (if-some (index == 0) (some r) move r' run) [
        | inl held ↦ subst (λ x. InStep x.engine) (eq_of_some-eq held) v
        | inr moves ↦
            let ((q, f), moved, then_number) =
              bind-some (move_active_plugin_up index r.engine) build r' moves in
            renumber-InStep f (lift (index + 1) r.uiv) (lower w) r'
              (move_active_plugin_up-InStep index q r.engine f v moved) then_number
      ]

  move_up-InStep :
      (w : ℕ) (r r' : Rack A) → InStep r.engine → move_up w r ≡ some r' → InStep r'.engine
  unfolding move_up
  move_up-InStep w r r' v run =
      let (i, _, rest) = bind-some (get_elem? r.uiv w) (λ i. move_up_at w i r) r' run in
      move_up_at-InStep w i r r' v rest

  -- A button that puts a list of plugins into the rack and builds the chain again.
  put-InStep :
      (ps : List (Plugin A)) (cards : List ℕ) (b b' : Board A)
      → InStep b.rack.engine
      → (build_plugin_chain (record b.rack.engine { active_plugins = ps }) >>= λ e.
          some (record b { rack = record b.rack { engine = e }; cards = cards }))
        ≡ some b'
      → InStep b'.rack.engine
  put-InStep ps cards b b' v run =
      let e₁ : Engine A = record b.rack.engine { active_plugins = ps } in
      let (e, built, last) =
        bind-some (build_plugin_chain e₁)
          (λ e. some (record b { rack = record b.rack { engine = e }; cards = cards })) b' run in
      subst InStep (ap (λ (x : Board A). x.rack.engine) (eq_of_some-eq last))
        (build_plugin_chain-InStep e₁ e v.size built)

  pub delete_button-InStep :
      (w : ℕ) (b b' : Board A)
      → InStep b.rack.engine
      → delete_button w b ≡ some b'
      → InStep b'.rack.engine
  unfolding delete_button
  delete_button-InStep w b b' v run =
      let ps = b.rack.engine.active_plugins in
      let left : ℕ → List (Plugin A) = λ index. take index ps ++ drop (index + 1) ps in
      let build : ℕ → Option (Board A) = λ index.
        build_plugin_chain (record b.rack.engine { active_plugins = left index }) >>= λ e.
        some (record b { rack = record b.rack { engine = e }; cards = without w b.cards }) in
      let (index, _, rest) =
        bind-some (get_elem? b.cd_indices w)
          (λ index. assert (ltb index (length ps)) >>= λ _. build index) b' run in
      let (_, _, last) = bind-some (assert (ltb index (length ps))) (λ _. build index) b' rest in
      put-InStep (left index) (without w b.cards) b b' v last

  bypass-InStep :
      (w : ℕ) (value : Bool) (b b' : Board A)
      → InStep b.rack.engine
      → bypass w value b ≡ some b'
      → InStep b'.rack.engine
  unfolding bypass
  bypass-InStep w value b b' v run =
      let ps = b.rack.engine.active_plugins in
      let switched : ℕ → Plugin A → List (Plugin A) =
        λ index p. set ps index (record p { active = value }) in
      let build : ℕ → Plugin A → Option (Board A) = λ index p.
        build_plugin_chain (record b.rack.engine { active_plugins = switched index p }) >>= λ e.
        some (record b { rack = record b.rack { engine = e } }) in
      let (index, _, rest) =
        bind-some (get_elem? b.cd_indices w) (λ index. get_elem? ps index >>= build index) b' run in
      let (p, _, last) = bind-some (get_elem? ps index) (build index) b' rest in
      put-InStep (switched index p) b.cards b b' v last

  bypasses-InStep :
      (n w : ℕ) (value : Bool) (b b' : Board A)
      → InStep b.rack.engine
      → bypasses n w value b ≡ some b'
      → InStep b'.rack.engine
  unfolding bypasses
  bypasses-InStep zero w value b b' v run =
      subst (λ (x : Board A). InStep x.rack.engine) (eq_of_some-eq run) v
  bypasses-InStep (suc n) w value b b' v run =
      let (b₁, first, rest) = bind-some (bypass w value b) (bypasses n w value) b' run in
      bypasses-InStep n w value b₁ b' (bypass-InStep w value b b₁ v first) rest

  pub switch_button-InStep :
      (w : ℕ) (value : Bool) (b b' : Board A)
      → InStep b.rack.engine
      → switch_button w value b ≡ some b'
      → InStep b'.rack.engine
  unfolding switch_button
  switch_button-InStep w value b b' v run =
      let (n, _, rest) = bind-some (get_elem? b.sliders w) (λ n. bypasses n w value b) b' run in
      bypasses-InStep n w value b b' v rest

  pub down_button-InStep :
      (w : ℕ) (b b' : Board A)
      → InStep b.rack.engine
      → down_button w b ≡ some b'
      → InStep b'.rack.engine
  unfolding down_button
  down_button-InStep w b b' v run =
      let (r, moved, last) =
        bind-some (move_down w b.rack) (λ r. some (record b { rack = r })) b' run in
      subst InStep (ap (λ (x : Board A). x.rack.engine) (eq_of_some-eq last))
        (move_down-InStep w b.rack r v moved)

  pub up_button-InStep :
      (w : ℕ) (b b' : Board A)
      → InStep b.rack.engine
      → up_button w b ≡ some b'
      → InStep b'.rack.engine
  unfolding up_button
  up_button-InStep w b b' v run =
      let (r, moved, last) =
        bind-some (move_up w b.rack) (λ r. some (record b { rack = r })) b' run in
      subst InStep (ap (λ (x : Board A). x.rack.engine) (eq_of_some-eq last))
        (move_up-InStep w b.rack r v moved)
