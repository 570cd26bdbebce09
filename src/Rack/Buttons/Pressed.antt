-- ===== src/Rack/Buttons/Pressed.antt =====
-- pluginui.cpp: which plugin the buttons of a widget act on.
use amprack_6_pc.Base.{
  ℕ, zero, suc, ◌+◌, ◌-◌, ◌<◌, ◌≤◌, ◌≡◌, ◌>>=◌, refl, ap, ◌∙◌, arith, ltb, lt→ltb, Bool, true,
  Bool-cases, inl, inr, some, List, [], ◌∷◌, ◌++◌, get_elem?, set, take, drop, length,
  length-append, take-append_length, drop-append_length,
}
use amprack_6_pc.Plugin.{Plugin}
use amprack_6_pc.Engine.{Engine, build_plugin_chain}
use amprack_6_pc.Engine.Build.{
  switched_on, switched_on-cons, switched_on-skip, build_plugin_chain-entries,
}
use amprack_6_pc.Engine.Order.{Reordered, switched_on-append, switched_on-swap}
use amprack_6_pc.Rack.{pos}
use amprack_6_pc.Rack.Widgets.{move_down-tracks}
use amprack_6_pc.Rack.Buttons.{
  Board, without, delete_button, bypass, bypasses, switch_button, down_button,
}

module _ {A : Type 0} where
  set-append :
      (left right : List (Plugin A)) (a b : Plugin A)
      → set (left ++ a ∷ right) (length left) b ≡ left ++ b ∷ right
  set-append [] right a b = refl
  set-append (x ∷ left) right a b = ap (◌∷◌ x) (set-append left right a b)

  get_elem?-middle :
      (left right : List (Plugin A)) (a : Plugin A)
      → get_elem? (left ++ a ∷ right) (length left) ≡ some a
  get_elem?-middle [] right a = refl
  get_elem?-middle (x ∷ left) right a = get_elem?-middle left right a

  rebuilt :
      (e : Engine A) (ps : List (Plugin A))
      → length e.processor.slots ≡ 10
      → length (switched_on ps) ≤ 10
      → (e' : Engine A) × (build_plugin_chain (record e { active_plugins = ps }) ≡ some e')
        × Reordered ps e'
  rebuilt e ps long few =
      let (e', run, entries, same, _, size, _) =
        build_plugin_chain-entries (record e { active_plugins = ps }) long few in
      (e', run, record { rack = same; entries = entries; size = size })

  switched_on-tail :
      (a : Plugin A) (ps : List (Plugin A))
      → length (switched_on ps) ≤ length (switched_on (a ∷ ps))
  switched_on-tail a ps = elim (Bool-cases a.active) [
    | inl on ↦ omega (arith, ap length (switched_on-cons a ps on))
    | inr off ↦ omega (arith, ap length (switched_on-skip a ps off))
  ]

  switched_on-without :
      (left right : List (Plugin A)) (a : Plugin A)
      → length (switched_on (left ++ right)) ≤ length (switched_on (left ++ a ∷ right))
  switched_on-without left right a = omega (
    arith,
    ap length (switched_on-append left right),
    ap length (switched_on-append left (a ∷ right)),
    length-append (switched_on left) (switched_on right),
    length-append (switched_on left) (switched_on (a ∷ right)),
    switched_on-tail a right,
  )

  -- With at most ten plugins switched on, the delete button of a widget that was made for the plugin which
  -- stands at its first index takes this plugin out of the rack and of the chain of the audio thread.
  pub delete_button-removes :
      (b : Board A) (w : ℕ) (left : List (Plugin A)) (a : Plugin A) (right : List (Plugin A))
      → b.rack.engine.active_plugins ≡ left ++ a ∷ right
      → get_elem? b.cd_indices w ≡ some (length left)
      → length b.rack.engine.processor.slots ≡ 10
      → length (switched_on (left ++ a ∷ right)) ≤ 10
      → (b' : Board A) × (delete_button w b ≡ some b')
        × Reordered (left ++ right) b'.rack.engine
        × (b'.rack.uiv ≡ b.rack.uiv)
  unfolding delete_button
  delete_button-removes b w left a right plugins made long few =
      let (e, run, order) =
        rebuilt b.rack.engine (left ++ right) long
          (omega (arith, few, switched_on-without left right a)) in
      let erased : take (length left) b.rack.engine.active_plugins
            ++ drop (length left + 1) b.rack.engine.active_plugins
          ≡ left ++ right =
        ap (λ ps. take (length left) ps ++ drop (length left + 1) ps) plugins
        ∙ ap (λ l. l ++ drop (length left + 1) (left ++ a ∷ right))
            (take-append_length left (a ∷ right))
        ∙ ap (λ l. left ++ l) (drop-append_length left (a ∷ right) 1) in
      let inside : ltb (length left) (length b.rack.engine.active_plugins) ≡ true =
        lt→ltb (length left) (length b.rack.engine.active_plugins)
          (omega (arith, ap length plugins, length-append left (a ∷ right))) in
      (
        record b { rack = record b.rack { engine = e }; cards = without w b.cards },
        rw (delete_button, made) (rw (inside, erased) (rw run refl)),
        order,
        refl,
      )

  bypass-switches :
      (b : Board A) (w : ℕ) (value : Bool) (left : List (Plugin A)) (a : Plugin A)
      (right : List (Plugin A))
      → b.rack.engine.active_plugins ≡ left ++ a ∷ right
      → get_elem? b.cd_indices w ≡ some (length left)
      → length b.rack.engine.processor.slots ≡ 10
      → length (switched_on (left ++ record a { active = value } ∷ right)) ≤ 10
      → (e : Engine A) × (bypass w value b
          ≡ some (record b { rack = record b.rack { engine = e } }))
        × Reordered (left ++ record a { active = value } ∷ right) e
  unfolding bypass
  bypass-switches b w value left a right plugins made long few =
      let switched : Plugin A = record a { active = value } in
      let (e, run, order) = rebuilt b.rack.engine (left ++ switched ∷ right) long few in
      let there : get_elem? b.rack.engine.active_plugins (length left) ≡ some a =
        ap (λ ps. get_elem? ps (length left)) plugins ∙ get_elem?-middle left right a in
      let stored : set b.rack.engine.active_plugins (length left) switched
          ≡ left ++ switched ∷ right =
        ap (λ ps. set ps (length left) switched) plugins ∙ set-append left right a switched in
      (e, rw (bypass, made) (rw (there, stored) (rw run refl)), order)

  -- The calls after the first one find the plugin as they would leave it.
  bypasses-switches :
      (n : ℕ) (b : Board A) (w : ℕ) (value : Bool) (left : List (Plugin A)) (a : Plugin A)
      (right : List (Plugin A))
      → b.rack.engine.active_plugins ≡ left ++ a ∷ right
      → get_elem? b.cd_indices w ≡ some (length left)
      → length b.rack.engine.processor.slots ≡ 10
      → length (switched_on (left ++ record a { active = value } ∷ right)) ≤ 10
      → (b' : Board A) × (bypasses (suc n) w value b ≡ some b')
        × Reordered (left ++ record a { active = value } ∷ right) b'.rack.engine
        × (b'.rack.uiv ≡ b.rack.uiv)
  unfolding bypasses
  bypasses-switches zero b w value left a right plugins made long few =
      let (e, run, order) = bypass-switches b w value left a right plugins made long few in
      (record b { rack = record b.rack { engine = e } }, rw run refl, order, refl)
  bypasses-switches (suc n) b w value left a right plugins made long few =
      let (e, run, order) = bypass-switches b w value left a right plugins made long few in
      let (b', later, order', same) =
        bypasses-switches n (record b { rack = record b.rack { engine = e } }) w value left
          (record a { active = value }) right order.rack made order.size few in
      (b', rw run later, order', same)

  -- A widget was made for the plugin which stands at its first index. If it has a slider, its switch
  -- switches this plugin on or off, in the rack and in the chain of the audio thread, when at most ten are
  -- switched on then. If it has none, its switch does nothing.
  pub switch_button-switches :
      (b : Board A) (w : ℕ) (value : Bool) (left : List (Plugin A)) (a : Plugin A)
      (right : List (Plugin A)) (n : ℕ)
      → b.rack.engine.active_plugins ≡ left ++ a ∷ right
      → get_elem? b.cd_indices w ≡ some (length left)
      → get_elem? b.sliders w ≡ some n
      → length b.rack.engine.processor.slots ≡ 10
      → length (switched_on (left ++ record a { active = value } ∷ right)) ≤ 10
      → (0 < n
          → (b' : Board A) × (switch_button w value b ≡ some b')
            × Reordered (left ++ record a { active = value } ∷ right) b'.rack.engine
            × (b'.rack.uiv ≡ b.rack.uiv))
        × (n ≡ 0 → switch_button w value b ≡ some b)
  unfolding switch_button bypasses
  switch_button-switches b w value left a right n plugins made has long few = (
    λ some_sliders.
        let (b', run, order, same) =
          bypasses-switches (n - 1) b w value left a right plugins made long few in
        let pressed : switch_button w value b ≡ bypasses (suc (n - 1)) w value b =
          ap (λ o. o >>= λ k. bypasses k w value b) has
          ∙ ap (λ k. bypasses k w value b) {x = n} {y = suc (n - 1)} (omega arith) in
        (b', pressed ∙ run, order, same),
    λ no_sliders.
        ap (λ o. o >>= λ k. bypasses k w value b) has ∙ ap (λ k. bypasses k w value b) no_sliders,
  )

  -- At most ten plugins are switched on, and a widget whose plugin is not the last has its place as its index,
  -- now and from the start, as has the next one now. After its button for moving down its delete button
  -- removes the plugin that its own was swapped with; its own stays in the rack and in the chain.
  pub delete_button-moved :
      (b : Board A) (w : ℕ) (left : List (Plugin A)) (a c : Plugin A) (right : List (Plugin A))
      → b.rack.engine.active_plugins ≡ left ++ a ∷ c ∷ right
      → w ≡ length left
      → get_elem? b.cd_indices w ≡ some w
      → get_elem? b.rack.uiv w ≡ some (pos w)
      → get_elem? b.rack.uiv (w + 1) ≡ some (pos (w + 1))
      → length b.rack.engine.processor.slots ≡ 10
      → length (switched_on b.rack.engine.active_plugins) ≤ 10
      → (b' : Board A) × (b'' : Board A) × (down_button w b ≡ some b')
        × (get_elem? b'.rack.uiv w ≡ some (pos (w + 1)))
        × (delete_button w b' ≡ some b'')
        × Reordered (left ++ a ∷ right) b''.rack.engine
  unfolding down_button
  delete_button-moved b w left a c right plugins place made own next long few =
      let (r, moves, order, at_new, _) =
        move_down-tracks b.rack left a c right plugins long few w place own next in
      let b' : Board A = record b { rack = r } in
      let swapped : length (switched_on (left ++ c ∷ a ∷ right)) ≤ 10 =
        omega
          (arith, few, switched_on-swap left a c right, ap (λ l. length (switched_on l)) plugins) in
      let (b'', deletes, kept, _) =
        delete_button-removes b' w left c (a ∷ right) order.rack (made ∙ ap some place) order.size
          swapped in
      (b', b'', rw moves refl, at_new, deletes, kept)
