-- ===== src/Engine/Order.antt =====
-- engine.cc: moving a plugin up and down the rack.
use amprack_6_pc.Base.{
  lt→leb, ℕ, ◌+◌, ◌-◌, ◌≤◌, ◌≡◌, refl, sym, ap, ◌∙◌, true, false, none, some, List, [], ◌∷◌, ◌++◌,
  map, arith, length, take, drop, leb, take-append_length, drop-append_length, length-append, ne→==,
  eq→==, Bool-cases, inl, inr,
}
use amprack_6_pc.Plugin.{Plugin}
use amprack_6_pc.Engine.Build.{
  switched_on, switched_on-cons, switched_on-skip, chain, plugin_wiring, build_plugin_chain-entries,
}
use amprack_6_pc.Engine.{Engine, set_bypass, rotate, move_active_plugin_down, move_active_plugin_up}

le→leb : (a b : ℕ) → a ≤ b → leb a b ≡ true
le→leb a b h = ground arith

-- `std::rotate` exchanges the two parts that meet at `middle`.
rotate-parts {ℓ} :
    {T : Type ℓ} (first middle last : ℕ) (front left right back : List T)
    → first ≡ length front
    → middle ≡ length front + length left
    → last ≡ length front + length left + length right
    → rotate first middle last (front ++ (left ++ (right ++ back)))
      ≡ some (front ++ (right ++ (left ++ back)))
unfolding rotate
rotate-parts {T} first middle last front left right back ef em el =
    rw (le→leb last (length xs) fits, keep, part_left, part_right, rest) refl
  where
    xs : List T
    xs = front ++ (left ++ (right ++ back))

    fits : last ≤ length xs
    fits = omega (
      arith,
      length-append {ℓ} front (left ++ (right ++ back)),
      length-append {ℓ} left (right ++ back),
      length-append {ℓ} right back,
    )

    keep : take first xs ≡ front
    keep = ap (λ (t : ℕ). take t xs) ef ∙ take-append_length front (left ++ (right ++ back))

    from_first : drop first xs ≡ left ++ (right ++ back)
    from_first =
        ap (λ (t : ℕ). drop t xs) {y = length front + 0} (omega arith)
        ∙ drop-append_length front (left ++ (right ++ back)) 0

    from_middle : drop middle xs ≡ right ++ back
    from_middle =
        ap (λ (t : ℕ). drop t xs) em
        ∙ drop-append_length front (left ++ (right ++ back)) (length left)
        ∙ ap (λ (t : ℕ). drop t (left ++ (right ++ back))) {y = length left + 0} (omega arith)
        ∙ drop-append_length left (right ++ back) 0

    part_left : take (middle - first) (drop first xs) ≡ left
    part_left = rw from_first (
        ap (λ (t : ℕ). take t (left ++ (right ++ back))) (omega arith)
        ∙ take-append_length left (right ++ back))

    part_right : take (last - middle) (drop middle xs) ≡ right
    part_right =
        rw from_middle
          (ap (λ (t : ℕ). take t (right ++ back)) (omega arith) ∙ take-append_length right back)

    rest : drop last xs ≡ back
    rest =
        ap (λ (t : ℕ). drop t xs) {y = length front + (length left + (length right + 0))}
          (omega arith)
        ∙ drop-append_length front (left ++ (right ++ back)) (length left + (length right + 0))
        ∙ drop-append_length left (right ++ back) (length right + 0)
        ∙ drop-append_length right back 0

-- Rotating two neighbours by one swaps them.
rotate-swap {ℓ} :
    {T : Type ℓ} (p q r : ℕ) (left : List T) (a b : T) (right : List T)
    → p ≡ length left
    → q ≡ p + 1
    → r ≡ p + 2
    → rotate p q r (left ++ a ∷ b ∷ right) ≡ some (left ++ b ∷ a ∷ right)
rotate-swap p q r left a b right e eq er =
    rotate-parts p q r left (a ∷ []) (b ∷ []) right e (omega arith) (omega arith)

module _ {A : Type 0} where
  pub switched_on-append :
      (xs ys : List (Plugin A)) → switched_on (xs ++ ys) ≡ switched_on xs ++ switched_on ys
  switched_on-append [] ys = refl
  switched_on-append (x ∷ xs) ys = elim (Bool-cases x.active) [
    | inl e ↦
        switched_on-cons x (xs ++ ys) e
        ∙ ap (◌∷◌ x) (switched_on-append xs ys)
        ∙ ap (λ l. l ++ switched_on ys) (sym (switched_on-cons x xs e))
    | inr e ↦
        switched_on-skip x (xs ++ ys) e
        ∙ switched_on-append xs ys
        ∙ ap (λ l. l ++ switched_on ys) (sym (switched_on-skip x xs e))
  ]

  -- Swapping two plugins keeps how many are switched on.
  pub switched_on-swap :
      (left : List (Plugin A)) (a b : Plugin A) (right : List (Plugin A))
      → length (switched_on (left ++ b ∷ a ∷ right)) ≡ length (switched_on (left ++ a ∷ b ∷ right))
  switched_on-swap left a b right =
      let count = λ (x y : Plugin A).
        ap length (switched_on-append left (x ∷ y ∷ right))
        ∙ length-append (switched_on left) (switched_on (x ∷ y ∷ right))
        ∙ ap (λ l. length (switched_on left) + length l) (switched_on-append (x ∷ y ∷ []) right)
        ∙ ap (λ t. length (switched_on left) + t)
            (length-append (switched_on (x ∷ y ∷ [])) (switched_on right)
              ∙ ap (λ l. length l + length (switched_on right))
                  (switched_on-append (x ∷ []) (y ∷ []))
              ∙ ap (λ t. t + length (switched_on right))
                  (length-append (switched_on (x ∷ [])) (switched_on (y ∷ [])))) in
      omega (arith, count a b, count b a)

  -- What both moves leave: the new order in the rack, and in the chain of the audio thread.
  pub record Reordered (ps : List (Plugin A)) (e' : Engine A) : Type 0 where
    pub rack : e'.active_plugins ≡ ps
    pub entries : chain e'.processor ≡ map plugin_wiring (switched_on ps)
    pub size : length e'.processor.slots ≡ 10

  module _ (e : Engine A) (left : List (Plugin A)) (a b : Plugin A) (right : List (Plugin A))
      (rack : e.active_plugins ≡ left ++ a ∷ b ∷ right) (long : length e.processor.slots ≡ 10)
      (few : length (switched_on e.active_plugins) ≤ 10) where
    few_swapped : length (switched_on (left ++ b ∷ a ∷ right)) ≤ 10
    few_swapped =
        omega (arith, switched_on-swap left a b right, ap (λ l. length (switched_on l)) rack)

    -- Moving the plugin at `p` down swaps it with the next one, in the rack and in the chain.
    pub move_down-swaps :
        (p : ℕ)
        → p ≡ length left
        → (e' : Engine A) × (move_active_plugin_down p e ≡ some (p + 1, e'))
          × Reordered (left ++ b ∷ a ∷ right) e'
    unfolding move_active_plugin_down
    move_down-swaps p at_left =
        let moved : Engine A = record e { active_plugins = left ++ b ∷ a ∷ right } in
        let (e', built, entries, same, _, size, _) =
          build_plugin_chain-entries moved long few_swapped in
        (
          e',
          rw
              (
                ne→== p (length e.active_plugins)
                    (omega (arith, ap length rack, length-append left (a ∷ b ∷ right))),
                rack,
                rotate-swap p (p + 1) (p + 2) left a b right at_left refl refl,
                built,
              )
              refl,
          record { rack = same; entries = entries; size = size },
        )

    -- Moving the plugin at `p` up swaps it with the one before, and leaves `bypass` clear.
    pub move_up-swaps :
        (p : ℕ)
        → p ≡ length left + 1
        → (e' : Engine A) × (move_active_plugin_up p e ≡ some (p - 1, e'))
          × Reordered (left ++ b ∷ a ∷ right) e'
          × (e'.processor.bypass ≡ false)
    unfolding move_active_plugin_up
    move_up-swaps p at_b =
        let moved : Engine A = record (set_bypass true e) {
          active_plugins = left ++ b ∷ a ∷ right;
        } in
        let (e', built, entries, same, _, size, _) =
          build_plugin_chain-entries moved long few_swapped in
        (
          set_bypass false e',
          rw
              (
                ne→== p 0 (omega arith),
                rack,
                rotate-swap (p - 1) p (p + 1) left a b right (omega arith) (omega arith)
                    (omega arith),
                built,
              )
              refl,
          record { rack = same; entries = entries; size = size },
          refl,
        )

  -- At the index just past the rack a move down does nothing. At the last plugin it rotates past
  -- the end of the vector, which is a fault: the guard is one off.
  pub move_down-end :
      (e : Engine A) (p : ℕ)
      → (p ≡ length e.active_plugins → move_active_plugin_down p e ≡ some (p, e))
        × (p + 1 ≡ length e.active_plugins → move_active_plugin_down p e ≡ none)
  unfolding move_active_plugin_down rotate
  move_down-end e p = (
    λ h. rw (eq→== p (length e.active_plugins) h) refl,
    λ h.
        rw
          (
            ne→== p (length e.active_plugins) (omega arith),
            lt→leb (p + 2) (length e.active_plugins) (omega arith),
          )
          refl,
  )

  -- A move up is undone by a move down of the plugin where it now stands.
  pub move_up_down :
      (e : Engine A) (left : List (Plugin A)) (a b : Plugin A) (right : List (Plugin A)) (p : ℕ)
      → e.active_plugins ≡ left ++ a ∷ b ∷ right
      → length e.processor.slots ≡ 10
      → length (switched_on e.active_plugins) ≤ 10
      → p ≡ length left
      → (e₁ e₂ : Engine A) × (move_active_plugin_up (p + 1) e ≡ some (p, e₁))
        × (move_active_plugin_down p e₁ ≡ some (p + 1, e₂))
        × (e₂.active_plugins ≡ e.active_plugins)
        × (chain e₂.processor ≡ map plugin_wiring (switched_on e.active_plugins))
  move_up_down e left a b right p rack long few at_left =
      let (e₁, up, r₁, _) = move_up-swaps e left a b right rack long few (p + 1) (omega arith) in
      let (e₂, down, r₂) =
        move_down-swaps e₁ left b a right r₁.rack r₁.size
          (omega (
            arith,
            ap (λ l. length (switched_on l)) r₁.rack,
            ap (λ l. length (switched_on l)) rack,
            switched_on-swap left a b right,
          ))
          p at_left in
      (
        e₁,
        e₂,
        up ∙ ap (λ (t : ℕ). some (t, e₁)) (omega arith),
        down,
        r₂.rack ∙ sym rack,
        r₂.entries ∙ ap (λ l. map plugin_wiring (switched_on l)) (sym rack),
      )
