-- ===== src/Rack/Widgets.antt =====
-- rack.cc: the indices that the widgets keep when plugins are moved.
use amprack_6_pc.Base.{
  ℕ, zero, suc, ◌+◌, ◌≤◌, ◌<◌, ◌≡◌, refl, ap, ◌∙◌, arith, some, List, [], ◌∷◌, ◌++◌, get_elem?, set,
  length, length-append, get_elem?-set_self, get_elem?-set_ne, lt→leb,
}
use amprack_6_pc.Plugin.{Plugin}
use amprack_6_pc.Engine.Build.{switched_on}
use amprack_6_pc.Engine.Order.{Reordered, move_down-swaps}
use amprack_6_pc.Rack.{Rack, ℤ, pos, pred_int, lower, lift, move_down_at, move_down}

in_range : (xs : List ℤ) (i : ℕ) (n : ℤ) → get_elem? xs i ≡ some n → i < length xs
in_range [] i n e = ground arith
in_range (x ∷ xs) zero n e = omega arith
in_range (x ∷ xs) (suc i) n e = omega (arith, in_range xs i n e)

lower-some :
    (i n : ℕ) (uiv : List ℤ)
    → get_elem? uiv i ≡ some (pos (n + 1))
    → lower i uiv ≡ some (set uiv i (pos n))
unfolding lower
lower-some i n uiv e =
    rw e (ap (λ (t : ℕ). some (set uiv i (pred_int (pos t)))) {x = n + 1} {y = suc n} (omega arith))

lift-some :
    (i n : ℕ) (uiv : List ℤ)
    → get_elem? uiv i ≡ some (pos n)
    → lift i uiv ≡ some (set uiv i (pos (n + 1)))
unfolding lift
lift-some i n uiv e = rw e refl

module _ {A : Type 0} (r : Rack A) (left : List (Plugin A)) (a b : Plugin A)
    (right : List (Plugin A)) (rack : r.engine.active_plugins ≡ left ++ a ∷ b ∷ right)
    (long : length r.engine.processor.slots ≡ 10)
    (few : length (switched_on r.engine.active_plugins) ≤ 10) where
  -- When the widget's place and that of the next one are their indices, a move down swaps the
  -- plugins in the rack and in the chain of the audio thread, and both widgets' indices.
  pub move_down-tracks :
      (w : ℕ)
      → w ≡ length left
      → get_elem? r.uiv w ≡ some (pos w)
      → get_elem? r.uiv (w + 1) ≡ some (pos (w + 1))
      → (r' : Rack A) × (move_down w r ≡ some r')
        × Reordered (left ++ b ∷ a ∷ right) r'.engine
        × (get_elem? r'.uiv w ≡ some (pos (w + 1)))
        × (get_elem? r'.uiv (w + 1) ≡ some (pos w))
  unfolding move_down move_down_at
  move_down-tracks w at_left own next =
      let (e', moved, order) = move_down-swaps r.engine left a b right rack long few w at_left in
      let others : List ℤ = set r.uiv (w + 1) (pos w) in
      let own' : get_elem? others w ≡ some (pos w) =
        get_elem?-set_ne r.uiv (w + 1) w (pos w) (omega arith) ∙ own in
      (
        record { engine = e'; uiv = set others w (pos (w + 1)) },
        rw
            (
              own,
              lt→leb (length r.engine.active_plugins) w
                  (omega (arith, ap length rack, length-append {0} left (a ∷ b ∷ right))),
              moved,
              lower-some (w + 1) w r.uiv next,
              lift-some w w others own',
            )
            refl,
        order,
        get_elem?-set_self others w (pos (w + 1)) (in_range others w (pos w) own'),
        get_elem?-set_ne others w (w + 1) (pos (w + 1)) (omega arith)
            ∙ get_elem?-set_self r.uiv (w + 1) (pos w) (in_range r.uiv (w + 1) (pos (w + 1)) next),
      )
