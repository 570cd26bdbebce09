-- ===== src/Rack/Stepping.antt =====
-- rack.cc: `next_preset` and `prev_preset`.
use amprack_6_pc.Base.{
  ℕ, ◌+◌, ◌-◌, ◌<◌, ◌≡◌, refl, arith, ltb, none, some, List, get_elem?, length, get_elem?-none,
  drop-eq-cons, ne→==, if◌then◌else◌,
}
use amprack_6_pc.Rack.{next_preset, prev_preset}

module _ {J : Type 0} where
  -- Whatever tab was open before, a step forward loads a preset of the open tab, if it has any; and
  -- from a preset of this tab, a step back returns to it.
  pub next_preset-prev_preset :
      (presets : List J) (patch : ℕ)
      → 0 < length presets
      → (next : ℕ) × (j : J) × (next_preset presets patch ≡ some (next, some j))
        × (get_elem? presets next ≡ some j)
        × (patch < length presets
            → (i : J) × (get_elem? presets patch ≡ some i)
              × (prev_preset presets next ≡ some (patch, some i)))
  unfolding next_preset prev_preset
  next_preset-prev_preset presets patch some_preset =
      let next : ℕ = if ltb (length presets - 1) (patch + 1) then 0 else patch + 1 in
      let (j, at_next, _) = drop-eq-cons next presets (ground arith) in
      (
        next,
        j,
        ground (arith, at_next),
        at_next,
        λ inside.
            let (i, at_patch, _) = drop-eq-cons patch presets inside in
            (i, at_patch, ground (arith, at_patch)),
      )

  -- A step back from a patch number that a longer tab has left behind goes out of range, and throws.
  pub prev_preset-stale :
      (presets : List J) (patch : ℕ)
      → 0 < length presets
      → length presets < patch
      → prev_preset presets patch ≡ none
  unfolding prev_preset
  prev_preset-stale presets patch some_preset stale =
      rw
        (
          ne→== (length presets) 0 (omega arith),
          ne→== patch 0 (omega arith),
          get_elem?-none presets (patch - 1) (omega arith),
        )
        refl
