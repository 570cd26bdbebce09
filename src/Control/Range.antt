-- ===== src/Control/Range.antt =====
-- PluginControl.cpp: where the default value of a control lies.
use amprack_6_pc.Base.{
  arith, ℕ, ◌≡◌, refl, ap, ◌∙◌, true, false, none, some, Bool-cases, inl, inr, if◌then◌else◌,
}
use amprack_6_pc.Control.{
  Floats, Control, toggle_control, float_control, RangeHint, JsonPort, has, bounded_below,
  bounded_above, toggled, integer, default_mask, unset, scaled, lower_limit, upper_limit,
  ladspa_default, raise, clamp, override, settle, from_ladspa, read_number, is_true, json_control,
  from_json,
}

module _ {F : Type 0} (f : Floats F) where
  -- No float is below itself.
  abbrev pub IsIrreflexive : Type 0
  IsIrreflexive = (x : F) → f.lt x x ≡ false

  -- `d` lies between `lo` and `hi`.
  abbrev pub Within : F → F → F → Type 0
  Within lo hi d = (f.lt d lo ≡ false) × (f.lt hi d ≡ false)

  raise-low : (lo d : F) → IsIrreflexive → f.lt (raise f lo d) lo ≡ false
  raise-low lo d irr = elim (Bool-cases (f.lt d lo)) [
    | inl low ↦ ap (λ b. f.lt (if b then lo else d) lo) low ∙ irr lo
    | inr fine ↦ ap (λ b. f.lt (if b then lo else d) lo) fine ∙ fine
  ]

  -- "Check the default" puts the default into the range, if the range is not empty.
  clamp-Within : (lo hi d : F) → IsIrreflexive → f.lt hi lo ≡ false → Within lo hi (clamp f lo hi d)
  clamp-Within lo hi d irr order =
      let r : F = raise f lo d in
      elim (Bool-cases (f.lt hi r)) [
        | inl high ↦ (
          ap (λ b. f.lt (if b then hi else r) lo) high ∙ order,
          ap (λ b. f.lt hi (if b then hi else r)) high ∙ irr hi,
        )
        | inr fine ↦ (
          ap (λ b. f.lt (if b then hi else r) lo) fine ∙ raise-low lo d irr,
          ap (λ b. f.lt hi (if b then hi else r)) fine ∙ fine,
        )
      ]

  -- A control that is read has the index of its port.
  pub from_json-port :
      (junk : F) (j : JsonPort F) (c : Control F) → from_json f junk j ≡ some c → c.port ≡ j.index
  unfolding from_json json_control
  from_json-port junk j c e = ground arith

  -- A control port of a JSON description whose range is not empty has a default value within the
  -- range, which is also the selected value.
  pub from_json-Within :
      (junk lo hi d : F) (j : JsonPort F)
      → IsIrreflexive
      → is_true j.input_port ≡ true
      → is_true j.control_port ≡ true
      → read_number f j.minimum ≡ some lo
      → read_number f j.maximum ≡ some hi
      → read_number f j.default ≡ some d
      → f.lt hi lo ≡ false
      → (c : Control F) × (v : F) × (from_json f junk j ≡ some c)
        × (c.def ≡ some v)
        × (c.val ≡ some v)
        × Within c.min c.max v
  unfolding from_json json_control
  from_json-Within junk lo hi d j irr input control rl rh rd order =
      let v : F = clamp f lo hi d in
      let c : Control F = record {
        port = j.index;
        min = lo;
        max = hi;
        def = some v;
        kind = some (if is_true j.toggle then toggle_control else float_control);
        fine = none;
        coarse = none;
        sel = some v;
        val = some v;
        is_logarithmic = is_true j.logarithmic;
      } in
      (c, v, rw (input, control, rl, rh, rd) refl, refl, refl, clamp-Within lo hi d irr order)

  module _ (port : ℕ) (h : RangeHint F) where
    abbrev pub low : F
    low = lower_limit f h.hints (scaled f h.hints h.lower)

    abbrev pub high : F
    high = upper_limit f h.hints (scaled f h.hints h.upper)

    -- The default value before the overrides.
    abbrev pub start : F
    start =
        clamp f low high
          (ladspa_default f h.hints (scaled f h.hints h.lower) (scaled f h.hints h.upper))

    pub from_ladspa-port : (from_ladspa f port h).port ≡ port
    unfolding from_ladspa override settle
    from_ladspa-port = elim (Bool-cases (has h.hints toggled)) [
      | inl t ↦ rw t refl
      | inr t ↦ elim (Bool-cases (has h.hints integer)) [
        | inl n ↦ rw (t, n) refl
        | inr n ↦ rw (t, n) refl
      ]
    ]

    from_ladspa-plain :
        has h.hints toggled ≡ false
        → has h.hints integer ≡ false
        → ((from_ladspa f port h).min ≡ low)
          × ((from_ladspa f port h).max ≡ high)
          × ((from_ladspa f port h).def ≡ some (if f.eq start (unset f) then f.num 0 else start))
    unfolding from_ladspa override settle
    from_ladspa-plain t i = rw (t, i) (refl, refl, refl)

    -- A LADSPA control that is neither toggled nor an integer, with a range that is not empty, has a
    -- default value within its range, unless the value comes out as the -678 that stands for none.
    pub from_ladspa-Within :
        IsIrreflexive
        → has h.hints toggled ≡ false
        → has h.hints integer ≡ false
        → f.lt high low ≡ false
        → f.eq start (unset f) ≡ false
        → (v : F) × ((from_ladspa f port h).def ≡ some v)
          × Within (from_ladspa f port h).min (from_ladspa f port h).max v
    from_ladspa-Within irr t i order known =
        let (at_low, at_high, at_def) = from_ladspa-plain t i in
        (
          start,
          at_def ∙ ap (λ b. some (if b then f.num 0 else start)) known,
          rw (at_low, at_high) (clamp-Within low high _ irr order),
        )

    -- A toggled LADSPA control without bounds and without a default starts at -1, below its range
    -- from 0 to 1, when floats order and round -678, -1, 0 and 1 as the machine does.
    pub from_ladspa-toggle_low :
        has h.hints toggled ≡ true
        → has h.hints bounded_below ≡ false
        → has h.hints bounded_above ≡ false
        → has h.hints default_mask ≡ false
        → f.lt (unset f) (f.neg (f.num 1)) ≡ true
        → f.lt (f.num 1) (f.neg (f.num 1)) ≡ false
        → f.nearbyint (f.neg (f.num 1)) ≡ f.neg (f.num 1)
        → f.eq (f.neg (f.num 1)) (unset f) ≡ false
        → ((from_ladspa f port h).min ≡ f.num 0)
          × ((from_ladspa f port h).max ≡ f.num 1)
          × ((from_ladspa f port h).def ≡ some (f.neg (f.num 1)))
    unfolding from_ladspa override settle
    from_ladspa-toggle_low t below above no_default l₁ l₂ rounds known =
        rw (t, below, above, no_default, l₁, l₂, rounds, known) (refl, refl, refl)
