-- ===== src/Plugin/Json/Loaded/Made.antt =====
-- Plugin.cpp: the controls that `load` makes and the bytes that it allocates.
use amprack_6_pc.Base.{
  ℕ, ◌≡◌, refl, sym, ap, ◌∙◌, Bool, true, false, Option, none, some, List, [], ◌∷◌, ◌++◌,
  append_assoc, append-nil, if◌then◌else◌,
}
use amprack_6_pc.Control.{Control}
use amprack_6_pc.Plugin.Json.{Element, LoadedControl, Loading, Host, allocate}
use amprack_6_pc.Plugin.Json.Loaded.{
  PortClass, audio_in, audio_out, audio_other, control_in, control_out, atom_in, atom_out, other,
  class_of, FitsBy, AllFit, advance_by, advance, advance_all,
}

abbrev pub is_file : PortClass → Bool
is_file atom_in = true
is_file _ = false

abbrev pub is_notify : PortClass → Bool
is_notify atom_out = true
is_notify _ = false

-- The least size of the first port of a class.
unfoldable pub first_minimum :
    {F : Type 0} → (PortClass → Bool) → List (Element F × Control F) → Option ℕ
first_minimum test [] = none
first_minimum test ((e, c) ∷ rs) =
    let rest = first_minimum test rs in if test (class_of e) then e.control.minimum_size else rest

module _ {F : Type 0} (h : Host F) where
  -- What a port with a control contributes to `pluginControls`.
  control_by : PortClass → Element F → Control F → List (LoadedControl F)
  control_by control_in e c = record { control = c; urid = none } ∷ []
  control_by atom_in e c = record { control = c; urid = some (h.urid e.name) } ∷ []
  control_by _ e c = []

  -- The controls of all ports that have one, in order; those of atom ports have the number of the
  -- port's URI.
  unfoldable pub controls_of : List (Element F × Control F) → List (LoadedControl F)
  unfolding control_by
  controls_of [] = []
  controls_of ((e, c) ∷ rs) = control_by (class_of e) e c ++ controls_of rs

  controls-by :
      (k : PortClass) (e : Element F) (c : Control F) (l : Loading F)
      → (advance_by h k e c l).scan.controls ≡ l.scan.controls ++ control_by k e c
  unfolding advance_by control_by
  controls-by audio_in e c l = sym (append-nil l.scan.controls)
  controls-by audio_out e c l = sym (append-nil l.scan.controls)
  controls-by audio_other e c l = sym (append-nil l.scan.controls)
  controls-by control_in e c l = refl
  controls-by control_out e c l = sym (append-nil l.scan.controls)
  controls-by atom_in e c l = refl
  controls-by atom_out e c l = sym (append-nil l.scan.controls)
  controls-by other e c l = sym (append-nil l.scan.controls)

  pub advance_all-controls :
      (rs : List (Element F × Control F)) (l : Loading F)
      → (advance_all h rs l).scan.controls ≡ l.scan.controls ++ controls_of rs
  unfolding advance_all advance controls_of
  advance_all-controls [] l = sym (append-nil l.scan.controls)
  advance_all-controls ((e, c) ∷ rs) l =
      advance_all-controls rs (advance h (e, c) l)
      ∙ ap (λ cs. cs ++ controls_of rs) (controls-by (class_of e) e c l)
      ∙ append_assoc l.scan.controls (control_by (class_of e) e c) (controls_of rs)

  allocate-none : (header : ℕ) (old : Option ℕ) → allocate header none old ≡ old
  unfolding allocate
  allocate-none header none = refl
  allocate-none header (some n) = refl

  -- The first allocation stays.
  allocate-again :
      (header m : ℕ) (rest old minimum : Option ℕ)
      → minimum ≡ some m
      → allocate header rest (allocate header minimum old) ≡ allocate header minimum old
  unfolding allocate
  allocate-again header m rest none minimum e = rw e refl
  allocate-again header m rest (some n) minimum e = refl

  sizes-by :
      (k : PortClass) (e : Element F) (c : Control F) (l : Loading F) (file notify : Option ℕ)
      → FitsBy h k e c
      → (allocate h.header file (advance_by h k e c l).file_size
          ≡ allocate h.header (if is_file k then e.control.minimum_size else file) l.file_size)
        × (allocate h.header notify (advance_by h k e c l).notify_size
            ≡ allocate h.header
                (if is_notify k then e.control.minimum_size else notify)
                l.notify_size)
  unfolding advance_by
  sizes-by audio_in e c l file notify v = (refl, refl)
  sizes-by audio_out e c l file notify v = (refl, refl)
  sizes-by audio_other e c l file notify v = (refl, refl)
  sizes-by control_in e c l file notify v = (refl, refl)
  sizes-by control_out e c l file notify v = (refl, refl)
  sizes-by atom_in e c l file notify (_, (m, least)) =
      (allocate-again h.header m file l.file_size e.control.minimum_size least, refl)
  sizes-by atom_out e c l file notify (m, least) =
      (refl, allocate-again h.header m notify l.notify_size e.control.minimum_size least)
  sizes-by other e c l file notify v = (refl, refl)

  pub advance_all-sizes :
      (rs : List (Element F × Control F)) (l : Loading F)
      → AllFit h rs
      → ((advance_all h rs l).file_size ≡ allocate h.header (first_minimum is_file rs) l.file_size)
        × ((advance_all h rs l).notify_size
            ≡ allocate h.header (first_minimum is_notify rs) l.notify_size)
  unfolding advance_all advance first_minimum
  advance_all-sizes [] l v =
      (sym (allocate-none h.header l.file_size), sym (allocate-none h.header l.notify_size))
  advance_all-sizes ((e, c) ∷ rs) l v =
      let (file, notify) = advance_all-sizes rs (advance h (e, c) l) v.1 in
      let one =
        sizes-by (class_of e) e c l (first_minimum is_file rs) (first_minimum is_notify rs) v.0 in
      (file ∙ one.0, notify ∙ one.1)
