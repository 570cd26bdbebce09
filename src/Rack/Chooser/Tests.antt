-- ===== src/Rack/Chooser/Tests.antt =====
-- rack.cc: a dialog of three plugins.
use amprack_6_pc.Base.{
  ℕ, ◌≡◌, ◌≢◌, ◌↔◌, refl, ap, arith, ◌==◌, true, false, Option, some, List, [], ◌∷◌, get_elem?,
  get_or, ◌>>=◌, if◌then◌else◌, In,
}
use amprack_6_pc.Decimal.{key_of}
use amprack_6_pc.Files.{Bytes}
use amprack_6_pc.Rack.Chooser.{Entry, seen, lower, lv2_entries, do_search, show_only_categories}
use amprack_6_pc.Rack.Chooser.Search.{Within}
use amprack_6_pc.Rack.Chooser.Shown.{do_search-show_only_categories}

-- Plugins "Amp", "Cab" and "Echo" with the numbers 3, 12 and 4; the second is on the blacklist.
abbrev dialog : List Entry
dialog =
    lv2_entries (λ key. if get_or key 0 0 == 2 then true else false)
      ((1 ∷ [], 65 ∷ 109 ∷ 112 ∷ [], 3)
        ∷ (2 ∷ [], 67 ∷ 97 ∷ 98 ∷ [], 12)
        ∷ (3 ∷ [], 69 ∷ 99 ∷ 104 ∷ 111 ∷ [], 4)
        ∷ [])

abbrev echo : Entry
echo = record {
  name = key_of 4;
  plugin_name = 69 ∷ 99 ∷ 104 ∷ 111 ∷ [];
  is_fav = false;
  box_visible = true;
  row_visible = true;
}

abbrev table : Bytes → Option (List ℕ)
table selected = some (4 ∷ 12 ∷ [])

no_command : (cs : Bytes) → 67 ∷ 72 ∷ [] ≢ 35 ∷ cs
no_command cs h = absurd (omega (arith, ap (λ ns. get_or ns 0 0) h))

do_search-show_only_categories_example :
    (es' : List Entry) × (e' : Entry) × (show_only_categories false table
        (68 ∷ [])
        (do_search (67 ∷ 72 ∷ []) dialog).1
      ≡ some es')
    × ((show_only_categories false table (68 ∷ []) dialog >>= λ fs.
          some (do_search (67 ∷ 72 ∷ []) fs).1)
        ≡ some es')
    × (get_elem? es' 1 ≡ some e')
    × ((seen e' ≡ true)
        ↔ (Within (99 ∷ 104 ∷ []) (101 ∷ 99 ∷ 104 ∷ 111 ∷ []) × In {A = ℕ} 4 (4 ∷ 12 ∷ [])))
unfolding lv2_entries lower
do_search-show_only_categories_example =
    do_search-show_only_categories (67 ∷ 72 ∷ []) false table (68 ∷ []) (4 ∷ 12 ∷ []) dialog 1 echo
      4 no_command refl refl refl refl
