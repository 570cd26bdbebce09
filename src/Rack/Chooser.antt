-- ===== src/Rack/Chooser.antt =====
-- rack.cc: the dialog from which plugins are added, with its search, its categories and creators, and
-- its favorites.
pub mod Search
pub mod Shown
mod Tests
use amprack_6_pc.Base.{
  ℕ, ◌+◌, leb, ◌==◌, Bool, true, false, not, ◌&&◌, ◌||◌, Option, none, some, List, [], ◌∷◌, ◌++◌,
  map, if◌then◌else◌, ◌>>=◌,
}
use amprack_6_pc.Decimal.{key_of}
use amprack_6_pc.Files.{Bytes, eq_bytes}

-- One entry of the dialog: the box and its name, the heart with the plugin's name and whether it is pressed,
-- and whether the box, and the row of the list around it, are visible. `hearts` and `boxes` get
-- one widget for each entry, in the same order.
pub record Entry : Type 0 where
  pub name : Bytes
  pub plugin_name : Bytes
  pub is_fav : Bool
  pub box_visible : Bool
  pub row_visible : Bool

pub seen : Entry → Bool
seen e = e.box_visible && e.row_visible

-- `addPluginEntry`, with the name that the box gets behind it.
abbrev pub add_plugin_entry : Bytes → Bytes → Entry
add_plugin_entry plug name = record {
  name = name;
  plugin_name = plug;
  is_fav = false;
  box_visible = true;
  row_visible = true;
}

-- The loops of `createPluginDialog`: LV2 plugins by key, name and number, and LADSPA plugins by name and
-- the text of their number, without those on the blacklist.
pub lv2_entries : (Bytes → Bool) → List (Bytes × Bytes × ℕ) → List Entry
lv2_entries blacklist [] = []
lv2_entries blacklist ((key, plug, id) ∷ ps) =
    let rest = lv2_entries blacklist ps in
    if blacklist key then rest else add_plugin_entry plug (key_of id) ∷ rest

pub ladspa_entries : (Bytes → Bool) → List (Bytes × Bytes) → List Entry
ladspa_entries blacklist [] = []
ladspa_entries blacklist ((plug, id) ∷ ps) =
    let rest = ladspa_entries blacklist ps in
    if blacklist id then rest else add_plugin_entry plug id ∷ rest

-- `::tolower`
pub lower : ℕ → ℕ
lower c = if leb 65 c && leb c 90 then c + 32 else c

pub is_prefix : Bytes → Bytes → Bool
is_prefix [] ys = true
is_prefix (x ∷ xs) [] = false
is_prefix (x ∷ xs) (y ∷ ys) = x == y && is_prefix xs ys

-- `haystack.find (str) != -1`
pub contains : Bytes → Bytes → Bool
unfolding is_prefix
contains str [] = is_prefix str []
contains str (y ∷ ys) = is_prefix str (y ∷ ys) || contains str ys

-- The loop of `do_search`, where `str` is in lower case.
pub search : Bytes → List Entry → List Entry
unfolding contains lower
search str [] = []
search [] (e ∷ es) = record e { box_visible = true } ∷ search [] es
search (c ∷ cs) (e ∷ es) =
    record e { box_visible = contains (c ∷ cs) (map lower e.plugin_name) } ∷ search (c ∷ cs) es

-- `do_search`: a text that starts with "#" is a command, which is the first result.
pub do_search : Bytes → List Entry → Option Bytes × List Entry
unfolding search
do_search [] es = (none, search [] es)
do_search (c ∷ cs) es = if c == 35 then (some cs, es) else (none, search (map lower (c ∷ cs)) es)

pub show_only_fav_plugins : Bool → List Entry → List Entry
show_only_fav_plugins active [] = []
show_only_fav_plugins active (e ∷ es) =
    record e { row_visible = not active || e.is_fav } ∷ show_only_fav_plugins active es

-- The inner loop of `show_only_categories`: whether the name is that of one of the plugins.
pub matches : Bytes → List ℕ → Bool → Bool
unfolding eq_bytes
matches wname [] visible = visible
matches wname (p ∷ ps) visible =
    matches wname ps (if eq_bytes (key_of p) wname then true else visible)

pub show_rows : Bool → List ℕ → List Entry → List Entry
unfolding matches
show_rows all ps [] = []
show_rows all ps (e ∷ es) =
    record e { row_visible = if all then true else matches e.name ps false } ∷ show_rows all ps es

-- "All"
abbrev pub all_text : Bytes
all_text = 65 ∷ 108 ∷ 108 ∷ []

-- `show_only_categories`, for the drop down of the categories or that of the creators. A table without
-- the selected text throws.
pub show_only_categories :
    Bool → (Bytes → Option (List ℕ)) → Bytes → List Entry → Option (List Entry)
unfolding show_rows
show_only_categories is_categories table selected es = do
  ps ← table selected
  some (show_rows (is_categories && eq_bytes selected all_text) ps es)
