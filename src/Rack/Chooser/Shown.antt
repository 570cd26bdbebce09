-- ===== src/Rack/Chooser/Shown.antt =====
-- rack.cc: which entries of the dialog are seen.
use amprack_6_pc.Base.{
  ℕ, suc, zero, ◌≡◌, ◌≢◌, ◌↔◌, refl, sym, ap, ◌∙◌, arith, Bool, true, false, ◌&&◌, ne→==, Option,
  none, some, List, [], ◌∷◌, map, get_elem?, ◌>>=◌, In,
}
use amprack_6_pc.Decimal.{key_of}
use amprack_6_pc.Files.{Bytes, eq_bytes}
use amprack_6_pc.Rack.Chooser.{
  Entry, seen, lower, contains, search, do_search, show_rows, matches, show_only_categories,
  all_text,
}
use amprack_6_pc.Rack.Chooser.Search.{Within, contains_iff, matches_iff}

-- An entry after a search.
abbrev pub found_by : Bytes → Entry → Entry
found_by str e = record e { box_visible = contains str (map lower e.plugin_name) }

contains-empty : (hay : Bytes) → contains [] hay ≡ true
contains-empty hay = (contains_iff [] hay).1 ([], hay, refl)

search-get_elem? :
    (str : Bytes) (es : List Entry) (i : ℕ) (e : Entry)
    → get_elem? es i ≡ some e
    → get_elem? (search str es) i ≡ some (found_by str e)
unfolding search
search-get_elem? str [] i e h = cc
search-get_elem? [] (x ∷ es) zero e h =
    ap (λ b. some (record x { box_visible = b })) (sym (contains-empty (map lower x.plugin_name)))
    ∙ ap (λ o. elim o as (λ _. Option Entry) [ none ↦ none | some y ↦ some (found_by [] y) ]) h
search-get_elem? (c ∷ cs) (x ∷ es) zero e h =
    ap (λ o. elim o as (λ _. Option Entry) [ none ↦ none | some y ↦ some (found_by (c ∷ cs) y) ]) h
search-get_elem? [] (x ∷ es) (suc i) e h = search-get_elem? [] es i e h
search-get_elem? (c ∷ cs) (x ∷ es) (suc i) e h = search-get_elem? (c ∷ cs) es i e h

show_rows-get_elem? :
    (ps : List ℕ) (es : List Entry) (i : ℕ) (e : Entry)
    → get_elem? es i ≡ some e
    → get_elem? (show_rows false ps es) i
      ≡ some (record e { row_visible = matches e.name ps false })
unfolding show_rows
show_rows-get_elem? ps [] i e h = cc
show_rows-get_elem? ps (x ∷ es) zero e h =
    ap
      (λ o. elim o as (λ _. Option Entry) [
        | none ↦ none
        | some y ↦ some (record y { row_visible = matches y.name ps false })
      ])
      h
show_rows-get_elem? ps (x ∷ es) (suc i) e h = show_rows-get_elem? ps es i e h

search-show_rows :
    (str : Bytes) (ps : List ℕ) (es : List Entry)
    → search str (show_rows false ps es) ≡ show_rows false ps (search str es)
unfolding search show_rows
search-show_rows str ps [] = refl
search-show_rows [] ps (e ∷ es) =
    ap (λ r. record e { box_visible = true; row_visible = matches e.name ps false } ∷ r)
      (search-show_rows [] ps es)
search-show_rows (c ∷ cs) ps (e ∷ es) =
    ap
      (λ r.
        record e {
          box_visible = contains (c ∷ cs) (map lower e.plugin_name);
          row_visible = matches e.name ps false;
        }
        ∷ r)
      (search-show_rows (c ∷ cs) ps es)

do_search-search :
    (text : Bytes) (es : List Entry)
    → ((cs : Bytes) → text ≢ 35 ∷ cs)
    → do_search text es ≡ (none, search (map lower text) es)
unfolding do_search
do_search-search [] es h = refl
do_search-search (c ∷ cs) es h = rw (ne→== c 35 (λ e. h cs (ap (λ d. d ∷ cs) e))) refl

seen_iff : (a b : Bool) → (a && b ≡ true) ↔ ((a ≡ true) × (b ≡ true))
seen_iff true b = (λ e. (refl, e), λ h. h.1)
seen_iff false b = (λ e. absurd (ground (arith, e)), λ h. absurd (ground (arith, h.0)))

-- For a search for a text that is no command, and a selected category or creator that the table has, not
-- "All": whichever of the two filters comes first, the same entries result; and an entry whose box has
-- the text of a number as its name is seen exactly if the text stands in its name, both in lower
-- case, and the number is one of those that the table has.
pub do_search-show_only_categories :
    (text : Bytes) (is_categories : Bool) (table : Bytes → Option (List ℕ)) (selected : Bytes)
    (ps : List ℕ) (es : List Entry) (i : ℕ) (e : Entry) (n : ℕ)
    → ((cs : Bytes) → text ≢ 35 ∷ cs)
    → table selected ≡ some ps
    → is_categories && eq_bytes selected all_text ≡ false
    → get_elem? es i ≡ some e
    → e.name ≡ key_of n
    → (es' : List Entry) × (e' : Entry) × (show_only_categories is_categories table selected
          (do_search text es).1
        ≡ some es')
      × ((show_only_categories is_categories table selected es >>= λ fs. some (do_search text fs).1)
          ≡ some es')
      × (get_elem? es' i ≡ some e')
      × ((seen e' ≡ true) ↔ (Within (map lower text) (map lower e.plugin_name) × In n ps))
unfolding show_only_categories seen
do_search-show_only_categories text is_categories table selected ps es i e n plain known some_only
      there named =
    let str = map lower text in
    let found = found_by str e in
    let shown : Entry = record found { row_visible = matches e.name ps false } in
    let in_name = contains_iff str (map lower e.plugin_name) in
    let in_table = matches_iff n ps in
    let both = seen_iff (contains str (map lower e.plugin_name)) (matches e.name ps false) in
    let by_number = ap (λ w. matches w ps false) named in
    (
      show_rows false ps (search str es),
      shown,
      rw (show_only_categories, known, some_only, do_search-search text es plain) refl,
      rw (show_only_categories, known, some_only)
          (ap (λ r. some r.1) (do_search-search text (show_rows false ps es) plain)
            ∙ ap some (search-show_rows str ps es)),
      show_rows-get_elem? ps (search str es) i found (search-get_elem? str es i e there),
      (
        λ s. (in_name.0 (both.0 s).0, in_table.0 (sym by_number ∙ (both.0 s).1)),
        λ h. both.1 (in_name.1 h.0, by_number ∙ in_table.1 h.1),
      ),
    )
