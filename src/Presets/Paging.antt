-- ===== src/Presets/Paging.antt =====
-- presets.cc: what a page of the library shows.
use amprack_6_pc.Base.{
  ℕ, zero, suc, ◌+◌, ◌*◌, ◌≡◌, refl, sym, ap, ◌∙◌, arith, List, [], ◌∷◌, ◌++◌, take, drop, lt→ltb,
}
use amprack_6_pc.Presets.{load_loop, library_load}

module _ {J : Type 0} where
  load_loop-added : (n i e : ℕ) (ps : List J) → e + n ≡ 50 → load_loop i i e ps ≡ take n ps
  unfolding load_loop
  load_loop-added zero i e [] h = refl
  load_loop-added (suc n) i e [] h = refl
  load_loop-added zero i e (p ∷ ps) h = ground arith
  load_loop-added (suc n) i e (p ∷ ps) h =
      ground (arith, load_loop-added n i (e + 1) ps (omega arith))

  load_loop-skipped : (n i : ℕ) (ps : List J) → load_loop (i + n) i 0 ps ≡ take 50 (drop n ps)
  unfolding load_loop
  load_loop-skipped zero i ps =
      ap (λ (t : ℕ). load_loop t i 0 ps) (omega arith) ∙ load_loop-added 50 i 0 ps refl
  load_loop-skipped (suc n) i [] = refl
  load_loop-skipped (suc n) i (p ∷ ps) = rw (lt→ltb i (i + suc n) (omega arith)) (
      ap (λ (t : ℕ). load_loop t (i + 1) 0 ps) {x = i + suc n} {y = i + 1 + n} (omega arith)
      ∙ load_loop-skipped n (i + 1) ps)

  -- The first `n` pages, one after the other.
  unfoldable pub pages : ℕ → List J → List J
  pages zero library = []
  pages (suc n) library = pages n library ++ library_load n library

  take-nil : (k : ℕ) → take {A = J} k [] ≡ []
  take-nil zero = refl
  take-nil (suc k) = refl

  take-plus : (m n : ℕ) (xs : List J) → take (m + n) xs ≡ take m xs ++ take n (drop m xs)
  take-plus zero n xs = ap (λ (t : ℕ). take t xs) {x = 0 + n} {y = n} (omega arith)
  take-plus (suc m) n [] =
      ap (λ (t : ℕ). take t []) {x = suc m + n} {y = suc (m + n)} (omega arith) ∙ sym (take-nil n)
  take-plus (suc m) n (x ∷ xs) =
      ap (λ (t : ℕ). take t (x ∷ xs)) {x = suc m + n} {y = suc (m + n)} (omega arith)
      ∙ ap (◌∷◌ x) (take-plus m n xs)

  library_load-eq :
      (page : ℕ) (library : List J) → library_load page library ≡ take 50 (drop (page * 50) library)
  unfolding library_load
  library_load-eq page library =
      ap (λ (t : ℕ). load_loop t 0 0 library) {x = page * 50} {y = 0 + page * 50} (omega arith)
      ∙ load_loop-skipped (page * 50) 0 library

  pages-eq-take : (n : ℕ) (library : List J) → pages n library ≡ take (n * 50) library
  unfolding pages
  pages-eq-take zero library = refl
  pages-eq-take (suc n) library =
      ap (λ l. l ++ library_load n library) (pages-eq-take n library)
      ∙ ap (◌++◌ (take (n * 50) library)) (library_load-eq n library)
      ∙ sym (take-plus (n * 50) 50 library)
      ∙ ap (λ (t : ℕ). take t library) {x = n * 50 + 50} {y = suc n * 50} (omega arith)

  -- A page shows the 50 presets after those of the pages before it, or what is left of them; so the
  -- first `n` pages together show the first 50 times `n` presets, each once and in order.
  pub library_load-pages :
      (page n : ℕ) (library : List J)
      → (library_load page library ≡ take 50 (drop (page * 50) library))
        × (pages n library ≡ take (n * 50) library)
  library_load-pages page n library = (library_load-eq page library, pages-eq-take n library)
