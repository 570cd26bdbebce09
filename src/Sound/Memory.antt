-- ===== src/Sound/Memory.antt =====
-- engine.cc and snd.h: blocks that were freed.
use amprack_6_pc.Base.{
  ℕ, ◌≡◌, refl, ap, ◌∙◌, sym, true, false, some, List, [], ◌∷◌, ◌++◌, length, get_elem?,
  append_assoc, append-nil, set,
}
use amprack_6_pc.Sound.{Block, Content, free}

module _ {A : Type 0} where
  abbrev pub live : Content A → Block A
  live c = record { content = c; live = true }

  abbrev pub dead : Content A → Block A
  dead c = record { content = c; live = false }

  -- The block at an address is dead: using it is a fault.
  abbrev pub IsDead : List (Block A) → ℕ → Type 0
  IsDead m a = (b : Block A) × (get_elem? m a ≡ some b) × (b.live ≡ false)

  set-append_length :
      (m rest : List (Block A)) (b v : Block A) → set (m ++ b ∷ rest) (length m) v ≡ m ++ v ∷ rest
  set-append_length [] rest b v = refl
  set-append_length (x ∷ m) rest b v = ap (◌∷◌ x) (set-append_length m rest b v)

  pub get_elem?-inner :
      (m rest : List (Block A)) (b : Block A)
      → get_elem? ((m ++ b ∷ []) ++ rest) (length m) ≡ some b
  get_elem?-inner [] rest b = refl
  get_elem?-inner (x ∷ m) rest b = get_elem?-inner m rest b

  -- The last block before `rest` is freed.
  pub free-inner :
      (m rest : List (Block A)) (c : Content A)
      → free (length m) ((m ++ live c ∷ []) ++ rest) ≡ some (m ++ dead c ∷ rest)
  unfolding free
  free-inner m rest c = rw (get_elem?-inner m rest (live c)) (
      ap (λ l. some (set l (length m) (dead c))) (append_assoc m (live c ∷ []) rest)
      ∙ ap some (set-append_length m rest (live c) (dead c)))

  pub free-last :
      (m : List (Block A)) (c : Content A)
      → free (length m) (m ++ live c ∷ []) ≡ some (m ++ dead c ∷ [])
  free-last m c = ap (free (length m)) (sym (append-nil (m ++ live c ∷ []))) ∙ free-inner m [] c

  pub first-IsDead :
      (m rest : List (Block A)) (a : Content A) → IsDead (m ++ dead a ∷ rest) (length m)
  first-IsDead [] rest a = (dead a, refl, refl)
  first-IsDead (x ∷ m) rest a = first-IsDead m rest a

  pub second-IsDead :
      (m rest : List (Block A)) (a b : Content A)
      → IsDead (m ++ dead a ∷ dead b ∷ rest) (length (m ++ live a ∷ []))
  second-IsDead [] rest a b = (dead b, refl, refl)
  second-IsDead (x ∷ m) rest a b = second-IsDead m rest a b

  pub third-IsDead :
      (m rest : List (Block A)) (a b c : Content A)
      → IsDead (m ++ dead a ∷ dead b ∷ dead c ∷ rest) (length ((m ++ live a ∷ []) ++ live b ∷ []))
  third-IsDead [] rest a b c = (dead c, refl, refl)
  third-IsDead (x ∷ m) rest a b c = third-IsDead m rest a b c
