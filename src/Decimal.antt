-- ===== src/Decimal.antt =====
-- engine.cc and presets.cc: the keys `std::to_string (i)` under which plugins and presets are stored.
pub mod Keys
mod Tests
use amprack_6_pc.Base.{ℕ, zero, suc, ◌+◌, ◌/◌, ◌%◌, ltb, List, [], ◌∷◌, if◌then◌else◌}
use amprack_6_pc.Files.{Bytes}

-- `std::to_string` of an `int`, with fuel for the digits.
unfoldable pub digits : ℕ → ℕ → Bytes → Bytes
digits zero n rest = rest
digits (suc fuel) n rest =
    let more = digits fuel (n / 10) ((48 + n % 10) ∷ rest) in
    if ltb n 10 then (48 + n) ∷ rest else more

unfoldable pub key_of : ℕ → Bytes
unfolding digits
key_of n = digits (suc n) n []

-- What is stored under the keys from index `i` on.
abbrev pub keyed : {J : Type 0} → ℕ → List J → List (Bytes × J)
keyed i [] = []
keyed i (p ∷ ps) = (key_of i, p) ∷ keyed (i + 1) ps
