-- ===== src/Decimal/Tests.antt =====
-- engine.cc and presets.cc: the order of the keys from the eleventh on.
use amprack_6_pc.Base.{◌≡◌, refl, true}
use amprack_6_pc.Decimal.{key_of, digits}
use amprack_6_pc.Decimal.Keys.{lt_bytes}

-- An eleventh plugin comes before the third.
eleventh-third : lt_bytes (key_of 10) (key_of 2) ≡ true
unfolding lt_bytes key_of digits
eleventh-third = refl
