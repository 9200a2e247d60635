-- ===== src/Text/Order.antt =====
-- The order of texts is strict.
use irods_go_drs.Base.{◌≡◌, refl, true, false, [], ◌∷◌, arith}
use irods_go_drs.Text.Defs.{Text, lt}

pub lt_irrefl : (s : Text) → lt s s ≡ false
unfolding lt
lt_irrefl [] = refl
lt_irrefl (c ∷ s) = ground (arith, lt_irrefl s)

pub lt_asym : (s t : Text) → lt s t ≡ true → lt t s ≡ false
unfolding lt
lt_asym [] [] h = refl
lt_asym [] (d ∷ t) h = refl
lt_asym (c ∷ s) [] h = absurd (ground arith)
lt_asym (c ∷ s) (d ∷ t) h = ground (arith, lt_asym s t)

-- Of two texts one comes first, or they are the same.
pub lt_total : (s t : Text) → lt s t ≡ false → lt t s ≡ false → s ≡ t
unfolding lt
lt_total [] [] h k = refl
lt_total [] (d ∷ t) h k = absurd (ground arith)
lt_total (c ∷ s) [] h k = absurd (ground arith)
lt_total (c ∷ s) (d ∷ t) h k = ground (arith, lt_total s t)
