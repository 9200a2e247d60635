-- ===== src/Text/Equality.antt =====
-- The test of two texts decides their equality.
use irods_go_drs.Base.{◌≡◌, refl, ◌↔◌, true, ◌||◌, List, [], ◌∷◌, ◌++◌, arith}
use irods_go_drs.Text.Defs.{Text, ◌==◌, member}

pub ==_iff : (s t : Text) → (s == t ≡ true) ↔ (s ≡ t)
unfolding ◌==◌
==_iff [] [] = (λ _. refl, λ _. refl)
==_iff [] (d ∷ t) = (λ h. cc, λ h. cc)
==_iff (c ∷ s) [] = (λ h. cc, λ h. cc)
==_iff (c ∷ s) (d ∷ t) = ground (arith, ==_iff s t)

pub ==_refl : (s : Text) → s == s ≡ true
==_refl s = (==_iff s s).1 refl

pub ==_comm : (s t : Text) → s == t ≡ (t == s)
==_comm s t = ground (arith, ==_iff s t, ==_iff t s)

pub member-append :
    (s : Text) (ts us : List Text) → member s (ts ++ us) ≡ (member s ts || member s us)
unfolding member
member-append s [] us = refl
member-append s (t ∷ ts) us = ground (arith, member-append s ts us)
