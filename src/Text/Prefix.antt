-- ===== src/Text/Prefix.antt =====
-- A prefix that was put in front is found and taken off.
use irods_go_drs.Base.{◌≡◌, refl, true, some, [], ◌∷◌, ◌++◌, arith}
use irods_go_drs.Text.Defs.{Text, cut_prefix, has_prefix, trim_prefix}

pub cut_prefix-append : (p s : Text) → cut_prefix (p ++ s) p ≡ some s
unfolding cut_prefix
cut_prefix-append [] s = refl
cut_prefix-append (c ∷ p) s = ground (arith, cut_prefix-append p s)

pub has_prefix-append : (p s : Text) → has_prefix (p ++ s) p ≡ true
unfolding has_prefix
has_prefix-append p s = ground (arith, cut_prefix-append p s)

pub trim_prefix-append : (p s : Text) → trim_prefix (p ++ s) p ≡ s
unfolding trim_prefix
trim_prefix-append p s = ground (arith, cut_prefix-append p s)

-- What was cut off, with the prefix, is the text.
pub append-cut_prefix : (s p rest : Text) → cut_prefix s p ≡ some rest → s ≡ p ++ rest
unfolding cut_prefix
append-cut_prefix s [] rest h = ground arith
append-cut_prefix [] (d ∷ p) rest h = ground arith
append-cut_prefix (c ∷ s) (d ∷ p) rest h = ground (arith, append-cut_prefix s p rest)
