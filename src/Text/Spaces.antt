-- ===== src/Text/Spaces.antt =====
-- Trimming: the result has no space at either end, so that trimming again changes nothing.
use irods_go_drs.Base.{◌≡◌, refl, ◌∙◌, Bool, true, false, not, [], ◌∷◌, ◌++◌, arith}
use irods_go_drs.Base.{is_nil}
use irods_go_drs.Text.Defs.{Text, is_space, trim_left, trim_right, trim_space}

abbrev pub starts_unspaced : Text → Bool
starts_unspaced [] = true
starts_unspaced (c ∷ s) = not (is_space c)

trim_left-starts_unspaced : (s : Text) → starts_unspaced (trim_left s) ≡ true
unfolding trim_left
trim_left-starts_unspaced [] = refl
trim_left-starts_unspaced (c ∷ s) = ground (arith, trim_left-starts_unspaced s)

trim_left-eq_self : (s : Text) → starts_unspaced s ≡ true → trim_left s ≡ s
unfolding trim_left
trim_left-eq_self [] h = refl
trim_left-eq_self (c ∷ s) h = ground arith

trim_right-starts_unspaced :
    (s : Text) → starts_unspaced s ≡ true → starts_unspaced (trim_right s) ≡ true
unfolding trim_right
trim_right-starts_unspaced [] h = refl
trim_right-starts_unspaced (c ∷ s) h = ground arith

trim_right_idem : (s : Text) → trim_right (trim_right s) ≡ trim_right s
unfolding trim_right
trim_right_idem [] = refl
trim_right_idem (c ∷ s) = ground (arith, trim_right_idem s)

pub trim_space-starts_unspaced : (s : Text) → starts_unspaced (trim_space s) ≡ true
unfolding trim_space
trim_space-starts_unspaced s =
    trim_right-starts_unspaced (trim_left s) (trim_left-starts_unspaced s)

-- A text with no space in front is trimmed on the right alone.
trim_space-eq-trim_right : (s : Text) → starts_unspaced s ≡ true → trim_space s ≡ trim_right s
unfolding trim_space
trim_space-eq-trim_right s h = cc (trim_left-eq_self s h)

pub trim_space_idem : (s : Text) → trim_space (trim_space s) ≡ trim_space s
unfolding trim_space
trim_space_idem s =
    trim_space-eq-trim_right (trim_space s) (trim_space-starts_unspaced s)
    ∙ trim_right_idem (trim_left s)

is_nil-append : (s t : Text) → is_nil t ≡ false → is_nil (s ++ t) ≡ false
is_nil-append [] t h = h
is_nil-append (c ∷ s) t h = refl

trim_right-append :
    (s t : Text) → trim_right t ≡ t → is_nil t ≡ false → trim_right (s ++ t) ≡ s ++ t
unfolding trim_right
trim_right-append [] t e h = e
trim_right-append (c ∷ s) t e h = ground (arith, trim_right-append s t e h, is_nil-append s t h)

-- Text that begins with no space and ends in a trimmed text is trimmed.
pub trim_space-append :
    (s t : Text)
    → starts_unspaced s ≡ true
    → is_nil s ≡ false
    → is_nil (trim_space t) ≡ false
    → trim_space (s ++ trim_space t) ≡ s ++ trim_space t
unfolding trim_space
trim_space-append [] t h n e = cc
trim_space-append (c ∷ s) t h n e =
    trim_space-eq-trim_right ((c ∷ s) ++ trim_space t) h
    ∙ trim_right-append (c ∷ s) (trim_space t) (trim_right_idem (trim_left t)) e
