-- ===== src/Text/Defs.antt =====
-- What the program uses of Go's `strings` package, over lists of code points. Go orders strings by
-- their bytes, which for valid UTF-8 is the order of the code points.
use Prim.Native.Char.{code}
use Prim.Native.Nat.{compare, Ordering}
use irods_go_drs.Base.{ℕ, ◌+◌, String, Bool, true, false, ◌&&◌, ◌||◌, List, [], ◌∷◌, map}
use irods_go_drs.Base.{leb, eqb, is_nil, if◌then◌else◌, Option, none, some}

abbrev pub Text : Type 0
Text = List ℕ

-- The code points of a literal.
abbrev pub codes : String → Text
codes String.[] = []
codes (String.◌∷◌ c s) = code c ∷ codes s

infix 50 ◌==◌
unfoldable pub ◌==◌ : Text → Text → Bool
[] == [] = true
[] == (d ∷ t) = false
(c ∷ s) == [] = false
(c ∷ s) == (d ∷ t) = eqb c d && s == t

-- `s < t`
unfoldable pub lt : Text → Text → Bool
lt [] [] = false
lt [] (d ∷ t) = true
lt (c ∷ s) [] = false
lt (c ∷ s) (d ∷ t) =
    let rest = lt s t in
    elim (compare c d) [ Ordering.lt ↦ true | Ordering.eq ↦ rest | Ordering.gt ↦ false ]

-- `unicode.IsSpace`
unfoldable pub is_space : ℕ → Bool
is_space c =
    leb 9 c && leb c 13
    || (eqb c 32
        || (eqb c 0x85
            || (eqb c 0xA0
                || (eqb c 0x1680
                    || (leb 0x2000 c && leb c 0x200A
                        || (eqb c 0x2028
                            || (eqb c 0x2029
                                || (eqb c 0x202F || (eqb c 0x205F || eqb c 0x3000)))))))))

unfoldable pub trim_left : Text → Text
trim_left [] = []
trim_left (c ∷ s) = let rest = trim_left s in if is_space c then rest else c ∷ s

unfoldable pub trim_right : Text → Text
trim_right [] = []
trim_right (c ∷ s) = let rest = trim_right s in if is_nil rest && is_space c then [] else c ∷ rest

-- `strings.TrimSpace`
unfoldable pub trim_space : Text → Text
unfolding trim_left trim_right is_space
trim_space s = trim_right (trim_left s)

-- The fold of one code point, as far as it can meet an ASCII letter: besides the letters of the
-- other case, U+017F folds to `s` and U+212A to `k`.
unfoldable pub fold : ℕ → ℕ
fold c =
    if leb 65 c && leb c 90
    then c + 32
    else if eqb c 0x17F
    then 115
    else if eqb c 0x212A
    then 107
    else c

-- `strings.EqualFold`, where one of the texts is ASCII.
unfoldable pub equal_fold : Text → Text → Bool
unfolding ◌==◌ fold
equal_fold s t = map fold s == map fold t

-- `unicode.ToLower`, as far as its result can be an ASCII letter: U+0130 lowers to `i` and U+212A
-- to `k`.
unfoldable pub lower : ℕ → ℕ
lower c =
    if leb 65 c && leb c 90
    then c + 32
    else if eqb c 0x130
    then 105
    else if eqb c 0x212A
    then 107
    else c

-- `strings.ToLower`
unfoldable pub to_lower : Text → Text
unfolding lower
to_lower = map lower

-- `strings.CutPrefix`: what follows the prefix, if the text begins with it.
unfoldable pub cut_prefix : Text → Text → Option Text
cut_prefix s [] = some s
cut_prefix [] (d ∷ p) = none
cut_prefix (c ∷ s) (d ∷ p) = let rest = cut_prefix s p in if eqb c d then rest else none

-- `strings.HasPrefix`
unfoldable pub has_prefix : Text → Text → Bool
unfolding cut_prefix
has_prefix s p = elim (cut_prefix s p) [ none ↦ false | some rest ↦ true ]

-- `strings.TrimPrefix`
unfoldable pub trim_prefix : Text → Text → Text
unfolding cut_prefix
trim_prefix s p = elim (cut_prefix s p) [ none ↦ s | some rest ↦ rest ]

-- `strings.HasSuffix`
unfoldable pub has_suffix : Text → Text → Bool
unfolding ◌==◌
has_suffix [] p = is_nil p
has_suffix (c ∷ s) p = (c ∷ s) == p || has_suffix s p

-- `strings.Contains`
unfoldable pub contains : Text → Text → Bool
unfolding has_prefix
contains [] p = is_nil p
contains (c ∷ s) p = has_prefix (c ∷ s) p || contains s p

-- `strings.TrimRight(s, "/")`
unfoldable pub trim_right_slashes : Text → Text
trim_right_slashes [] = []
trim_right_slashes (c ∷ s) =
    let rest = trim_right_slashes s in if is_nil rest && eqb c b'/' then [] else c ∷ rest

-- `strings.Split(s, "/")`, which has at least one segment: the first, and the others.
unfoldable pub split_slash : Text → Text × List Text
split_slash [] = ([], [])
split_slash (c ∷ s) =
    let (first, others) = split_slash s in
    if eqb c b'/' then ([], first ∷ others) else (c ∷ first, others)

unfoldable pub segments : Text → List Text
unfolding split_slash
segments s = let (first, others) = split_slash s in first ∷ others

-- `s` is one of the texts.
unfoldable pub member : Text → List Text → Bool
unfolding ◌==◌
member s [] = false
member s (t ∷ ts) = s == t || member s ts
