-- ===== src/Objects/Encoding.antt =====
-- Hexadecimal and base64 (Go's `encoding/hex` and `encoding/base64.StdEncoding`) over code points.
use irods_go_drs.Base.{ℕ, ◌+◌, ◌-◌, ◌*◌, ◌/◌, ◌%◌, Bool, true, false, ◌&&◌, ◌||◌}
use irods_go_drs.Base.{Option, none, some, List, [], ◌∷◌, ◌≡◌, refl}
use irods_go_drs.Base.{leb, ltb, eqb, if◌then◌else◌}
use irods_go_drs.Text.{Text, codes}

unfoldable pub is_hex_digit : ℕ → Bool
is_hex_digit c = leb 48 c && leb c 57 || (leb 97 c && leb c 102 || leb 65 c && leb c 70)

-- An even number of hexadecimal digits: `hex.DecodeString` succeeds.
unfoldable pub is_hex : Text → Bool
unfolding is_hex_digit
is_hex [] = true
is_hex (c ∷ []) = false
is_hex (c ∷ d ∷ s) = is_hex_digit c && (is_hex_digit d && is_hex s)

abbrev pub hex_digit : ℕ → ℕ
hex_digit n = if ltb n 10 then 48 + n else 87 + n

-- `hex.EncodeToString`
unfoldable pub hex_encode : List ℕ → Text
hex_encode [] = []
hex_encode (b ∷ bytes) = hex_digit (b / 16 % 16) ∷ hex_digit (b % 16) ∷ hex_encode bytes

-- The six bits of a base64 letter.
unfoldable pub base64_value : ℕ → Option ℕ
base64_value c =
    if leb 65 c && leb c 90
    then some (c - 65)
    else if leb 97 c && leb c 122
    then some (c - 71)
    else if leb 48 c && leb c 57
    then some (c + 4)
    else if eqb c b'+'
    then some 62
    else if eqb c b'/'
    then some 63
    else none

-- The decoder skips carriage returns and line feeds.
strip_newlines : Text → Text
strip_newlines [] = []
strip_newlines (c ∷ s) =
    let rest = strip_newlines s in if eqb c 13 || eqb c 10 then rest else c ∷ rest

-- A group of two letters and two paddings, which ends the text.
last_two : Option ℕ → Option ℕ → Option (List ℕ)
last_two (some a) (some b) = some ((a * 4 + b / 16) ∷ [])
last_two _ _ = none

-- A group of three letters and a padding, which ends the text.
last_three : Option ℕ → Option ℕ → Option ℕ → Option (List ℕ)
last_three (some a) (some b) (some c) = some ((a * 4 + b / 16) ∷ (b % 16 * 16 + c / 4) ∷ [])
last_three _ _ _ = none

-- A group of four letters, in front of what the rest decodes to.
whole_group : Option ℕ → Option ℕ → Option ℕ → Option ℕ → Option (List ℕ) → Option (List ℕ)
whole_group (some a) (some b) (some c) (some d) (some rest) =
    some ((a * 4 + b / 16) ∷ (b % 16 * 16 + c / 4) ∷ (c % 4 * 64 + d) ∷ rest)
whole_group _ _ _ _ _ = none

base64_groups : Text → Option (List ℕ)
base64_groups [] = some []
base64_groups (a ∷ b ∷ c ∷ d ∷ []) =
    if eqb d b'='
    then (if eqb c b'='
        then last_two (base64_value a) (base64_value b)
        else last_three (base64_value a) (base64_value b) (base64_value c))
    else whole_group (base64_value a) (base64_value b) (base64_value c) (base64_value d) (some [])
base64_groups (a ∷ b ∷ c ∷ d ∷ e ∷ s) =
    whole_group (base64_value a) (base64_value b) (base64_value c) (base64_value d)
      (base64_groups (e ∷ s))
base64_groups _ = none

-- `base64.StdEncoding.DecodeString`
unfoldable pub base64_decode : Text → Option (List ℕ)
unfolding base64_value strip_newlines last_two last_three whole_group base64_groups
base64_decode s = base64_groups (strip_newlines s)

decode_examples :
    (base64_decode (codes "SGVsbG8=") ≡ some (codes "Hello"))
    × (base64_decode (codes "SGVsbA==") ≡ some (codes "Hell"))
    × (base64_decode (codes "SGVs") ≡ some (codes "Hel"))
    × (base64_decode (codes "SGV=bG8=") ≡ none)
    × (hex_encode (0 ∷ 255 ∷ 26 ∷ []) ≡ codes "00ff1a")
    × (is_hex (codes "00fF1a") ≡ true)
unfolding base64_decode hex_encode is_hex
decode_examples = (refl, refl, refl, refl, refl, refl)
