-- ===== src/Registry/Guid.antt =====
-- `newGUID`: 16 random bytes as the text of a version 4 identifier.
use irods_go_drs.Base.{ℕ, zero, suc, ◌+◌, ◌%◌, ◌≡◌, refl, List, [], ◌∷◌, ◌++◌}
use irods_go_drs.Base.{take, drop}
use irods_go_drs.Text.{Text, codes}
use irods_go_drs.Objects.Encoding.{hex_encode}

-- One byte rewritten in place.
set_byte : ℕ → (ℕ → ℕ) → List ℕ → List ℕ
set_byte i f [] = []
set_byte zero f (b ∷ bytes) = f b ∷ bytes
set_byte (suc i) f (b ∷ bytes) = b ∷ set_byte i f bytes

-- `b[6] = (b[6] & 0x0f) | 0x40` and `b[8] = (b[8] & 0x3f) | 0x80`
mark_version : List ℕ → List ℕ
mark_version b = set_byte 8 (λ x. x % 64 + 128) (set_byte 6 (λ x. x % 16 + 64) b)

unfoldable pub format_guid : List ℕ → Text
unfolding set_byte mark_version hex_encode
format_guid bytes =
    let b = mark_version bytes in
    hex_encode (take 4 b)
    ++ (codes "-"
        ++ (hex_encode (take 2 (drop 4 b))
            ++ (codes "-"
                ++ (hex_encode (take 2 (drop 6 b))
                    ++ (codes "-"
                        ++ (hex_encode (take 2 (drop 8 b))
                            ++ (codes "-" ++ hex_encode (take 6 (drop 10 b)))))))))

guid_example :
    format_guid (0 ∷ 1 ∷ 2 ∷ 3 ∷ 4 ∷ 5 ∷ 255 ∷ 7 ∷ 255 ∷ 9 ∷ 10 ∷ 11 ∷ 12 ∷ 13 ∷ 14 ∷ 15 ∷ [])
    ≡ codes "00010203-0405-4f07-bf09-0a0b0c0d0e0f"
unfolding format_guid
guid_example = refl
