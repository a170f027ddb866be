-- ===== src/Utf8.antt =====
-- `core::str::from_utf8`: whether bytes are well-formed UTF-8. The parsers and the pipeline call it
-- before they read a token as text.
use market_data_v.Common.{ℕ, Bool, true, ◌&&◌, [], ◌∷◌, Bytes, ltb, leb, ◌==◌, if◌then◌else◌}

abbrev between : ℕ → ℕ → ℕ → Bool
between lo hi c = leb lo c && leb c hi

abbrev continues : ℕ → Bool
continues c = between 0x80 0xbf c

-- The second byte that may follow a three-byte lead: no overlong form and no surrogate.
abbrev second_of_3 : ℕ → ℕ → Bool
second_of_3 lead c =
    if lead == 0xe0
    then between 0xa0 0xbf c
    else if lead == 0xed
    then between 0x80 0x9f c
    else continues c

-- The second byte that may follow a four-byte lead: no overlong form, nothing above U+10FFFF.
abbrev second_of_4 : ℕ → ℕ → Bool
second_of_4 lead c =
    if lead == 0xf0
    then between 0x90 0xbf c
    else if lead == 0xf4
    then between 0x80 0x8f c
    else continues c

unfoldable pub is_utf8 : Bytes → Bool
is_utf8 [] = true
is_utf8 (a ∷ []) = ltb a 0x80
is_utf8 (a ∷ b ∷ []) = if ltb a 0x80 then ltb b 0x80 else between 0xc2 0xdf a && continues b
is_utf8 (a ∷ b ∷ c ∷ []) =
    if ltb a 0x80
    then is_utf8 (b ∷ c ∷ [])
    else if between 0xc2 0xdf a
    then continues b && ltb c 0x80
    else between 0xe0 0xef a && second_of_3 a b && continues c
is_utf8 (a ∷ b ∷ c ∷ d ∷ r) =
    let after1 = is_utf8 (b ∷ c ∷ d ∷ r) in
    let after2 = is_utf8 (c ∷ d ∷ r) in
    let after3 = is_utf8 (d ∷ r) in
    let after4 = is_utf8 r in
    if ltb a 0x80
    then after1
    else if between 0xc2 0xdf a
    then continues b && after2
    else if between 0xe0 0xef a
    then second_of_3 a b && continues c && after3
    else between 0xf0 0xf4 a && second_of_4 a b && continues c && continues d && after4
