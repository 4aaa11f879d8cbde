-- ===== src/Client/Miniquad/Utf8.antt =====
-- `toUTF8Array` of client/src/impls/miniquad/naia_socket.js. A text is a list of UTF-16 units, each below
-- 65536. The bits that the script joins by `|` do not overlap, so they are added here.
pub mod Laws
use naia_socket.Base.{
  ℕ, ◌+◌, ◌*◌, ◌/◌, ◌%◌, List, [], ◌∷◌, ◌++◌, ltb, leb, if◌then◌else◌, Bool, ◌||◌,
}

-- The bytes of one unit that is no surrogate.
abbrev pub utf8_unit : ℕ → List ℕ
utf8_unit charcode =
    if ltb charcode 0x80
    then charcode ∷ []
    else if ltb charcode 0x800
    then (0xc0 + charcode / 64) ∷ (0x80 + charcode % 64) ∷ []
    else (0xe0 + charcode / 4096) ∷ (0x80 + charcode / 64 % 64) ∷ (0x80 + charcode % 64) ∷ []

-- The bytes of a surrogate with the unit behind it.
abbrev pub utf8_pair : ℕ → ℕ → List ℕ
utf8_pair unit next =
    let charcode : ℕ = 0x10000 + unit % 1024 * 1024 + next % 1024 in
    (0xf0 + charcode / 262144)
    ∷ (0x80 + charcode / 4096 % 64)
    ∷ (0x80 + charcode / 64 % 64)
    ∷ (0x80 + charcode % 64)
    ∷ []

abbrev pub is_surrogate : ℕ → Bool
is_surrogate charcode =
    if ltb charcode 0xd800
    then Bool.false
    else if leb 0xe000 charcode
    then Bool.false
    else Bool.true

-- Behind the end of the text `charCodeAt` is NaN, whose bits are 0.
unfoldable pub to_utf8 : List ℕ → List ℕ
to_utf8 [] = []
to_utf8 (unit ∷ []) = if is_surrogate unit then utf8_pair unit 0 else utf8_unit unit
to_utf8 (unit ∷ next ∷ units) =
    let pair = utf8_pair unit next ++ to_utf8 units in
    let single = utf8_unit unit ++ to_utf8 (next ∷ units) in
    if is_surrogate unit then pair else single
