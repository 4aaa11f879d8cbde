-- ===== src/Client/Miniquad/Utf8/Laws.antt =====
-- The bytes that the script writes into a `String` of Rust are valid UTF-8.
use naia_socket.Base.{
  ℕ, ◌+◌, ◌*◌, ◌≤◌, ◌<◌, List, [], ◌∷◌, ◌++◌, ltb, false, Bool-cases, inl, inr, ◌-◌, ◌⊎◌, ◌≡◌, All,
  arith, append-nil,
}
use naia_socket.Client.Miniquad.Utf8.{to_utf8, utf8_unit, utf8_pair, is_surrogate}

-- The well-formed byte sequences of UTF-8, by the value that they encode: no value in a longer form
-- than it needs, no surrogate, none above 0x10ffff.
abbrev pub IsTail : ℕ → Type 0
IsTail b = (0x80 ≤ b) × (b < 0xc0)

pub data IsUtf8 : List ℕ → Type 0 where
  end : IsUtf8 []
  one : {b : ℕ} {bs : List ℕ} → b < 0x80 → IsUtf8 bs → IsUtf8 (b ∷ bs)
  two : {a b : ℕ} {bs : List ℕ} → 0xc2 ≤ a → a < 0xe0 → IsTail b → IsUtf8 bs → IsUtf8 (a ∷ b ∷ bs)
  three :
      {a b c : ℕ} {bs : List ℕ}
      → 0xe0 ≤ a
      → a < 0xf0
      → IsTail b
      → IsTail c
      → 0x800 ≤ (a - 0xe0) * 4096 + (b - 0x80) * 64
      → ((a - 0xe0) * 4096 + (b - 0x80) * 64 < 0xd800)
        ⊎ (0xe000 ≤ (a - 0xe0) * 4096 + (b - 0x80) * 64)
      → IsUtf8 bs
      → IsUtf8 (a ∷ b ∷ c ∷ bs)
  four :
      {a b c d : ℕ} {bs : List ℕ}
      → 0xf0 ≤ a
      → IsTail b
      → IsTail c
      → IsTail d
      → 0x10000 ≤ (a - 0xf0) * 262144 + (b - 0x80) * 4096
      → (a - 0xf0) * 262144 + (b - 0x80) * 4096 < 0x110000
      → IsUtf8 bs
      → IsUtf8 (a ∷ b ∷ c ∷ d ∷ bs)

IsUtf8-pair : (unit next : ℕ) (bs : List ℕ) → IsUtf8 bs → IsUtf8 (utf8_pair unit next ++ bs)
IsUtf8-pair unit next bs h =
    four (omega arith) (omega arith) (omega arith) (omega arith) (omega arith) (omega arith) h

not_surrogate : (unit : ℕ) → is_surrogate unit ≡ false → (unit < 0xd800) ⊎ (0xe000 ≤ unit)
not_surrogate unit s = ground arith

IsUtf8-unit :
    (unit : ℕ) (bs : List ℕ)
    → unit < 65536
    → is_surrogate unit ≡ false
    → IsUtf8 bs
    → IsUtf8 (utf8_unit unit ++ bs)
IsUtf8-unit unit bs u s h = elim (Bool-cases (ltb unit 0x80)) [
  | inl small ↦ rw small (one (ground arith) h)
  | inr large ↦ elim (Bool-cases (ltb unit 0x800)) [
    | inl mid ↦ rw (large, mid) (two (ground arith) (ground arith) (ground arith) h)
    | inr big ↦
        rw (large, big)
          (three (ground arith) (ground arith) (ground arith) (ground arith) (ground arith)
            (elim (not_surrogate unit s) [
              | inl low ↦ inl (omega arith)
              | inr high ↦ inr (omega (arith, u))
            ])
            h)
  ]
]

-- For any UTF-16 units below 65536, unpaired surrogates included, `toUTF8Array` gives well-formed
-- UTF-8: no value in a longer form than it needs, no surrogate, and none above 0x10ffff.
pub to_utf8-IsUtf8 : (units : List ℕ) → All (λ u. u < 65536) units → IsUtf8 (to_utf8 units)
unfolding to_utf8
to_utf8-IsUtf8 [] h = end
to_utf8-IsUtf8 (unit ∷ []) h = elim (Bool-cases (is_surrogate unit)) [
  | inl s ↦ rw s (IsUtf8-pair unit 0 [] end)
  | inr s ↦ rw s (rw (← append-nil (utf8_unit unit)) (IsUtf8-unit unit [] h.0 s end))
]
to_utf8-IsUtf8 (unit ∷ next ∷ units) h = elim (Bool-cases (is_surrogate unit)) [
  | inl s ↦ rw s (IsUtf8-pair unit next _ (to_utf8-IsUtf8 units h.1.1))
  | inr s ↦ rw s (IsUtf8-unit unit _ h.0 s (to_utf8-IsUtf8 (next ∷ units) h.1))
]
