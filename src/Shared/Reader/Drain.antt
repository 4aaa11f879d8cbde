-- ===== src/Shared/Reader/Drain.antt =====
-- A packet read to its end through shared/src/packet_reader.rs, while `has_more` says so.
use naia_socket.Base.{
  ℕ, zero, suc, ◌+◌, ◌*◌, ◌<◌, ◌≡◌, refl, ◌∙◌, ap, subst, true, false, Exec, done, panicked,
  out_of_fuel, some, ◌>>=◌, List, [], ◌∷◌, ◌++◌, length, length-append, append_assoc, arith, lt→ltb,
}
use naia_socket.Shared.Bytes.{ByteOrder, IsBigEndian, read_exact, value_of}
use naia_socket.Shared.Reader.{PacketReader, new, has_more, read_u8, read_u16, unwrap_read}
use naia_socket.Shared.Reader.Laws.{reader_at, read_exact_at, has_more-read_u16}

-- Numbers are read one after the other until nothing more is left, with fuel.
unfoldable pub drain :
    (PacketReader → Exec (ℕ × PacketReader)) → ℕ → PacketReader → Exec (List ℕ × PacketReader)
drain read zero r = out_of_fuel
drain read (suc fuel) r = elim (has_more r) [
  | true ↦ do (v, r') ← read r; (vs, r'') ← drain read fuel r'; done (v ∷ vs, r'')
  | false ↦ done ([], r)
]

-- The numbers of 16 bits in bytes, the high byte first; a last byte alone is not one.
pub words : List ℕ → Exec (List ℕ)
words [] = done []
words (b ∷ []) = panicked
words (b ∷ c ∷ bs) = do vs ← words bs; done ((b * 256 + c) ∷ vs)

-- The reader of `whole` stands at `n`, and `bs` are left.
abbrev Ahead : List ℕ → ℕ → List ℕ → Type 0
Ahead whole n bs = (before : List ℕ) × (before ++ bs ≡ whole) × (n ≡ length before)

Ahead-cons :
    (whole : List ℕ) (n : ℕ) (b : ℕ) (bs : List ℕ) → Ahead whole n (b ∷ bs) → Ahead whole (n + 1) bs
Ahead-cons whole n b bs (before, e, p) = (
  before ++ b ∷ [],
  append_assoc before (b ∷ []) bs ∙ e,
  omega (arith, p, length-append {0} before (b ∷ [])),
)

length-Ahead :
    (whole : List ℕ) (n : ℕ) (bs : List ℕ) → Ahead whole n bs → length whole ≡ n + length bs
length-Ahead whole n bs (before, e, p) = omega (arith, p, length-append {0} before bs, ap length e)

more_left :
    (whole : List ℕ) (n : ℕ) (b : ℕ) (bs : List ℕ)
    → Ahead whole n (b ∷ bs)
    → has_more (reader_at whole n) ≡ true
unfolding has_more
more_left whole n b bs l = lt→ltb n (length whole) (omega (arith, length-Ahead whole n (b ∷ bs) l))

none_left : (whole : List ℕ) (n : ℕ) → Ahead whole n [] → has_more (reader_at whole n) ≡ false
unfolding has_more
none_left whole n l = let same = length-Ahead whole n [] l in ground (arith, same)

at_end :
    (whole : List ℕ) (n : ℕ) → Ahead whole n [] → reader_at whole n ≡ reader_at whole (length whole)
at_end whole n l = ap (reader_at whole) (omega (arith, length-Ahead whole n [] l))

read_exact_left :
    (whole : List ℕ) (n : ℕ) (bs rest : List ℕ)
    → Ahead whole n (bs ++ rest)
    → read_exact (length bs) (record { inner = whole; position = n })
      ≡ some (bs, record { inner = whole; position = n + length bs })
read_exact_left whole n bs rest (before, e, p) =
    subst
      (λ w.
        read_exact (length bs) (record { inner = w; position = n })
        ≡ some (bs, record { inner = w; position = n + length bs }))
      (append_assoc before bs rest ∙ e) (rw p (read_exact_at before bs rest (length bs) refl))

bind_words :
    (m : Exec (List ℕ)) (v : ℕ) (r : PacketReader)
    → ◌>>=◌ {B = List ℕ × PacketReader}
        (◌>>=◌ {B = List ℕ × PacketReader} m (λ vs. done (vs, r)))
        (λ (vs, r'). done (v ∷ vs, r'))
      ≡ ◌>>=◌ {B = List ℕ × PacketReader} (m >>= λ vs. done (v ∷ vs)) (λ vs. done (vs, r))
bind_words (done vs) v r = refl
bind_words panicked v r = refl
bind_words out_of_fuel v r = refl

module _ (O : ByteOrder) (E : IsBigEndian O) where
  read_u8_left :
      (whole : List ℕ) (n : ℕ) (b : ℕ) (bs : List ℕ)
      → Ahead whole n (b ∷ bs)
      → read_u8 O (reader_at whole n) ≡ done (b, reader_at whole (n + 1))
  unfolding read_u8
  read_u8_left whole n b bs l = rw E.read_u8_lem (
      ap (λ x. unwrap_read (reader_at whole n) (value_of x)) (read_exact_left whole n (b ∷ []) bs l)
      ∙ ap (λ (v : ℕ). done (v, reader_at whole (n + 1))) (omega arith))

  read_u16_left :
      (whole : List ℕ) (n : ℕ) (b c : ℕ) (bs : List ℕ)
      → Ahead whole n (b ∷ c ∷ bs)
      → read_u16 O (reader_at whole n) ≡ done (b * 256 + c, reader_at whole (n + 2))
  unfolding read_u16
  read_u16_left whole n b c bs l = rw E.read_u16_lem (
      ap (λ x. unwrap_read (reader_at whole n) (value_of x))
        (read_exact_left whole n (b ∷ c ∷ []) bs l)
      ∙ ap (λ (v : ℕ). done (v, reader_at whole (n + 2))) (omega arith))

  read_u16_last :
      (whole : List ℕ) (n : ℕ) (b : ℕ)
      → Ahead whole n (b ∷ [])
      → read_u16 O (reader_at whole n) ≡ panicked
  read_u16_last whole n b l =
      let len = length-Ahead whole n (b ∷ []) l in
      (has_more-read_u16 O E (reader_at whole n)
        (record { same_buffer = refl; in_range = omega (arith, len) }) (omega (arith, len))).1

  drain-read_u8 :
      (whole : List ℕ) (n : ℕ) (bs : List ℕ) (fuel : ℕ)
      → Ahead whole n bs
      → length bs < fuel
      → drain (read_u8 O) fuel (reader_at whole n) ≡ done (bs, reader_at whole (length whole))
  unfolding drain
  drain-read_u8 whole n bs zero l h = absurd (omega (arith, h))
  drain-read_u8 whole n [] (suc fuel) l h =
      rw (drain, none_left whole n l) (rw (at_end whole n l) refl)
  drain-read_u8 whole n (b ∷ bs) (suc fuel) l h =
      rw
        (
          drain,
          more_left whole n b bs l,
          read_u8_left whole n b bs l,
          drain-read_u8 whole (n + 1) bs fuel (Ahead-cons whole n b bs l) (omega (arith, h)),
        )
        refl

  drain-read_u16 :
      (whole : List ℕ) (n : ℕ) (bs : List ℕ) (fuel : ℕ)
      → Ahead whole n bs
      → length bs < fuel
      → drain (read_u16 O) fuel (reader_at whole n)
        ≡ (words bs >>= λ vs. done (vs, reader_at whole (length whole)))
  unfolding drain words
  drain-read_u16 whole n bs zero l h = absurd (omega (arith, h))
  drain-read_u16 whole n [] (suc fuel) l h =
      rw (drain, none_left whole n l) (rw (at_end whole n l) refl)
  drain-read_u16 whole n (b ∷ []) (suc fuel) l h =
      rw (drain, more_left whole n b [] l, read_u16_last whole n b l) refl
  drain-read_u16 whole n (b ∷ c ∷ bs) (suc fuel) l h =
      rw
        (
          drain,
          more_left whole n b (c ∷ bs) l,
          read_u16_left whole n b c bs l,
          drain-read_u16 whole (n + 2) bs fuel
              (subst (λ m. Ahead whole m bs) (omega arith)
                (Ahead-cons whole (n + 1) c bs (Ahead-cons whole n b (c ∷ bs) l)))
              (omega (arith, h)),
        )
        (bind_words (words bs) (b * 256 + c) (reader_at whole (length whole)))

  -- Over a big-endian byteorder and with fuel above the number of its bytes, a new reader of any
  -- buffer that is read by `read_u8` as long as `has_more` says so gives just the bytes of the
  -- buffer, without a panic, and stands at its end; and read by `read_u16` it gives, in order,
  -- each two bytes as one number with the high byte first, and panics just where one byte is left
  -- over.
  pub drain_lem :
      (buffer : List ℕ) (fuel : ℕ)
      → length buffer < fuel
      → (drain (read_u8 O) fuel (new buffer) ≡ done (buffer, reader_at buffer (length buffer)))
        × (drain (read_u16 O) fuel (new buffer)
            ≡ (words buffer >>= λ vs. done (vs, reader_at buffer (length buffer))))
  unfolding new
  drain_lem buffer fuel h = (
    drain-read_u8 buffer 0 buffer fuel ([], refl, refl) h,
    drain-read_u16 buffer 0 buffer fuel ([], refl, refl) h,
  )
