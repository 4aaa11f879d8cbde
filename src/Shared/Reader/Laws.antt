-- ===== src/Shared/Reader/Laws.antt =====
-- Reading back what was written, and when a read panics, for shared/src/packet_reader.rs and the
-- timestamps, over any big-endian `byteorder`.
use naia_socket.Base.{
  ℕ, ◌+◌, ◌≤◌, ◌<◌, ◌^◌, ◌≡◌, refl, ap, ◌⊎◌, ◌↔◌, inl, inr, true, Exec, done, panicked, some, List,
  ◌++◌, leb, length, take, drop, length-append, take-append, drop-append, append_assoc, Bool-cases,
  arith, lt→ltb, le→leb, leb→le, leb→lt,
}
use naia_socket.Shared.Bytes.{
  ByteOrder, IsBigEndian, be_bytes, be_value, length-be_bytes, be_value-be_bytes_u64, read_exact,
  value_of,
}
use naia_socket.Shared.Reader.{
  PacketReader, Timestamp, has_more, read_u8, read_u16, unwrap_read, write, read,
}

-- The reader of `buffer` whose cursor stands at `position`.
abbrev pub reader_at : List ℕ → ℕ → PacketReader
reader_at buffer position = record {
  buffer = buffer;
  cursor = record { inner = buffer; position = position };
}

-- The cursor runs over the reader's own buffer, and has not left it.
pub record IsValid (r : PacketReader) : Type 0 where
  pub same_buffer : r.cursor.inner ≡ r.buffer
  pub in_range : r.cursor.position ≤ length r.buffer

-- What a read of `n` bytes does: it panics if fewer are left, and else moves on by `n`.
abbrev Reads : ℕ → PacketReader → Exec (ℕ × PacketReader) → Type 0
Reads n r e =
    ((length r.buffer < r.cursor.position + n) × (e ≡ panicked))
    ⊎ ((v : ℕ) × (r' : PacketReader) × (e ≡ done (v, r'))
        × (r'.cursor.position ≡ r.cursor.position + n)
        × (r'.buffer ≡ r.buffer)
        × IsValid r')

read_exact-Reads :
    (n : ℕ) (r : PacketReader)
    → IsValid r
    → Reads n r (unwrap_read r (value_of (read_exact n r.cursor)))
read_exact-Reads n r v = elim (Bool-cases (leb (r.cursor.position + n) (length r.cursor.inner))) [
  | inl fits ↦ inr (
    be_value 0 (take n (drop r.cursor.position r.cursor.inner)),
    record r { cursor = record (r.cursor) { position = r.cursor.position + n } },
    rw fits,
    refl,
    refl,
    record {
      same_buffer = v.same_buffer;
      in_range = omega (
        arith,
        leb→le (r.cursor.position + n) (length r.cursor.inner) fits,
        ap length v.same_buffer,
      );
    },
  )
  | inr short ↦ inl (
    omega (
      arith,
      leb→lt (r.cursor.position + n) (length r.cursor.inner) short,
      ap length v.same_buffer,
    ),
    rw short,
  )
]

pub read_exact_at :
    (before bs rest : List ℕ) (n : ℕ)
    → length bs ≡ n
    → read_exact n (record { inner = before ++ bs ++ rest; position = length before })
      ≡ some (bs, record { inner = before ++ bs ++ rest; position = length before + n })
read_exact_at before bs rest n e = rw (fits, found) refl
  where
    fits : leb (length before + n) (length (before ++ bs ++ rest)) ≡ true
    fits =
        le→leb _ _
          (omega (arith, length-append {0} (before ++ bs) rest, length-append {0} before bs))

    found : take n (drop (length before) (before ++ bs ++ rest)) ≡ bs
    found = rw (append_assoc, drop-append before (bs ++ rest), ← e) (take-append bs rest)

module _ (O : ByteOrder) (E : IsBigEndian O) where
  -- Over a big-endian byteorder and on a valid reader, `read_u8` and `read_u16` each either panic,
  -- and then fewer bytes are left than they read, or move the cursor on by the number of bytes
  -- that they read and leave the buffer as it was and the reader valid.
  read-Reads : (r : PacketReader) → IsValid r → Reads 1 r (read_u8 O r) × Reads 2 r (read_u16 O r)
  unfolding read_u8 read_u16
  read-Reads r v = (
    rw (E.read_u8_lem r.cursor) (read_exact-Reads 1 r v),
    rw (E.read_u16_lem r.cursor) (read_exact-Reads 2 r v),
  )

  -- Over a big-endian byteorder and on a valid reader, `has_more` is true exactly when `read_u8`
  -- returns a byte.
  has_more-read :
      (r : PacketReader)
      → IsValid r
      → (has_more r ≡ true) ↔ ((v : ℕ) × (r' : PacketReader) × (read_u8 O r ≡ done (v, r')))
  unfolding has_more
  has_more-read r v = (
    λ more. elim (read-Reads r v).0 [
      | inl (short, _) ↦ absurd (ground arith)
      | inr (x, r', e, _, _, _) ↦ (x, r', e)
    ],
    λ (x, r', e). elim (read-Reads r v).0 [
      | inl (_, p) ↦ cc
      | inr (y, r'', _, moved, same, v') ↦
          lt→ltb r.cursor.position (length r.buffer)
            (omega (arith, v'.in_range, moved, ap length same))
    ],
  )

  -- Over a big-endian byteorder and on a valid reader with exactly one byte left, `has_more` is
  -- true and `read_u16` panics.
  pub has_more-read_u16 :
      (r : PacketReader)
      → IsValid r
      → r.cursor.position + 1 ≡ length r.buffer
      → (has_more r ≡ true) × (read_u16 O r ≡ panicked)
  unfolding has_more
  has_more-read_u16 r v one = (
    lt→ltb r.cursor.position (length r.buffer) (omega arith),
    elim (read-Reads r v).1 [
      | inl (_, p) ↦ p
      | inr (y, r'', _, moved, same, v') ↦
          absurd (omega (arith, v'.in_range, moved, ap length same))
    ],
  )

  -- A timestamp of 64 bits that was written behind `before` is read back from there, whatever
  -- follows it, and the cursor then stands behind it.
  pub read-write :
      (t : Timestamp) (before rest : List ℕ)
      → t.time < 2 ^ 64
      → read O (reader_at (write O t before ++ rest) (length before))
        ≡ done (t, reader_at (write O t before ++ rest) (length before + 8))
  unfolding read write
  read-write t before rest h =
      rw (E.write_u64_lem before t.time h, E.read_u64_lem)
        (rw
          (
            read_exact_at before (be_bytes 8 t.time) rest 8 (length-be_bytes 8 t.time),
            be_value-be_bytes_u64 t.time h,
          )
          refl)
