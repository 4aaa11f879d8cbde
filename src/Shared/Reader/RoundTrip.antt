-- ===== src/Shared/Reader/RoundTrip.antt =====
-- A whole packet of timestamps, written and read back.
use naia_socket.Base.{
  ℕ, zero, suc, ◌+◌, ◌<◌, ◌^◌, ◌≡◌, refl, sym, ◌∙◌, false, Exec, done, ◌>>=◌, List, [], ◌∷◌, ◌++◌,
  All, length, length-append, append_assoc, append-nil, arith,
}
use naia_socket.Shared.Bytes.{ByteOrder, IsBigEndian, be_bytes, length-be_bytes}
use naia_socket.Shared.Reader.{PacketReader, Timestamp, new, has_more, write, read}
use naia_socket.Shared.Reader.Laws.{reader_at, read-write}

module _ (O : ByteOrder) where
  -- The timestamps written one behind the other.
  unfoldable pub write_all : List Timestamp → List ℕ → List ℕ
  write_all [] buffer = buffer
  write_all (t ∷ ts) buffer = write_all ts (write O t buffer)

  -- As many timestamps as are asked for, read one behind the other.
  unfoldable pub read_all : ℕ → PacketReader → Exec (List Timestamp × PacketReader)
  read_all zero r = done ([], r)
  read_all (suc n) r = do (t, r') ← read O r; (ts, r'') ← read_all n r'; done (t ∷ ts, r'')

abbrev pub InU64 : Timestamp → Type 0
InU64 t = t.time < 2 ^ 64

module _ (O : ByteOrder) (E : IsBigEndian O) where
  length-write : (t : Timestamp) (b : List ℕ) → InU64 t → length (write O t b) ≡ length b + 8
  unfolding write
  length-write t b h = rw (E.write_u64_lem b t.time h, length-append, length-be_bytes)

  -- `write_all` only appends.
  write_all_extends :
      (ts : List Timestamp) (b : List ℕ)
      → All InU64 ts
      → (rest : List ℕ) × (write_all O ts b ≡ b ++ rest)
  unfolding write_all write
  write_all_extends [] b h = ([], sym (append-nil b))
  write_all_extends (t ∷ ts) b (h, hs) =
      let (rest, e) = write_all_extends ts (write O t b) hs in
      (be_bytes 8 t.time ++ rest, e ∙ rw (E.write_u64_lem b t.time h, append_assoc))

  read_all_from :
      (ts : List Timestamp) (b : List ℕ)
      → All InU64 ts
      → read_all O (length ts) (reader_at (write_all O ts b) (length b))
        ≡ done (ts, reader_at (write_all O ts b) (length (write_all O ts b)))
  unfolding read_all write_all
  read_all_from [] b h = refl
  read_all_from (t ∷ ts) b (h, hs) = rw (step, read_all) (rw (read_all_from ts (write O t b) hs))
    where
      step :
          read O (reader_at (write_all O ts (write O t b)) (length b))
          ≡ done (t, reader_at (write_all O ts (write O t b)) (length (write O t b)))
      step =
          let (rest, e) = write_all_extends ts (write O t b) hs in
          rw (e, length-write t b h) (read-write O E t b rest h)

  -- Over a big-endian byteorder, the timestamps below 2 ^ 64 that were written one behind the
  -- other into an empty buffer are read back in order, without a panic, and the reader then has
  -- nothing more.
  pub read_all-write_all :
      (ts : List Timestamp)
      → All InU64 ts
      → (r : PacketReader) × (read_all O (length ts) (new (write_all O ts [])) ≡ done (ts, r))
        × (has_more r ≡ false)
  unfolding new has_more
  read_all-write_all ts h = (
    reader_at (write_all O ts []) (length (write_all O ts [])),
    read_all_from ts [] h,
    ground arith,
  )
