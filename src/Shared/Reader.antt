-- ===== src/Shared/Reader.antt =====
-- shared/src/packet_reader.rs, and `Timestamp` of shared/src/impls/*/timestamp.rs, whose `read` and
-- `write` are the same on every platform. A read that fails is unwrapped, so it panics.
pub mod Laws
pub mod RoundTrip
pub mod Drain
use naia_socket.Base.{ℕ, Bool, Exec, done, panicked, ◌>>=◌, Option, none, some, List, ltb, length}
use naia_socket.Shared.Bytes.{ByteOrder, Cursor}

pub record PacketReader : Type 0 where
  pub buffer : List ℕ
  pub cursor : Cursor

pub record Timestamp : Type 0 where
  pub time : ℕ

unfoldable pub new : List ℕ → PacketReader
new buffer = record { buffer = buffer; cursor = record { inner = buffer; position = 0 } }

unfoldable pub has_more : PacketReader → Bool
has_more self = ltb self.cursor.position (length self.buffer)

-- `Result::unwrap` of a read through the cursor of `self`.
abbrev pub unwrap_read : PacketReader → Option (ℕ × Cursor) → Exec (ℕ × PacketReader)
unwrap_read self none = panicked
unwrap_read self (some (v, c)) = done (v, record self { cursor = c })

unfoldable pub get_cursor : PacketReader → Cursor
get_cursor self = self.cursor

unfoldable pub get_buffer : PacketReader → List ℕ
get_buffer self = self.buffer

module _ (O : ByteOrder) where
  unfoldable pub read_u8 : PacketReader → Exec (ℕ × PacketReader)
  read_u8 self = unwrap_read self (O.read_u8 self.cursor)

  unfoldable pub read_u16 : PacketReader → Exec (ℕ × PacketReader)
  read_u16 self = unwrap_read self (O.read_u16 self.cursor)

  -- `Timestamp::write`
  unfoldable pub write : Timestamp → List ℕ → List ℕ
  write self buffer = O.write_u64 buffer self.time

  -- `Timestamp::read`
  unfoldable pub read : PacketReader → Exec (Timestamp × PacketReader)
  read reader = do
    (time, reader') ← unwrap_read reader (O.read_u64 reader.cursor)
    done (record { time = time }, reader')
