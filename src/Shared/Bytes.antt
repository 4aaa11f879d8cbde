-- ===== src/Shared/Bytes.antt =====
-- The byteorder crate and std::io::Cursor, as shared/src/packet_reader.rs and the three
-- timestamp.rs use them. A byte is a number below 256.
use mathlib.Core.List.{List}
use naia_socket.Base.{
  ℕ, zero, suc, ◌+◌, ◌*◌, ◌/◌, ◌%◌, ◌^◌, ◌<◌, ◌≡◌, refl, Option, none, some, [], ◌∷◌, ◌++◌, leb,
  if◌then◌else◌, take, drop, length, arith, ap,
}

pub record Cursor : Type 0 where
  pub inner : List ℕ
  pub position : ℕ

-- The value of bytes in big-endian order, behind `acc`.
abbrev pub be_value : ℕ → List ℕ → ℕ
be_value acc [] = acc
be_value acc (b ∷ bs) = be_value (acc * 256 + b) bs

-- The `n` bytes of a number in big-endian order.
pub be_bytes : ℕ → ℕ → List ℕ
be_bytes zero v = []
be_bytes (suc n) v = (v / 256 ^ n % 256) ∷ be_bytes n v

-- `read_exact` of `n` bytes: none of them is consumed where fewer are left (the callers panic).
abbrev pub read_exact : ℕ → Cursor → Option (List ℕ × Cursor)
read_exact n c =
    if leb (c.position + n) (length c.inner)
    then some (take n (drop c.position c.inner), record c { position = c.position + n })
    else none

abbrev pub value_of : Option (List ℕ × Cursor) → Option (ℕ × Cursor)
value_of none = none
value_of (some (bs, c)) = some (be_value 0 bs, c)

-- `none` stands for the error `UnexpectedEof`.
pub record ByteOrder : Type 0 where
  pub read_u8 : Cursor → Option (ℕ × Cursor)
  pub read_u16 : Cursor → Option (ℕ × Cursor)
  pub read_u64 : Cursor → Option (ℕ × Cursor)
  pub write_u64 : List ℕ → ℕ → List ℕ

-- What the crate documents of `ReadBytesExt` and `WriteBytesExt` at `BigEndian`.
pub record IsBigEndian (O : ByteOrder) : Type 0 where
  pub read_u8_lem : (c : Cursor) → O.read_u8 c ≡ value_of (read_exact 1 c)
  pub read_u16_lem : (c : Cursor) → O.read_u16 c ≡ value_of (read_exact 2 c)
  pub read_u64_lem : (c : Cursor) → O.read_u64 c ≡ value_of (read_exact 8 c)
  pub write_u64_lem :
      (buffer : List ℕ) (v : ℕ) → v < 2 ^ 64 → O.write_u64 buffer v ≡ buffer ++ be_bytes 8 v

pub length-be_bytes : (n v : ℕ) → length (be_bytes n v) ≡ n
unfolding be_bytes
length-be_bytes zero v = refl
length-be_bytes (suc n) v = ap suc (length-be_bytes n v)

pub be_value-be_bytes_u64 : (v : ℕ) → v < 2 ^ 64 → be_value 0 (be_bytes 8 v) ≡ v
unfolding be_bytes
be_value-be_bytes_u64 v h = omega arith

-- The crate as it is documented.
abbrev pub big_endian : ByteOrder
big_endian = record {
  read_u8 = λ c. value_of (read_exact 1 c);
  read_u16 = λ c. value_of (read_exact 2 c);
  read_u64 = λ c. value_of (read_exact 8 c);
  write_u64 = λ buffer v. buffer ++ be_bytes 8 v;
}

pub big_endian-IsBigEndian : IsBigEndian big_endian
big_endian-IsBigEndian = record {
  read_u8_lem = λ c. refl;
  read_u16_lem = λ c. refl;
  read_u64_lem = λ c. refl;
  write_u64_lem = λ buffer v h. refl;
}
