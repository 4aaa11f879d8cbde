-- ===== src/Tests/Platforms.antt =====
-- The platforms, the packet reader, the ports and the references on concrete inputs.
use naia_socket.Base.{
  length, ◌>>=◌, ℕ, suc, ◌+◌, ◌-◌, ◌*◌, ◌/◌, ◌≡◌, true, false, none, some, List, [], ◌∷◌, done,
  arith, ltb,
}
use naia_socket.Base.Int.{pos}
use naia_socket.Shared.Bytes.{big_endian, big_endian-IsBigEndian}
use naia_socket.Shared.Reader.{PacketReader, Timestamp, has_more, read_u8, read_u16}
use naia_socket.Shared.Reader
use naia_socket.Shared.Reader.Laws.{reader_at}
use naia_socket.Shared.Reader.Drain.{drain, words, drain_lem}
use naia_socket.Shared.Reader.RoundTrip.{write_all, read_all, read_all-write_all}
use naia_socket.Shared.Ports.{Binder, v4, v4_addr, v6_addr, port_is_available, find_available_port}
use naia_socket.Shared.Ports.Laws.{FindsLeast, find_available_port-FindsLeast}
use naia_socket.Shared.Reference.{Cell, Store, Ref}
use naia_socket.Shared.Native.{Timer}
use naia_socket.Shared.Web.{Browser, elapsed}
use naia_socket.Shared.Web.Laws.{IsRandom, elapsed_stuck}
use naia_socket.Tests.Fixtures.{rates}

abbrev timer : Timer
timer = record { duration = 5; last = 20 }

abbrev browser : Browser rates
browser = record {
  State = ℕ;
  date_now = λ s. (s, suc s);
  random_f32 = λ s. (0, s);
  random_times = λ width s. (width - 1, s);
  random_lt_half = λ s. (true, s);
  add_f32 = ◌+◌;
  sub_f32 = ◌-◌;
  mul_f32 = ◌*◌;
}

browser-IsRandom : IsRandom browser
browser-IsRandom = record { random_times_lt = λ width s h. omega arith }

elapsed_stuck_example :
    ((elapsed (pos 0) (pos 4_294_967_696)).secs ≡ (4_294_967_696 - 0) / 1000)
    × ((elapsed (pos 0) (pos 4_294_967_696)).nanos ≡ 295_000_000)
elapsed_stuck_example = elapsed_stuck 0 4_294_967_696 (omega arith) (omega arith)

abbrev times : List Timestamp
times = (record { time = 70_000 }) ∷ (record { time = 3 }) ∷ []

read_all-write_all_example :
    (r : PacketReader) × (read_all big_endian 2 (Reader.new (write_all big_endian times []))
      ≡ done (times, r))
    × (has_more r ≡ false)
read_all-write_all_example =
    read_all-write_all big_endian big_endian-IsBigEndian times (omega arith, (omega arith, tt))

-- Three bytes, so that the last one is no number of 16 bits.
abbrev packet : List ℕ
packet = 9 ∷ 1 ∷ 7 ∷ []

drain_lem_example :
    (drain (read_u8 big_endian) 4 (Reader.new packet)
      ≡ done (packet, reader_at packet (length packet)))
    × (drain (read_u16 big_endian) 4 (Reader.new packet)
        ≡ (words packet >>= λ vs. done (vs, reader_at packet (length packet))))
drain_lem_example = drain_lem big_endian big_endian-IsBigEndian packet 4 (omega arith)

-- The ports below 1030 are taken.
abbrev binder : Binder
binder = record {
  UdpSocket = ℕ;
  bind = λ a. elim a [
    | v4_addr ip port ↦ elim (ltb port 1030) [ true ↦ none | false ↦ some port ]
    | v6_addr ip port flow scope ↦ none
  ];
  local_port = λ port. some port;
}

find_available_port-FindsLeast_example :
    FindsLeast (port_is_available binder (v4 1)) 1025 65535 (find_available_port binder (v4 1))
find_available_port-FindsLeast_example = find_available_port-FindsLeast binder (v4 1)

abbrev free : ℕ → Cell ℕ
free n = record { value = n; readers = 0; writing = false }

abbrev store : Store ℕ
store = free 3 ∷ free 4 ∷ []

abbrev second : Ref
second = record { inner = 1 }
