-- ===== src/Shared/Ports/Laws.antt =====
-- The search for a port finds the least one that is free, and gives up only where none is.
use naia_socket.Base.{
  ℕ, zero, suc, ◌+◌, ◌≤◌, ◌<◌, ◌≡◌, inl, inr, Bool, true, false, Option, none, some, Bool-cases,
  arith,
}
use naia_socket.Shared.Ports.{find, Binder, IpAddr, find_available_port, port_is_available}

-- `r` is the least number of `[start, end)` that passes the test, or `none` where none does.
abbrev pub FindsLeast : (ℕ → Bool) → ℕ → ℕ → Option ℕ → Type 0
FindsLeast test start end none = (p : ℕ) → start ≤ p → p < end → test p ≡ false
FindsLeast test start end (some q) =
    (start ≤ q) × (q < end) × (test q ≡ true) × ((p : ℕ) → start ≤ p → p < q → test p ≡ false)

-- A test that fails at `start` moves the search on by one.
FindsLeast-step :
    (test : ℕ → Bool) (start end : ℕ) (r : Option ℕ)
    → test start ≡ false
    → FindsLeast test (start + 1) end r
    → FindsLeast test start end r
FindsLeast-step test start end none e h = λ p lo hi. at_start p lo (h p) hi
  where
    at_start :
        (p : ℕ) → start ≤ p → (start + 1 ≤ p → p < end → test p ≡ false) → p < end → test p ≡ false
    at_start p lo f hi = grind (arith, f)
FindsLeast-step test start end (some q) e (lo, hi, t, below) =
    (omega arith, hi, t, λ p l u. grind (arith, below p))

pub find-FindsLeast :
    (test : ℕ → Bool) (start count end : ℕ)
    → start + count ≡ end
    → FindsLeast test start end (find test start count)
unfolding find
find-FindsLeast test start zero end e = λ p lo hi. absurd (omega arith)
find-FindsLeast test start (suc count) end e = elim (Bool-cases (test start)) [
  | inl t ↦ rw t (omega arith, omega arith, t, λ p lo hi. absurd (omega arith))
  | inr f ↦ rw f (
      FindsLeast-step test start end _ f (find-FindsLeast test (start + 1) count end (omega arith)))
]

-- `find_available_port` returns the least port from 1025 to 65534 that is available, or `None`,
-- and then none of them is.
pub find_available_port-FindsLeast :
    (N : Binder) (ip : IpAddr)
    → FindsLeast (port_is_available N ip) 1025 65535 (find_available_port N ip)
unfolding find_available_port
find_available_port-FindsLeast N ip =
    find-FindsLeast (port_is_available N ip) 1025 64510 65535 (omega arith)
