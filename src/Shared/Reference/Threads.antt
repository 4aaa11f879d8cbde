-- ===== src/Shared/Reference/Threads.antt =====
-- `Ref` over `Arc<Mutex>` (shared/src/reference.rs with the feature `multithread`) used by several threads.
-- A thread writes through its clone again and again: `borrow_mut` locks, the guard is read and then
-- written, and its drop unlocks. All clones of a `Ref` share the one mutex of its `Arc`; the list of threads and
-- the order in which they step are the schedule, which no code of the repository gives. A write that panics poisons the mutex, on which `unwrap` of a later
-- `lock` panics.
pub mod Laws
pub mod Serial
pub mod Progress
use naia_socket.Base.{
  ℕ, zero, suc, ◌≡◌, Bool, true, false, Option, none, some, List, [], ◌∷◌, if◌then◌else◌, get_elem?,
}

-- A write gives the new value, or panics.
abbrev pub Write : Type 0 → Type 0
Write T = T → Option T

-- Where a thread is, with the writes that it has still to store: about to lock, behind the lock, behind
-- the read of the value, behind the write; or it has panicked.
pub data Thread (T : Type 0) : Type 0 where
  idle : List (Write T) → Thread T
  locked : Write T → List (Write T) → Thread T
  loaded : T → Write T → List (Write T) → Thread T
  stored : List (Write T) → Thread T
  crashed : List (Write T) → Thread T

pub record Mutex (T : Type 0) : Type 0 where
  pub value : T
  pub is_locked : Bool
  pub poisoned : Bool

module _ {T : Type 0} where
  -- `self.inner.lock().unwrap()`: it waits while another thread holds the lock.
  unfoldable pub lock : Write T → List (Write T) → Mutex T → Option (Thread T × Mutex T)
  lock f fs m =
      if m.is_locked
      then none
      else if m.poisoned
      then some (crashed (f ∷ fs), m)
      else some (locked f fs, record m { is_locked = true })

  -- `deref_mut` of the guard with the write; a panic drops the guard.
  unfoldable pub store : Option T → Write T → List (Write T) → Mutex T → Thread T × Mutex T
  store (some y) f fs m = (stored fs, record m { value = y })
  store none f fs m = (crashed (f ∷ fs), record m { is_locked = false; poisoned = true })

  -- The next step of a thread, or nothing where it waits, has ended or has panicked.
  unfoldable pub step_thread : Thread T → Mutex T → Option (Thread T × Mutex T)
  unfolding lock store
  step_thread (idle []) m = none
  step_thread (idle (f ∷ fs)) m = lock f fs m
  step_thread (locked f fs) m = some (loaded m.value f fs, m)
  step_thread (loaded x f fs) m = some (store (f x) f fs m)
  step_thread (stored fs) m = some (idle fs, record m { is_locked = false })
  step_thread (crashed fs) m = none

pub record System (T : Type 0) : Type 0 where
  pub mutex : Mutex T
  pub threads : List (Thread T)

module _ {T : Type 0} where
  abbrev pub set : List (Thread T) → ℕ → Thread T → List (Thread T)
  set [] i t = []
  set (u ∷ us) zero t = t ∷ us
  set (u ∷ us) (suc i) t = u ∷ set us i t

  -- Any thread may step next.
  pub data Step (s : System T) : System T → Type 0 where
    steps :
        (i : ℕ) (t t' : Thread T) (m : Mutex T)
        → get_elem? s.threads i ≡ some t
        → step_thread t s.mutex ≡ some (t', m)
        → Step s (record { mutex = m; threads = set s.threads i t' })

  -- The threads start with their writes on a new `Ref`.
  abbrev pub starts : List (List (Write T)) → List (Thread T)
  starts [] = []
  starts (fs ∷ fss) = idle fs ∷ starts fss

  abbrev pub initial : T → List (List (Write T)) → System T
  initial value programs = record {
    mutex = record { value = value; is_locked = false; poisoned = false };
    threads = starts programs;
  }

module _ {T : Type 0} (value : T) (programs : List (List (Write T))) where
  pub data Reach : System T → Type 0 where
    start : Reach (initial value programs)
    later : {s s' : System T} → Reach s → Step s s' → Reach s'
