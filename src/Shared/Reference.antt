-- ===== src/Shared/Reference.antt =====
-- shared/src/reference.rs. A `Ref` is the place of a cell in a store, so its clones share the cell.
-- `Single` is the variant over `Rc<RefCell>`, `Multi` (feature `multithread`) that over
-- `Arc<Mutex>`, for one thread: a lock that its own thread holds panics or never returns.
pub mod Single
pub mod Multi
pub mod Threads
pub mod Laws
use naia_socket.Base.{
  ℕ, zero, suc, ◌+◌, Bool, false, Option, none, some, List, [], ◌∷◌, ◌++◌, length, Exec, done,
  panicked, ◌>>=◌,
}

-- A cell, how many guards of `borrow` are alive on it, and whether one of `borrow_mut` is.
pub record Cell (T : Type 0) : Type 0 where
  pub value : T
  pub readers : ℕ
  pub writing : Bool

abbrev pub Store : Type 0 → Type 0
Store T = List (Cell T)

pub record Ref : Type 0 where
  pub inner : ℕ

module _ {T : Type 0} where
  -- An operation on the cell at `i`. Every `Ref` points into the store, which keeps its cells.
  unfoldable pub at : (Cell T → Exec (Cell T)) → ℕ → Store T → Exec (Store T)
  at f i [] = panicked
  at f zero (c ∷ cs) = do c' ← f c; done (c' ∷ cs)
  at f (suc i) (c ∷ cs) = do cs' ← at f i cs; done (c ∷ cs')

  abbrev pub get_elem? : Store T → ℕ → Option (Cell T)
  get_elem? [] i = none
  get_elem? (c ∷ cs) zero = some c
  get_elem? (c ∷ cs) (suc i) = get_elem? cs i

  -- `Ref::new`, the same in both variants.
  unfoldable pub new : T → Store T → Ref × Store T
  new value s = (
    record { inner = length s },
    s ++ (record { value = value; readers = 0; writing = false }) ∷ [],
  )

  -- `DerefMut::deref_mut` of a guard, with the write that its user makes.
  unfoldable pub deref_mut : (T → T) → Cell T → Exec (Cell T)
  deref_mut f c = done (record c { value = f c.value })

-- `Clone::clone`
unfoldable pub clone : Ref → Ref
clone self = self
