-- ===== src/Shared/Reference/Multi.antt =====
-- `Ref` over `Arc<Mutex>`: shared/src/reference.rs with the feature `multithread`. Both `borrow` and
-- `borrow_mut` lock.
use naia_socket.Base.{true, false, Exec, done, panicked, ◌>>=◌, if◌then◌else◌}
use naia_socket.Shared.Reference.{Cell, Store, Ref, at, deref_mut}

module _ {T : Type 0} where
  -- `Mutex::lock` by the thread that runs, and the drop of the guard.
  unfoldable pub lock : Cell T → Exec (Cell T)
  lock c = if c.writing then panicked else done (record c { writing = true })

  unfoldable pub unlock : Cell T → Exec (Cell T)
  unlock c = done (record c { writing = false })

  unfoldable pub borrow : Ref → Store T → Exec (Store T)
  borrow self = at lock self.inner

  unfoldable pub borrow_mut : Ref → Store T → Exec (Store T)
  borrow_mut self = at lock self.inner

  -- `r.borrow_mut()` used for one expression: the guard is dropped after the write.
  unfoldable pub update : Ref → (T → T) → Store T → Exec (Store T)
  update self f s = do
    s₁ ← at lock self.inner s
    s₂ ← at (deref_mut f) self.inner s₁
    at unlock self.inner s₂
