-- ===== src/Shared/Reference/Single.antt =====
-- `Ref` over `Rc<RefCell>`: shared/src/reference.rs without the feature `multithread`.
use naia_socket.Base.{◌+◌, ◌-◌, true, false, Exec, done, panicked, ◌>>=◌, ◌||◌, ltb, if◌then◌else◌}
use naia_socket.Shared.Reference.{Cell, Store, Ref, at, deref_mut}

module _ {T : Type 0} where
  -- `RefCell::borrow` and `borrow_mut`, and the drop of the guard that each returns.
  unfoldable pub borrow_cell : Cell T → Exec (Cell T)
  borrow_cell c = if c.writing then panicked else done (record c { readers = c.readers + 1 })

  unfoldable pub borrow_mut_cell : Cell T → Exec (Cell T)
  borrow_mut_cell c =
      if c.writing || ltb 0 c.readers then panicked else done (record c { writing = true })

  unfoldable pub drop_guard : Cell T → Exec (Cell T)
  drop_guard c = done (record c { readers = c.readers - 1 })

  unfoldable pub drop_guard_mut : Cell T → Exec (Cell T)
  drop_guard_mut c = done (record c { writing = false })

  unfoldable pub borrow : Ref → Store T → Exec (Store T)
  borrow self = at borrow_cell self.inner

  unfoldable pub borrow_mut : Ref → Store T → Exec (Store T)
  borrow_mut self = at borrow_mut_cell self.inner

  -- `r.borrow_mut()` used for one expression: the guard is dropped after the write.
  unfoldable pub update : Ref → (T → T) → Store T → Exec (Store T)
  update self f s = do
    s₁ ← at borrow_mut_cell self.inner s
    s₂ ← at (deref_mut f) self.inner s₁
    at drop_guard_mut self.inner s₂
