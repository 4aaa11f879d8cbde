-- ===== src/Demo/Loop.antt =====
-- demo/client/wasm_bindgen/src/loop_native.rs and loop_wasm.rs: how the demo client of Demo/App is called again
-- and again. The browser calls the closure of loop_wasm.rs once for each timeout, the oldest first;
-- `throws` says whether `set_timeout` fails with some timeouts set, or there is no window.
pub mod Laws
pub mod Drains
pub mod Browser
use naia_socket.Base.{
  ℕ, Bool, true, false, List, [], ◌∷◌, ◌++◌, Exec, done, panicked, ◌>>=◌, ◌==◌, if◌then◌else◌,
}
use naia_socket.Shared.World.{Profile}
use naia_socket.Demo.App.{Connection, App, update}

module _ (C : Connection) where
  -- What the closure has hold of: the app with the number of its owners, whether the closure was put
  -- into `f` yet, and the timeouts that are set, in milliseconds.
  pub record Page : Type 0 where
    pub rc : App C
    pub owners : ℕ
    pub f : Bool
    pub timeouts : List ℕ

module _ (throws : List ℕ → Bool) where
  -- `set_timeout(f.borrow().as_ref().unwrap(), ..)`
  unfoldable pub set_timeout : Bool → ℕ → List ℕ → Exec (List ℕ)
  set_timeout false duration timeouts = panicked
  set_timeout true duration timeouts =
      if throws timeouts then panicked else done (timeouts ++ duration ∷ [])

module _ (C : Connection) (profile : Profile) where
  -- loop_native.rs, for as many rounds as there is fuel for their loops.
  unfoldable pub start_loop_native : List ℕ → App C → Exec (App C)
  start_loop_native [] app = done app
  start_loop_native (fuel ∷ fuels) app = update C profile fuel app >>= start_loop_native fuels

  module _ (throws : List ℕ → Bool) where
    -- The closure: `Rc::get_mut` gives the app where it has one owner.
    unfoldable pub on_timeout : ℕ → Page C → Exec (Page C)
    on_timeout fuel page = do
      app ← if page.owners == 1 then update C profile fuel page.rc else done page.rc
      timeouts ← set_timeout throws page.f 1 page.timeouts
      done (record page { rc = app; timeouts = timeouts })

    unfoldable pub start_loop : App C → Exec (Page C)
    start_loop app = do
      let page : Page C = record { rc = app; owners = 1; f = false; timeouts = [] }
      let page' = record page { f = true }
      timeouts ← set_timeout throws page'.f 1 page'.timeouts
      done (record page' { timeouts = timeouts })

    -- The oldest timeout ends, if one is set.
    unfoldable pub turn : ℕ → Page C → Exec (Page C)
    turn fuel page = elim page.timeouts [
      | [] ↦ done page
      | _ ∷ timeouts ↦ on_timeout fuel (record page { timeouts = timeouts })
    ]

    unfoldable pub run : List ℕ → Page C → Exec (Page C)
    run [] page = done page
    run (fuel ∷ fuels) page = turn fuel page >>= run fuels
