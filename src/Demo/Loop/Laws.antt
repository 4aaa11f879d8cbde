-- ===== src/Demo/Loop/Laws.antt =====
-- That the loop of demo/client/wasm_bindgen/src/loop_wasm.rs does what that of loop_native.rs does.
use naia_socket.Base.{
  ℕ, ◌≡◌, refl, ap, ◌∙◌, Bool, true, false, List, [], ◌∷◌, Exec, done, panicked, out_of_fuel, ◌>>=◌,
}
use naia_socket.Shared.World.{Profile}
use naia_socket.Demo.App.{Connection, App, update}
use naia_socket.Demo.Loop.{Page, set_timeout, start_loop_native, on_timeout, start_loop, turn, run}

module _ (C : Connection) (profile : Profile) (throws : List ℕ → Bool) where
  -- The page between two turns: one timeout is set, and no other.
  abbrev pub page : App C → Page C
  page app = record { rc = app; owners = 1; f = true; timeouts = 1 ∷ [] }

  pub turn_lem :
      (calm : (l : List ℕ) → throws l ≡ false) (fuel : ℕ) (app : App C)
      → turn C profile throws fuel (page app)
        ≡ (update C profile fuel app >>= λ app'. done (page app'))
  unfolding turn on_timeout set_timeout
  turn_lem calm fuel app = rw (calm []) refl

  run_lem :
      (calm : (l : List ℕ) → throws l ≡ false) (fuels : List ℕ) (m : Exec (App C))
      → ((m >>= λ app. done (page app)) >>= run C profile throws fuels)
        ≡ ((m >>= start_loop_native C profile fuels) >>= λ app. done (page app))
  unfolding run start_loop_native
  run_lem calm [] (done app) = refl
  run_lem calm (fuel ∷ fuels) (done app) =
      ap (λ m. m >>= run C profile throws fuels) (turn_lem calm fuel app)
      ∙ run_lem calm fuels (update C profile fuel app)
  run_lem calm fuels panicked = refl
  run_lem calm fuels out_of_fuel = refl

  -- Where `set_timeout` does not fail, the browser loop of the demo client, driven by one timeout
  -- for each fuel of a list, does to the client what the native loop does in as many rounds, a
  -- panic included; and where these return, just one timeout is set then.
  pub loop_same :
      (calm : (l : List ℕ) → throws l ≡ false) (fuels : List ℕ) (app : App C)
      → (start_loop C profile throws app >>= run C profile throws fuels)
        ≡ (start_loop_native C profile fuels app >>= λ app'. done (page app'))
  unfolding start_loop set_timeout
  loop_same calm fuels app = rw (calm []) (run_lem calm fuels (done app))
