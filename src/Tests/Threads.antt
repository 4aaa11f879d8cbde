-- ===== src/Tests/Threads.antt =====
-- Two threads that share a `Ref`, on concrete inputs.
use naia_socket.Base.{ℕ, ◌+◌, refl, true, false, none, some, List, [], ◌∷◌}
use naia_socket.Shared.Reference.Threads.{
  Write, idle, locked, loaded, stored, System, step_thread, lock, store, Reach, start, later, steps,
}
use naia_socket.Shared.Reference.Threads.Laws.{mutex}
use naia_socket.Shared.Reference.Threads.Serial.{IsSerial, Reach-IsSerial}
use naia_socket.Shared.Reference.Threads.Progress.{Ends, Reach-Ends}

abbrev add_one : Write ℕ
add_one n = some (n + 1)

-- One thread adds one, the other panics while it holds the guard.
abbrev programs : List (List (Write ℕ))
programs = (add_one ∷ []) ∷ ((λ n. none) ∷ []) ∷ []

abbrev added : System ℕ
added = record { mutex = mutex 6 true false; threads = stored [] ∷ idle ((λ n. none) ∷ []) ∷ [] }

added-Reach : Reach 5 programs added
unfolding step_thread lock store
added-Reach =
    later
      (later
        (later start
          (steps 0 (idle (add_one ∷ [])) (locked add_one []) (mutex 5 true false) refl refl))
        (steps 0 (locked add_one []) (loaded 5 add_one []) (mutex 5 true false) refl refl))
      (steps 0 (loaded 5 add_one []) (stored []) (mutex 6 true false) refl refl)

Reach-IsSerial_example : IsSerial 5 programs added
Reach-IsSerial_example = Reach-IsSerial 5 programs added-Reach

Reach-Ends_example : Ends added
Reach-Ends_example = Reach-Ends 5 programs added-Reach
