-- ===== src/Tests/Queues.antt =====
-- The time queue and the conditioner's logic on concrete inputs.
use mathlib.Core.List.{Mem, not-mem-nil, mem-cons, Pairwise}
use mathlib.Core.Logic.Or
use mathlib.Core.HLevel.{¬_prop}
use naia_socket.Shared.TimeQueue.Heaps.{Distinct, run_any_heap}
use naia_socket.Base.{All, subst, sym, ℕ, ◌≡◌, ◌≢◌, List, [], ◌∷◌, arith}
use naia_socket.Shared.Config.{LinkConditionerConfig, good_condition-IsValid}
use naia_socket.Shared.World.{debug}
use naia_socket.Shared.TimeQueue.{ItemContainer, TimeQueue, new, add_item}
use naia_socket.Shared.TimeQueue.History.{Call, adds, pops, added, run, Accounts, run-Accounts}
use naia_socket.Shared.Conditioner.{process_packet}
use naia_socket.Shared.Conditioner.Laws.{Fate, process_packet-Fate}
use naia_socket.Shared.Conditioner.Overflow.{Builds, process_packet-Builds}
use naia_socket.Tests.Fixtures.{
  rates, calm, calm-IsLawful, stormy, stormy-IsLawful, heap, heap-IsLawful, back_heap,
  back_heap-IsLawful, good,
}

-- Two items, the later one first.
abbrev two : TimeQueue (heap {T = ℕ})
two = add_item heap (add_item heap (new heap) 30 300) 20 200

abbrev calls : List (Call ℕ)
calls = adds 30 300 ∷ adds 20 200 ∷ pops 10 ∷ pops 25 ∷ pops 30 ∷ adds 50 500 ∷ []

run-Accounts_example : Accounts heap (added calls) (run heap (new heap) calls)
run-Accounts_example = run-Accounts heap heap-IsLawful calls

differs :
    (c : ItemContainer ℕ) {xs : List (ItemContainer ℕ)}
    → All (λ d. c.instant ≢ d.instant) xs
    → (d : ItemContainer ℕ) → Mem d xs
    → c.instant ≢ d.instant
differs c {xs = []} h d m = absurd (not-mem-nil m)
differs c {xs = x ∷ xs} h d m =
    Or.elim ¬_prop (mem-cons.0 m) (λ e. subst (λ y. c.instant ≢ y.instant) (sym e) h.0)
      (differs c h.1 d)

-- No two of the items are due at one instant.
calls-Distinct : Distinct (added calls)
calls-Distinct =
    Pairwise.cons
      (differs (record { instant = 30; item = 300 })
        ((λ e. omega (arith, e)), ((λ e. omega (arith, e)), tt)))
      (Pairwise.cons (differs (record { instant = 20; item = 200 }) ((λ e. omega (arith, e)), tt))
        (Pairwise.cons (differs (record { instant = 50; item = 500 }) tt) Pairwise.nil))

ℕ_set : IsSet ℕ
ℕ_set = hlevel

run_any_heap_example :
    (run heap (new heap) calls).1 ≡ (run (back_heap {T = ℕ}) (new back_heap) calls).1
run_any_heap_example =
    run_any_heap ℕ_set (heap {T = ℕ}) (back_heap {T = ℕ}) heap-IsLawful back_heap-IsLawful calls
      calls-Distinct

process_packet-Fate_example :
    Fate calm debug heap good two 7 100 (process_packet calm debug heap good two 7 100)
process_packet-Fate_example =
    process_packet-Fate calm calm-IsLawful debug heap good two 7 100 (good_condition-IsValid rates)

-- A jitter above the latency.
abbrev wild : LinkConditionerConfig rates
wild = record {
  incoming_latency = 5;
  incoming_jitter = 20;
  incoming_loss = 0;
  incoming_corruption = 0;
}

process_packet-Builds_example :
    Builds stormy heap wild two 7 100 (λ p. process_packet stormy p heap wild two 7 100)
process_packet-Builds_example =
    process_packet-Builds stormy stormy-IsLawful heap wild two 7 100 (omega arith) (omega arith)
