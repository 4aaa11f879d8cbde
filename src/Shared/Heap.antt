-- ===== src/Shared/Heap.antt =====
-- std::collections::BinaryHeap, as shared/src/time_queue.rs uses it: five operations on an unknown
-- state and what the standard library promises of them. The order in which equally great items
-- leave the heap is not promised, so it is left open here.
pub mod Selection
use mathlib.Core.List.{Mem}
use naia_socket.Base.{ℕ, ◌≡◌, ◌≢◌, ◌⊎◌, Option, none, some, List, [], ◌∷◌, Ordering, Perm, length}

pub record BinaryHeap (T : Type 0) : Type 1 where
  pub Heap : Type 0
  pub new : Heap
  pub push : Heap → T → Heap
  pub pop : Heap → Option (T × Heap)
  pub peek : Heap → Option T
  pub len : Heap → ℕ
  -- `into_vec`: the contents, in arbitrary order.
  pub contents : Heap → List T

-- What `peek` and `pop` find: nothing in an empty heap; else one item, of which `pop` takes one copy.
abbrev pub Pops : {T : Type 0} (B : BinaryHeap T) → B.Heap → Type 0
Pops {T} B h =
    ((B.contents h ≡ []) × (B.peek h ≡ none) × (B.pop h ≡ none))
    ⊎ ((x : T) × (h' : B.Heap) × Perm (B.contents h) (x ∷ B.contents h')
        × (B.peek h ≡ some x)
        × (B.pop h ≡ some (x, h')))

-- `cmp` is the `Ord` of the items: no item compares greater than the one that `peek` returns.
pub record IsLawful {T : Type 0} (B : BinaryHeap T) (cmp : T → T → Ordering) : Type 0 where
  pub contents-new : B.contents B.new ≡ []
  pub contents-push : (h : B.Heap) (x : T) → Perm (B.contents (B.push h x)) (x ∷ B.contents h)
  pub len-contents : (h : B.Heap) → B.len h ≡ length (B.contents h)
  pub peek-Pops : (h : B.Heap) → Pops B h
  pub peek_greatest :
      (h : B.Heap) (x y : T) → B.peek h ≡ some x → Mem y (B.contents h) → cmp y x ≢ Ordering.gt
