-- ===== src/Shared/TimeQueue.antt =====
-- shared/src/time_queue.rs: a queue of items marked by the moment at which each is due. Instants
-- are numbers of nanoseconds; the clock reading that `has_item` takes is an argument.
pub mod Laws
pub mod History
pub mod Heaps
use naia_socket.Base.{
  ℕ, ◌≡◌, Bool, true, false, Option, none, some, Ordering, compare, leb, ◌==◌, if◌then◌else◌,
}
use naia_socket.Shared.Heap.{BinaryHeap}

pub record ItemContainer (T : Type 0) : Type 0 where
  pub instant : ℕ
  pub item : T

-- `Ord for ItemContainer`: the earlier an item is due, the greater it is.
abbrev pub cmp : {T : Type 0} → ItemContainer T → ItemContainer T → Ordering
cmp self other = compare other.instant self.instant

module _ {T : Type 0} (B : BinaryHeap (ItemContainer T)) where
  pub record TimeQueue : Type 0 where
    pub queue : B.Heap

module _ {T : Type 0} (B : BinaryHeap (ItemContainer T)) where
  unfoldable pub new : TimeQueue B
  new = record { queue = B.new }

  unfoldable pub add_item : TimeQueue B → ℕ → T → TimeQueue B
  add_item self instant item = record self {
    queue = B.push self.queue (record { instant = instant; item = item });
  }

  unfoldable pub has_item : TimeQueue B → ℕ → Bool
  has_item self now =
      if B.len self.queue == 0
      then false
      else elim (B.peek self.queue) [ some item ↦ leb item.instant now | none ↦ false ]

  -- `none` and the queue as it was, or the item and the queue without it.
  unfoldable pub pop_item : TimeQueue B → ℕ → Option T × TimeQueue B
  unfolding has_item
  pop_item self now =
      if has_item self now
      then elim (B.pop self.queue) [
        | some (container, rest) ↦ (some container.item, record self { queue = rest })
        | none ↦ (none, self)
      ]
      else (none, self)

  unfoldable pub peek_entry : TimeQueue B → Option (ItemContainer T)
  peek_entry self = B.peek self.queue

  unfoldable pub len : TimeQueue B → ℕ
  len self = B.len self.queue
