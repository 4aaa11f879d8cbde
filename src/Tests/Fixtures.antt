-- ===== src/Tests/Fixtures.antt =====
-- The platforms, heaps and networks that the examples run on.
use mathlib.Core.List.{perm_middle}
use naia_socket.Base.{
  [], ◌∷◌, ◌++◌, Perm, subst, append-nil, ℕ, suc, ◌-◌, ◌*◌, ◌^◌, true, false, done, leb, arith,
  refl,
}
use naia_socket.Shared.Config.{Rates, LinkConditionerConfig, good_condition}
use naia_socket.Shared.World.{World, IsLawful, IsMonotone}
use naia_socket.Shared.Heap.{BinaryHeap}
use naia_socket.Shared.Heap as H
use naia_socket.Shared.Heap.Selection.{selection_heap, selection_heap-IsLawful}
use naia_socket.Shared.TimeQueue.{ItemContainer, cmp}

-- Rates in units of 10 ^ -7.
abbrev pub rates : Rates
rates = record { F = ℕ; leb = leb; decimal = λ m k. m * 10 ^ (7 - k) }

-- A clock that moves by a nanosecond with each reading, and draws at the ends of their ranges.
abbrev pub calm : World rates
calm = record {
  W = ℕ;
  per_milli = 1_000_000;
  now = λ w. (w, suc w);
  gen_range_f32 = λ lower upper w. (upper - 1, w);
  gen_range_u32 = λ lower upper w. done (lower, w);
  gen_bool = λ w. (true, w);
}

pub calm-IsLawful : IsLawful calm
calm-IsLawful = record {
  gen_range_u32_bounds = λ lower upper w h u. (lower, w, refl, omega arith, h);
}

pub calm-IsMonotone : IsMonotone calm
calm-IsMonotone = record {
  clock = λ w. w;
  now_after = λ w. omega arith;
  now_before = λ w. omega arith;
  gen_range_f32_after = λ a b w. omega arith;
  gen_bool_after = λ w. omega arith;
  gen_range_u32_after = λ a b w n w' e. ground arith;
}

-- The same with the other ends, and a clock that goes back.
abbrev pub stormy : World rates
stormy = record {
  W = ℕ;
  per_milli = 1_000_000;
  now = λ w. (w, w - 1);
  gen_range_f32 = λ lower upper w. (upper - 1, w);
  gen_range_u32 = λ lower upper w. done (upper - 1, w);
  gen_bool = λ w. (false, w);
}

pub stormy-IsLawful : IsLawful stormy
stormy-IsLawful = record {
  gen_range_u32_bounds =
      λ lower upper w h u. (upper - 1, w, refl, omega (arith, h), omega (arith, h));
}

module _ {T : Type 0} where
  abbrev pub heap : BinaryHeap (ItemContainer T)
  heap = selection_heap (λ c. c.instant)

  pub heap-IsLawful : H.IsLawful heap (cmp {T = T})
  heap-IsLawful = selection_heap-IsLawful (λ c. c.instant)

  -- Items of one instant leave this one in another order.
  abbrev pub back_heap : BinaryHeap (ItemContainer T)
  back_heap = record heap { push = λ h x. h ++ x ∷ [] }

  pub back_heap-IsLawful : H.IsLawful back_heap (cmp {T = T})
  back_heap-IsLawful = record {
    contents-new = heap-IsLawful.contents-new;
    contents-push =
        λ h x. subst (λ l. Perm (h ++ x ∷ []) (x ∷ l)) (append-nil h) (perm_middle h []);
    len-contents = heap-IsLawful.len-contents;
    peek-Pops = heap-IsLawful.peek-Pops;
    peek_greatest = heap-IsLawful.peek_greatest;
  }

abbrev pub good : LinkConditionerConfig rates
good = good_condition rates
