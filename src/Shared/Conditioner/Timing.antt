-- ===== src/Shared/Conditioner/Timing.antt =====
-- When shared/src/link_condition_logic.rs lets a packet be due, over a clock that does not go back.
use Prim.Native.Nat.{max}
use naia_socket.Base.{
  ℕ, ◌≤◌, ◌+◌, ◌-◌, ◌*◌, ◌≡◌, refl, ◌⊎◌, inl, inr, Exec, done, panicked, ◌>>=◌, ltb, if◌then◌else◌,
  arith, Bool-cases, ap, out_of_fuel,
}
use naia_socket.Shared.Config.{Rates, LinkConditionerConfig, IsValid}
use naia_socket.Shared.World.{World, IsLawful, IsMonotone, Profile, add_u32, sub_u32}
use naia_socket.Shared.Conditioner.{jittered, add_millis}
use naia_socket.Shared.Heap.{BinaryHeap}
use naia_socket.Shared.TimeQueue.{ItemContainer, TimeQueue, add_item}
use naia_socket.Shared.Conditioner.{process_packet}
use naia_socket.Shared.Conditioner.Laws.{after_loss, process_packet-Fate}

module _ {W : Type 0} where
  same_world :
      (m : Exec ℕ) (w : W) {l : ℕ} {w' : W}
      → ◌>>=◌ {B = ℕ × W} m (λ x. done (x, w)) ≡ done (l, w')
      → w ≡ w'
  same_world (done x) w e = cc
  same_world panicked w e = cc
  same_world out_of_fuel w e = cc

  -- The world that a draw leaves is that of the latency made from it.
  drawn_before :
      (m : Exec (ℕ × W)) (k : ℕ → Exec ℕ) {l : ℕ} {w' : W}
      → ◌>>=◌ {B = ℕ × W} m (λ (n, w). ◌>>=◌ {B = ℕ × W} (k n) (λ x. done (x, w))) ≡ done (l, w')
      → (n : ℕ) × (m ≡ done (n, w'))
  drawn_before (done (n, w)) k e = (n, ap (λ v. done (n, v)) (same_world (k n) w e))
  drawn_before panicked k e = cc
  drawn_before out_of_fuel k e = cc

module _ {R : Rates} (V : World R) (M : IsMonotone V) (profile : Profile) where
  jittered_after :
      (c : LinkConditionerConfig R) (w : V.W) (l : ℕ) (w' : V.W)
      → jittered V profile c w ≡ done (l, w')
      → M.clock w ≤ M.clock w'
  unfolding jittered
  jittered_after c w l w' e = elim (Bool-cases (ltb 0 c.incoming_jitter)) [
    | inr none_given ↦ ground arith
    | inl some_given ↦
        let (n, drawn) =
          drawn_before (V.gen_range_u32 0 c.incoming_jitter (V.gen_bool w).1)
            (λ n.
              if (V.gen_bool w).0
              then add_u32 profile c.incoming_latency n
              else sub_u32 profile c.incoming_latency n)
            (rw (some_given, jittered) at e) in
        omega (
          arith,
          M.gen_bool_after w,
          M.gen_range_u32_after 0 c.incoming_jitter (V.gen_bool w).1 n w' drawn,
        )
  ]

-- The least latency that the configuration allows.
abbrev pub least_latency : {R : Rates} → LinkConditionerConfig R → ℕ
least_latency c = c.incoming_latency + 1 - max 1 c.incoming_jitter

scaled_le : (a b m l p : ℕ) → a ≤ b → m ≤ l → a + m * p ≤ b + l * p
scaled_le a b m l p h k = grind arith

module _ {R : Rates} (V : World R) {T : Type 0} (B : BinaryHeap (ItemContainer T)) where
  -- The queue after a packet that was handed in when the clock stood at `start` or later.
  abbrev pub Adds : LinkConditionerConfig R → ℕ → TimeQueue B → T → TimeQueue B → Type 0
  Adds c start q packet q' =
      (q' ≡ q)
      ⊎ ((t : ℕ) × (start + least_latency c * V.per_milli ≤ t) × (q' ≡ add_item B q t packet))

module _ {R : Rates} (V : World R) (L : IsLawful V) (M : IsMonotone V) (profile : Profile)
    {T : Type 0} (B : BinaryHeap (ItemContainer T)) where
  -- Over a lawful random source, a clock that does not go back and a valid configuration,
  -- `process_packet` returns, the clock is no earlier, and the packet is dropped or added to the
  -- queue for a moment no earlier than the least latency of the configuration from the clock at
  -- the call.
  pub process_packet-Adds :
      (c : LinkConditionerConfig R) (q : TimeQueue B) (packet : T) (w : V.W)
      → IsValid R c
      → (q' : TimeQueue B) × (w' : V.W) × (process_packet V profile B c q packet w ≡ done (q', w'))
        × (M.clock w ≤ M.clock w')
        × Adds V B c (M.clock w) q packet q'
  process_packet-Adds c q packet w v = elim (process_packet-Fate V L profile B c q packet w v) [
    | inl (_, (w', inl e, r)) ↦ (q, w', r, rw e (lost₁ w), inl refl)
    | inl (_, (w', inr e, r)) ↦ (q, w', r, rw e (lost₂ w), inl refl)
    | inr (_, (l, w₃, j, e, r)) ↦
        let before : M.clock w ≤ M.clock w₃ =
          omega (arith, lost₂ w, jittered_after V M profile c _ l w₃ e) in
        (
          add_item B q (add_millis V (V.now w₃).0 l) packet,
          (V.now w₃).1,
          r,
          omega (arith, before, M.now_after w₃, M.now_before w₃),
          inr (
            add_millis V (V.now w₃).0 l,
            scaled_le (M.clock w) (V.now w₃).0 (least_latency c) l V.per_milli
                (omega (arith, before, M.now_after w₃)) (omega (arith, j.0)),
            refl,
          ),
        )
  ]
    where
      lost₁ : (w : V.W) → M.clock w ≤ M.clock (after_loss V w)
      lost₁ w = M.gen_range_f32_after _ _ w

      lost₂ : (w : V.W) → M.clock w ≤ M.clock (after_loss V (after_loss V w))
      lost₂ w = omega (arith, lost₁ w, lost₁ (after_loss V w))
