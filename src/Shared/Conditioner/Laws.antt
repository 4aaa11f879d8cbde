-- ===== src/Shared/Conditioner/Laws.antt =====
-- What shared/src/link_condition_logic.rs does to a packet, on every branch.
use Prim.Native.Nat.{max}
use naia_socket.Base.{
  ℕ, ◌<◌, ◌+◌, ◌-◌, ◌≡◌, refl, ◌⊎◌, inl, inr, Bool, true, false, Exec, done, ltb, ◌||◌, arith,
  Bool-cases,
}
use naia_socket.Shared.Config.{Rates, LinkConditionerConfig, IsValid}
use naia_socket.Shared.World.{World, IsLawful, Profile, add_u32_small, sub_u32_small}
use naia_socket.Shared.Heap.{BinaryHeap}
use naia_socket.Shared.TimeQueue.{ItemContainer, TimeQueue, add_item}
use naia_socket.Shared.Conditioner.{jittered, process_packet, add_millis}

module _ {R : Rates} (V : World R) where
  -- The two draws that decide whether a packet is dropped.
  abbrev pub loss_draw : V.W → R.F
  loss_draw w = (V.gen_range_f32 (R.decimal 0 0) (R.decimal 1 0) w).0

  abbrev pub after_loss : V.W → V.W
  after_loss w = (V.gen_range_f32 (R.decimal 0 0) (R.decimal 1 0) w).1

  abbrev pub drops : LinkConditionerConfig R → V.W → Bool
  drops c w =
      R.leb (loss_draw w) c.incoming_loss || R.leb (loss_draw (after_loss w)) c.incoming_corruption

  -- A latency that the configuration allows: exact without jitter, else within less than it.
  abbrev pub IsJittered : LinkConditionerConfig R → ℕ → Type 0
  IsJittered c l =
      (c.incoming_latency < l + max 1 c.incoming_jitter)
      × (l < c.incoming_latency + max 1 c.incoming_jitter)

module _ {R : Rates} (V : World R) (L : IsLawful V) (profile : Profile) where
  jittered-IsJittered :
      (c : LinkConditionerConfig R) (w : V.W)
      → IsValid R c
      → (l : ℕ) × (w' : V.W) × (jittered V profile c w ≡ done (l, w')) × IsJittered V c l
  unfolding jittered
  jittered-IsJittered c w v = elim (Bool-cases (ltb 0 c.incoming_jitter)) [
    | inr none_given ↦ (c.incoming_latency, w, rw none_given, ground arith)
    | inl some_given ↦
        let (n, w', e, lo, hi) =
          L.gen_range_u32_bounds 0 c.incoming_jitter (V.gen_bool w).1 (ground arith)
            (omega (arith, v.no_overflow)) in
        elim (Bool-cases (V.gen_bool w).0) [
          | inl later ↦ (
            c.incoming_latency + n,
            w',
            rw (
              some_given,
              e,
              later,
              add_u32_small profile c.incoming_latency n (omega (arith, v.no_overflow)),
            ),
            omega arith,
          )
          | inr sooner ↦ (
            c.incoming_latency - n,
            w',
            rw (
              some_given,
              e,
              sooner,
              sub_u32_small profile c.incoming_latency n (omega (arith, v.no_underflow)),
            ),
            omega (arith, v.no_underflow),
          )
        ]
  ]

module _ {R : Rates} (V : World R) (profile : Profile) {T : Type 0}
    (B : BinaryHeap (ItemContainer T)) where
  -- What becomes of a packet: it is dropped exactly when one of the two draws says so, and the
  -- queue is then as before; else it is queued at some reading of the clock plus a latency that the
  -- configuration allows.
  abbrev pub Fate :
      LinkConditionerConfig R → TimeQueue B → T → V.W → Exec (TimeQueue B × V.W) → Type 0
  Fate c q packet w r =
      ((drops V c w ≡ true)
        × ((w' : V.W) × ((w' ≡ after_loss V w) ⊎ (w' ≡ after_loss V (after_loss V w)))
            × (r ≡ done (q, w'))))
      ⊎ ((drops V c w ≡ false)
          × ((l : ℕ) × (w₃ : V.W) × IsJittered V c l
              × (jittered V profile c (after_loss V (after_loss V w)) ≡ done (l, w₃))
              × (r ≡ done (add_item B q (add_millis V (V.now w₃).0 l) packet, (V.now w₃).1))))

module _ {R : Rates} (V : World R) (L : IsLawful V) (profile : Profile) {T : Type 0}
    (B : BinaryHeap (ItemContainer T)) where
  -- Over a lawful random source and with a valid configuration, `process_packet` does not panic in
  -- either build; the packet is dropped, and the queue is as before, exactly when the loss draw or
  -- the corruption draw says so; else it is queued at a reading of the clock plus a latency that
  -- differs from the configured one by less than the jitter, or not at all without jitter.
  pub process_packet-Fate :
      (c : LinkConditionerConfig R) (q : TimeQueue B) (packet : T) (w : V.W)
      → IsValid R c
      → Fate V profile B c q packet w (process_packet V profile B c q packet w)
  unfolding process_packet
  process_packet-Fate c q packet w v = elim (Bool-cases (R.leb (loss_draw V w) c.incoming_loss)) [
    | inl lost ↦ inl (rw lost, (after_loss V w, inl refl, rw lost))
    | inr kept ↦ elim (Bool-cases (R.leb (loss_draw V (after_loss V w)) c.incoming_corruption)) [
      | inl corrupt ↦
          inl (rw (kept, corrupt), (after_loss V (after_loss V w), inr refl, rw (kept, corrupt)))
      | inr whole ↦
          let (l, w₃, e, j) = jittered-IsJittered V L profile c (after_loss V (after_loss V w)) v in
          inr (rw (kept, whole), (l, w₃, j, e, rw (kept, whole, e)))
    ]
  ]
