-- ===== src/Shared/Conditioner/Overflow.antt =====
-- When the arithmetic of shared/src/link_condition_logic.rs overflows, and what follows in either build.
use naia_socket.Base.{
  ℕ, ◌<◌, ◌+◌, ◌-◌, ◌≡◌, refl, sym, ap, ◌∙◌, subst, if◌then◌else◌, ◌⊎◌, inl, inr, Bool, true, false,
  Exec, done, panicked, ltb, leb, arith, Bool-cases,
}
use naia_socket.Shared.Config.{Rates, LinkConditionerConfig}
use naia_socket.Shared.World.{World, IsLawful, Profile, debug, release, add_u32, sub_u32, u32_mod}
use naia_socket.Shared.Heap.{BinaryHeap}
use naia_socket.Shared.TimeQueue.{ItemContainer, TimeQueue, add_item}
use naia_socket.Shared.Conditioner.{jittered, process_packet, add_millis}
use naia_socket.Shared.Conditioner.Laws.{loss_draw, after_loss, drops}

module _ {R : Rates} (V : World R) where
  -- What is drawn for a packet that is kept: whether it is to come later, and by how much it differs.
  abbrev is_later : V.W → Bool
  is_later w = (V.gen_bool (after_loss V (after_loss V w))).0

  abbrev Draws : LinkConditionerConfig R → V.W → ℕ → V.W → Type 0
  Draws c w n w₃ =
      V.gen_range_u32 0 c.incoming_jitter (V.gen_bool (after_loss V (after_loss V w))).1
      ≡ done (n, w₃)

  -- The latency with the amount drawn does not fit in 32 bits, and `l` is what it wraps to.
  abbrev Wraps : ℕ → Bool → ℕ → ℕ → Type 0
  Wraps latency true n l = l + u32_mod ≡ latency + n
  Wraps latency false n l = (latency < n) × (l + n ≡ latency + u32_mod)

  -- A packet is kept, there is jitter, and what is drawn for it does not fit.
  abbrev Overflows : LinkConditionerConfig R → V.W → ℕ → ℕ → V.W → Type 0
  Overflows c w n l w₃ =
      (drops V c w ≡ false)
      × (0 < c.incoming_jitter)
      × Draws c w n w₃
      × Wraps c.incoming_latency (is_later w) n l

  abbrev shifted : Profile → Bool → ℕ → ℕ → Exec ℕ
  shifted p later latency n = if later then add_u32 p latency n else sub_u32 p latency n

  -- The sum or the difference wraps, or it fits.
  shifted_lem :
      (later : Bool) (latency n : ℕ)
      → latency < u32_mod
      → n < u32_mod
      → ((l : ℕ) × Wraps latency later n l
          × (shifted debug later latency n ≡ panicked)
          × (shifted release later latency n ≡ done l))
        ⊎ (¬ ((l : ℕ) × Wraps latency later n l)
            × ((l : ℕ) × (shifted debug later latency n ≡ done l)
                × (shifted release later latency n ≡ done l)))
  unfolding add_u32 sub_u32
  shifted_lem true latency n h k = elim (Bool-cases (ltb (latency + n) u32_mod)) [
    | inl fits ↦ inr (λ (l, e). ground (arith, fits), (latency + n, rw fits refl, rw fits refl))
    | inr big ↦ inl (latency + n - u32_mod, ground (arith, big), rw big refl, ground (arith, big))
  ]
  shifted_lem false latency n h k = elim (Bool-cases (leb n latency)) [
    | inl fits ↦ inr (λ (l, e). ground (arith, fits), (latency - n, rw fits refl, rw fits refl))
    | inr low ↦ inl (latency + u32_mod - n, ground (arith, low), rw low refl, rw low refl)
  ]

done_inj {ℓ} : {A : Type ℓ} {a b : A} → done a ≡ done b → a ≡ b
done_inj e = cc

module _ {R : Rates} (V : World R) {T : Type 0} (B : BinaryHeap (ItemContainer T)) where
  -- Something overflows, so that a debug build panics and a release build queues the packet for the latency
  -- that is left of it; or nothing does, and both builds return the same.
  abbrev pub Builds :
      LinkConditionerConfig R
      → TimeQueue B
      → T
      → V.W
      → (Profile → Exec (TimeQueue B × V.W))
      → Type 0
  Builds c q packet w run =
      ((n : ℕ) × (l : ℕ) × (w₃ : V.W) × Overflows V c w n l w₃
        × (run debug ≡ panicked)
        × (run release ≡ done (add_item B q (add_millis V (V.now w₃).0 l) packet, (V.now w₃).1)))
      ⊎ (¬ ((n : ℕ) × (l : ℕ) × (w₃ : V.W) × Overflows V c w n l w₃)
          × ((r : TimeQueue B × V.W) × (run debug ≡ done r) × (run release ≡ done r)))

module _ {R : Rates} (V : World R) (L : IsLawful V) {T : Type 0}
    (B : BinaryHeap (ItemContainer T)) where
  -- Over a lawful random source and with a latency and a jitter below 2 ^ 32, `process_packet` of
  -- any packet does one of two things. The packet is kept, there is jitter, and the sum or the
  -- difference of the latency and what is drawn does not fit in 32 bits: then a debug build
  -- panics, and a release build queues the packet for the latency that the wrap-around leaves. Or
  -- nothing of the kind is drawn, and both builds return the same.
  pub process_packet-Builds :
      (c : LinkConditionerConfig R) (q : TimeQueue B) (packet : T) (w : V.W)
      → c.incoming_latency < u32_mod
      → c.incoming_jitter < u32_mod
      → Builds V B c q packet w (λ p. process_packet V p B c q packet w)
  unfolding process_packet jittered
  process_packet-Builds c q packet w h k =
      elim (Bool-cases (R.leb (loss_draw V w) c.incoming_loss)) [
        | inl lost ↦ inr (
          λ (n, l, w₃, o). ground (arith, o.0, lost),
          ((q, after_loss V w), rw lost refl, rw lost refl),
        )
        | inr kept ↦
            elim (Bool-cases (R.leb (loss_draw V (after_loss V w)) c.incoming_corruption)) [
              | inl corrupt ↦ inr (
                λ (n, l, w₃, o). ground (arith, o.0, kept, corrupt),
                (
                  (q, after_loss V (after_loss V w)),
                  rw (kept, corrupt) refl,
                  rw (kept, corrupt) refl,
                ),
              )
              | inr whole ↦ elim (Bool-cases (ltb 0 c.incoming_jitter)) [
                | inr exact ↦ inr (
                  λ (n, l, w₃, o). ground (arith, o.1, exact),
                  (
                    (
                      add_item B q
                          (add_millis V (V.now (after_loss V (after_loss V w))).0
                            c.incoming_latency)
                          packet,
                      (V.now (after_loss V (after_loss V w))).1,
                    ),
                    rw (kept, whole, exact) refl,
                    rw (kept, whole, exact) refl,
                  ),
                )
                | inl given ↦
                    let (n, w₃, e, lo, hi) =
                      L.gen_range_u32_bounds 0 c.incoming_jitter
                        (V.gen_bool (after_loss V (after_loss V w))).1 (ground arith) k in
                    elim (shifted_lem V (is_later V w) c.incoming_latency n h
                      (omega (arith, hi, k))) [
                        | inl (l, wraps, d, r) ↦ inl (
                          n,
                          l,
                          w₃,
                          (rw (kept, whole) refl, ground (arith, given), e, wraps),
                          rw (kept, whole, given, e, d) refl,
                          rw (kept, whole, given, e, r) refl,
                        )
                        | inr (fits, (l, d, r)) ↦ inr (
                          λ (n', l', w₄, o). fits (
                            l',
                            subst (λ m. Wraps V c.incoming_latency (is_later V w) m l')
                                (ap (λ (x : ℕ × V.W). x.0) (done_inj (sym o.2 ∙ e))) o.3,
                          ),
                          (
                            (add_item B q (add_millis V (V.now w₃).0 l) packet, (V.now w₃).1),
                            rw (kept, whole, given, e, d) refl,
                            rw (kept, whole, given, e, r) refl,
                          ),
                        )
                      ]
              ]
            ]
      ]
