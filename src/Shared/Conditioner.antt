-- ===== src/Shared/Conditioner.antt =====
-- shared/src/link_condition_logic.rs: the simulated network in front of a time queue.
pub mod Laws
pub mod Overflow
pub mod Timing
pub mod Accounts
use naia_socket.Base.{ℕ, ◌+◌, ◌*◌, Bool, true, false, Exec, done, ◌>>=◌, ltb, if◌then◌else◌, ◌||◌}
use naia_socket.Shared.Config.{Rates, LinkConditionerConfig}
use naia_socket.Shared.World.{World, Profile, add_u32, sub_u32}
use naia_socket.Shared.Heap.{BinaryHeap}
use naia_socket.Shared.TimeQueue.{ItemContainer, TimeQueue, add_item}

module _ {R : Rates} (V : World R) where
  -- `Instant::add_millis`
  abbrev pub add_millis : ℕ → ℕ → ℕ
  add_millis instant millis = instant + millis * V.per_milli

module _ {R : Rates} (V : World R) (profile : Profile) where
  -- The latency with its jitter, from the first statement on `latency` on.
  unfoldable pub jittered : LinkConditionerConfig R → V.W → Exec (ℕ × V.W)
  jittered config w =
      if ltb 0 config.incoming_jitter
      then (let (later, w') = V.gen_bool w in
          do
            (amount, w'') ← V.gen_range_u32 0 config.incoming_jitter w'
            latency ←
                if later
                then add_u32 profile config.incoming_latency amount
                else sub_u32 profile config.incoming_latency amount
            done (latency, w''))
      else done (config.incoming_latency, w)

  unfoldable pub process_packet :
      {T : Type 0} (B : BinaryHeap (ItemContainer T))
      → LinkConditionerConfig R
      → TimeQueue B
      → T
      → V.W
      → Exec (TimeQueue B × V.W)
  process_packet B config time_queue packet w =
      let (loss, w₁) = V.gen_range_f32 (R.decimal 0 0) (R.decimal 1 0) w in
      if R.leb loss config.incoming_loss
      then done (time_queue, w₁)
      else (let (corruption, w₂) = V.gen_range_f32 (R.decimal 0 0) (R.decimal 1 0) w₁ in
          if R.leb corruption config.incoming_corruption then done (time_queue, w₂) else do
            (latency, w₃) ← jittered config w₂
            let (packet_timestamp, w₄) = V.now w₃
            done (add_item B time_queue (add_millis V packet_timestamp latency) packet, w₄))
