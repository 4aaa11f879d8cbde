-- ===== src/Client/Conditioner/Laws.antt =====
-- The loop of client/src/link_conditioner.rs over any inner socket that stops giving packets.
use mathlib.Core.List.Perm
use naia_socket.Base.{
  ℕ, zero, suc, ◌≤◌, ◌<◌, ◌+◌, ◌*◌, ◌≡◌, refl, inl, inr, Option, none, some, List, [], ◌∷◌, ◌++◌,
  map, Perm, All, All-imp, Exec, done, arith, length, perm_pull, perm_append_left,
}
use naia_socket.Shared.Config.{Rates, IsValid}
use naia_socket.Shared.World.{World, IsLawful, IsMonotone, Profile}
use naia_socket.Shared.Heap.{BinaryHeap}
use naia_socket.Shared.Heap as H
use naia_socket.Shared.TimeQueue.{ItemContainer, TimeQueue, cmp}
use naia_socket.Shared.TimeQueue.Laws.{contents, contents-add_item}
use naia_socket.Shared.Conditioner.Timing.{least_latency, Adds, process_packet-Adds}
use naia_socket.Client.{Packet, NaiaClientSocketError, ok, err, ClientSocket}
use naia_socket.Client.Conditioner.{LinkConditioner, process_packet, pump}

module _ (I : ClientSocket) where
  -- What an inner socket gives until it has nothing more or fails: the packets, why it stopped, and
  -- its state then.
  pub data Gives : I.State → List Packet → Option NaiaClientSocketError → I.State → Type 0 where
    stops : {s t : I.State} → I.receive s ≡ done (ok none, t) → Gives s [] none t
    fails :
        {s t : I.State} {e : NaiaClientSocketError}
        → I.receive s ≡ done (err e, t)
        → Gives s [] (some e) t
    gives :
        {s t u : I.State} {p : Packet} {ps : List Packet} {r : Option NaiaClientSocketError}
        → I.receive s ≡ done (ok (some p), t)
        → Gives t ps r u
        → Gives s (p ∷ ps) r u

-- The packets of some entries of the queue.
abbrev pub items : List (ItemContainer Packet) → List Packet
items = map (λ c. c.item)

module _ {R : Rates} (V : World R) (M : IsMonotone V) (B : BinaryHeap (ItemContainer Packet))
    (I : ClientSocket) where
  -- What the packets `ps` do to a conditioner: they are queued or lost, each once, and those that
  -- are queued are due no earlier than the least latency from the call; what was queued before is
  -- still there, and the inner socket is then in the state `t`.
  abbrev pub Keeps :
      LinkConditioner R B I
      → V.W
      → List Packet
      → I.State
      → LinkConditioner R B I
      → V.W
      → List (ItemContainer Packet)
      → List Packet
      → Type 0
  Keeps self w ps t self' w' queued lost =
      (self'.inner_socket ≡ t)
      × (self'.config ≡ self.config)
      × (M.clock w ≤ M.clock w')
      × Perm (contents B self'.time_queue) (queued ++ contents B self.time_queue)
      × Perm ps (items queued ++ lost)
      × All (λ c. M.clock w + least_latency self.config * V.per_milli ≤ c.instant) queued

  -- What the loop leaves.
  abbrev pub Pumped :
      LinkConditioner R B I
      → V.W
      → List Packet
      → Option NaiaClientSocketError
      → I.State
      → Exec (Option NaiaClientSocketError × LinkConditioner R B I × V.W)
      → Type 0
  Pumped self w ps stop t r =
      (self' : LinkConditioner R B I) × (w' : V.W) × (queued : List (ItemContainer Packet))
      × (lost : List Packet) × (r ≡ done (stop, self', w'))
      × Keeps self w ps t self' w' queued lost

module _ {R : Rates} (V : World R) (L : IsLawful V) (M : IsMonotone V) (profile : Profile)
    (B : BinaryHeap (ItemContainer Packet)) (HL : H.IsLawful B cmp) (I : ClientSocket) where
  process_packet-Adds_self :
      (self : LinkConditioner R B I) (p : Packet) (w : V.W)
      → IsValid R self.config
      → (q : TimeQueue B) × (w' : V.W) × (process_packet V profile B I self p w
          ≡ done (record self { time_queue = q }, w'))
        × (M.clock w ≤ M.clock w')
        × Adds V B self.config (M.clock w) self.time_queue p q
  unfolding process_packet
  process_packet-Adds_self self p w v =
      let (q, w', e, le, a) =
        process_packet-Adds V L M profile B self.config self.time_queue p w v in
      (q, w', rw e, le, a)

  pump_step :
      (self : LinkConditioner R B I) (p : Packet) (w : V.W) (t : I.State)
      (self' : LinkConditioner R B I) (w' : V.W) (fuel : ℕ)
      → I.receive self.inner_socket ≡ done (ok (some p), t)
      → process_packet V profile B I (record self { inner_socket = t }) p w ≡ done (self', w')
      → pump V profile B I (suc fuel) self w ≡ pump V profile B I fuel self' w'
  unfolding pump
  pump_step self p w t self' w' fuel e f = rw (e, f)

  -- One packet more in front of what the rest of the loop leaves.
  Pumped-step :
      (self : LinkConditioner R B I) (p : Packet) (w : V.W) (t : I.State) (q : TimeQueue B)
      (w₁ : V.W) {ps : List Packet} {stop : Option NaiaClientSocketError} {u : I.State}
      {r : Exec (Option NaiaClientSocketError × LinkConditioner R B I × V.W)}
      → M.clock w ≤ M.clock w₁
      → Adds V B self.config (M.clock w) self.time_queue p q
      → Pumped V M B I (record self { inner_socket = t; time_queue = q }) w₁ ps stop u r
      → Pumped V M B I self w (p ∷ ps) stop u r
  Pumped-step self p w t q w₁ le (inl e)
        (self', w', queued, lost, d, (i, c, le', kept, split, due)) =
      (
        self',
        w',
        queued,
        p ∷ lost,
        d,
        (
          i,
          c,
          omega arith,
          rw e at kept,
          Perm.trans (Perm.cons p split) (perm_pull p (items queued) lost),
          All-imp _ _ queued (λ x b. omega (arith, b, le)) due,
        ),
      )
  Pumped-step self p w t q w₁ le (inr (at, b, e))
        (self', w', queued, lost, d, (i, c, le', kept, split, due)) =
      (
        self',
        w',
        entry ∷ queued,
        lost,
        d,
        (
          i,
          c,
          omega arith,
          Perm.trans (rw e at kept) (
              Perm.trans (perm_append_left queued (contents-add_item B HL self.time_queue at p))
                (Perm.symm (perm_pull entry queued (contents B self.time_queue)))),
          Perm.cons p split,
          (b, All-imp _ _ queued (λ x b. omega (arith, b, le)) due),
        ),
      )
    where
      entry : ItemContainer Packet
      entry = record { instant = at; item = p }

  -- With enough fuel for the packets that the inner socket gives, the loop ends as it should.
  pub pump-Pumped :
      {s t : I.State} {ps : List Packet} {stop : Option NaiaClientSocketError}
      → Gives I s ps stop t
      → (fuel : ℕ) (self : LinkConditioner R B I) (w : V.W) → self.inner_socket ≡ s
      → length ps < fuel
      → IsValid R self.config
      → Pumped V M B I self w ps stop t (pump V profile B I fuel self w)
  unfolding pump
  pump-Pumped (stops e) zero self w same h v = absurd (omega arith)
  pump-Pumped (fails e) zero self w same h v = absurd (omega arith)
  pump-Pumped (gives e g) zero self w same h v = absurd (omega arith)
  pump-Pumped {t} (stops e) (suc fuel) self w same h v = (
    record self { inner_socket = t },
    w,
    [],
    [],
    rw (same, e),
    (refl, refl, omega arith, Perm.refl _, Perm.refl _, tt),
  )
  pump-Pumped {t} (fails e) (suc fuel) self w same h v = (
    record self { inner_socket = t },
    w,
    [],
    [],
    rw (same, e),
    (refl, refl, omega arith, Perm.refl _, Perm.refl _, tt),
  )
  pump-Pumped (gives {t = t₁} {p = p} e g) (suc fuel) self w same h v =
      let (q, w₁, e₁, le, a) = process_packet-Adds_self (record self { inner_socket = t₁ }) p w v in
      rw (pump_step self p w t₁ _ w₁ fuel (rw same e) e₁) (
        Pumped-step self p w t₁ q w₁ le a (
          pump-Pumped g fuel (record self { inner_socket = t₁; time_queue = q }) w₁ refl
            (omega arith) v))
