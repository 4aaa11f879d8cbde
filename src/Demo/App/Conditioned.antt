-- ===== src/Demo/App/Conditioned.antt =====
-- The client of app.rs over any client socket behind client/src/link_conditioner.rs that comes to an end.
use naia_socket.Base.{
  ℕ, suc, ◌+◌, ◌≤◌, ◌<◌, ◌≡◌, refl, sym, ap, ◌⊎◌, inl, inr, true, Option, none, some, List, ◌∷◌,
  ◌++◌, Exec, done, ◌>>=◌, length, arith, subst, length-append, length-map, perm_length,
}
use naia_socket.Shared.Config.{Rates, IsValid}
use naia_socket.Shared.World.{World, IsLawful, IsMonotone, Profile}
use naia_socket.Shared.Heap.{BinaryHeap}
use naia_socket.Shared.Heap as H
use naia_socket.Shared.TimeQueue.{ItemContainer, cmp}
use naia_socket.Shared.TimeQueue.Laws.{contents}
use naia_socket.Client.{Packet, NaiaClientSocketError, Received, ok, err, ClientSocket}
use naia_socket.Client.Conditioner
use naia_socket.Client.Conditioner.{LinkConditioner}
use naia_socket.Client.Conditioner.Laws.{Gives, items, Keeps}
use naia_socket.Client.Conditioner.Receive.{HandsOut, receive-HandsOut, receive_fails}
use naia_socket.Demo.App.{Connection}
use naia_socket.Demo.App.Returns.{Ends}

-- A socket with the sender of its own, and how much waits in it.
pub record Sending (I : ClientSocket) : Type 0 where
  pub send : Packet → I.State → I.State
  pub load : I.State → ℕ

-- An error takes something more away.
abbrev pub Lighter : Option NaiaClientSocketError → ℕ → ℕ → Type 0
Lighter none a b = a ≤ b
Lighter (some e) a b = a < b

-- The socket gives what waits, and then has nothing more or fails; a send adds nothing.
pub record Drains (I : ClientSocket) (S : Sending I) : Type 0 where
  pub drains :
      (s : I.State)
      → (ps : List Packet) × (stop : Option NaiaClientSocketError) × (t : I.State) × Gives I s ps
          stop t
        × Lighter stop (length ps + S.load t) (S.load s)
  pub sends : (p : Packet) (s : I.State) → S.load (S.send p s) ≤ S.load s

module _ {R : Rates} (V : World R) (profile : Profile) (B : BinaryHeap (ItemContainer Packet))
    (I : ClientSocket) (S : Sending I) where
  abbrev pub Held : Type 0
  Held = LinkConditioner R B I × V.W

  -- The socket behind a conditioner, with its sender. A loop of the conditioner has fuel for what waits.
  abbrev pub conditioned : Connection
  conditioned = record {
    State = Held;
    receive = λ (self, w).
        Conditioner.receive V profile B I (suc (S.load self.inner_socket)) (self, w)
        >>= λ (r, self', w'). done (r, (self', w'));
    send = λ packet (self, w).
        (true, (record self { inner_socket = S.send packet self.inner_socket }, w));
  }

  -- What a call of `update` can still take.
  abbrev pub left : Held → ℕ
  left (self, w) = S.load self.inner_socket + length (contents B self.time_queue)

  abbrev pub Valid : Held → Type 0
  Valid (self, w) = IsValid R self.config

  -- What one call of `receive` does to what is left.
  Receives : Held → Exec (Received × Held) → Type 0
  Receives s m =
      (r : Received) × (s' : Held) × (m ≡ done (r, s'))
      × Valid s'
      × (left s' ≤ left s)
      × ((r ≡ ok none) ⊎ (left s' < left s))

module _ {R : Rates} (V : World R) (M : IsMonotone V) (profile : Profile)
    (B : BinaryHeap (ItemContainer Packet)) (HL : H.IsLawful B cmp) (I : ClientSocket)
    (S : Sending I) (D : Drains I S) (L : IsLawful V) where
  -- The packets of a call, counted.
  kept_length :
      (self self' : LinkConditioner R B I) (w w' : V.W) (ps : List Packet) (t : I.State)
      (queued : List (ItemContainer Packet)) (lost : List Packet)
      → Keeps V M B I self w ps t self' w' queued lost
      → length (contents B self'.time_queue) ≤ length ps + length (contents B self.time_queue)
  kept_length self self' w w' ps t queued lost (_, _, _, p, s, _) = omega (
    arith,
    perm_length (contents B self'.time_queue) (queued ++ contents B self.time_queue) p,
    perm_length ps (items queued ++ lost) s,
    length-append queued (contents B self.time_queue),
    length-append (items queued) lost,
    length-map (λ (c : ItemContainer Packet). c.item) queued,
  )

  HandsOut-Receives :
      (self self' : LinkConditioner R B I) (w w' : V.W)
      → IsValid R self'.config
      → left V profile B I S (self', w') ≤ left V profile B I S (self, w)
      → HandsOut V M B I self' w'
          (Conditioner.receive V profile B I (suc (S.load self.inner_socket)) (self, w))
      → Receives V profile B I S (self, w) ((conditioned V profile B I S).receive (self, w))
  unfolding Receives
  HandsOut-Receives self self' w w' v le (inl (now, w'', _, _, e)) =
      (ok none, (self', w''), rw e refl, v, le, inl refl)
  HandsOut-Receives self self' w w' v le (inr (now, w'', c, q, _, _, p, e)) =
      let n = perm_length (contents B self'.time_queue) (c ∷ contents B q) p in
      (
        ok (some c.item),
        (record self' { time_queue = q }, w''),
        rw e refl,
        v,
        omega (arith, n, le),
        inr (omega (arith, n, le)),
      )

  Drains-Receives :
      (self : LinkConditioner R B I) (w : V.W) (ps : List Packet)
      (stop : Option NaiaClientSocketError) (t : I.State)
      → IsValid R self.config
      → Gives I self.inner_socket ps stop t
      → Lighter stop (length ps + S.load t) (S.load self.inner_socket)
      → Receives V profile B I S (self, w) ((conditioned V profile B I S).receive (self, w))
  unfolding Receives
  Drains-Receives self w ps none t v g le =
      let (self', w', queued, lost, k, o) =
        receive-HandsOut V M profile B HL I L g (suc (S.load self.inner_socket)) self w refl
          (omega (arith, le)) v in
      let load : S.load self'.inner_socket ≡ S.load t = ap S.load k.0 in
      let n = kept_length self self' w w' ps t queued lost k in
      HandsOut-Receives self self' w w' (subst (IsValid R) (sym k.1) v) (omega (arith, n, load, le))
        o
  Drains-Receives self w ps (some error) t v g lt =
      let (self', w', queued, lost, k, f) =
        receive_fails V M profile B HL I L g (suc (S.load self.inner_socket)) self w refl
          (omega (arith, lt)) v in
      let load : S.load self'.inner_socket ≡ S.load t = ap S.load k.0 in
      let n = kept_length self self' w w' ps t queued lost k in
      (
        err error,
        (self', w'),
        rw f refl,
        subst (IsValid R) (sym k.1) v,
        omega (arith, n, load, lt),
        inr (omega (arith, n, load, lt)),
      )

  sent :
      (packet : Packet) (self : LinkConditioner R B I) (w : V.W)
      → IsValid R self.config
      → (s' : Held V profile B I S) × ((conditioned V profile B I S).send packet (self, w)
          ≡ (true, s'))
        × Valid V profile B I S s'
        × (left V profile B I S s' ≤ left V profile B I S (self, w))
  sent packet self w v = (
    (record self { inner_socket = S.send packet self.inner_socket }, w),
    refl,
    v,
    omega (arith, D.sends packet self.inner_socket),
  )

  pub conditioned-Ends :
      Ends (conditioned V profile B I S) (Valid V profile B I S) (left V profile B I S)
  unfolding Receives
  conditioned-Ends = record {
    receives = λ (self, w) v.
        let (ps, stop, t, g, le) = D.drains self.inner_socket in
        Drains-Receives self w ps stop t v g le;
    sends = λ packet (self, w) v. sent packet self w v;
  }
