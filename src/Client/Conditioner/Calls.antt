-- ===== src/Client/Conditioner/Calls.antt =====
-- What becomes of every packet over many calls of `receive` of client/src/link_conditioner.rs.
use naia_socket.Base.{
  ℕ, ◌*◌, ◌<◌, ◌≡◌, refl, sym, inl, inr, Option, none, some, List, [], ◌∷◌, ◌++◌, map, Exec, done,
  ◌>>=◌, length, arith, subst, All,
}
use naia_socket.Shared.Config.{Rates, IsValid, LinkConditionerConfig}
use naia_socket.Shared.World.{World, IsLawful, IsMonotone, Profile}
use naia_socket.Shared.Heap.{BinaryHeap}
use naia_socket.Shared.Heap as H
use naia_socket.Shared.TimeQueue.{ItemContainer, cmp}
use naia_socket.Shared.Conditioner.Timing.{least_latency}
use naia_socket.Shared.Conditioner.Accounts.{
  Accounts, Accounts-none, Accounts-take, Accounts-hand, Accounts-append, Accounts-then, at,
}
use naia_socket.Client.{Packet, NaiaClientSocketError, Received, ok, err, ClientSocket}
use naia_socket.Client.Conditioner.{LinkConditioner, receive}
use naia_socket.Client.Conditioner.Laws.{Gives}
use naia_socket.Client.Conditioner.Receive.{HandsOut, receive-HandsOut, receive_fails}

module _ {R : Rates} (V : World R) (I : ClientSocket) where
  -- A call of `receive`: its fuel, the inner socket as the network and the program have left it, and the
  -- world as time has left it.
  pub record Turn : Type 0 where
    pub fuel : ℕ
    pub inner : I.State
    pub world : V.W

  -- What the inner socket gives in a call, and that the fuel is enough for it.
  pub record Given (turn : Turn) : Type 0 where
    pub packets : List Packet
    pub stop : Option NaiaClientSocketError
    pub end : I.State
    pub gives : Gives I turn.inner packets stop end
    pub enough : length packets < turn.fuel

-- The packet of an answer, with a moment by which it was returned, in front of what is returned later.
abbrev pub note : Received → ℕ → List (Packet × ℕ) → List (Packet × ℕ)
note (ok (some p)) t out = (p, t) ∷ out
note _ t out = out

note-append : (r : Received) (t : ℕ) (out : List (Packet × ℕ)) → note r t [] ++ out ≡ note r t out
note-append (ok (some p)) t out = refl
note-append (ok none) t out = refl
note-append (err e) t out = refl

module _ {R : Rates} (V : World R) (M : IsMonotone V) (I : ClientSocket) where
  -- The packets that the inner socket gives, each with the clock at the call that takes it.
  abbrev pub arrivals : (turns : List (Turn V I)) → All (Given V I) turns → List (ℕ × Packet)
  arrivals [] given = []
  arrivals (turn ∷ turns) (g, given) =
      map (at (M.clock turn.world)) g.packets ++ arrivals turns given

module _ {R : Rates} (V : World R) (M : IsMonotone V) (profile : Profile)
    (B : BinaryHeap (ItemContainer Packet)) (I : ClientSocket) where
  -- What the calls return, and the conditioner behind them.
  unfoldable pub run :
      List (Turn V I) → LinkConditioner R B I → Exec (List (Packet × ℕ) × LinkConditioner R B I)
  run [] self = done ([], self)
  run (turn ∷ turns) self = do
    (r, self', w) ←
        receive V profile B I turn.fuel (record self { inner_socket = turn.inner }, turn.world)
    (out, self'') ← run turns self'
    done (note r (M.clock w) out, self'')

  abbrev pub hold : LinkConditionerConfig R → ℕ
  hold config = least_latency config * V.per_milli

  -- The outcome of one call: it returns, and accounts for the packets that it takes and gives.
  abbrev pub Returns : Turn V I → List Packet → LinkConditioner R B I → Type 0
  Returns turn ps self =
      (r : Received) × (self' : LinkConditioner R B I) × (w : V.W) × (receive V profile B I
          turn.fuel (record self { inner_socket = turn.inner }, turn.world)
        ≡ done (r, self', w))
      × (self'.config ≡ self.config)
      × Accounts B (hold self.config) (map (at (M.clock turn.world)) ps) self.time_queue
          (note r (M.clock w) []) self'.time_queue

module _ {R : Rates} (V : World R) (M : IsMonotone V) (profile : Profile)
    (B : BinaryHeap (ItemContainer Packet)) (HL : H.IsLawful B cmp) (I : ClientSocket)
    (L : IsLawful V) where
  -- What was taken, and then what was handed out, if anything was.
  HandsOut-Returns :
      (turn : Turn V I) (ps : List Packet) (self self' : LinkConditioner R B I) (w' : V.W)
      → self'.config ≡ self.config
      → Accounts B
          (hold V M profile B I self.config)
          (map (at (M.clock turn.world)) ps)
          self.time_queue
          []
          self'.time_queue
      → HandsOut V M B I self' w'
          (receive V profile B I turn.fuel (record self { inner_socket = turn.inner }, turn.world))
      → Returns V M profile B I turn ps self
  HandsOut-Returns turn ps self self' w' c a (inl (now, w, le, quiet, e)) =
      (ok none, self', w, e, c, a)
  HandsOut-Returns turn ps self self' w' c a (inr (now, w, x, q, le, due, p, e)) = (
    ok (some x.item),
    record self' { time_queue = q },
    w,
    e,
    c,
    Accounts-then B _ a
        (Accounts-hand B _ x (M.clock w) self'.time_queue q (omega (arith, due.0, le)) p),
  )

  Gives-Returns :
      (turn : Turn V I) (ps : List Packet) (stop : Option NaiaClientSocketError) (t : I.State)
      (self : LinkConditioner R B I)
      → Gives I turn.inner ps stop t
      → length ps < turn.fuel
      → IsValid R self.config
      → Returns V M profile B I turn ps self
  Gives-Returns turn ps none t self g h v =
      let (self', w', queued, lost, (_, c, _, kept, split, due), o) =
        receive-HandsOut V M profile B HL I L g turn.fuel
          (record self { inner_socket = turn.inner }) turn.world refl h v in
      HandsOut-Returns turn ps self self' w' c
        (Accounts-take B _ (M.clock turn.world) ps lost queued self.time_queue self'.time_queue
          split due kept)
        o
  Gives-Returns turn ps (some error) t self g h v =
      let (self', w', queued, lost, (_, c, _, kept, split, due), e) =
        receive_fails V M profile B HL I L g turn.fuel (record self { inner_socket = turn.inner })
          turn.world refl h v in
      (
        err error,
        self',
        w',
        e,
        c,
        Accounts-take B _ (M.clock turn.world) ps lost queued self.time_queue self'.time_queue split
            due kept,
      )

  abbrev pub Runs : List (Turn V I) → List (ℕ × Packet) → LinkConditioner R B I → Type 0
  Runs turns arrived self =
      (out : List (Packet × ℕ)) × (self' : LinkConditioner R B I) × (run V M profile B I turns self
        ≡ done (out, self'))
      × Accounts B (hold V M profile B I self.config) arrived self.time_queue out self'.time_queue

  run_step :
      (turn : Turn V I) (turns : List (Turn V I)) (self : LinkConditioner R B I) {r : Received}
      {self' : LinkConditioner R B I} {w : V.W} {out : List (Packet × ℕ)}
      {self'' : LinkConditioner R B I}
      → receive V profile B I turn.fuel (record self { inner_socket = turn.inner }, turn.world)
        ≡ done (r, self', w)
      → run V M profile B I turns self' ≡ done (out, self'')
      → run V M profile B I (turn ∷ turns) self ≡ done (note r (M.clock w) out, self'')
  unfolding run
  run_step turn turns self e f = rw (e, f)

  -- Over a lawful random source, a clock that does not go back, a lawful heap and a valid
  -- configuration, where in each call the inner socket gives some packets and then has nothing
  -- more or fails, and the fuel is above their number: all the calls of `receive` of the client
  -- conditioner return, in either build; each packet that the inner socket gave was kept or lost,
  -- once; each one kept is due no earlier than the least latency from its call; the entries kept,
  -- with those queued at first, are as a multiset those handed out and those still queued; and the
  -- packets that the calls returned are those handed out, in order, each no earlier than it was
  -- due.
  pub run-Runs :
      (turns : List (Turn V I)) (given : All (Given V I) turns) (self : LinkConditioner R B I)
      → IsValid R self.config
      → Runs turns (arrivals V M I turns given) self
  unfolding run
  run-Runs [] given self v = ([], self, refl, Accounts-none B _ self.time_queue)
  run-Runs (turn ∷ turns) (g, given) self v =
      let (r, self', w, e, c, a) =
        Gives-Returns turn g.packets g.stop g.end self g.gives g.enough v in
      let (out, self'', f, b) = run-Runs turns given self' (subst (IsValid R) (sym c) v) in
      (
        note r (M.clock w) out,
        self'',
        run_step turn turns self e f,
        subst
            (λ o.
              Accounts B (hold V M profile B I self.config)
                (arrivals V M I (turn ∷ turns) (g, given)) self.time_queue o self''.time_queue)
            (note-append r (M.clock w) out)
            (Accounts-append B _ a (
              subst
                (λ k.
                  Accounts B (hold V M profile B I k) (arrivals V M I turns given) self'.time_queue
                    out self''.time_queue)
                c b)),
      )
