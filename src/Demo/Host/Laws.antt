-- ===== src/Demo/Host/Laws.antt =====
-- What the server of the demo, demo/server/src/main.rs, sends for the packets that come in.
use naia_socket.Base.{
  ℕ, ◌≡◌, refl, sym, ◌∙◌, none, List, [], ◌∷◌, ◌++◌, append-nil, subst, Exec, done,
}
use naia_socket.Shared.Config.{Rates, IsValid}
use naia_socket.Shared.World.{World, IsLawful, IsMonotone, Profile}
use naia_socket.Shared.Heap.{BinaryHeap}
use naia_socket.Shared.Heap as H
use naia_socket.Shared.TimeQueue.{ItemContainer, TimeQueue, cmp}
use naia_socket.Shared.Conditioner.Accounts.{Accounts, Accounts-none, Accounts-append}
use naia_socket.Server.{Packet, ServerSocket, ok, err, Poll, pending, returned}
use naia_socket.Server.Conditioner.{LinkConditioner, Round, Wake, start, receive}
use naia_socket.Server.Conditioner.Calls.{arrived, hold, given, left}
use naia_socket.Server.Conditioner.Calls.Laws.{receive-Returns}
use naia_socket.Server.Conditioner.Inner.{Leaves, Inner, receive-Leaves}
use naia_socket.Demo.Host.{Sender, Host, answer, send_all, on_received, serve_loop}

-- What is sent for the packets that `receive` returned.
abbrev pub answers : List (Packet × ℕ) → List Packet
answers [] = []
answers ((packet, t) ∷ out) = answer packet ++ answers out

module _ {R : Rates} (V : World R) (M : IsMonotone V) (profile : Profile)
    (B : BinaryHeap (ItemContainer Packet)) (I : ServerSocket) (S : Sender I) where
  -- The packets that the inner socket returns in the calls of the loop, each with the clock then.
  -- Those of the rest of the loop, behind a call.
  abbrev pub after :
      (Host V profile B I S → List (ℕ × Packet))
      → V.W
      → Exec (LinkConditioner R B I)
      → List (ℕ × Packet)
  after rest w (done self) = rest (self, w)
  after rest w _ = []

  abbrev pub later :
      (Host V profile B I S → List (ℕ × Packet))
      → Exec (Poll (Round I) (Host V profile B I S))
      → List (ℕ × Packet)
  later rest (done (returned (ok packet) (self, w))) =
      after rest w (send_all V profile B I S (answer packet) self)
  later rest (done (returned (err error) s)) = rest s
  later rest _ = []

  unfoldable pub arrivals : List (List (Wake I)) → Host V profile B I S → List (ℕ × Packet)
  arrivals [] s = []
  arrivals (wakes ∷ calls) (self, w) =
      arrived V M profile B I wakes (start R B I self) (self, w)
      ++ later (arrivals calls) (receive V profile B I wakes (start R B I self) (self, w))

  -- The loop goes on, and accounts for the packets that came in and what it sends.
  abbrev pub Serves : List (List (Wake I)) → Host V profile B I S → Type 0
  Serves calls (self, w) =
      (out : List (Packet × ℕ)) × (self' : LinkConditioner R B I) × (w' : V.W) × (serve_loop V
          profile B I S calls (self, w)
        ≡ done (answers out, (self', w')))
      × Accounts B (hold V M profile B I self.config) (arrivals calls (self, w)) self.time_queue out
          self'.time_queue

module _ {R : Rates} (V : World R) (L : IsLawful V) (M : IsMonotone V) (profile : Profile)
    (B : BinaryHeap (ItemContainer Packet)) (HL : H.IsLawful B cmp) (I : ServerSocket)
    (S : Sender I) (IsAlive : I.State → Type 0)
    (takes : (p : Packet) (s : I.State)
      → IsAlive s
      → (s' : I.State) × (S.send p s ≡ (none, s')) × IsAlive s') where
  send_all_lem :
      (ps : List Packet) (self : LinkConditioner R B I)
      → IsAlive self.inner_socket
      → (self' : LinkConditioner R B I) × (send_all V profile B I S ps self ≡ done self')
        × (self'.config ≡ self.config)
        × (self'.time_queue ≡ self.time_queue)
        × IsAlive self'.inner_socket
  unfolding send_all
  send_all_lem [] self h = (self, refl, refl, refl, h)
  send_all_lem (p ∷ ps) self h =
      let (s, e, h') = takes p self.inner_socket h in
      let (self', f, c, q, h'') = send_all_lem ps (record self { inner_socket = s }) h' in
      (self', rw e f, c, q, h'')

  -- The queue and the configuration behind a call are those that the rest of the loop starts with.
  moved :
      (self self' self'' : LinkConditioner R B I) (came : List (ℕ × Packet))
      (out : List (Packet × ℕ)) (q : TimeQueue B)
      → self'.config ≡ self.config
      → self''.config ≡ self'.config
      → self''.time_queue ≡ self'.time_queue
      → Accounts B (hold V M profile B I self''.config) came self''.time_queue out q
      → Accounts B (hold V M profile B I self.config) came self'.time_queue out q
  moved self self' self'' came out q c d e a =
      subst (λ k. Accounts B (hold V M profile B I k) came self'.time_queue out q) (d ∙ c)
        (subst (λ t. Accounts B (hold V M profile B I self''.config) came t out q) e a)

  rest-Serves :
      (calls : List (List (Wake I))) (self : LinkConditioner R B I) (came : List (ℕ × Packet))
      (p : Poll (Round I) (LinkConditioner R B I × V.W))
      → IsValid R self.config
      → IsAlive (left V M profile B I p).0.inner_socket
      → (left V M profile B I p).0.config ≡ self.config
      → Accounts B
          (hold V M profile B I self.config)
          came
          self.time_queue
          (given V M profile B I p)
          (left V M profile B I p).0.time_queue
      → ((self' : LinkConditioner R B I) (w : V.W)
          → IsValid R self'.config
          → IsAlive self'.inner_socket
          → Serves V M profile B I S calls (self', w))
      → (out : List (Packet × ℕ)) × (self' : LinkConditioner R B I) × (w' : V.W) × (on_received V
            profile B I S
            (serve_loop V profile B I S calls)
            p
          ≡ done (answers out, (self', w')))
        × Accounts B
            (hold V M profile B I self.config)
            (came ++ later V M profile B I S (arrivals V M profile B I S calls) (done p))
            self.time_queue
            out
            self'.time_queue
  unfolding on_received
  rest-Serves calls self came (pending round (self', w')) v h c a ih =
      ([], self', w', refl, rw (append-nil came) a)
  rest-Serves calls self came (returned (ok packet) (self', w')) v h c a ih =
      let (self'', e, d, q, h') = send_all_lem (answer packet) self' h in
      let (out, t, w'', f, b) = ih self'' w' (subst (IsValid R) (sym (d ∙ c)) v) h' in
      (
        (packet, M.clock w') ∷ out,
        t,
        w'',
        rw (e, f) refl,
        rw e (Accounts-append B _ a (moved self self' self'' _ out t.time_queue c d q b)),
      )
  rest-Serves calls self came (returned (err error) (self', w')) v h c a ih =
      let (out, t, w'', f, b) = ih self' w' (subst (IsValid R) (sym c) v) h in
      (
        out,
        t,
        w'',
        f,
        Accounts-append B _ a (moved self self' self' _ out t.time_queue c refl refl b),
      )

  left-IsAlive :
      (p : Poll (Round I) (LinkConditioner R B I × V.W))
      → Leaves (Inner V profile B I IsAlive) (done p)
      → IsAlive (left V M profile B I p).0.inner_socket
  left-IsAlive (pending round s) h = h
  left-IsAlive (returned r s) h = h

  module _
      (total : (x : I.Wake) (call : I.Call) (s : I.State)
        → (r : Poll I.Call I.State) × (I.poll x call s ≡ done r))
      (lives : (x : I.Wake) (call : I.Call) (s : I.State)
        → IsAlive s
        → Leaves IsAlive (I.poll x call s)) where
    -- Over an inner socket that is there at first, and stays so behind polls and sends.
    pub serve_loop-Serves :
        (calls : List (List (Wake I))) (self : LinkConditioner R B I) (w : V.W)
        → IsValid R self.config
        → IsAlive self.inner_socket
        → Serves V M profile B I S calls (self, w)
    unfolding serve_loop arrivals
    serve_loop-Serves [] self w v h = ([], self, w, refl, Accounts-none B _ self.time_queue)
    serve_loop-Serves (wakes ∷ calls) self w v h =
        let (p, e, c, a) =
          receive-Returns V L M profile B HL I total wakes (start R B I self) self w v in
        let h' = left-IsAlive p (
          subst (Leaves (Inner V profile B I IsAlive)) e
            (receive-Leaves V profile B I IsAlive lives wakes (start R B I self) self w h)) in
        rw e (
          rest-Serves calls self (arrived V M profile B I wakes (start R B I self) (self, w)) p v h'
            c a (serve_loop-Serves calls))
