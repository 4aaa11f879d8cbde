-- ===== src/Client/Wasm/Sent.antt =====
-- What becomes of the packets that are handed to the browser's message sender, over any run.
use mathlib.Core.List.Perm
use naia_socket.Base.{
  ℕ, ◌≡◌, refl, subst, sym, inl, inr, true, false, Bool-cases, Option, none, some, List, [], ◌∷◌,
  ◌++◌, Perm, append_assoc, append-nil, if◌then◌else◌, perm_pull, perm_append_left, perm_of_eq,
  arith,
}
use naia_socket.Client.{Packet}
use naia_socket.Client
use naia_socket.Client.Wasm.{DataChannel, Page, send, receive, on_message}
use naia_socket.Client.Wasm.Laws.{flush, flush-perm, receive-flush}
use naia_socket.Client.Wasm.History.{Event, sends, arrives, receives, run}

-- The packets that the program sends.
abbrev pub handed_in : List Event → List Packet
handed_in [] = []
handed_in (sends p ∷ es) = p ∷ handed_in es
handed_in (arrives body ∷ es) = handed_in es
handed_in (receives ∷ es) = handed_in es

module _ (D : DataChannel) where
  -- The packets that the channel takes in a run, at a send or when `receive` sends them again.
  unfoldable pub accepted : Page D → List Event → List Packet
  accepted page [] = []
  accepted page (sends p ∷ es) =
      let rest = accepted (send D p page) es in
      if (D.send_with_u8_array page.data_channel (Client.payload p)).0 then p ∷ rest else rest
  accepted page (arrives body ∷ es) = accepted (on_message D body page) es
  accepted page (receives ∷ es) =
      (flush D page.dropped_outgoing_messages page.data_channel).accepted
      ++ accepted (receive D page).1 es

  dropped-send_taken :
      (p : Packet) (page : Page D)
      → (D.send_with_u8_array page.data_channel (Client.payload p)).0 ≡ true
      → (send D p page).dropped_outgoing_messages ≡ page.dropped_outgoing_messages
  unfolding send
  dropped-send_taken p page e = ground arith

  dropped-send_refused :
      (p : Packet) (page : Page D)
      → (D.send_with_u8_array page.data_channel (Client.payload p)).0 ≡ false
      → (send D p page).dropped_outgoing_messages ≡ page.dropped_outgoing_messages ++ p ∷ []
  unfolding send
  dropped-send_refused p page e = ground arith

  dropped-on_message :
      (body : Option (List ℕ)) (page : Page D)
      → (on_message D body page).dropped_outgoing_messages ≡ page.dropped_outgoing_messages
  unfolding on_message
  dropped-on_message none page = refl
  dropped-on_message (some bytes) page = refl

  perm_from : {d d' r : List Packet} (s : List Packet) → d' ≡ d → Perm (d' ++ s) r → Perm (d ++ s) r
  perm_from {r} s e p = subst (λ x. Perm (x ++ s) r) e p

  -- Two parts of a list, each rearranged.
  perm_parts :
      (d s a r b f : List Packet)
      → Perm d (a ++ r)
      → Perm (r ++ s) (b ++ f)
      → Perm (d ++ s) ((a ++ b) ++ f)
  perm_parts d s a r b f p q =
      Perm.trans (Perm.append p (Perm.refl s))
        (rw (append_assoc a r s, append_assoc a b f) (perm_append_left a q))

  -- Over any run of sends, arrivals and calls of `receive` of the browser socket, and whatever the
  -- channel refuses: the packets dropped at first and those sent in the run are, as a multiset,
  -- those that the channel took, at a send or when `receive` sent them again, and those still kept
  -- as dropped at the end.
  pub run-perm :
      (es : List Event) (page : Page D)
      → Perm
          (page.dropped_outgoing_messages ++ handed_in es)
          (accepted page es ++ (run D page es).0.dropped_outgoing_messages)
  unfolding accepted run
  run-perm [] page = perm_of_eq (append-nil page.dropped_outgoing_messages)
  run-perm (sends p ∷ es) page =
      elim (Bool-cases (D.send_with_u8_array page.data_channel (Client.payload p)).0) [
        | inl taken ↦ rw taken (
            Perm.trans (Perm.symm (perm_pull p page.dropped_outgoing_messages (handed_in es))) (
              Perm.cons p (
                perm_from (handed_in es) (dropped-send_taken p page taken)
                  (run-perm es (send D p page)))))
        | inr refused ↦ rw refused (
            Perm.trans
              (perm_of_eq
                (sym (append_assoc page.dropped_outgoing_messages (p ∷ []) (handed_in es))))
              (perm_from (handed_in es) (dropped-send_refused p page refused)
                (run-perm es (send D p page))))
      ]
  run-perm (arrives body ∷ es) page =
      perm_from (handed_in es) (dropped-on_message body page) (run-perm es (on_message D body page))
  run-perm (receives ∷ es) page =
      perm_parts page.dropped_outgoing_messages (handed_in es) _ _ _ _
        (flush-perm D page.dropped_outgoing_messages page.data_channel)
        (perm_from (handed_in es) (receive-flush D page).1 (run-perm es (receive D page).1))
