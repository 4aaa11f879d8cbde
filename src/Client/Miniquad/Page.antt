-- ===== src/Client/Miniquad/Page.antt =====
-- client/src/impls/miniquad/naia_socket.js: what the script does on the calls of Rust. `channel` is null
-- until `connect` has made one. Arrays are their bytes; the objects that they cross in are those of
-- Objects.
pub mod Same
use naia_socket.Base.{ℕ, Bool, true, false, Option, none, some, List, [], ◌∷◌, ◌++◌, if◌then◌else◌}
use naia_socket.Client.Wasm.{DataChannel}
use naia_socket.Client.Miniquad.{Script}

module _ (D : DataChannel) where
  pub record Page : Type 0 where
    pub channel : Option D.Channel
    pub dropped_outgoing_messages : List (List ℕ)

module _ (D : DataChannel) where
  -- The `try` of `send_u8_array`.
  unfoldable pub try_send : D.Channel → List ℕ → Page D → Page D
  try_send ch str page =
      let (sent, ch') = D.send_with_u8_array ch str in
      if sent then record page { channel = some ch' } else record page {
        channel = some ch';
        dropped_outgoing_messages = page.dropped_outgoing_messages ++ str ∷ [];
      }

  unfoldable pub send_u8_array : List ℕ → Page D → Page D
  unfolding try_send
  send_u8_array str page = elim page.channel [
    | some ch ↦ try_send ch str page
    | none ↦ record page { dropped_outgoing_messages = page.dropped_outgoing_messages ++ str ∷ [] }
  ]

  -- The loop of `resend_dropped_messages`.
  unfoldable pub send_each : List (List ℕ) → Page D → Page D
  send_each [] page = page
  send_each (str ∷ strs) page = send_each strs (send_u8_array str page)

  unfoldable pub resend_dropped_messages : Page D → Page D
  unfolding send_each
  resend_dropped_messages page = elim page.channel [
    | none ↦ page
    | some ch ↦ elim page.dropped_outgoing_messages [
      | [] ↦ page
      | m ∷ ms ↦ send_each (m ∷ ms) (record page { dropped_outgoing_messages = [] })
    ]
  ]

  -- `create` is `createDataChannel` of the peer for a server's address.
  abbrev pub page_script : (ℕ → D.Channel) → Script
  page_script create = record {
    Page = Page D;
    naia_connect = λ address page. record page { channel = some (create address) };
    naia_send = send_u8_array;
    naia_resend_dropped_messages = resend_dropped_messages;
  }
