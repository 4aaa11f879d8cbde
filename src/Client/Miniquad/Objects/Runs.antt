-- ===== src/Client/Miniquad/Objects/Runs.antt =====
-- Everything that crosses between client/src/impls/miniquad and its script goes through the table of
-- objects: `MessageSender::send` makes one, and the script one for each message or error that it brings.
use Prim.Native.String.{String}
use naia_socket.Base.{
  ℕ, suc, ◌+◌, ◌≤◌, ◌≡◌, Option, none, some, List, [], ◌∷◌, Exec, done, panicked, ◌>>=◌, length,
}
use naia_socket.Client.{Packet}
use naia_socket.Client
use naia_socket.Client.Miniquad.{Script, Statics, on_receive, on_error}
use naia_socket.Client.Miniquad
use naia_socket.Client.Miniquad.Objects.{
  JsValue, text, array, content, Objects, js_object, get_js_object, take_object,
}
use naia_socket.Client.Miniquad.Utf8.{to_utf8}
use naia_socket.Client.Miniquad.Objects.Laws.{IsFresh}

-- The program sends a packet; the script brings a message, or an error with its text.
pub data Crossing : Type 0 where
  sends : Packet → Crossing
  brings : List ℕ → Crossing
  fails : List ℕ → Crossing

-- The packets among the crossings.
abbrev pub sent : List Crossing → ℕ
sent [] = 0
sent (sends p ∷ cs) = suc (sent cs)
sent (brings bs ∷ cs) = sent cs
sent (fails units ∷ cs) = sent cs

-- `decode` reads the bytes of a text as a `String`.
module _ (J : Script) (decode : List ℕ → String) where
  -- `send` of naia_socket.js, with the object that it looks up.
  unfoldable pub js_send : Option JsValue → Statics J × Objects → Exec (Statics J × Objects)
  js_send none s = panicked
  js_send (some obj) (s, o) = done (record s { page = J.naia_send (content obj) s.page }, o)

  -- `MessageSender::send` with `naia_create_u8_array`, and `send` of naia_socket.js.
  unfoldable pub send_object : List ℕ → Statics J × Objects → Exec (Statics J × Objects)
  unfolding js_send
  send_object payload (s, o) =
      let (id, o') = js_object (array payload) o in js_send (get_js_object id o') (s, o')

  -- What the crossings do to the queues and to the page, without the objects.
  abbrev pub plain : List Crossing → Statics J → Statics J
  plain [] s = s
  plain (sends p ∷ cs) s = plain cs (Miniquad.send J p s)
  plain (brings bs ∷ cs) s = plain cs (on_receive J bs s)
  plain (fails units ∷ cs) s = plain cs (on_error J (decode (to_utf8 units)) s)

module _ (J : Script) (decode : List ℕ → String) (grow : ℕ → List ℕ) where
  -- `onmessage` of naia_socket.js with `receive` of shared.rs.
  unfoldable pub bring_object : List ℕ → Statics J × Objects → Exec (Statics J × Objects)
  bring_object bs (s, o) = do
    let (id, o') = js_object (array bs) o
    (message, o'') ← take_object grow id o'
    done (on_receive J message s, o'')

  -- `error` of naia_socket.js with `error` of shared.rs.
  unfoldable pub fail_object : List ℕ → Statics J × Objects → Exec (Statics J × Objects)
  fail_object units (s, o) = do
    let (id, o') = js_object (text units) o
    (error, o'') ← take_object grow id o'
    done (on_error J (decode error) s, o'')

  unfoldable pub cross : Crossing → Statics J × Objects → Exec (Statics J × Objects)
  unfolding send_object bring_object fail_object
  cross (sends p) s = send_object J decode (Client.payload p) s
  cross (brings bs) s = bring_object bs s
  cross (fails units) s = fail_object units s

  unfoldable pub run : List Crossing → Statics J × Objects → Exec (Statics J × Objects)
  run [] s = done s
  run (c ∷ cs) s = cross c s >>= run cs

module _ (J : Script) (decode : List ℕ → String) (grow : ℕ → List ℕ)
    (big : (n : ℕ) → n ≤ length (grow n)) where
  -- The crossings do what they do without objects, and the table grows by `k` objects.
  abbrev pub Leaves : ℕ → List Crossing → Statics J → Objects → Exec (Statics J × Objects) → Type 0
  Leaves k cs s o r =
      (o' : Objects) × (r ≡ done (plain J decode cs s, o'))
      × (length o'.js_objects ≡ length o.js_objects + k)
      × IsFresh o'
