-- ===== src/Client/Miniquad/Objects.antt =====
-- The objects that the Rust code of client/src/impls/miniquad and its script hand to each other:
-- `JsObject` of shared.rs and the table `js_objects` of naia_socket.js. A buffer of Rust is the block
-- of memory that its capacity covers, with its length; `grow` is the allocator. Undefined behaviour is
-- a panic here. A text of the script is a list of UTF-16 units. The array of `naia_create_u8_array` is
-- a view of Rust's memory, which the script reads at once; here it is its bytes. An identifier is a number
-- without a bound here, as `unique_js_id` of the script is; `JsObject` carries it as a u32, which is the same
-- below 2 ^ 32 objects.
pub mod Laws
pub mod Runs
use naia_socket.Client.Miniquad.Utf8.{to_utf8}
use naia_socket.Base.{
  ℕ, zero, suc, ◌+◌, ◌-◌, ◌≤◌, Bool, true, false, Option, none, some, List, [], ◌∷◌, ◌++◌, Exec,
  done, panicked, ◌>>=◌, ◌==◌, ltb, leb, if◌then◌else◌, length, take, drop,
}

-- An object of the script: a text, or an array of bytes.
pub data JsValue : Type 0 where
  text : List ℕ → JsValue
  array : List ℕ → JsValue

-- What Rust reads of an object.
abbrev pub content : JsValue → List ℕ
content (text units) = to_utf8 units
content (array bs) = bs

-- `js_objects` and `unique_js_id`.
pub record Objects : Type 0 where
  pub js_objects : List (ℕ × JsValue)
  pub unique_js_id : ℕ

abbrev pub lookup : List (ℕ × JsValue) → ℕ → Option JsValue
lookup [] id = none
lookup ((i, x) ∷ os) id = if i == id then some x else lookup os id

abbrev pub delete : List (ℕ × JsValue) → ℕ → List (ℕ × JsValue)
delete [] id = []
delete ((i, x) ∷ os) id = if i == id then delete os id else (i, x) ∷ delete os id

unfoldable pub js_object : JsValue → Objects → ℕ × Objects
js_object obj o = (
  o.unique_js_id,
  record { js_objects = (o.unique_js_id, obj) ∷ o.js_objects; unique_js_id = o.unique_js_id + 1 },
)

unfoldable pub get_js_object : ℕ → Objects → Option JsValue
get_js_object id o = lookup o.js_objects id

unfoldable pub js_free_object : ℕ → Objects → Objects
js_free_object id o = record o { js_objects = delete o.js_objects id }

-- `Vec<u8>` and `String`.
pub record Buffer : Type 0 where
  pub block : List ℕ
  pub len : ℕ

abbrev pub empty_buffer : Buffer
empty_buffer = record { block = []; len = 0 }

-- The bytes of a buffer.
abbrev pub bytes : Buffer → List ℕ
bytes buf = take buf.len buf.block

-- `set_len` is undefined behind the capacity.
unfoldable pub set_len : ℕ → Buffer → Exec Buffer
set_len len buf = if leb len (length buf.block) then done (record buf { len = len }) else panicked

-- The loop of `js_unwrap_to_u8_array` and `js_unwrap_to_str`, over an array of the buffer's length: what
-- would fall behind its end is ignored.
unfoldable pub unwrap : List ℕ → List ℕ → List ℕ
unwrap [] dest = dest
unwrap (b ∷ bs) [] = []
unwrap (b ∷ bs) (d ∷ dest) = b ∷ unwrap bs dest

module _ (grow : ℕ → List ℕ) where
  -- `reserve`
  unfoldable pub reserve : ℕ → Buffer → Buffer
  reserve additional buf =
      if leb (buf.len + additional) (length buf.block)
      then buf
      else record buf { block = buf.block ++ grow (buf.len + additional - length buf.block) }

  -- `JsObject::to_u8_array`, and `to_string` with the bytes of the text.
  unfoldable pub to_u8_array : List ℕ → Buffer → Exec Buffer
  unfolding reserve set_len unwrap
  to_u8_array obj buf = do
    let len = length obj
    buf' ← set_len len (if ltb buf.len len then reserve (len - buf.len) buf else buf)
    done (record buf' { block = unwrap obj (take len buf'.block) ++ drop len buf'.block })

  -- `to_string` of a text, whose bytes `naia_string_length` and `naia_unwrap_to_str` both make anew.
  unfoldable pub to_string : List ℕ → Buffer → Exec Buffer
  unfolding reserve set_len unwrap
  to_string units buf = do
    let len = length (to_utf8 units)
    buf' ← set_len len (if ltb buf.len len then reserve (len - buf.len) buf else buf)
    done (record buf' {
      block = unwrap (to_utf8 units) (take len buf'.block) ++ drop len buf'.block;
    })

  -- `error` reads a text, and `receive` an array.
  abbrev pub unwrap_object : JsValue → Buffer → Exec Buffer
  unwrap_object (text units) buf = to_string units buf
  unwrap_object (array bs) buf = to_u8_array bs buf

  -- `receive` and `error` of shared.rs up to the queues: the object is copied into an empty buffer and
  -- freed when the function ends. A missing object cannot be read.
  unfoldable pub take_object : ℕ → Objects → Exec (List ℕ × Objects)
  unfolding to_u8_array to_string
  take_object id o = elim (get_js_object id o) [
    | none ↦ panicked
    | some obj ↦ do buf ← unwrap_object obj empty_buffer; done (bytes buf, js_free_object id o)
  ]
