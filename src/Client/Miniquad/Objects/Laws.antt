-- ===== src/Client/Miniquad/Objects/Laws.antt =====
-- An object that the script hands over is copied whole into memory that Rust owns, and is freed.
use naia_socket.Base.{
  length-take, ℕ, suc, ◌+◌, ◌-◌, ◌≤◌, ◌<◌, ◌≡◌, refl, ap, Bool-cases, inl, inr, some, List, [], ◌∷◌,
  ◌++◌, done, ltb, leb, if◌then◌else◌, length, take, drop, All, All-imp, arith, length-append,
  take-append, le→leb,
}
use naia_socket.Client.Miniquad.Objects.{
  JsValue, content, Objects, delete, js_object, get_js_object, js_free_object, Buffer, empty_buffer,
  bytes, set_len, unwrap, reserve, to_u8_array, to_string, unwrap_object, text, array, take_object,
}

-- Every identifier is below the next one.
abbrev pub IsFresh : Objects → Type 0
IsFresh o = All (λ e. e.0 < o.unique_js_id) o.js_objects

pub IsFresh-js_object : (obj : JsValue) (o : Objects) → IsFresh o → IsFresh (js_object obj o).1
unfolding js_object
IsFresh-js_object obj o h = (omega arith, All-imp _ _ o.js_objects (λ e b. omega arith) h)

-- The next identifier may be skipped.
pub IsFresh-skip :
    (o : Objects) → IsFresh o → IsFresh (record o { unique_js_id = o.unique_js_id + 1 })
IsFresh-skip o h = All-imp _ _ o.js_objects (λ e b. omega arith) h

pub length-js_object :
    (obj : JsValue) (o : Objects)
    → length (js_object obj o).1.js_objects ≡ suc (length o.js_objects)
unfolding js_object
length-js_object obj o = refl

pub lookup-js_object :
    (obj : JsValue) (o : Objects) → get_js_object (js_object obj o).0 (js_object obj o).1 ≡ some obj
unfolding js_object get_js_object
lookup-js_object obj o = ground arith

delete_fresh : (os : List (ℕ × JsValue)) (id : ℕ) → All (λ e. e.0 < id) os → delete os id ≡ os
delete_fresh [] id h = refl
delete_fresh ((i, x) ∷ os) id h = ground (arith, delete_fresh os id h.1, h.0)

delete-js_object :
    (obj : JsValue) (o : Objects)
    → IsFresh o
    → js_free_object (js_object obj o).0 (js_object obj o).1
      ≡ record o { unique_js_id = o.unique_js_id + 1 }
unfolding js_object js_free_object
delete-js_object obj o h = ground (arith, delete_fresh o.js_objects o.unique_js_id h)

unwrap-append : (obj dest : List ℕ) → length obj ≡ length dest → unwrap obj dest ≡ obj
unfolding unwrap
unwrap-append [] [] h = refl
unwrap-append [] (d ∷ dest) h = absurd (omega arith)
unwrap-append (b ∷ obj) [] h = absurd (omega arith)
unwrap-append (b ∷ obj) (d ∷ dest) h = ap (◌∷◌ b) (unwrap-append obj dest (omega arith))

module _ (grow : ℕ → List ℕ) (big : (n : ℕ) → n ≤ length (grow n)) where
  -- The buffer behind the test of `to_u8_array`.
  abbrev grown : ℕ → Buffer → Buffer
  grown len buf = if ltb buf.len len then reserve grow (len - buf.len) buf else buf

  -- The capacity covers the length that is set.
  reserve_room :
      (len : ℕ) (buf : Buffer) → buf.len ≤ length buf.block → len ≤ length (grown len buf).block
  unfolding reserve
  reserve_room len buf v = elim (Bool-cases (ltb buf.len len)) [
    | inr fits ↦ rw fits (ground arith)
    | inl more ↦ elim (Bool-cases (leb (buf.len + (len - buf.len)) (length buf.block))) [
      | inl room ↦ rw (more, room) (ground arith)
      | inr short ↦
          rw (more, short)
            (ground (
              arith,
              length-append buf.block (grow (buf.len + (len - buf.len) - length buf.block)),
              big (buf.len + (len - buf.len) - length buf.block),
            ))
    ]
  ]

  set_len_room :
      (len : ℕ) (buf : Buffer)
      → len ≤ length buf.block
      → set_len len buf ≡ done (record buf { len = len })
  unfolding set_len
  set_len_room len buf h = rw (le→leb len (length buf.block) h)

  copied :
      (obj : List ℕ) (block : List ℕ)
      → length obj ≤ length block
      → (take (length obj) (unwrap obj (take (length obj) block) ++ drop (length obj) block) ≡ obj)
        × (length obj ≤ length (unwrap obj (take (length obj) block) ++ drop (length obj) block))
  copied obj block h =
      rw
        (unwrap-append obj (take (length obj) block)
          (omega (arith, length-take {0} (length obj) block)))
        (
          take-append obj (drop (length obj) block),
          omega (arith, length-append {0} obj (drop (length obj) block)),
        )

  -- Where the allocator gives at least what it is asked for and the capacity of a buffer covers
  -- its length, `to_u8_array` does not set a length behind the capacity, and the buffer then holds
  -- exactly the bytes of the object.
  pub to_u8_array_lem :
      (obj : List ℕ) (buf : Buffer)
      → buf.len ≤ length buf.block
      → (buf' : Buffer) × (to_u8_array grow obj buf ≡ done buf')
        × (bytes buf' ≡ obj)
        × (buf'.len ≤ length buf'.block)
  unfolding to_u8_array
  to_u8_array_lem obj buf v =
      let room = reserve_room (length obj) buf v in
      let (same, fits) = copied obj (grown (length obj) buf).block room in
      (_, rw (set_len_room (length obj) (grown (length obj) buf) room) refl, same, fits)

  unwrap_object_lem :
      (obj : JsValue) (buf : Buffer)
      → unwrap_object grow obj buf ≡ to_u8_array grow (content obj) buf
  unfolding to_u8_array to_string
  unwrap_object_lem (text units) buf = refl
  unwrap_object_lem (array bs) buf = refl

  pub take_object_lem :
      (obj : JsValue) (o : Objects)
      → IsFresh o
      → take_object grow (js_object obj o).0 (js_object obj o).1
        ≡ done (content obj, record o { unique_js_id = o.unique_js_id + 1 })
  unfolding take_object
  take_object_lem obj o h =
      let (buf, e, same, _) = to_u8_array_lem (content obj) empty_buffer (omega arith) in
      rw (lookup-js_object obj o, take_object)
        (rw (unwrap_object_lem obj empty_buffer, e, same, delete-js_object obj o h) refl)
