-- ===== src/NetworkMessage/RoundTrip.antt =====
-- What one side writes the other side reads.
use jamera_server.Base.{
  ℕ, ◌+◌, ◌-◌, ◌^◌, ◌≤◌, ◌<◌, ◌≡◌, refl, ap, ◌∙◌, some, List, [], ◌∷◌, ◌++◌, length, length-append,
  arith,
}
use jamera_server.Base.Bytes.{
  le_bytes, from_le, length-le_bytes, from_le-byte, from_le-u16, from_le-u32, write_bytes,
  read_bytes, read_bytes-write_bytes, read_bytes-before, read_bytes-store,
}
use jamera_server.NetworkMessage.{
  NetworkMessage, Position, maxsize, add_value, add_byte, add_u16, add_u32, get_value, get_byte,
  get_u16, get_u32, get_chars, get_string, get_position, add_string, add_position,
}

-- The message as its receiver has it: the same bytes, read from p, in a packet that ends at e.
abbrev pub received : ℕ → ℕ → NetworkMessage → NetworkMessage
received p e m = record m { read_pos = p; msg_size = e }

add_value_lem :
    (n v : ℕ) (m : NetworkMessage)
    → n + m.read_pos < maxsize - 16
    → add_value n v m
      ≡ some (record m {
        read_pos = m.read_pos + n;
        msg_size = m.msg_size + n;
        msg_buf = write_bytes m.msg_buf m.read_pos (le_bytes n v);
      })
unfolding add_value
add_value_lem n v m h = ground (arith, length-le_bytes n v)

get_value_lem :
    (n : ℕ) (m : NetworkMessage)
    → m.read_pos + n ≤ m.msg_size
    → get_value n m
      ≡ (from_le (read_bytes m.msg_buf m.read_pos n), record m { read_pos = m.read_pos + n })
unfolding get_value
get_value_lem n m h = ground arith

read_written :
    (n v p : ℕ) (f : ℕ → ℕ) → read_bytes (write_bytes f p (le_bytes n v)) p n ≡ le_bytes n v
read_written n v p f = rw (length-le_bytes n v) at (read_bytes-write_bytes f p (le_bytes n v))

-- GetByte, GetU16 and GetU32 give back what AddByte, AddU16 and AddU32 have put at the same place,
-- if there was room for it and the packet reaches so far.
pub get-add_value :
    (b h l p e : ℕ) (m : NetworkMessage)
    → b < 2 ^ 8
    → h < 2 ^ 16
    → l < 2 ^ 32
    → m.read_pos ≡ p
    → p + 4 < maxsize - 16
    → p + 4 ≤ e
    → (m1 m2 m3 : NetworkMessage) × (add_byte b m ≡ some m1)
      × ((get_byte (received p e m1)).0 ≡ b)
      × (add_u16 h m ≡ some m2)
      × ((get_u16 (received p e m2)).0 ≡ h)
      × (add_u32 l m ≡ some m3)
      × ((get_u32 (received p e m3)).0 ≡ l)
unfolding add_byte add_u16 add_u32 get_byte get_u16 get_u32
get-add_value b h l p e m hb hh hl at_p room reach = (
  _,
  _,
  _,
  add_value_lem 1 b m (omega arith),
  read_back 1 b (omega arith) (from_le-byte b hb),
  add_value_lem 2 h m (omega arith),
  read_back 2 h (omega arith) (from_le-u16 h hh),
  add_value_lem 4 l m (omega arith),
  read_back 4 l (omega arith) (from_le-u32 l hl),
)
  where
    read_back :
        (n v : ℕ)
        → n ≤ 4
        → from_le (le_bytes n v) ≡ v
        → (get_value n (
            received p e (record m {
              read_pos = m.read_pos + n;
              msg_size = m.msg_size + n;
              msg_buf = write_bytes m.msg_buf m.read_pos (le_bytes n v);
            }))).0
          ≡ v
    read_back n v le eq =
        ap (λ r. r.0)
          (get_value_lem n
            (received p e (record m {
              read_pos = m.read_pos + n;
              msg_size = m.msg_size + n;
              msg_buf = write_bytes m.msg_buf m.read_pos (le_bytes n v);
            }))
            (omega arith))
        ∙ (rw at_p (ap from_le (read_written n v p m.msg_buf)) ∙ eq)

module _ (p e : ℕ) (pos : Position) (m : NetworkMessage) (at_p : m.read_pos ≡ p) where
  abbrev xs : ℕ → ℕ
  xs = write_bytes m.msg_buf p (le_bytes 2 pos.x)

  abbrev ys : ℕ → ℕ
  ys = write_bytes xs (p + 2) (le_bytes 2 pos.y)

  abbrev zs : ℕ → ℕ
  zs = write_bytes ys (p + 2 + 2) (le_bytes 1 pos.z)

  add_position_lem :
      p + 5 < maxsize - 16
      → add_position pos m
        ≡ some
            (record { read_pos = p + 2 + 2 + 1; msg_size = m.msg_size + 2 + 2 + 1; msg_buf = zs })
  unfolding add_position add_u16 add_byte
  add_position_lem room = ground (
    arith,
    add_value_lem 2 pos.x m,
    add_value_lem 2 pos.y (record { read_pos = p + 2; msg_size = m.msg_size + 2; msg_buf = xs }),
    add_value_lem 1 pos.z
        (record { read_pos = p + 2 + 2; msg_size = m.msg_size + 2 + 2; msg_buf = ys }),
  )

  read_xs : read_bytes zs p 2 ≡ le_bytes 2 pos.x
  read_xs =
      read_bytes-before ys (p + 2 + 2) p 2 _ (omega arith)
      ∙ read_bytes-before xs (p + 2) p 2 _ (omega arith)
      ∙ read_written 2 pos.x p m.msg_buf

  read_ys : read_bytes zs (p + 2) 2 ≡ le_bytes 2 pos.y
  read_ys =
      read_bytes-before ys (p + 2 + 2) (p + 2) 2 _ (omega arith) ∙ read_written 2 pos.y (p + 2) xs

  get_position_lem :
      pos.x < 2 ^ 16
      → pos.y < 2 ^ 16
      → pos.z < 2 ^ 8
      → p + 5 ≤ e
      → get_position (record { read_pos = p; msg_size = e; msg_buf = zs })
        ≡ (pos, record { read_pos = p + 2 + 2 + 1; msg_size = e; msg_buf = zs })
  unfolding get_position get_u16 get_byte
  get_position_lem hx hy hz reach = ground (
    arith,
    get_value_lem 2 (record { read_pos = p; msg_size = e; msg_buf = zs }),
    get_value_lem 2 (record { read_pos = p + 2; msg_size = e; msg_buf = zs }),
    get_value_lem 1 (record { read_pos = p + 2 + 2; msg_size = e; msg_buf = zs }),
    read_xs,
    read_ys,
    read_written 1 pos.z (p + 2 + 2) ys,
    from_le-u16 pos.x hx,
    from_le-u16 pos.y hy,
    from_le-byte pos.z hz,
  )

-- GetPosition gives back the position that AddPosition wrote, if there was room for it and the
-- packet reaches so far, and goes on where that ended.
pub get_position-add_position :
    (p e : ℕ) (pos : Position) (m : NetworkMessage)
    → m.read_pos ≡ p
    → pos.x < 2 ^ 16
    → pos.y < 2 ^ 16
    → pos.z < 2 ^ 8
    → p + 5 < maxsize - 16
    → p + 5 ≤ e
    → (m' : NetworkMessage) × (add_position pos m ≡ some m')
      × (get_position (received p e m') ≡ (pos, record m' { msg_size = e }))
get_position-add_position p e pos m at_p hx hy hz room reach =
    (_, add_position_lem p e pos m at_p room, get_position_lem p e pos m at_p hx hy hz reach)

read_string :
    (s : List ℕ) (p : ℕ) (f : ℕ → ℕ) → read_bytes (write_bytes f p (s ++ 0 ∷ [])) p (length s) ≡ s
unfolding read_bytes write_bytes
read_string [] p f = refl
read_string (b ∷ s) p f = ground (
  arith,
  read_bytes-store (write_bytes f (p + 1) (s ++ 0 ∷ [])) p b (p + 1) (length s),
  read_string s (p + 1) f,
)

-- GetString gives back the text that AddString wrote, if that is not too long and there was room
-- for it and the packet reaches so far.
pub get_string-add_string :
    (p e : ℕ) (s : List ℕ) (m : NetworkMessage)
    → m.read_pos ≡ p
    → length s ≤ 8192
    → length s + 2 + p < maxsize - 16
    → p + 2 + length s ≤ e
    → (m' : NetworkMessage) × (add_string s m ≡ some m')
      × (get_string (received p e m') ≡ (s, record m' { msg_size = e }))
unfolding add_string get_string add_u16 get_u16 get_chars
get_string-add_string p e s m at_p short room reach = (
  record { read_pos = p + 2 + length s; msg_size = m.msg_size + 2 + length s; msg_buf = text },
  ground (arith, add_value_lem 2 (length s) m, length-append s (0 ∷ [])),
  ground (
    arith,
    get_value_lem 2 (record { read_pos = p; msg_size = e; msg_buf = text }),
    read_bytes-before prefix (p + 2) p 2 (s ++ 0 ∷ []),
    read_written 2 (length s) p m.msg_buf,
    from_le-u16 (length s),
    read_string s (p + 2) prefix,
  ),
)
  where
    prefix : ℕ → ℕ
    prefix = write_bytes m.msg_buf p (le_bytes 2 (length s))

    text : ℕ → ℕ
    text = write_bytes prefix (p + 2) (s ++ 0 ∷ [])
