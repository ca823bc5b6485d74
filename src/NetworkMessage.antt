-- ===== src/NetworkMessage.antt =====
-- The packet buffer, source 7.6/networkmessage.h and networkmessage.cpp. m_MsgBuf is a memory, and
-- a write answers `none` where it would leave the array. Sizes are below 2^31, so the sums of the
-- tests do not wrap. A string is its bytes; an item enters with the fields of its ItemType.
pub mod Bounds
pub mod RoundTrip
pub mod Poison
mod Tests
use jamera_server.Base.{
  ℕ, zero, suc, ◌+◌, ◌-◌, ◌*◌, ◌%◌, ◌^◌, Bool, true, false, ◌||◌, not, Option, none, some, List, [],
  ◌∷◌, ltb, leb, ◌==◌, if◌then◌else◌, length, replicate, ◌++◌,
}
use jamera_server.Base.Int.{ℤ, pos, negsuc}
use jamera_server.Base.Bytes.{Memory, le_bytes, from_le, write_bytes, read_bytes}

-- NETWORKMESSAGE_MAXSIZE
abbrev pub maxsize : ℕ
maxsize = 16768

pub record NetworkMessage : Type 0 where
  pub msg_size : ℕ
  pub read_pos : ℕ
  pub msg_buf : Memory

-- Position, as far as packets are concerned.
pub record Position : Type 0 where
  pub x : ℕ
  pub y : ℕ
  pub z : ℕ

-- Reset
pub reset : NetworkMessage → NetworkMessage
reset m = record m { msg_size = 0; read_pos = 4 }

-- canAdd and canRead
abbrev pub can_add : NetworkMessage → ℕ → Bool
can_add m size = ltb (size + m.read_pos) (maxsize - 16)

abbrev pub can_read : NetworkMessage → ℕ → Bool
can_read m size = leb (m.read_pos + size) m.msg_size

-- What every getter does when it cannot read.
abbrev pub poison : NetworkMessage → NetworkMessage
poison m = record m { read_pos = m.msg_size }

-- The value of n bytes at the read position: GetByte, GetU16 and GetU32 with n = 1, 2 and 4.
pub get_value : ℕ → NetworkMessage → ℕ × NetworkMessage
get_value n m =
    if can_read m n
    then (from_le (read_bytes m.msg_buf m.read_pos n), record m { read_pos = m.read_pos + n })
    else (0, poison m)

pub get_byte : NetworkMessage → ℕ × NetworkMessage
unfolding get_value
get_byte = get_value 1

pub get_u16 : NetworkMessage → ℕ × NetworkMessage
unfolding get_value
get_u16 = get_value 2

-- GetSpriteId
pub get_sprite_id : NetworkMessage → ℕ × NetworkMessage
unfolding get_u16
get_sprite_id = get_u16

pub get_u32 : NetworkMessage → ℕ × NetworkMessage
unfolding get_value
get_u32 = get_value 4

-- The rest of GetString, once it has the length.
pub get_chars : ℕ → NetworkMessage → List ℕ × NetworkMessage
get_chars stringlen m =
    if can_read m stringlen
    then (read_bytes m.msg_buf m.read_pos stringlen, record m { read_pos = m.read_pos + stringlen })
    else ([], poison m)

-- GetString
pub get_string : NetworkMessage → List ℕ × NetworkMessage
get_string m = let (stringlen, m') = get_u16 m in get_chars stringlen m'

-- GetRaw: the length is cut to 16 bits.
pub get_raw : NetworkMessage → List ℕ × NetworkMessage
get_raw m = if ltb m.msg_size m.read_pos then ([], poison m) else (
  read_bytes m.msg_buf m.read_pos ((m.msg_size - m.read_pos) % 2 ^ 16),
  record m { read_pos = m.read_pos + (m.msg_size - m.read_pos) % 2 ^ 16 },
)

-- GetPosition
pub get_position : NetworkMessage → Position × NetworkMessage
get_position m =
    let (x, m1) = get_u16 m in
    let (y, m2) = get_u16 m1 in let (z, m3) = get_byte m2 in (record { x = x; y = y; z = z }, m3)

-- SkipBytes
pub skip_bytes : ℤ → NetworkMessage → NetworkMessage
skip_bytes (pos count) m =
    if can_read m count then record m { read_pos = m.read_pos + count } else poison m
skip_bytes (negsuc n) m = poison m

-- decodeHeader
pub decode_header : NetworkMessage → ℕ
decode_header m = m.msg_buf 0 + 256 * m.msg_buf 1

-- A copy of bytes into the array, `none` if it leaves the array.
abbrev pub copy : ℕ → List ℕ → NetworkMessage → Option NetworkMessage
copy at_pos bytes m =
    if leb (at_pos + length bytes) maxsize
    then some (record m { msg_buf = write_bytes m.msg_buf at_pos bytes })
    else none

abbrev pub advance : ℕ → Option NetworkMessage → Option NetworkMessage
advance n none = none
advance n (some m) = some (record m { read_pos = m.read_pos + n; msg_size = m.msg_size + n })

infixl 5 ◌>>=◌
abbrev pub ◌>>=◌ :
    Option NetworkMessage → (NetworkMessage → Option NetworkMessage) → Option NetworkMessage
none >>= f = none
some m >>= f = f m

-- AddByte, AddU16 and AddU32 with n = 1, 2 and 4.
pub add_value : ℕ → ℕ → NetworkMessage → Option NetworkMessage
add_value n value m =
    if can_add m n then advance n (copy m.read_pos (le_bytes n value) m) else some m

pub add_byte : ℕ → NetworkMessage → Option NetworkMessage
unfolding add_value
add_byte = add_value 1

pub add_u16 : ℕ → NetworkMessage → Option NetworkMessage
unfolding add_value
add_u16 = add_value 2

pub add_u32 : ℕ → NetworkMessage → Option NetworkMessage
unfolding add_value
add_u32 = add_value 4

-- AddBytes
pub add_bytes : List ℕ → NetworkMessage → Option NetworkMessage
add_bytes bytes m =
    if not (can_add m (length bytes)) || ltb 8192 (length bytes)
    then some m
    else advance (length bytes) (copy m.read_pos bytes m)

-- AddPaddingBytes: the write position stays.
pub add_padding_bytes : ℕ → NetworkMessage → Option NetworkMessage
add_padding_bytes n m =
    if not (can_add m n)
    then some m
    else copy m.read_pos (replicate n 0x33) (record m { msg_size = m.msg_size + n })

-- AddString on a C string, which has no zero byte. strcpy also writes the zero at its end.
pub add_string : List ℕ → NetworkMessage → Option NetworkMessage
add_string value m =
    if not (can_add m (length value + 2)) || ltb 8192 (length value)
    then some m
    else add_u16 (length value) m >>= λ m'.
        advance (length value) (copy m'.read_pos (value ++ 0 ∷ []) m')

-- AddPosition
pub add_position : Position → NetworkMessage → Option NetworkMessage
add_position p m = add_u16 p.x m >>= add_u16 p.y >>= add_byte p.z

-- What AddItem reads of an ItemType: clientId, and stackable || isSplash() || isFluidContainer().
pub record ItemType : Type 0 where
  pub client_id : ℕ
  pub has_count : Bool

-- AddItem, with the count or the sub type of the item, and AddItemId.
pub add_item : ItemType → ℕ → NetworkMessage → Option NetworkMessage
add_item it count m =
    add_u16 it.client_id m >>= λ m'. if it.has_count then add_byte count m' else some m'

pub add_item_id : ItemType → NetworkMessage → Option NetworkMessage
unfolding add_u16
add_item_id it = add_u16 it.client_id
