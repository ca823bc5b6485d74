-- ===== src/NetworkMessage/Poison.antt =====
-- Reading past the end: the policy that the comment in class NetworkMessage states.
use jamera_server.Base.{ℕ, ◌+◌, ◌-◌, ◌%◌, ◌^◌, ◌<◌, ◌≡◌, refl, [], arith}
use jamera_server.NetworkMessage.{
  NetworkMessage, get_value, get_byte, get_u16, get_u32, get_chars, get_string, get_raw,
  get_position,
}
use jamera_server.Base.Bytes.{read_bytes}

-- The read position is at the end.
abbrev pub IsPoisoned : NetworkMessage → Type 0
IsPoisoned m = m.read_pos ≡ m.msg_size

get_value_poisoned : (n : ℕ) (m : NetworkMessage) → IsPoisoned m → 0 < n → get_value n m ≡ (0, m)
unfolding get_value
get_value_poisoned n m h nz = ground arith

get_string_poisoned : (m : NetworkMessage) → IsPoisoned m → get_string m ≡ ([], m)
unfolding get_string get_chars get_u16 read_bytes
get_string_poisoned m h = rw (get_value_poisoned 2 m h (omega arith)) (ground arith)

get_raw_poisoned : (m : NetworkMessage) → IsPoisoned m → get_raw m ≡ ([], m)
unfolding get_raw
get_raw_poisoned m h =
    let e : (m.msg_size - m.read_pos) % 2 ^ 16 ≡ 0 = omega arith in
    rw e (unfold read_bytes in ground arith)

get_position_poisoned :
    (m : NetworkMessage) → IsPoisoned m → get_position m ≡ (record { x = 0; y = 0; z = 0 }, m)
unfolding get_position get_u16 get_byte
get_position_poisoned m h =
    simp (get_value_poisoned 2 m h (omega arith), get_value_poisoned 1 m h (omega arith))

get_value_fails :
    (n : ℕ) (m : NetworkMessage)
    → m.msg_size < m.read_pos + n
    → get_value n m ≡ (0, record m { read_pos = m.msg_size })
unfolding get_value
get_value_fails n m h = ground arith

-- The answers of all getters at a message, when there is nothing to read.
pub record AnswersNothing (m : NetworkMessage) : Type 0 where
  pub byte : get_byte m ≡ (0, m)
  pub u16 : get_u16 m ≡ (0, m)
  pub u32 : get_u32 m ≡ (0, m)
  pub text : get_string m ≡ ([], m)
  pub raw : get_raw m ≡ ([], m)
  pub position : get_position m ≡ (record { x = 0; y = 0; z = 0 }, m)

IsPoisoned-AnswersNothing : (m : NetworkMessage) → IsPoisoned m → AnswersNothing m
unfolding get_byte get_u16 get_u32
IsPoisoned-AnswersNothing m h = record {
  byte = get_value_poisoned 1 m h (omega arith);
  u16 = get_value_poisoned 2 m h (omega arith);
  u32 = get_value_poisoned 4 m h (omega arith);
  text = get_string_poisoned m h;
  raw = get_raw_poisoned m h;
  position = get_position_poisoned m h;
}

-- A read of n bytes that would pass the end of the message answers 0, and from then on every
-- getter answers zero or nothing and changes nothing.
pub get_value-poisons :
    (n : ℕ) (m : NetworkMessage)
    → m.msg_size < m.read_pos + n
    → ((get_value n m).0 ≡ 0) × AnswersNothing (get_value n m).1
get_value-poisons n m h =
    rw (get_value_fails n m h)
      (refl, IsPoisoned-AnswersNothing (record m { read_pos = m.msg_size }) refl)
