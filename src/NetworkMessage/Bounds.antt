-- ===== src/NetworkMessage/Bounds.antt =====
-- Writes stay within the packet buffer.
use jamera_server.Base.{◌+◌, ◌-◌, ◌<◌, ◌≡◌, Option, none, some, arith}
use jamera_server.NetworkMessage.{NetworkMessage, maxsize, reset}

-- A message that is being written: the position stands behind the body, which begins at 4.
pub record IsPacket (m : NetworkMessage) : Type 0 where
  pub behind : m.read_pos ≡ m.msg_size + 4
  pub within : m.read_pos < maxsize - 16

-- A write that does not leave the array, and keeps such a message.
abbrev pub Keeps : Option NetworkMessage → Type 0
Keeps none = ⊥
Keeps (some m) = IsPacket m

reset-IsPacket : (m : NetworkMessage) → IsPacket (reset m)
unfolding reset
reset-IsPacket m = record { behind = omega arith; within = omega arith }

-- A write that does not leave the array, and leaves the position.
abbrev pub Pads : NetworkMessage → Option NetworkMessage → Type 0
Pads m none = ⊥
Pads m (some m') = m'.read_pos ≡ m.read_pos
