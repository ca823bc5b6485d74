-- ===== src/NetworkMessage/Tests.antt =====
-- The packet buffer at concrete inputs.
use jamera_server.Base.{ℕ, ◌≡◌, refl, some, List, [], ◌∷◌, arith}
use jamera_server.NetworkMessage.{
  NetworkMessage, Position, ItemType, add_byte, add_u16, add_u32, add_string, get_byte, get_u16,
  get_u32, get_value, get_string,
}
use jamera_server.NetworkMessage.RoundTrip.{received, get-add_value, get_string-add_string}
use jamera_server.NetworkMessage.Poison.{AnswersNothing, get_value-poisons}
use jamera_server.Base.{true}

abbrev fresh : NetworkMessage
fresh = record { msg_size = 0; read_pos = 4; msg_buf = λ _. 0 }

abbrev spot : Position
spot = record { x = 1000; y = 950; z = 7 }

abbrev coin : ItemType
coin = record { client_id = 3031; has_count = true }

abbrev text : List ℕ
text = b'h' ∷ b'i' ∷ []

get-add_value_example :
    (m1 m2 m3 : NetworkMessage) × (add_byte 200 fresh ≡ some m1)
    × ((get_byte (received 4 8 m1)).0 ≡ 200)
    × (add_u16 5000 fresh ≡ some m2)
    × ((get_u16 (received 4 8 m2)).0 ≡ 5000)
    × (add_u32 70000 fresh ≡ some m3)
    × ((get_u32 (received 4 8 m3)).0 ≡ 70000)
get-add_value_example =
    get-add_value 200 5000 70000 4 8 fresh (omega arith) (omega arith) (omega arith) refl
      (omega arith) (omega arith)

get_string-add_string_example :
    (m' : NetworkMessage) × (add_string text fresh ≡ some m')
    × (get_string (received 4 20 m') ≡ (text, record m' { msg_size = 20 }))
get_string-add_string_example =
    get_string-add_string 4 20 text fresh refl (omega arith) (omega arith) (omega arith)

get_value-poisons_example :
    ((get_value 2 (received 4 5 fresh)).0 ≡ 0) × AnswersNothing (get_value 2 (received 4 5 fresh)).1
get_value-poisons_example = get_value-poisons 2 (received 4 5 fresh) (omega arith)
