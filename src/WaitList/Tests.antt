-- ===== src/WaitList/Tests.antt =====
-- Runs of the login queue, and the theorems about it at concrete inputs.
use jamera_server.Base.{
  ℕ, ◌+◌, ◌-◌, ◌≤◌, ◌<◌, ◌≡◌, refl, true, false, some, [], ◌∷◌, arith, ◌⊎◌, inl,
}
use jamera_server.Base.Int.{pos, negsuc}
use jamera_server.WaitList.{
  Wait, Player, Status, find_client, erase_at, clean_up_list, client_login, get_client_slot,
}
use jamera_server.WaitList.Order.{IsSorted, client_login-IsSorted}
use jamera_server.WaitList.Places.{Holds, client_login-Holds}
use jamera_server.WaitList.Login.{
  HasPlace, client_login-has_room, client_login-HasPlace, client_login-premium_lost,
}

abbrev full : Status
full = record { players_online = 100; max_players_online = 100 }

abbrev open_status : Status
open_status = record { players_online = 98; max_players_online = 100 }

abbrev ann : Player
ann = record {
  account = 1;
  ip = 10;
  name = b'A' ∷ b'n' ∷ [];
  is_premium = false;
  can_always_login = false;
}

abbrev bob : Player
bob = record { account = 2; ip = 20; name = b'b' ∷ []; is_premium = true; can_always_login = false }

abbrev entry_ann : Wait
entry_ann = record { acc = 1; ip = 10; name = b'a' ∷ b'N' ∷ []; premium = false; timeout = 30_000 }

abbrev entry_bob : Wait
entry_bob = record { acc = 2; ip = 20; name = b'B' ∷ []; premium = true; timeout = 500 }

-- bob steps in front of ann, at slot 1.
bob_first : get_client_slot bob (client_login full 1000 bob (entry_ann ∷ [])).1 ≡ pos 1
unfolding client_login get_client_slot
bob_first = refl

client_login-IsSorted_example : IsSorted (client_login full 1000 bob (entry_ann ∷ [])).1
client_login-IsSorted_example = client_login-IsSorted full 1000 bob (entry_ann ∷ []) ((λ _. tt), tt)

client_login-Holds_example : Holds ann 2 29_000 (client_login full 1000 bob (entry_ann ∷ [])).1
client_login-Holds_example =
    client_login-Holds full ann bob 1 29_000 1000 (entry_ann ∷ []) refl (omega arith) (omega arith)

client_login-has_room_example :
    ((entry_bob ∷ entry_ann ∷ [] ≡ [])
      × (98 < 100)
      × ((client_login open_status 100 ann (entry_bob ∷ entry_ann ∷ [])).1 ≡ []))
    ⊎ ((slot : ℕ) × (find_client ann 1 (clean_up_list 100 (entry_bob ∷ entry_ann ∷ [])) ≡ some slot)
        × (98 + slot ≤ 100)
        × ((client_login open_status 100 ann (entry_bob ∷ entry_ann ∷ [])).1
            ≡ erase_at (slot - 1) (clean_up_list 100 (entry_bob ∷ entry_ann ∷ []))))
unfolding client_login
client_login-has_room_example =
    client_login-has_room open_status 100 ann (entry_bob ∷ entry_ann ∷ []) refl (omega arith) refl

client_login-HasPlace_example : HasPlace ann 100 (client_login full 100 ann (entry_bob ∷ [])).1
unfolding client_login
client_login-HasPlace_example = client_login-HasPlace full 100 ann (entry_bob ∷ []) refl (inl refl)

client_login-premium_lost_example :
    ((client_login full 1000 bob []).1 ≡ clean_up_list 1000 [])
    × (get_client_slot bob (client_login full 1000 bob []).1 ≡ negsuc 0)
unfolding client_login
client_login-premium_lost_example = client_login-premium_lost full 1000 bob [] refl refl refl refl
