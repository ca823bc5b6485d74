-- ===== src/Chat/Tests.antt =====
-- Runs of the chat, and the theorems about it at concrete inputs.
use jamera_server.Base.{
  ℕ, ◌+◌, ◌≤◌, ◌≡◌, ◌&&◌, if◌then◌else◌, refl, true, false, Option, none, some, List, [], ◌∷◌, ◌++◌,
  contains, length, is_empty, arith, inr,
}
use jamera_server.Base.Dict.{lookup, adjust, emplace, erase}
use jamera_server.Chat.{
  Player, ChatChannel, Chat, Pointer, normal, private, read, new_chat, is_invited,
  channel_trade_rook, get_channel, create_channel, create_own_channel, create_guild_channel,
  open_slot, own_or_last, free_slot, delete_channel,
}
use jamera_server.Chat.Sound.{lets}
use jamera_server.Chat.Rooms.{
  add_user, add_user_to_channel, remove_user, remove_user_from, remove_user_from_each,
  remove_user_from_all_channels, player_create_private_channel, player_channel_invite,
  get_channel_list, guild_part,
}
use jamera_server.Chat.Invite.{created}
use jamera_server.Chat.Calls.{Call, create, invite, request, open_channel, logout, runs, Known}
use jamera_server.Chat.Access.{runs-let_in, runs-logout, runs-one_private}
use jamera_server.Chat.Faults.{player_channel_invite-foreign, remove_user_from_all_channels-rook}
use jamera_server.Chat.Talk.{talk_to_channel, talk_to_channel-Heard, Heard, said}

abbrev player : ℕ → Player
player u = record {
  id = u;
  guid = u + 1000;
  guild_id = 7;
  has_guild_name = true;
  premium = true;
  vocation_id = 0;
  level = 8;
  trade_muted = false;
  can_answer_rule_violations = false;
  cannot_be_muted = false;
  talk_orange_help_channel = false;
}

player-Known : Known player
player-Known = record { id = λ u. refl; unique = λ u v h. omega arith; named = λ u. inr refl }

abbrev calls : List Call
calls =
    create 1 ∷ invite 1 (some 2) ∷ open_channel 2 100 ∷ request 3 ∷ open_channel 3 0 ∷ create 4 ∷ []

runs-let_in_example :
    (chat : Chat) × (runs player calls new_chat ≡ some chat)
    × ((ptr : Pointer) (c : ChatChannel) (v : ℕ)
        → read ptr chat ≡ some c
        → contains v c.users ≡ true
        → lets (player v) ptr c ≡ true)
runs-let_in_example = runs-let_in player calls player-Known

runs-logout_example :
    (after : Chat) × (runs player (calls ++ logout 1 ∷ []) new_chat ≡ some after)
    × ((ptr : Pointer) (c : ChatChannel) → read ptr after ≡ some c → contains 1 c.users ≡ false)
runs-logout_example = runs-logout player calls 1 player-Known

runs-one_private_example :
    (chat : Chat) × (runs player calls new_chat ≡ some chat)
    × (length chat.private_channels ≤ 1)
    × ((p : Player)
        → player_create_private_channel p chat ≡ (
            if p.premium && is_empty chat.private_channels
            then (created p chat, true)
            else (chat, false)))
runs-one_private_example = runs-one_private player calls player-Known

-- The chat with the channel of player 1.
abbrev with_private : Chat
with_private = created (player 1) new_chat

abbrev private_one : ChatChannel
private_one = record { id = 100; users = 1 ∷ []; owner = 1001; invites = [] }

player_channel_invite-foreign_example :
    (c' : ChatChannel) × (read
        (private 100)
        (player_channel_invite (player 2) (some (player 3)) with_private).0
      ≡ some c')
    × (is_invited (player 3) c' ≡ true)
player_channel_invite-foreign_example =
    player_channel_invite-foreign (player 2) (player 3) with_private 100 private_one refl
      (omega arith) (omega arith)

-- Player 5 after he has opened the trade channel of Rookgaard, and with a vocation.
abbrev in_rook : Chat
in_rook = (add_user_to_channel (player 5) channel_trade_rook new_chat).0

abbrev promoted : Player
promoted = record (player 5) { vocation_id = 1 }

abbrev chat_of : Option Chat → Chat
chat_of none = new_chat
chat_of (some chat) = chat

abbrev gone : Chat
gone = chat_of (remove_user_from_all_channels promoted in_rook)

abbrev rook_with_five : ChatChannel
rook_with_five = record { id = 9; users = 5 ∷ []; owner = 0; invites = [] }

remove_user_from_all_channels-rook_example :
    read (normal channel_trade_rook) gone ≡ some rook_with_five
unfolding lookup adjust emplace erase get_channel create_channel create_own_channel
    create_guild_channel open_slot own_or_last free_slot delete_channel add_user add_user_to_channel
    remove_user remove_user_from remove_user_from_each remove_user_from_all_channels
    get_channel_list guild_part
remove_user_from_all_channels-rook_example =
    remove_user_from_all_channels-rook promoted in_rook gone rook_with_five (omega arith) refl refl

talk_to_channel-Heard_example :
    Heard
      (player 5)
      3
      channel_trade_rook
      in_rook
      (talk_to_channel (player 5) 5 3 channel_trade_rook in_rook)
talk_to_channel-Heard_example = talk_to_channel-Heard (player 5) 5 3 channel_trade_rook in_rook

talk_reaches : talk_to_channel (player 5) 5 3 channel_trade_rook in_rook ≡ said (5 ∷ []) 5 true
unfolding lookup adjust get_channel add_user add_user_to_channel talk_to_channel
talk_reaches = refl
