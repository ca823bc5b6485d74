-- ===== src/Chat.antt =====
-- The chat: source 7.6/chat.h and chat.cpp, and the calls on channels in source 7.6/game.cpp. A
-- player is his ids and what the channels ask of him, a channel the ids of its users; a std::map
-- is a list in the order of its keys, and a pointer to a channel tells in which map it stands.
-- Names and texts are left out.
pub mod Rooms
pub mod Sound
pub mod Keeps
pub mod Invite
pub mod Pointers
pub mod Private
pub mod Calls
pub mod Access
pub mod Faults
pub mod Talk
pub mod Logout
pub mod Leave
pub mod Parts
pub mod Listing
mod Tests
use jamera_server.Base.{
  ℕ, zero, suc, ◌+◌, ◌-◌, Bool, true, false, not, ◌&&◌, ◌||◌, Option, none, some, List, [], ◌∷◌,
  ◌++◌, contains, erase, ltb, ◌==◌, if◌then◌else◌, is_empty,
}
use jamera_server.Base.Dict
use jamera_server.Base.Dict.{Dict, lookup, emplace, adjust}

pub record Player : Type 0 where
  pub id : ℕ
  pub guid : ℕ
  pub guild_id : ℕ
  pub has_guild_name : Bool
  pub premium : Bool
  pub vocation_id : ℕ
  pub level : ℕ
  pub trade_muted : Bool
  pub can_answer_rule_violations : Bool
  pub cannot_be_muted : Bool
  pub talk_orange_help_channel : Bool

abbrev pub channel_guild : ℕ
channel_guild = 0

abbrev pub channel_rvr : ℕ
channel_rvr = 3

abbrev pub channel_game_chat : ℕ
channel_game_chat = 4

abbrev pub channel_trade : ℕ
channel_trade = 5

abbrev pub channel_rl_chat : ℕ
channel_rl_chat = 6

abbrev pub channel_help : ℕ
channel_help = 7

abbrev pub channel_trade_rook : ℕ
channel_trade_rook = 9

abbrev pub channel_private : ℕ
channel_private = 0xFFFF

-- A ChatChannel, which getOwner gives the owner 0, or a PrivateChatChannel.
pub record ChatChannel : Type 0 where
  pub id : ℕ
  pub users : List ℕ
  pub owner : ℕ
  pub invites : List ℕ

abbrev pub new_channel : ℕ → ChatChannel
new_channel id = record { id = id; users = []; owner = 0; invites = [] }

pub record Chat : Type 0 where
  pub normal_channels : Dict ChatChannel
  pub private_channels : Dict ChatChannel
  pub guild_channels : Dict ChatChannel

-- Chat::Chat
abbrev pub new_chat : Chat
new_chat = record {
  normal_channels =
      (channel_rvr, new_channel channel_rvr)
      ∷ (channel_game_chat, new_channel channel_game_chat)
      ∷ (channel_trade, new_channel channel_trade)
      ∷ (channel_rl_chat, new_channel channel_rl_chat)
      ∷ (channel_help, new_channel channel_help)
      ∷ (channel_trade_rook, new_channel channel_trade_rook)
      ∷ [];
  private_channels = [];
  guild_channels = [];
}

-- A pointer to a channel, by its map and its key there.
pub data Pointer : Type 0 where
  normal : ℕ → Pointer
  private : ℕ → Pointer
  guild : ℕ → Pointer
  dummy_private : Pointer

-- What a pointer points to; nothing if the channel has been deleted. dummyPrivate has no users and
-- no way to get one.
abbrev pub read : Pointer → Chat → Option ChatChannel
read (normal k) chat = lookup k chat.normal_channels
read (private k) chat = lookup k chat.private_channels
read (guild k) chat = lookup k chat.guild_channels
read dummy_private chat = some (new_channel channel_private)

abbrev pub change : Pointer → (ChatChannel → ChatChannel) → Chat → Chat
change (normal k) f chat = record chat { normal_channels = adjust k f chat.normal_channels }
change (private k) f chat = record chat { private_channels = adjust k f chat.private_channels }
change (guild k) f chat = record chat { guild_channels = adjust k f chat.guild_channels }
change dummy_private f chat = chat

-- PrivateChatChannel::isInvited
abbrev pub is_invited : Player → ChatChannel → Bool
is_invited p c = p.guid == c.owner || contains p.guid c.invites

-- Whether getChannel lets a player into a normal channel.
abbrev pub is_admitted : Player → ℕ → Bool
is_admitted p k =
    if k == channel_rvr
    then p.can_answer_rule_violations
    else if k == channel_trade
    then not (p.vocation_id == 0)
    else if k == channel_trade_rook
    then p.vocation_id == 0
    else true

-- Chat::getChannel
unfoldable pub get_channel : Player → ℕ → Chat → Option Pointer
get_channel p k chat =
    if k == channel_guild
    then (elim (lookup p.guild_id chat.guild_channels) [
      | none ↦ none
      | some c ↦ some (guild p.guild_id)
    ])
    else elim (lookup k chat.normal_channels) [
      | some c ↦ if is_admitted p k then some (normal k) else none
      | none ↦ elim (lookup k chat.private_channels) [
        | none ↦ none
        | some c ↦ if is_invited p c then some (private k) else none
      ]
    ]

-- Chat::getPrivateChannel: the player's own channel, or the last one of all.
unfoldable pub own_or_last : Player → Option Pointer → Dict ChatChannel → Option Pointer
own_or_last p channel [] = channel
own_or_last p channel (entry ∷ rest) = elim (entry.1.owner == p.guid) [
  | true ↦ some (private entry.0)
  | false ↦ own_or_last p (some (private entry.0)) rest
]

abbrev pub get_private_channel : Player → Chat → Option Pointer
get_private_channel p chat = own_or_last p none chat.private_channels

-- The loop for a free private channel slot.
unfoldable pub free_slot : ℕ → ℕ → Dict ChatChannel → Option ℕ
free_slot zero i privates = none
free_slot (suc n) i privates = elim (lookup i privates) [
  | none ↦ some i
  | some c ↦ free_slot n (i + 1) privates
]

abbrev pub own_channel : Player → ℕ → ChatChannel
own_channel p i = record { id = i; users = []; owner = p.guid; invites = [] }

-- The cases of Chat::createChannel: the chat then, and the new channel.
unfoldable pub create_guild_channel : Player → Chat → Chat × Option Pointer
create_guild_channel p chat = (
  record chat {
    guild_channels = emplace p.guild_id (new_channel channel_guild) chat.guild_channels;
  },
  some (guild p.guild_id),
)

unfoldable pub open_slot : Player → Option ℕ → Chat → Chat × Option Pointer
open_slot p none chat = (chat, none)
open_slot p (some i) chat = (
  record chat { private_channels = emplace i (own_channel p i) chat.private_channels },
  some (private i),
)

unfoldable pub create_own_channel : Player → Chat → Chat × Option Pointer
create_own_channel p chat =
    if not p.premium then (chat, none) else elim (get_private_channel p chat) [
      | some c ↦ (chat, none)
      | none ↦ open_slot p (free_slot 9900 100 chat.private_channels) chat
    ]

-- Chat::createChannel
unfoldable pub create_channel : Player → ℕ → Chat → Chat × Option Pointer
create_channel p k chat = elim (get_channel p k chat) [
  | some c ↦ (chat, none)
  | none ↦
      if k == channel_guild
      then create_guild_channel p chat
      else if k == channel_private
      then create_own_channel p chat
      else (chat, none)
]

-- Chat::deleteChannel
unfoldable pub delete_channel : Player → ℕ → Chat → Chat
delete_channel p k chat =
    if k == channel_guild
    then record chat { guild_channels = Dict.erase p.guild_id chat.guild_channels }
    else record chat { private_channels = Dict.erase k chat.private_channels }
