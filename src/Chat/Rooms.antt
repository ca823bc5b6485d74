-- ===== src/Chat/Rooms.antt =====
-- Users and invitations of channels, and the calls that the game makes for a player.
use jamera_server.Base.{
  ℕ, Bool, true, false, not, ◌&&◌, ◌||◌, Option, none, some, List, [], ◌∷◌, ◌++◌, contains, erase,
  put_in, ◌==◌, if◌then◌else◌,
}
use jamera_server.Base.Dict.{Dict}
use jamera_server.Chat.{
  Player, ChatChannel, Chat, Pointer, normal, private, dummy_private, read, change, is_invited,
  get_channel, get_private_channel, create_channel, delete_channel, channel_guild, channel_rvr,
  channel_game_chat, channel_trade, channel_rl_chat, channel_help, channel_trade_rook,
  channel_private,
}

abbrev pub add_to : Player → ChatChannel → ChatChannel
add_to p c = record c { users = put_in p.id c.users }

abbrev pub take_from : Player → ChatChannel → ChatChannel
take_from p c = record c { users = erase p.id c.users }

abbrev pub asks_again : ℕ → Bool
asks_again k = k == channel_rvr || k == channel_trade || k == channel_trade_rook

abbrev pub is_some : Option Pointer → Bool
is_some none = false
is_some (some c) = true

-- ChatChannel::addUser
unfoldable pub add_user : Player → Pointer → Chat → Chat × Bool
add_user p ptr chat = elim (read ptr chat) [
  | none ↦ (chat, false)
  | some c ↦
      if contains p.id c.users || asks_again c.id && not (is_some (get_channel p c.id chat))
      then (chat, false)
      else (change ptr (add_to p) chat, true)
]

-- ChatChannel::removeUser
unfoldable pub remove_user : Player → Pointer → Chat → Chat × Bool
remove_user p ptr chat = elim (read ptr chat) [
  | none ↦ (chat, false)
  | some c ↦ if contains p.id c.users then (change ptr (take_from p) chat, true) else (chat, false)
]

-- Chat::addUserToChannel
unfoldable pub add_user_to_channel : Player → ℕ → Chat → Chat × Bool
add_user_to_channel p k chat = elim (get_channel p k chat) [
  | none ↦ (chat, false)
  | some ptr ↦ add_user p ptr chat
]

abbrev pub owner_of : Option ChatChannel → ℕ
owner_of none = 0
owner_of (some c) = c.owner

-- A channel is closed when its owner has left it.
abbrev pub close_own : Player → Pointer → ℕ → Chat → Chat
close_own p ptr k chat =
    if owner_of (read ptr chat) == p.guid then delete_channel p k chat else chat

-- Chat::removeUserFromChannel
unfoldable pub remove_user_from_channel : Player → ℕ → Chat → Chat × Bool
remove_user_from_channel p k chat = elim (get_channel p k chat) [
  | none ↦ (chat, false)
  | some ptr ↦
      let (chat', removed) = remove_user p ptr chat in
      if removed then (close_own p ptr k chat', true) else (chat, false)
]

-- The parts of Chat::getChannelList: the channel of a guild, the normal and the private channels.
unfoldable pub guild_part : Player → Chat → List Pointer × Chat
guild_part p chat =
    if not (p.guild_id == 0) && p.has_guild_name
    then elim (get_channel p channel_guild chat) [
      | some ptr ↦ (ptr ∷ [], chat)
      | none ↦
          let (chat', made) = create_channel p channel_guild chat in
          elim made [ none ↦ ([], chat') | some ptr ↦ (ptr ∷ [], chat') ]
    ]
    else ([], chat)

abbrev pub is_open : ℕ → Bool
is_open k = k == channel_game_chat || k == channel_rl_chat || k == channel_help

abbrev pub normal_part : Player → Chat → Dict ChatChannel → List Pointer
normal_part p chat [] = []
normal_part p chat (entry ∷ rest) =
    if is_open entry.0 || is_some (get_channel p entry.0 chat)
    then normal entry.0 ∷ normal_part p chat rest
    else normal_part p chat rest

abbrev pub private_part : Player → Dict ChatChannel → List Pointer
private_part p [] = []
private_part p (entry ∷ rest) =
    if is_invited p entry.1 then private entry.0 ∷ private_part p rest else private_part p rest

abbrev pub has_private : Player → Dict ChatChannel → Bool
has_private p [] = false
has_private p (entry ∷ rest) = entry.1.owner == p.guid || has_private p rest

-- Chat::getChannelList
unfoldable pub get_channel_list : Player → Chat → List Pointer × Chat
get_channel_list p chat =
    let (own_guild, chat') = guild_part p chat in
    let all =
      own_guild
      ++ (normal_part p chat' chat'.normal_channels ++ private_part p chat'.private_channels) in
    (
      if not (has_private p chat'.private_channels) && p.premium then dummy_private ∷ all else all,
      chat',
    )

-- One round of the loop of Chat::removeUserFromAllChannels; `none` if the channel has been deleted.
unfoldable pub remove_user_from : Player → Pointer → Chat → Option Chat
remove_user_from p ptr chat = elim (read ptr chat) [
  | none ↦ none
  | some c ↦
      let (chat', removed) = remove_user p ptr chat in
      some (if removed && c.owner == p.guid then delete_channel p c.id chat' else chat')
]

unfoldable pub remove_user_from_each : Player → List Pointer → Chat → Option Chat
remove_user_from_each p [] chat = some chat
remove_user_from_each p (ptr ∷ rest) chat = elim (remove_user_from p ptr chat) [
  | none ↦ none
  | some chat' ↦ remove_user_from_each p rest chat'
]

-- Chat::removeUserFromAllChannels
unfoldable pub remove_user_from_all_channels : Player → Chat → Option Chat
remove_user_from_all_channels p chat =
    let (list, chat') = get_channel_list p chat in remove_user_from_each p list chat'

-- Game::playerCreatePrivateChannel
unfoldable pub player_create_private_channel : Player → Chat → Chat × Bool
player_create_private_channel p chat =
    let (chat', made) = create_channel p channel_private chat in
    elim made [ none ↦ (chat', false) | some ptr ↦ add_user p ptr chat' ]

abbrev pub add_invite : Player → ChatChannel → ChatChannel
add_invite p c =
    if contains p.guid c.invites then c else record c { invites = put_in p.guid c.invites }

-- PrivateChatChannel::invitePlayer, with addInvited
abbrev pub invite_player : Player → Player → ChatChannel → ChatChannel
invite_player p invited c = if p.id == invited.id then c else add_invite invited c

-- PrivateChatChannel::excludePlayer, with removeInvited
abbrev pub exclude_player : Player → Player → ChatChannel → ChatChannel
exclude_player p excluded c =
    if not (p.id == excluded.id) && contains excluded.guid c.invites
    then record c { invites = erase excluded.guid c.invites; users = erase excluded.id c.users }
    else c

-- Game::playerChannelInvite and Game::playerChannelExclude, with the player of the given name.
unfoldable pub player_channel_invite : Player → Option Player → Chat → Chat × Bool
player_channel_invite p other chat = elim (get_private_channel p chat) [
  | none ↦ (chat, false)
  | some ptr ↦ elim other [
    | none ↦ (chat, false)
    | some q ↦ (change ptr (invite_player p q) chat, true)
  ]
]

unfoldable pub player_channel_exclude : Player → Option Player → Chat → Chat × Bool
player_channel_exclude p other chat = elim (get_private_channel p chat) [
  | none ↦ (chat, false)
  | some ptr ↦ elim other [
    | none ↦ (chat, false)
    | some q ↦ (change ptr (exclude_player p q) chat, true)
  ]
]
