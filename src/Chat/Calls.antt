-- ===== src/Chat/Calls.antt =====
-- The calls that players make, in any order, from the start of the server on.
use jamera_server.Base.{
  ℕ, ◌≡◌, ◌⊎◌, refl, true, false, not, ◌&&◌, Option, none, some, List, [], ◌∷◌, ltb, ◌==◌, count,
  contains, contains-count, if_both, arith, Bool-cases, inl, inr, All,
}
use jamera_server.Base.Dict.{Dict, lookup}
use jamera_server.Chat.{
  Player, ChatChannel, Chat, Pointer, normal, private, guild, dummy_private, read, new_chat,
  new_channel,
}
use jamera_server.Chat.Sound.{
  Sound, Room, add_user_to_channel-Sound, remove_user_from_channel-Sound,
}
use jamera_server.Chat.Keeps.{guild_part-Sound, empty-Room}
use jamera_server.Chat.Invite.{
  player_channel_invite-Sound, player_channel_exclude-Sound, player_channel_exclude-nobody,
  player_create_private_channel-Sound,
}
use jamera_server.Chat.Leave.{clear}
use jamera_server.Chat.Listing.{
  Listing, all-Listing, dummy-Listing, guild_part-OwnGuild, with_guild, has_guild,
}
use jamera_server.Chat.Parts.{rooms_of}
use jamera_server.Chat.Rooms.{
  add_user_to_channel, remove_user_from_channel, remove_user_from_all_channels, get_channel_list,
  guild_part, has_private, player_create_private_channel, player_channel_invite,
  player_channel_exclude,
}

-- A call, by the ids of the players.
pub data Call : Type 0 where
  create : ℕ → Call
  invite : ℕ → Option ℕ → Call
  exclude : ℕ → Option ℕ → Call
  request : ℕ → Call
  open_channel : ℕ → ℕ → Call
  close_channel : ℕ → ℕ → Call
  logout : ℕ → Call

abbrev found : (ℕ → Player) → Option ℕ → Option Player
found players none = none
found players (some u) = some (players u)

abbrev pub run : (ℕ → Player) → Call → Chat → Option Chat
run players (create u) chat = some (player_create_private_channel (players u) chat).0
run players (invite u v) chat = some (player_channel_invite (players u) (found players v) chat).0
run players (exclude u v) chat = some (player_channel_exclude (players u) (found players v) chat).0
run players (request u) chat = some (get_channel_list (players u) chat).1
run players (open_channel u k) chat = some (add_user_to_channel (players u) k chat).0
run players (close_channel u k) chat = some (remove_user_from_channel (players u) k chat).0
run players (logout u) chat = remove_user_from_all_channels (players u) chat

abbrev pub runs : (ℕ → Player) → List Call → Chat → Option Chat
runs players [] chat = some chat
runs players (c ∷ cs) chat = elim (run players c chat) [
  | none ↦ none
  | some chat' ↦ runs players cs chat'
]

-- What is asked of the players: they have ids and guids of their own, and a guild has a name.
pub record Known (players : ℕ → Player) : Type 0 where
  pub id : (u : ℕ) → (players u).id ≡ u
  pub unique : (u v : ℕ) → (players u).guid ≡ (players v).guid → u ≡ v
  pub named : (u : ℕ) → ((players u).guild_id ≡ 0) ⊎ ((players u).has_guild_name ≡ true)

module _ (players : ℕ → Player) where
  pub record Left (u : ℕ) (chat : Chat) : Type 0 where
    pub after : Chat
    pub done : remove_user_from_all_channels (players u) chat ≡ some after
    pub sound : Sound players after
    pub gone :
        (ptr : Pointer) (c : ChatChannel) → read ptr after ≡ some c → contains u c.users ≡ false

  abbrev chat_list : ℕ → Chat → List Pointer × Chat
  chat_list u chat = get_channel_list (players u) chat

  module _ (known : Known players) where
    list-Listing :
        (u : ℕ) (chat : Chat)
        → Sound players chat
        → Listing players u (chat_list u chat).0 (chat_list u chat).1
    unfolding get_channel_list
    list-Listing u chat s =
        let own = guild_part-OwnGuild players u chat in
        let chat' = (guild_part (players u) chat).1 in
        let s' = guild_part-Sound players (players u) chat s in
        let rooms = all-Listing players u chat' own.there s' (known.named u) in
        rw own.list (
          if_both (λ l. Listing players u l chat')
            (not (has_private (players u) chat'.private_channels) && (players u).premium)
            (dummy_private ∷ with_guild players u (has_guild players u) (rooms_of players u chat'))
            (with_guild players u (has_guild players u) (rooms_of players u chat'))
            (dummy-Listing players u chat' own.there s' (known.named u)
              (with_guild players u (has_guild players u) (rooms_of players u chat')) rooms)
            rooms)

    pub left : (u : ℕ) (chat : Chat) → Sound players chat → Left u chat
    unfolding remove_user_from_all_channels
    left u chat s =
        let list = (chat_list u chat).0 in
        let chat' = (chat_list u chat).1 in
        let s' : Sound players chat' =
          unfold get_channel_list in guild_part-Sound players (players u) chat s in
        let l = list-Listing u chat s in
        let cl = clear players u (known.id u) list chat' l.ordered l.readable s' in
        record {
          after = cl.after;
          done = cl.done;
          sound = cl.sound;
          gone = λ ptr c e.
              let (b, eb, le) = cl.shrinks ptr c e in
              let room = s'.rooms ptr b eb in
              elim (Bool-cases (ltb 0 (count u b.users))) [
                | inl h ↦ ground (
                  arith,
                  contains-count u c.users,
                  cl.clean ptr c (l.lists ptr b room eb (room.let_in u (ground arith))) e,
                )
                | inr h ↦ ground (arith, contains-count u c.users, le u)
              ];
        }

    run-Sound :
        (c : Call) (chat : Chat)
        → Sound players chat
        → (after : Chat) × (run players c chat ≡ some after) × Sound players after
    run-Sound (create u) chat s = (
      (player_create_private_channel (players u) chat).0,
      refl,
      player_create_private_channel-Sound players u chat (known.id u) s,
    )
    run-Sound (invite u v) chat s = (
      (player_channel_invite (players u) (found players v) chat).0,
      refl,
      player_channel_invite-Sound players (players u) (found players v) chat s,
    )
    run-Sound (exclude u none) chat s = (
      (player_channel_exclude (players u) none chat).0,
      refl,
      player_channel_exclude-nobody players (players u) chat s,
    )
    run-Sound (exclude u (some v)) chat s = (
      (player_channel_exclude (players u) (some (players v)) chat).0,
      refl,
      player_channel_exclude-Sound players v (known.id v) known.unique (players u) chat s,
    )
    run-Sound (request u) chat s = (
      (get_channel_list (players u) chat).1,
      refl,
      unfold get_channel_list in guild_part-Sound players (players u) chat s,
    )
    run-Sound (open_channel u k) chat s = (
      (add_user_to_channel (players u) k chat).0,
      refl,
      add_user_to_channel-Sound players u (known.id u) k chat s,
    )
    run-Sound (close_channel u k) chat s = (
      (remove_user_from_channel (players u) k chat).0,
      refl,
      remove_user_from_channel-Sound players u (known.id u) k chat s,
    )
    run-Sound (logout u) chat s = let l = left u chat s in (l.after, l.done, l.sound)

    pub runs-Sound :
        (cs : List Call) (chat : Chat)
        → Sound players chat
        → (after : Chat) × (runs players cs chat ≡ some after) × Sound players after
    runs-Sound [] chat s = (chat, refl, s)
    runs-Sound (c ∷ cs) chat s =
        let (chat', e, s') = run-Sound c chat s in
        let (after, e', s'') = runs-Sound cs chat' s' in (after, rw (e, runs) e', s'')

  -- The channels that the chat begins with.
  abbrev Fresh : Dict ChatChannel → Type 0
  Fresh =
      All (λ entry. (entry.1 ≡ new_channel entry.0) × ((ltb 0 entry.0 && ltb entry.0 10) ≡ true))

  Fresh-Room :
      (k : ℕ) (c : ChatChannel) (m : Dict ChatChannel)
      → Fresh m
      → lookup k m ≡ some c
      → Room players (normal k) c
  unfolding lookup
  Fresh-Room k c [] f h = cc
  Fresh-Room k c (entry ∷ rest) f h = elim (Bool-cases (entry.0 == k)) [
    | inl e ↦
        let q : entry.0 ≡ k = ground arith in
        let both : some entry.1 ≡ some c = rw (e, lookup) at h in
        let made : entry.1 ≡ c = cc in
        rw (← made, f.0.0, ← q)
          (empty-Room players (normal entry.0) (new_channel entry.0) refl refl f.0.1)
    | inr e ↦ Fresh-Room k c rest f.1 (rw (e, lookup) at h)
  ]

  new_chat-Fresh : Fresh new_chat.normal_channels
  new_chat-Fresh = (
    (refl, refl),
    ((refl, refl), ((refl, refl), ((refl, refl), ((refl, refl), ((refl, refl), tt))))),
  )

  pub new_chat-Sound : Sound players new_chat
  unfolding lookup
  new_chat-Sound = record { one = tt; rooms = rooms }
    where
      rooms : (ptr : Pointer) (c : ChatChannel) → read ptr new_chat ≡ some c → Room players ptr c
      rooms (normal k) c h = Fresh-Room k c new_chat.normal_channels new_chat-Fresh h
      rooms (private k) c h = cc
      rooms (guild k) c h = cc
      rooms dummy_private c h =
          let made : new_channel 0xFFFF ≡ c = cc in
          rw (← made) (empty-Room players dummy_private (new_channel 0xFFFF) refl refl refl)
