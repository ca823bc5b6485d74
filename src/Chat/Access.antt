-- ===== src/Chat/Access.antt =====
-- Who is among the users of a channel.
use jamera_server.Base.{
  ℕ, ◌≤◌, ◌≡◌, true, false, ◌&&◌, Option, none, some, List, [], ◌∷◌, ◌++◌, contains, contains-count,
  length, is_empty, if◌then◌else◌, arith, refl, ◌∙◌, Option-cases, inl, inr,
}
use jamera_server.Chat.{Player, ChatChannel, Chat, Pointer, read, new_chat}
use jamera_server.Chat.Sound.{lets, AtMostOne}
use jamera_server.Chat.Invite.{created, player_create_private_channel_lem}
use jamera_server.Chat.Calls.{Call, logout, run, runs, Known, left, runs-Sound, new_chat-Sound}
use jamera_server.Chat.Rooms.{player_create_private_channel}
use jamera_server.Base.Dict.{Dict}

runs-append :
    (players : ℕ → Player) (cs ds : List Call) (chat chat' : Chat)
    → runs players cs chat ≡ some chat'
    → runs players (cs ++ ds) chat ≡ runs players ds chat'
runs-append players [] ds chat chat' h = let p : chat ≡ chat' = cc in rw p
runs-append players (c ∷ cs) ds chat chat' h = elim (Option-cases (run players c chat)) [
  | inl e ↦ let bad : ◌≡◌ {A = Option Chat} none (some chat') = rw (e, runs) at h in cc
  | inr (chat'', e) ↦ rw (e, runs) (runs-append players cs ds chat'' chat' (rw (e, runs) at h))
]

length_one : (m : Dict ChatChannel) → AtMostOne m → length m ≤ 1
length_one [] h = omega arith
length_one (entry ∷ []) h = omega arith
length_one (entry ∷ next ∷ rest) h = absurd h

-- Whatever players do with channels in any order, from the start of the server on, as long as what
-- a channel asks of a player stays the same: all calls come to their end, and the users of a
-- channel are players whom it lets in. Each player has an id and a guid of his own, so that no
-- character is logged in twice, and a player in a guild has the name of it.
pub runs-let_in :
    (players : ℕ → Player) (cs : List Call)
    → Known players
    → (chat : Chat) × (runs players cs new_chat ≡ some chat)
      × ((ptr : Pointer) (c : ChatChannel) (v : ℕ)
          → read ptr chat ≡ some c
          → contains v c.users ≡ true
          → lets (players v) ptr c ≡ true)
runs-let_in players cs known =
    let (chat, done, s) = runs-Sound players known cs new_chat (new_chat-Sound players) in
    (
      chat,
      done,
      λ ptr c v e h. (s.rooms ptr c e).let_in v (ground (arith, contains-count v c.users)),
    )

-- When a player logs out after any such calls, removeUserFromAllChannels reads no channel that has
-- been deleted, and no channel has him among its users then. Each player has an id and a guid of
-- his own, so that no character is logged in twice, and a player in a guild has the name of it.
pub runs-logout :
    (players : ℕ → Player) (cs : List Call) (u : ℕ)
    → Known players
    → (after : Chat) × (runs players (cs ++ logout u ∷ []) new_chat ≡ some after)
      × ((ptr : Pointer) (c : ChatChannel) → read ptr after ≡ some c → contains u c.users ≡ false)
runs-logout players cs u known =
    let (chat, done, s) = runs-Sound players known cs new_chat (new_chat-Sound players) in
    let l = left players known u chat s in
    (
      l.after,
      runs-append players cs (logout u ∷ []) new_chat chat done ∙ rw (l.done, runs) refl,
      l.gone,
    )

-- After any such calls there is at most one private channel on the whole server, and a player who
-- asks for one gets it exactly if he is premium and nobody has one: getPrivateChannel answers with
-- the channel of another player where he has none.
pub runs-one_private :
    (players : ℕ → Player) (cs : List Call)
    → Known players
    → (chat : Chat) × (runs players cs new_chat ≡ some chat)
      × (length chat.private_channels ≤ 1)
      × ((p : Player)
          → player_create_private_channel p chat ≡ (
              if p.premium && is_empty chat.private_channels
              then (created p chat, true)
              else (chat, false)))
runs-one_private players cs known =
    let (chat, done, s) = runs-Sound players known cs new_chat (new_chat-Sound players) in
    (
      chat,
      done,
      length_one chat.private_channels s.one,
      λ p. player_create_private_channel_lem players p chat s,
    )
