-- ===== src/Chat/Talk.antt =====
-- Chat::talkToChannel and ChatChannel::talk.
use jamera_server.Base.{
  ℕ, ◌≡◌, ◌≤◌, ◌<◌, ◌⊎◌, refl, Bool, true, false, not, ◌&&◌, ◌||◌, Option, none, some, List,
  contains, ltb, ◌==◌, if◌then◌else◌, arith, Option-cases, Bool-cases, inl, inr,
}
use jamera_server.Chat.{
  Player, ChatChannel, Chat, Pointer, read, get_channel, channel_game_chat, channel_trade,
  channel_rl_chat, channel_help, channel_trade_rook,
}
use jamera_server.Chat.Sound.{lets, get_channel-lets}

-- The SpeakClasses that talkToChannel names.
abbrev pub speak_channel_y : ℕ
speak_channel_y = 5

abbrev pub speak_channel_o : ℕ
speak_channel_o = 12

-- What comes of it: the answer false; a sendCancel for the player; or the text goes to the users as
-- of a type, and the player gets CONDITION_TRADE_MUTED or not.
pub data Talk : Type 0 where
  refused : Talk
  cancelled : Talk
  said : List ℕ → ℕ → Bool → Talk

-- ChatChannel::talk
abbrev pub talk : Player → ℕ → ChatChannel → Talk
talk p type c =
    if contains p.id c.users
    then said c.users type
        (c.id == channel_trade || c.id == channel_trade_rook || c.id == channel_help)
    else refused

abbrev orange : Player → ℕ → ℕ → ℕ
orange p k type =
    if k == channel_help && type == speak_channel_y && p.talk_orange_help_channel
    then speak_channel_o
    else type

abbrev pub is_guarded : ℕ → Bool
is_guarded k =
    k == channel_trade || k == channel_trade_rook || k == channel_rl_chat || k == channel_game_chat

abbrev pub is_trade : ℕ → Bool
is_trade k = k == channel_trade || k == channel_trade_rook

abbrev is_held : Player → ℕ → Bool
is_held p k =
    is_guarded k && not p.cannot_be_muted && (ltb p.level 2 || is_trade k && p.trade_muted)

abbrev talk_in : Player → ℕ → ℕ → Option ChatChannel → Talk
talk_in p k type none = refused
talk_in p k type (some c) = if is_held p k then cancelled else talk p (orange p k type) c

-- Chat::talkToChannel, of a text of a length.
unfoldable pub talk_to_channel : Player → ℕ → ℕ → ℕ → Chat → Talk
talk_to_channel p type length k chat = elim (get_channel p k chat) [
  | none ↦ refused
  | some ptr ↦ if ltb length 1 then refused else talk_in p k type (read ptr chat)
]

-- What is known of each answer to a text of a length.
abbrev pub Heard : Player → ℕ → ℕ → Chat → Talk → Type 0
Heard p length k chat refused =
    (get_channel p k chat ≡ none)
    ⊎ (length ≡ 0)
    ⊎ ((ptr : Pointer) × (c : ChatChannel) × (get_channel p k chat ≡ some ptr)
        × (read ptr chat ≡ some c)
        × (contains p.id c.users ≡ false))
Heard p length k chat cancelled =
    (ptr : Pointer) × (get_channel p k chat ≡ some ptr)
    × (1 ≤ length)
    × (p.cannot_be_muted ≡ false)
    × (is_guarded k ≡ true)
    × ((p.level < 2) ⊎ ((is_trade k && p.trade_muted) ≡ true))
Heard p length k chat (said users type muted) =
    (ptr : Pointer) × (c : ChatChannel) × (get_channel p k chat ≡ some ptr)
    × (read ptr chat ≡ some c)
    × (lets p ptr c ≡ true)
    × (1 ≤ length)
    × (users ≡ c.users)
    × (contains p.id c.users ≡ true)
    × ((p.cannot_be_muted ≡ true)
        ⊎ (is_guarded k ≡ false)
        ⊎ (2 ≤ p.level) × ((is_trade k && p.trade_muted) ≡ false))

-- What a player says is refused only if getChannel gives him no channel for the id, if the text is
-- empty, or if he is not among the users of that channel. It is held back with a message only in
-- the trade, the game and the RL channels, from a player who can be muted and who has a level
-- below 2 or is muted in a trade channel. Otherwise the text is not empty, and it is heard by the
-- users of the channel that getChannel gives for the id, all of them and no other; that channel
-- lets him in, he is one of them, and nothing was there to hold it back.
pub talk_to_channel-Heard :
    (p : Player) (type length k : ℕ) (chat : Chat)
    → Heard p length k chat (talk_to_channel p type length k chat)
unfolding talk_to_channel
talk_to_channel-Heard p type length k chat = elim (Option-cases (get_channel p k chat)) [
  | inl e ↦ rw (e, talk_to_channel) (inl e)
  | inr (ptr, e) ↦
      let (c, there, ok) = get_channel-lets p k chat ptr e in
      rw (e, talk_to_channel)
        (elim (Bool-cases (ltb length 1)) [
          | inl short ↦ rw short (inr (inl (ground arith)))
          | inr long ↦
              let some_text : 1 ≤ length = ground arith in
              rw long (
                rw (there, talk_in)
                  (elim (Bool-cases (is_held p k)) [
                    | inl held ↦
                        rw held (ptr, e, some_text, ground arith, ground arith, ground arith)
                    | inr free ↦ rw free (elim (Bool-cases (contains p.id c.users)) [
                      | inl user ↦
                          rw user (ptr, c, e, there, ok, some_text, refl, user, ground arith)
                      | inr absent ↦ rw absent (inr (inr (ptr, c, e, there, absent)))
                    ])
                  ]))
        ])
]
