-- ===== src/Chat/Listing.antt =====
-- The list of Chat::getChannelList has every channel with the player among its users.
use jamera_server.Base.{
  ℕ, ◌<◌, ◌≡◌, ◌⊎◌, refl, ◌∙◌, ap, Bool, true, false, not, ◌&&◌, none, some, List, [], ◌∷◌, ◌++◌,
  ◌==◌, if◌then◌else◌, arith, Bool-cases, Option-cases, inl, inr, All,
}
use jamera_server.Base.Dict.{lookup, lookup-emplace}
use jamera_server.Chat.{
  Player, ChatChannel, Chat, Pointer, normal, private, guild, dummy_private, read, is_admitted,
  get_channel, create_channel, create_guild_channel, channel_guild, channel_private, new_channel,
}
use jamera_server.Chat.Sound.{Sound, Room, lets, is_key}
use jamera_server.Chat.Logout.{Readable, later}
use jamera_server.Chat.Leave.{listed, Ordered, listed-append}
use jamera_server.Chat.Rooms.{guild_part, normal_part, private_part, is_some}
use jamera_server.Chat.Parts.{
  normal_part-listed, private_part-listed, normal_part-Ordered, rooms_of-later, rooms_of-Readable,
  rooms_of,
}

module _ (players : ℕ → Player) (u : ℕ) where
  abbrev p : Player
  p = players u

  -- The channel of the player's guild is made, if there is none.
  abbrev pub has_guild : Bool
  has_guild = not (p.guild_id == 0) && p.has_guild_name

  pub record OwnGuild (chat : Chat) : Type 0 where
    pub list : (guild_part p chat).0 ≡ (if has_guild then guild p.guild_id ∷ [] else [])
    pub there : has_guild ≡ true → Readable (guild_part p chat).1 (guild p.guild_id)

  no_guild :
      (chat : Chat)
      → lookup p.guild_id chat.guild_channels ≡ none
      → get_channel p channel_guild chat ≡ none
  unfolding get_channel
  no_guild chat n = rw (n, get_channel) refl

  create_guild :
      (chat : Chat)
      → lookup p.guild_id chat.guild_channels ≡ none
      → create_channel p channel_guild chat ≡ create_guild_channel p chat
  unfolding create_channel
  create_guild chat n = rw (no_guild chat n, create_channel) refl

  guild_part-made :
      (chat : Chat)
      → has_guild ≡ true
      → lookup p.guild_id chat.guild_channels ≡ none
      → guild_part p chat ≡ (guild p.guild_id ∷ [], (create_guild_channel p chat).0)
  unfolding guild_part create_guild_channel
  guild_part-made chat e n =
      let q = create_guild chat n in
      rw e (
        rw (no_guild chat n, guild_part)
          (rw (ap (λ r. r.1) q, guild_part) (rw (ap (λ r. r.0) q) refl)))

  guild_part-found :
      (chat : Chat) (c : ChatChannel)
      → has_guild ≡ true
      → lookup p.guild_id chat.guild_channels ≡ some c
      → guild_part p chat ≡ (guild p.guild_id ∷ [], chat)
  unfolding guild_part get_channel
  guild_part-found chat c e n = rw e (rw (n, guild_part, get_channel) refl)

  made-Readable : (chat : Chat) → Readable (create_guild_channel p chat).0 (guild p.guild_id)
  unfolding create_guild_channel
  made-Readable chat =
      let self : (p.guild_id == p.guild_id) ≡ true = ground arith in
      (
        new_channel channel_guild,
        lookup-emplace p.guild_id p.guild_id (new_channel channel_guild) chat.guild_channels
            ∙ rw self refl,
      )

  pub guild_part-OwnGuild : (chat : Chat) → OwnGuild chat
  guild_part-OwnGuild chat = elim (Bool-cases has_guild) [
    | inr e ↦ record { list = unfold guild_part in (rw e refl); there = λ h. absurd (ground arith) }
    | inl e ↦ elim (Option-cases (lookup p.guild_id chat.guild_channels)) [
      | inl n ↦
          let q = guild_part-made chat e n in
          record { list = ap (λ r. r.0) q ∙ rw e refl; there = λ h. rw q (made-Readable chat) }
      | inr (c, n) ↦
          let q = guild_part-found chat c e n in
          record { list = ap (λ r. r.0) q ∙ rw e refl; there = λ h. rw q (c, n) }
    ]
  ]

  -- What the loop gets.
  pub record Listing (list : List Pointer) (chat : Chat) : Type 0 where
    pub ordered : Ordered list
    pub readable : All (Readable chat) list
    pub lists :
        (ptr : Pointer) (c : ChatChannel)
        → Room players ptr c
        → read ptr chat ≡ some c
        → lets p ptr c ≡ true
        → listed ptr list ≡ true

  abbrev pub with_guild : Bool → List Pointer → List Pointer
  with_guild b l = (if b then guild p.guild_id ∷ [] else []) ++ l

  module _ (chat : Chat) (own : has_guild ≡ true → Readable chat (guild p.guild_id))
      (s : Sound players chat) (named : (p.guild_id ≡ 0) ⊎ (p.has_guild_name ≡ true)) where
    in_rooms :
        (ptr : Pointer)
        → listed ptr (rooms_of players u chat) ≡ true
        → listed ptr (with_guild has_guild (rooms_of players u chat)) ≡ true
    in_rooms ptr h = elim (Bool-cases has_guild) [
      | inl e ↦ rw e (ground (arith, h))
      | inr e ↦ rw e h
    ]

    gets :
        (k : ℕ) (c : ChatChannel)
        → 0 < k
        → lookup k chat.normal_channels ≡ some c
        → is_admitted p k ≡ true
        → is_some (get_channel p k chat) ≡ true
    unfolding get_channel
    gets k c pos e l =
        let other : (k == channel_guild) ≡ false = ground arith in
        rw other (rw (e, get_channel) (rw l refl))

    All-later : (l : List Pointer) → All (λ q. later dummy_private q ≡ true) l
    All-later [] = tt
    All-later (q ∷ l) = (refl, All-later l)

    rooms_of-lists :
        (ptr : Pointer) (c : ChatChannel)
        → is_key ptr ≡ true
        → read ptr chat ≡ some c
        → lets p ptr c ≡ true
        → listed ptr (with_guild has_guild (rooms_of players u chat)) ≡ true
    rooms_of-lists (normal k) c key e l = in_rooms (normal k) (
        listed-append (normal k) (normal_part p chat chat.normal_channels)
          (private_part p chat.private_channels)
        ∙ rw
            (normal_part-listed players u chat k chat.normal_channels c e
              (gets k c (ground arith) e l))
            refl)
    rooms_of-lists (private k) c key e l = in_rooms (private k) (
        listed-append (private k) (normal_part p chat chat.normal_channels)
          (private_part p chat.private_channels)
        ∙ ground (arith, private_part-listed players u k chat.private_channels c e l))
    rooms_of-lists (guild k) c key e l =
        let here : has_guild ≡ true = ground (arith, named) in rw here (rw l refl)
    rooms_of-lists dummy_private c key e l = cc

    pub all-Listing : Listing (with_guild has_guild (rooms_of players u chat)) chat
    all-Listing = record {
      ordered = elim (Bool-cases has_guild) [
        | inl e ↦ rw e (
          rooms_of-later players u (guild p.guild_id) (λ k. refl) chat,
          normal_part-Ordered players u chat chat.normal_channels chat.private_channels s.one,
        )
        | inr e ↦
            rw e
              (normal_part-Ordered players u chat chat.normal_channels chat.private_channels s.one)
      ];
      readable = elim (Bool-cases has_guild) [
        | inl e ↦ rw e (own e, rooms_of-Readable players u chat)
        | inr e ↦ rw e (rooms_of-Readable players u chat)
      ];
      lists = λ ptr c r e l. rooms_of-lists ptr c r.key e l;
    }

    pub dummy-Listing : (l : List Pointer) → Listing l chat → Listing (dummy_private ∷ l) chat
    dummy-Listing l h = record {
      ordered = (All-later l, h.ordered);
      readable = ((new_channel channel_private, refl), h.readable);
      lists = λ ptr c r e a. rw (h.lists ptr c r e a) refl;
    }
