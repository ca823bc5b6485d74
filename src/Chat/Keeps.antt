-- ===== src/Chat/Keeps.antt =====
-- New channels, invitations and exclusions keep what users have been let in by.
use jamera_server.Base.{
  ℕ, ◌<◌, ◌≡◌, ◌≢◌, refl, sym, ◌∙◌, true, not, ◌&&◌, Option, none, some, [], ◌∷◌, ◌==◌, count,
  erase, contains-count, count-erase, count-put_in, put_in, if◌then◌else◌, if_both, arith,
  Bool-cases, Option-cases, inl, inr, is_empty,
}
use mathlib.Core.Path.{subst}
use jamera_server.Base.Dict.{lookup, emplace, lookup-emplace}
use jamera_server.Chat.{
  Player, ChatChannel, Chat, Pointer, normal, private, guild, dummy_private, read, new_channel,
  own_channel, get_channel, create_channel, create_guild_channel, create_own_channel, channel_guild,
  channel_private,
}
use jamera_server.Chat.Private.{create_own_channel_lem, with_first}
use jamera_server.Chat.Sound.{Sound, Room, lets, id_of, is_key}
use jamera_server.Chat.Rooms.{guild_part, add_invite}

module _ (players : ℕ → Player) where
  pub empty-Room :
      (ptr : Pointer) (c : ChatChannel)
      → c.users ≡ []
      → c.id ≡ id_of ptr
      → is_key ptr ≡ true
      → Room players ptr c
  empty-Room ptr c e id key = record {
    id = id;
    key = key;
    once = λ u. rw e (omega arith);
    let_in =
        λ u h. let bad : 0 < count u [] = subst (λ l. 0 < count u l) e h in absurd (omega arith);
  }

  own_channel-Room :
      (p : Player) (k : ℕ) (c : ChatChannel)
      → lookup k ((100, own_channel p 100) ∷ []) ≡ some c
      → Room players (private k) c
  unfolding lookup
  own_channel-Room p k c h = elim (Bool-cases (100 == k)) [
    | inl e ↦
        let same : some (own_channel p 100) ≡ some c = rw (e, lookup) at h in
        let made : own_channel p 100 ≡ c = cc in
        let there : 100 ≡ k = ground arith in
        rw (← made, ← there) (empty-Room (private 100) (own_channel p 100) refl refl refl)
    | inr e ↦ ground (arith, h, e)
  ]

  pub with_first-Sound :
      (p : Player) (chat : Chat) → Sound players chat → Sound players (with_first p chat)
  with_first-Sound p chat s = record { one = tt; rooms = rooms }
    where
      rooms :
          (ptr : Pointer) (c : ChatChannel)
          → read ptr (with_first p chat) ≡ some c
          → Room players ptr c
      rooms (normal k) c h = s.rooms (normal k) c h
      rooms (guild k) c h = s.rooms (guild k) c h
      rooms dummy_private c h = s.rooms dummy_private c h
      rooms (private k) c h = own_channel-Room p k c h

  create_own_channel-Sound :
      (p : Player) (chat : Chat) → Sound players chat → Sound players (create_own_channel p chat).0
  create_own_channel-Sound p chat s = rw (create_own_channel_lem p chat) (
      if_both (λ (r : Chat × Option Pointer). Sound players r.0)
        (p.premium && is_empty chat.private_channels) (with_first p chat, some (private 100))
        (chat, none) (with_first-Sound p chat s) s)

  new_guild-Room :
      (p : Player) (chat : Chat) (k : ℕ) (c : ChatChannel)
      → 0 < p.guild_id
      → Sound players chat
      → lookup k (emplace p.guild_id (new_channel channel_guild) chat.guild_channels) ≡ some c
      → Room players (guild k) c
  new_guild-Room p chat k c h s e =
      let e' : (if p.guild_id == k
            then some (new_channel channel_guild)
            else lookup k chat.guild_channels)
          ≡ some c =
        sym (lookup-emplace p.guild_id k (new_channel channel_guild) chat.guild_channels) ∙ e in
      elim (Bool-cases (p.guild_id == k)) [
        | inl q ↦
            let same : some (new_channel channel_guild) ≡ some c = rw q at e' in
            let made : new_channel channel_guild ≡ c = cc in
            rw (← made) (empty-Room (guild k) (new_channel channel_guild) refl refl (ground arith))
        | inr q ↦ s.rooms (guild k) c (rw q at e')
      ]

  create_guild_channel-Sound :
      (p : Player) (chat : Chat)
      → 0 < p.guild_id
      → Sound players chat
      → Sound players (create_guild_channel p chat).0
  unfolding create_guild_channel
  create_guild_channel-Sound p chat h s = record { one = s.one; rooms = rooms }
    where
      rooms :
          (ptr : Pointer) (c : ChatChannel)
          → read ptr (create_guild_channel p chat).0 ≡ some c
          → Room players ptr c
      rooms (normal k) c e = s.rooms (normal k) c e
      rooms (private k) c e = s.rooms (private k) c e
      rooms dummy_private c e = s.rooms dummy_private c e
      rooms (guild k) c e = new_guild-Room p chat k c h s e

  -- The ways to createChannel: with CHANNEL_PRIVATE, and with CHANNEL_GUILD for a player of a guild.
  pub create_private-Sound :
      (p : Player) (chat : Chat)
      → Sound players chat
      → Sound players (create_channel p channel_private chat).0
  unfolding create_channel
  create_private-Sound p chat s = elim (Option-cases (get_channel p channel_private chat)) [
    | inl e ↦ rw (e, create_channel) (create_own_channel-Sound p chat s)
    | inr (ptr, e) ↦ rw (e, create_channel) s
  ]

  create_guild-Sound :
      (p : Player) (chat : Chat)
      → 0 < p.guild_id
      → Sound players chat
      → Sound players (create_channel p channel_guild chat).0
  unfolding create_channel
  create_guild-Sound p chat h s = elim (Option-cases (get_channel p channel_guild chat)) [
    | inl e ↦ rw (e, create_channel) (create_guild_channel-Sound p chat h s)
    | inr (ptr, e) ↦ rw (e, create_channel) s
  ]

  pub guild_part-Sound :
      (p : Player) (chat : Chat) → Sound players chat → Sound players (guild_part p chat).1
  unfolding guild_part
  guild_part-Sound p chat s = elim (Bool-cases (not (p.guild_id == 0) && p.has_guild_name)) [
    | inr e ↦ rw e s
    | inl e ↦ rw e (elim (Option-cases (get_channel p channel_guild chat)) [
      | inr (ptr, g) ↦ rw (g, guild_part) s
      | inl g ↦
          let made = create_guild-Sound p chat (ground arith) s in
          rw (g, guild_part)
            (elim (Option-cases (create_channel p channel_guild chat).1) [
              | inl n ↦ rw (n, guild_part) made
              | inr (ptr, n) ↦ rw (n, guild_part) made
            ])
    ])
  ]

  -- An invitation keeps everybody in, and an exclusion all but the one who is excluded.
  pub add_invite-lets :
      (p q : Player) (ptr : Pointer) (c : ChatChannel)
      → lets p ptr c ≡ true
      → lets p ptr (add_invite q c) ≡ true
  add_invite-lets p q (normal k) c h = h
  add_invite-lets p q (guild k) c h = h
  add_invite-lets p q dummy_private c h = h
  add_invite-lets p q (private k) c h = ground (
    arith,
    contains-count p.guid c.invites,
    contains-count p.guid (put_in q.guid c.invites),
    count-put_in q.guid p.guid c.invites,
  )

  pub exclude-lets :
      (p q : Player) (ptr : Pointer) (c : ChatChannel)
      → p.guid ≢ q.guid
      → lets p ptr c ≡ true
      → lets p ptr (record c { invites = erase q.guid c.invites; users = erase q.id c.users })
        ≡ true
  exclude-lets p q (normal k) c d h = h
  exclude-lets p q (guild k) c d h = h
  exclude-lets p q dummy_private c d h = h
  exclude-lets p q (private k) c d h = ground (
    arith,
    contains-count p.guid c.invites,
    contains-count p.guid (erase q.guid c.invites),
    count-erase q.guid p.guid c.invites,
  )
