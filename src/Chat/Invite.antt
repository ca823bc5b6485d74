-- ===== src/Chat/Invite.antt =====
-- The calls on a private channel: to create it, to invite and to exclude.
use jamera_server.Base.{
  ℕ, ◌≡◌, ◌≢◌, refl, ◌∙◌, ap, Bool, true, false, not, ◌&&◌, Option, none, some, [], ◌∷◌, ◌==◌,
  contains, erase, count-erase, if◌then◌else◌, if_both, arith, Bool-cases, Option-cases, inl, inr,
  is_empty,
}
use mathlib.Core.Path.{subst}
use jamera_server.Base.Dict.{lookup, adjust}
use jamera_server.Chat.{
  Player, ChatChannel, Chat, Pointer, normal, private, get_channel, get_private_channel,
  create_channel, create_own_channel, own_channel, channel_private,
}
use jamera_server.Chat.Private.{create_own_channel_lem, with_first}
use jamera_server.Chat.Sound.{Sound, Room, change-Sound, add_user-Sound}
use jamera_server.Chat.Keeps.{add_invite-lets, exclude-lets, with_first-Sound}
use jamera_server.Chat.Rooms.{
  add_user, add_to, player_create_private_channel, player_channel_invite, player_channel_exclude,
  invite_player, exclude_player, add_invite,
}

-- The chat with the private channel of a player.
abbrev pub created : Player → Chat → Chat
created p chat = record chat { private_channels = (100, add_to p (own_channel p 100)) ∷ [] }

module _ (players : ℕ → Player) where
  add_invite-Room :
      (q : Player) (ptr : Pointer) (c : ChatChannel)
      → Room players ptr c
      → Room players ptr (add_invite q c)
  add_invite-Room q ptr c r = record {
    id = ground (arith, r.id);
    key = r.key;
    once = λ v. ground (arith, r.once v);
    let_in = λ v h. add_invite-lets players (players v) q ptr c (r.let_in v (ground (arith, h)));
  }

  invite_player-Room :
      (p q : Player) (ptr : Pointer) (c : ChatChannel)
      → Room players ptr c
      → Room players ptr (invite_player p q c)
  invite_player-Room p q ptr c r =
      if_both (Room players ptr) (p.id == q.id) c (add_invite q c) r (add_invite-Room q ptr c r)

  pub player_channel_invite-Sound :
      (p : Player) (q : Option Player) (chat : Chat)
      → Sound players chat
      → Sound players (player_channel_invite p q chat).0
  unfolding player_channel_invite
  player_channel_invite-Sound p q chat s = elim (Option-cases (get_private_channel p chat)) [
    | inl e ↦ rw (e, player_channel_invite) s
    | inr (ptr, e) ↦
        rw (e, player_channel_invite)
          (elim (Option-cases q) [
            | inl n ↦ rw (n, player_channel_invite) s
            | inr (r, n) ↦
                rw (n, player_channel_invite)
                  (change-Sound players ptr (invite_player p r) chat
                    (λ c h room. invite_player-Room p r ptr c room) s)
          ])
  ]

  module _ (w : ℕ) (id : (players w).id ≡ w)
      (unique : (u v : ℕ) → (players u).guid ≡ (players v).guid → u ≡ v) where
    exclude-Room :
        (ptr : Pointer) (c : ChatChannel)
        → Room players ptr c
        → Room players ptr (record c {
          invites = erase (players w).guid c.invites;
          users = erase (players w).id c.users;
        })
    exclude-Room ptr c r = record {
      id = r.id;
      key = r.key;
      once = λ v. ground (arith, r.once v, count-erase (players w).id v c.users);
      let_in = λ v h.
          let left : v ≢ w = ground (arith, r.once v, count-erase (players w).id v c.users) in
          exclude-lets players (players v) (players w) ptr c (λ e. left (unique v w e))
            (r.let_in v (ground (arith, count-erase (players w).id v c.users)));
    }

    exclude_player-Room :
        (p : Player) (ptr : Pointer) (c : ChatChannel)
        → Room players ptr c
        → Room players ptr (exclude_player p (players w) c)
    exclude_player-Room p ptr c r =
        if_both (Room players ptr)
          (not (p.id == (players w).id) && contains (players w).guid c.invites)
          (record c {
            invites = erase (players w).guid c.invites;
            users = erase (players w).id c.users;
          })
          c (exclude-Room ptr c r) r

    pub player_channel_exclude-Sound :
        (p : Player) (chat : Chat)
        → Sound players chat
        → Sound players (player_channel_exclude p (some (players w)) chat).0
    unfolding player_channel_exclude
    player_channel_exclude-Sound p chat s = elim (Option-cases (get_private_channel p chat)) [
      | inl e ↦ rw (e, player_channel_exclude) s
      | inr (ptr, e) ↦
          rw (e, player_channel_exclude)
            (change-Sound players ptr (exclude_player p (players w)) chat
              (λ c h room. exclude_player-Room p ptr c room) s)
    ]

  pub player_channel_exclude-nobody :
      (p : Player) (chat : Chat)
      → Sound players chat
      → Sound players (player_channel_exclude p none chat).0
  unfolding player_channel_exclude
  player_channel_exclude-nobody p chat s = elim (Option-cases (get_private_channel p chat)) [
    | inl e ↦ rw (e, player_channel_exclude) s
    | inr (ptr, e) ↦ rw (e, player_channel_exclude) s
  ]

  -- No channel has the id CHANNEL_PRIVATE.
  get_channel-private :
      (p : Player) (chat : Chat) → Sound players chat → get_channel p channel_private chat ≡ none
  unfolding get_channel
  get_channel-private p chat s = elim (Option-cases (lookup channel_private chat.normal_channels)) [
    | inr (c, e) ↦ let bad = (s.rooms (normal channel_private) c e).key in cc
    | inl n ↦
        rw (n, get_channel)
          (elim (Option-cases (lookup channel_private chat.private_channels)) [
            | inl e ↦ rw (e, get_channel) refl
            | inr (c, e) ↦ let bad = (s.rooms (private channel_private) c e).key in cc
          ])
  ]

  create_private-eq :
      (p : Player) (chat : Chat)
      → Sound players chat
      → create_channel p channel_private chat ≡ create_own_channel p chat
  unfolding create_channel
  create_private-eq p chat s = rw (get_channel-private p chat s, create_channel) refl

  add_user-first :
      (p : Player) (chat : Chat)
      → add_user p (private 100) (with_first p chat) ≡ (created p chat, true)
  unfolding add_user lookup adjust
  add_user-first p chat = refl

  pub player_create_private_channel_lem :
      (p : Player) (chat : Chat)
      → Sound players chat
      → player_create_private_channel p chat ≡ (
          if p.premium && is_empty chat.private_channels
          then (created p chat, true)
          else (chat, false))
  unfolding player_create_private_channel
  player_create_private_channel_lem p chat s =
      let made = create_private-eq p chat s ∙ create_own_channel_lem p chat in
      elim (Bool-cases (p.premium && is_empty chat.private_channels)) [
        | inl e ↦
            let q : create_channel p channel_private chat
                ≡ (with_first p chat, some (private 100)) =
              made ∙ rw e refl in
            rw (ap (λ r. r.1) q, player_create_private_channel)
              (rw (ap (λ r. r.0) q) (add_user-first p chat ∙ rw e refl))
        | inr e ↦
            let q : create_channel p channel_private chat ≡ (chat, none) = made ∙ rw e refl in
            rw (ap (λ r. r.1) q, player_create_private_channel) (rw (ap (λ r. r.0) q) (rw e refl))
      ]

  pub player_create_private_channel-Sound :
      (u : ℕ) (chat : Chat)
      → (players u).id ≡ u
      → Sound players chat
      → Sound players (player_create_private_channel (players u) chat).0
  unfolding lookup
  player_create_private_channel-Sound u chat id s =
      let p = players u in
      rw (player_create_private_channel_lem p chat s) (
        if_both (λ (r : Chat × Bool). Sound players r.0)
          (p.premium && is_empty chat.private_channels) (created p chat, true) (chat, false)
          (subst (λ (r : Chat × Bool). Sound players r.0) (add_user-first p chat)
            (add_user-Sound players u id (private 100) (with_first p chat) (own_channel p 100) refl
              (ground arith) (with_first-Sound players p chat s)))
          s)
