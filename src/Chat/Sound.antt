-- ===== src/Chat/Sound.antt =====
-- The users of a channel are players whom the channel lets in, whatever is called.
use jamera_server.Base.{
  ℕ, ◌≤◌, ◌<◌, ◌≡◌, refl, sym, ◌∙◌, ap, Bool, true, false, not, ◌&&◌, Option, none, some, List, [],
  ◌∷◌, ltb, ◌==◌, count, contains, erase, contains-count, count-erase, count-put_in, put_in,
  if_both, arith, Bool-cases, Option-cases, inl, inr,
}
use mathlib.Core.Path.{subst}
use jamera_server.Base.Dict
use jamera_server.Base.Dict.{Dict, lookup, adjust, emplace, lookup-emplace}
use jamera_server.Chat.{
  Player, ChatChannel, Chat, Pointer, normal, private, guild, dummy_private, read, change,
  is_admitted, is_invited, delete_channel, get_channel, channel_guild,
}
use jamera_server.Chat.Pointers.{same, same-eq, change-before, delete_channel-before}
use jamera_server.Chat.Rooms.{
  add_user, remove_user, add_to, take_from, add_user_to_channel, remove_user_from_channel,
  close_own, owner_of, asks_again, is_some,
}

-- Whether a channel lets a player in.
abbrev pub lets : Player → Pointer → ChatChannel → Bool
lets p (normal k) c = is_admitted p k
lets p (private k) c = is_invited p c
lets p (guild k) c = p.guild_id == k
lets p dummy_private c = false

pub lets-users :
    (p : Player) (ptr : Pointer) (c : ChatChannel) (us : List ℕ)
    → lets p ptr (record c { users = us }) ≡ lets p ptr c
lets-users p (normal k) c us = refl
lets-users p (private k) c us = refl
lets-users p (guild k) c us = refl
lets-users p dummy_private c us = refl

abbrev LetsIn : Player → Chat → Option Pointer → Type 0
LetsIn p chat none = Unit
LetsIn p chat (some ptr) = (c : ChatChannel) × (read ptr chat ≡ some c) × (lets p ptr c ≡ true)

get_channel-LetsIn : (p : Player) (k : ℕ) (chat : Chat) → LetsIn p chat (get_channel p k chat)
unfolding get_channel
get_channel-LetsIn p k chat = elim (Bool-cases (k == channel_guild)) [
  | inl g ↦ rw g (elim (Option-cases (lookup p.guild_id chat.guild_channels)) [
    | inl e ↦ rw (e, get_channel) tt
    | inr (c, e) ↦ rw (e, get_channel) (c, e, ground arith)
  ])
  | inr g ↦ rw g (elim (Option-cases (lookup k chat.normal_channels)) [
    | inr (c, e) ↦
        rw (e, get_channel)
          (elim (Bool-cases (is_admitted p k)) [ inl a ↦ rw a (c, e, a) | inr a ↦ rw a tt ])
    | inl n ↦
        rw (n, get_channel)
          (elim (Option-cases (lookup k chat.private_channels)) [
            | inl e ↦ rw (e, get_channel) tt
            | inr (c, e) ↦
                rw (e, get_channel)
                  (elim (Bool-cases (is_invited p c)) [ inl a ↦ rw a (c, e, a) | inr a ↦ rw a tt ])
          ])
  ])
]

-- The channel that getChannel answers with lets the player in.
pub get_channel-lets :
    (p : Player) (k : ℕ) (chat : Chat) (ptr : Pointer)
    → get_channel p k chat ≡ some ptr
    → (c : ChatChannel) × (read ptr chat ≡ some c) × (lets p ptr c ≡ true)
get_channel-lets p k chat ptr h = subst (LetsIn p chat) h (get_channel-LetsIn p k chat)

-- The id of the channel of a pointer, and the keys that there are.
abbrev pub id_of : Pointer → ℕ
id_of (normal k) = k
id_of (private k) = k
id_of (guild k) = 0
id_of dummy_private = 0xFFFF

abbrev pub is_key : Pointer → Bool
is_key (normal k) = ltb 0 k && ltb k 10
is_key (private k) = k == 100
is_key (guild k) = ltb 0 k
is_key dummy_private = true

abbrev pub AtMostOne : Dict ChatChannel → Type 0
AtMostOne [] = Unit
AtMostOne (entry ∷ []) = Unit
AtMostOne (entry ∷ next ∷ rest) = ⊥

-- All players, by their ids.
module _ (players : ℕ → Player) where
  pub record Room (ptr : Pointer) (c : ChatChannel) : Type 0 where
    pub id : c.id ≡ id_of ptr
    pub key : is_key ptr ≡ true
    pub once : (u : ℕ) → count u c.users ≤ 1
    pub let_in : (u : ℕ) → 0 < count u c.users → lets (players u) ptr c ≡ true

  pub record Sound (chat : Chat) : Type 0 where
    pub one : AtMostOne chat.private_channels
    pub rooms : (ptr : Pointer) (c : ChatChannel) → read ptr chat ≡ some c → Room ptr c

  adjust-AtMostOne :
      (k : ℕ) (f : ChatChannel → ChatChannel) (m : Dict ChatChannel)
      → AtMostOne m
      → AtMostOne (adjust k f m)
  unfolding adjust
  adjust-AtMostOne k f [] h = tt
  adjust-AtMostOne k f (entry ∷ []) h = elim (Bool-cases (entry.0 == k)) [
    | inl e ↦ rw (e, adjust) tt
    | inr e ↦ rw (e, adjust) tt
  ]
  adjust-AtMostOne k f (entry ∷ next ∷ rest) h = absurd h

  erase-AtMostOne : (k : ℕ) (m : Dict ChatChannel) → AtMostOne m → AtMostOne (Dict.erase k m)
  unfolding Dict.erase
  erase-AtMostOne k [] h = tt
  erase-AtMostOne k (entry ∷ []) h = elim (Bool-cases (entry.0 == k)) [
    | inl e ↦ rw (e, Dict.erase) tt
    | inr e ↦ rw (e, Dict.erase) tt
  ]
  erase-AtMostOne k (entry ∷ next ∷ rest) h = absurd h

  change-AtMostOne :
      (ptr : Pointer) (f : ChatChannel → ChatChannel) (chat : Chat)
      → AtMostOne chat.private_channels
      → AtMostOne (change ptr f chat).private_channels
  change-AtMostOne (normal k) f chat h = h
  change-AtMostOne (guild k) f chat h = h
  change-AtMostOne (private k) f chat h = adjust-AtMostOne k f chat.private_channels h
  change-AtMostOne dummy_private f chat h = h

  same-Room :
      (ptr other : Pointer) (c : ChatChannel) → same ptr other ≡ true → Room ptr c → Room other c
  same-Room ptr other c e r = subst (λ q. Room q c) (same-eq ptr other e) r

  pub change-Sound :
      (ptr : Pointer) (f : ChatChannel → ChatChannel) (chat : Chat)
      → ((c : ChatChannel) → read ptr chat ≡ some c → Room ptr c → Room ptr (f c))
      → Sound chat
      → Sound (change ptr f chat)
  change-Sound ptr f chat keeps s = record {
    one = change-AtMostOne ptr f chat s.one;
    rooms = λ other c h. elim (change-before ptr other f chat c h) [
      | inl (e, before) ↦ s.rooms other c before
      | inr (b, e, before, made) ↦
          let here : read ptr chat ≡ some b =
            ap (λ q. read q chat) (same-eq ptr other e) ∙ before in
          same-Room ptr other c e (rw made at (keeps b here (s.rooms ptr b here)))
    ];
  }

  delete_channel-AtMostOne :
      (p : Player) (k : ℕ) (chat : Chat)
      → AtMostOne chat.private_channels
      → AtMostOne (delete_channel p k chat).private_channels
  unfolding delete_channel
  delete_channel-AtMostOne p k chat h = elim (Bool-cases (k == channel_guild)) [
    | inl e ↦ rw e h
    | inr e ↦ rw e (erase-AtMostOne k chat.private_channels h)
  ]

  pub delete_channel-Sound :
      (p : Player) (k : ℕ) (chat : Chat) → Sound chat → Sound (delete_channel p k chat)
  delete_channel-Sound p k chat s = record {
    one = delete_channel-AtMostOne p k chat s.one;
    rooms = λ ptr c h. s.rooms ptr c (delete_channel-before p k ptr chat c h);
  }

  -- Users come and go.
  add_to-Room :
      (u : ℕ) (ptr : Pointer) (c : ChatChannel)
      → (players u).id ≡ u
      → contains u c.users ≡ false
      → lets (players u) ptr c ≡ true
      → Room ptr c
      → Room ptr (add_to (players u) c)
  add_to-Room u ptr c id new ok r = rw id (record {
    id = r.id;
    key = r.key;
    once = λ v. ground (arith, r.once v, count-put_in u v c.users, contains-count u c.users);
    let_in = λ v h. lets-users (players v) ptr c (put_in u c.users) ∙ elim (Bool-cases (u == v)) [
      | inl e ↦ let p : u ≡ v = ground arith in rw (← p) ok
      | inr e ↦ r.let_in v (ground (arith, count-put_in u v c.users))
    ];
  })

  pub take_from-Room :
      (u : ℕ) (ptr : Pointer) (c : ChatChannel) → Room ptr c → Room ptr (take_from (players u) c)
  take_from-Room u ptr c r = record {
    id = r.id;
    key = r.key;
    once = λ v. ground (arith, r.once v, count-erase (players u).id v c.users);
    let_in = λ v h.
        lets-users (players v) ptr c (erase (players u).id c.users)
        ∙ r.let_in v (ground (arith, count-erase (players u).id v c.users));
  }

  abbrev Good : {A : Type 0} → Chat × A → Type 0
  Good r = Sound r.0

  module _ (u : ℕ) (id : (players u).id ≡ u) where
    pub add_user-Sound :
        (ptr : Pointer) (chat : Chat) (c : ChatChannel)
        → read ptr chat ≡ some c
        → lets (players u) ptr c ≡ true
        → Sound chat
        → Sound (add_user (players u) ptr chat).0
    unfolding add_user
    add_user-Sound ptr chat c e ok s =
        rw (e, add_user)
          (elim (Bool-cases (contains (players u).id c.users)) [
            | inl there ↦ rw there s
            | inr new ↦ rw new (
                if_both Good (asks_again c.id && not (is_some (get_channel (players u) c.id chat)))
                  (chat, false) (change ptr (add_to (players u)) chat, true) s
                  (change-Sound ptr (add_to (players u)) chat
                    (λ b h r.
                      let both : some c ≡ some b = sym e ∙ h in
                      let p : c ≡ b = cc in
                      add_to-Room u ptr b id (rw (← p, ← id) new) (rw (← p) ok) r)
                    s))
          ])

    pub remove_user-Sound :
        (ptr : Pointer) (chat : Chat) → Sound chat → Sound (remove_user (players u) ptr chat).0
    unfolding remove_user
    remove_user-Sound ptr chat s = elim (Option-cases (read ptr chat)) [
      | inl e ↦ rw (e, remove_user) s
      | inr (c, e) ↦
          rw (e, remove_user)
            (if_both Good (contains (players u).id c.users)
              (change ptr (take_from (players u)) chat, true) (chat, false)
              (change-Sound ptr (take_from (players u)) chat (λ b h r. take_from-Room u ptr b r) s)
              s)
    ]

    pub add_user_to_channel-Sound :
        (k : ℕ) (chat : Chat) → Sound chat → Sound (add_user_to_channel (players u) k chat).0
    unfolding add_user_to_channel
    add_user_to_channel-Sound k chat s = elim (Option-cases (get_channel (players u) k chat)) [
      | inl e ↦ rw (e, add_user_to_channel) s
      | inr (ptr, e) ↦
          let (c, there, ok) = get_channel-lets (players u) k chat ptr e in
          rw (e, add_user_to_channel) (add_user-Sound ptr chat c there ok s)
    ]

    pub remove_user_from_channel-Sound :
        (k : ℕ) (chat : Chat) → Sound chat → Sound (remove_user_from_channel (players u) k chat).0
    unfolding remove_user_from_channel
    remove_user_from_channel-Sound k chat s = elim (Option-cases (get_channel (players u) k chat)) [
      | inl e ↦ rw (e, remove_user_from_channel) s
      | inr (ptr, e) ↦
          let r = remove_user (players u) ptr chat in
          let kept = remove_user-Sound ptr chat s in
          rw (e, remove_user_from_channel)
            (if_both Good r.1 (close_own (players u) ptr k r.0, true) (chat, false)
              (if_both Sound (owner_of (read ptr r.0) == (players u).guid)
                (delete_channel (players u) k r.0) r.0 (delete_channel-Sound (players u) k r.0 kept)
                kept)
              s)
    ]
