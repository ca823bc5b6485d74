-- ===== src/Chat/Faults.antt =====
-- What goes wrong with the channels.
use jamera_server.Base.{
  ℕ, ◌≡◌, ◌≢◌, refl, sym, ◌∙◌, ap, Bool, true, false, not, ◌&&◌, ◌||◌, Option, none, some, List, [],
  ◌∷◌, ◌++◌, ◌==◌, contains, contains-count, count-put_in, put_in, if_both, arith, Bool-cases,
  Option-cases, inl, inr,
}
use mathlib.Core.Option
use jamera_server.Base.Dict.{Dict, lookup}
use jamera_server.Chat.{
  Player, ChatChannel, Chat, Pointer, normal, private, guild, dummy_private, read, change,
  is_invited, get_channel, own_or_last, get_private_channel, delete_channel, channel_trade_rook,
  create_channel, create_guild_channel,
}
use jamera_server.Chat.Pointers.{same, read-change, read-delete_channel, target}
use jamera_server.Chat.Leave.{listed, listed-append}
use jamera_server.Chat.Listing.{guild_part-OwnGuild, has_guild}
use jamera_server.Chat.Rooms.{
  remove_user, remove_user_from, remove_user_from_each, remove_user_from_all_channels,
  get_channel_list, guild_part, normal_part, private_part, is_some, is_open, has_private,
  player_channel_invite, invite_player, take_from,
}

only_entry :
    (k : ℕ) (c : ChatChannel) (chat : Chat)
    → chat.private_channels ≡ (k, c) ∷ []
    → lookup k chat.private_channels ≡ some c
unfolding lookup
only_entry k c chat h =
    let self : (k == k) ≡ true = ground arith in ap (lookup k) h ∙ rw (self, lookup) refl

last_channel :
    (p : Player) (k : ℕ) (c : ChatChannel) (chat : Chat)
    → chat.private_channels ≡ (k, c) ∷ []
    → c.owner ≢ p.guid
    → get_private_channel p chat ≡ some (private k)
unfolding own_or_last
last_channel p k c chat h foreign =
    let other : (c.owner == p.guid) ≡ false = ground arith in
    ap (own_or_last p none) h ∙ rw (other, own_or_last) refl

-- Where a player invites somebody into a private channel, any other may do so as well: with one
-- private channel on the server, of which he is not the owner, a player's invitation of another
-- lets the other one into it.
pub player_channel_invite-foreign :
    (p q : Player) (chat : Chat) (k : ℕ) (c : ChatChannel)
    → chat.private_channels ≡ (k, c) ∷ []
    → c.owner ≢ p.guid
    → p.id ≢ q.id
    → (c' : ChatChannel) × (read (private k) (player_channel_invite p (some q) chat).0 ≡ some c')
      × (is_invited q c' ≡ true)
unfolding player_channel_invite
player_channel_invite-foreign p q chat k c h foreign other =
    let f = invite_player p q in
    let self : same (private k) (private k) ≡ true = ground arith in
    let reads : read (private k) (change (private k) f chat) ≡ some (f c) =
      read-change (private k) (private k) f chat
      ∙ rw self (ap (Option.map f) (only_entry k c chat h)) in
    (
      f c,
      rw (last_channel p k c chat h foreign, player_channel_invite) reads,
      ground (
        arith,
        contains-count q.guid c.invites,
        contains-count q.guid (put_in q.guid c.invites),
        count-put_in q.guid q.guid c.invites,
      ),
    )

same_result :
    (p : Player) (ptr : Pointer) (chat a b : Chat)
    → remove_user_from p ptr chat ≡ some a
    → remove_user_from p ptr chat ≡ some b
    → a ≡ b
same_result p ptr chat a b h k = let both : some a ≡ some b = sym h ∙ k in cc

-- The loop leaves alone a normal channel that it does not meet.
kept :
    (p : Player) (k : ℕ) (ptr : Pointer) (chat after : Chat)
    → same ptr (normal k) ≡ false
    → remove_user_from p ptr chat ≡ some after
    → read (normal k) after ≡ read (normal k) chat
unfolding remove_user_from remove_user
kept p k ptr chat after apart h = elim (Option-cases (read ptr chat)) [
  | inl e ↦ let bad : ◌≡◌ {A = Option Chat} none (some after) = rw (e, remove_user_from) at h in cc
  | inr (c, e) ↦
      let taken = change ptr (take_from p) chat in
      let same_taken : read (normal k) taken ≡ read (normal k) chat =
        read-change ptr (normal k) (take_from p) chat ∙ rw apart refl in
      let safe : same (target p c.id) (normal k) ≡ false = ground arith in
      elim (Bool-cases (contains p.id c.users)) [
        | inr absent ↦
            let q : chat ≡ after =
              same_result p ptr chat chat after
                (rw (e, remove_user_from) (rw (e, remove_user) (rw absent refl))) h in
            rw (← q) refl
        | inl there ↦ elim (Bool-cases (c.owner == p.guid)) [
          | inr other ↦
              let q : taken ≡ after =
                same_result p ptr chat taken after
                  (rw (e, remove_user_from) (rw (e, remove_user) (rw (there, other) refl))) h in
              rw (← q) same_taken
          | inl own ↦
              let q : delete_channel p c.id taken ≡ after =
                same_result p ptr chat (delete_channel p c.id taken) after
                  (rw (e, remove_user_from) (rw (e, remove_user) (rw (there, own) refl))) h in
              rw (← q) (read-delete_channel p c.id (normal k) taken ∙ rw safe same_taken)
        ]
      ]
]

each_kept :
    (p : Player) (k : ℕ) (list : List Pointer) (chat after : Chat)
    → listed (normal k) list ≡ false
    → remove_user_from_each p list chat ≡ some after
    → read (normal k) after ≡ read (normal k) chat
unfolding remove_user_from_each
each_kept p k [] chat after l h = let q : chat ≡ after = cc in rw q
each_kept p k (ptr ∷ rest) chat after l h = elim (Option-cases (remove_user_from p ptr chat)) [
  | inl e ↦
      let bad : ◌≡◌ {A = Option Chat} none (some after) = rw (e, remove_user_from_each) at h in cc
  | inr (chat', e) ↦
      each_kept p k rest chat' after (ground arith) (rw (e, remove_user_from_each) at h)
      ∙ kept p k ptr chat chat' (ground arith) e
]

-- The list lacks a normal channel that does not admit the player.
abbrev closed : ℕ → Bool
closed k = not (is_open k)

normal_part-unlisted :
    (p : Player) (chat : Chat) (k : ℕ) (m : Dict ChatChannel)
    → closed k ≡ true
    → is_some (get_channel p k chat) ≡ false
    → listed (normal k) (normal_part p chat m) ≡ false
normal_part-unlisted p chat k [] o a = refl
normal_part-unlisted p chat k (entry ∷ rest) o a =
    let ih = normal_part-unlisted p chat k rest o a in
    elim (Bool-cases (entry.0 == k)) [
      | inl e ↦
          let q : entry.0 ≡ k = ground arith in
          let shut : (is_open entry.0 || is_some (get_channel p entry.0 chat)) ≡ false =
            rw q (ground (arith, a)) in
          rw shut ih
      | inr e ↦
          if_both (λ l. listed (normal k) l ≡ false)
            (is_open entry.0 || is_some (get_channel p entry.0 chat))
            (normal entry.0 ∷ normal_part p chat rest) (normal_part p chat rest) (rw e ih) ih
    ]

private_part-unlisted :
    (p : Player) (k : ℕ) (m : Dict ChatChannel) → listed (normal k) (private_part p m) ≡ false
private_part-unlisted p k [] = refl
private_part-unlisted p k (entry ∷ rest) =
    let ih = private_part-unlisted p k rest in
    if_both (λ l. listed (normal k) l ≡ false) (is_invited p entry.1)
      (private entry.0 ∷ private_part p rest) (private_part p rest) ih ih

guild_part-normal :
    (p : Player) (chat : Chat) → (guild_part p chat).1.normal_channels ≡ chat.normal_channels
unfolding guild_part create_channel create_guild_channel
guild_part-normal p chat = ground arith

guild_part-unlisted :
    (p : Player) (chat : Chat) (k : ℕ) → listed (normal k) (guild_part p chat).0 ≡ false
guild_part-unlisted p chat k = rw (guild_part-OwnGuild (λ v. p) 0 chat).list (
    if_both (λ l. listed (normal k) l ≡ false) (has_guild (λ v. p) 0) (guild p.guild_id ∷ []) []
      refl refl)

no_rook :
    (p : Player) (chat : Chat) (c : ChatChannel)
    → p.vocation_id ≢ 0
    → lookup channel_trade_rook chat.normal_channels ≡ some c
    → get_channel p channel_trade_rook chat ≡ none
unfolding get_channel
no_rook p chat c v e =
    let other : (p.vocation_id == 0) ≡ false = ground arith in rw (e, get_channel) (rw other refl)

get_channel_list-unlisted :
    (p : Player) (chat : Chat) (c : ChatChannel)
    → p.vocation_id ≢ 0
    → lookup channel_trade_rook (guild_part p chat).1.normal_channels ≡ some c
    → listed (normal channel_trade_rook) (get_channel_list p chat).0 ≡ false
unfolding get_channel_list
get_channel_list-unlisted p chat c v e =
    let chat' = (guild_part p chat).1 in
    let k : ℕ = channel_trade_rook in
    let normals = normal_part p chat' chat'.normal_channels in
    let privates = private_part p chat'.private_channels in
    let own = (guild_part p chat).0 in
    let a : listed (normal k) normals ≡ false =
      normal_part-unlisted p chat' k chat'.normal_channels refl (rw (no_rook p chat' c v e) refl) in
    let all : listed (normal k) (own ++ (normals ++ privates)) ≡ false =
      listed-append (normal k) own (normals ++ privates)
      ∙ rw (guild_part-unlisted p chat k, listed-append (normal k) normals privates, a)
          (private_part-unlisted p k chat'.private_channels) in
    if_both (λ l. listed (normal k) l ≡ false)
      (not (has_private p chat'.private_channels) && p.premium)
      (dummy_private ∷ (own ++ (normals ++ privates))) (own ++ (normals ++ privates)) all all

-- A player who has got a vocation since he opened the trade channel of Rookgaard stays among its
-- users when he leaves the game: removeUserFromAllChannels leaves that channel as it was.
pub remove_user_from_all_channels-rook :
    (p : Player) (chat after : Chat) (c : ChatChannel)
    → p.vocation_id ≢ 0
    → read (normal channel_trade_rook) chat ≡ some c
    → remove_user_from_all_channels p chat ≡ some after
    → read (normal channel_trade_rook) after ≡ some c
unfolding remove_user_from_all_channels get_channel_list
remove_user_from_all_channels-rook p chat after c v e h =
    let chat' = (guild_part p chat).1 in
    let e' : read (normal channel_trade_rook) chat' ≡ some c =
      ap (lookup channel_trade_rook) (guild_part-normal p chat) ∙ e in
    each_kept p channel_trade_rook (get_channel_list p chat).0 chat' after
      (get_channel_list-unlisted p chat c v e') h
    ∙ e'
