-- ===== src/Chat/Pointers.antt =====
-- What is read through a pointer to a channel after an operation.
use jamera_server.Base.{
  ℕ, ◌≡◌, ◌⊎◌, refl, sym, ◌∙◌, ap, Bool, true, false, none, some, ◌==◌, if◌then◌else◌, arith,
  Bool-cases, Option-cases, inl, inr,
}
use mathlib.Core.Option
use jamera_server.Base.Dict.{lookup-adjust, erase, lookup-erase}
use jamera_server.Chat.{
  Player, ChatChannel, Chat, Pointer, normal, private, guild, dummy_private, read, change,
  delete_channel, channel_guild,
}

-- Whether two pointers are to one channel of the maps.
abbrev pub same : Pointer → Pointer → Bool
same (normal k) (normal j) = k == j
same (private k) (private j) = k == j
same (guild k) (guild j) = k == j
same _ _ = false

pub same-eq : (ptr other : Pointer) → same ptr other ≡ true → ptr ≡ other
same-eq (normal k) (normal j) e = let p : k ≡ j = ground arith in ap normal p
same-eq (private k) (private j) e = let p : k ≡ j = ground arith in ap private p
same-eq (guild k) (guild j) e = let p : k ≡ j = ground arith in ap guild p
same-eq (normal k) (private j) e = cc
same-eq (normal k) (guild j) e = cc
same-eq (normal k) dummy_private e = cc
same-eq (private k) (normal j) e = cc
same-eq (private k) (guild j) e = cc
same-eq (private k) dummy_private e = cc
same-eq (guild k) (normal j) e = cc
same-eq (guild k) (private j) e = cc
same-eq (guild k) dummy_private e = cc
same-eq dummy_private other e = cc

pub read-change :
    (ptr other : Pointer) (f : ChatChannel → ChatChannel) (chat : Chat)
    → read other (change ptr f chat)
      ≡ (if same ptr other then Option.map f (read other chat) else read other chat)
read-change (normal k) (normal j) f chat = lookup-adjust k j f chat.normal_channels
read-change (private k) (private j) f chat = lookup-adjust k j f chat.private_channels
read-change (guild k) (guild j) f chat = lookup-adjust k j f chat.guild_channels
read-change dummy_private (normal j) f chat = refl
read-change dummy_private (private j) f chat = refl
read-change dummy_private (guild j) f chat = refl
read-change dummy_private dummy_private f chat = refl
read-change (normal k) (private j) f chat = refl
read-change (normal k) (guild j) f chat = refl
read-change (normal k) dummy_private f chat = refl
read-change (private k) (normal j) f chat = refl
read-change (private k) (guild j) f chat = refl
read-change (private k) dummy_private f chat = refl
read-change (guild k) (normal j) f chat = refl
read-change (guild k) (private j) f chat = refl
read-change (guild k) dummy_private f chat = refl

-- The pointer to the channel that deleteChannel deletes.
abbrev pub target : Player → ℕ → Pointer
target p k = if k == channel_guild then guild p.guild_id else private k

pub read-delete_channel :
    (p : Player) (k : ℕ) (other : Pointer) (chat : Chat)
    → read other (delete_channel p k chat)
      ≡ (if same (target p k) other then none else read other chat)
unfolding delete_channel
read-delete_channel p k other chat = elim (Bool-cases (k == channel_guild)) [
  | inl e ↦ rw e (go_guild other)
  | inr e ↦ rw e (go_private other)
]
  where
    go_guild :
        (other : Pointer)
        → read other (record chat { guild_channels = erase p.guild_id chat.guild_channels })
          ≡ (if same (guild p.guild_id) other then none else read other chat)
    go_guild (normal j) = refl
    go_guild (private j) = refl
    go_guild (guild j) = lookup-erase p.guild_id j chat.guild_channels
    go_guild dummy_private = refl

    go_private :
        (other : Pointer)
        → read other (record chat { private_channels = erase k chat.private_channels })
          ≡ (if same (private k) other then none else read other chat)
    go_private (normal j) = refl
    go_private (guild j) = refl
    go_private (private j) = lookup-erase k j chat.private_channels
    go_private dummy_private = refl

-- What was there before.
pub delete_channel-before :
    (p : Player) (k : ℕ) (other : Pointer) (chat : Chat) (c : ChatChannel)
    → read other (delete_channel p k chat) ≡ some c
    → read other chat ≡ some c
delete_channel-before p k other chat c h = ground (arith, read-delete_channel p k other chat)

pub change-before :
    (ptr other : Pointer) (f : ChatChannel → ChatChannel) (chat : Chat) (c : ChatChannel)
    → read other (change ptr f chat) ≡ some c
    → (same ptr other ≡ false) × (read other chat ≡ some c)
      ⊎ ((b : ChatChannel) × (same ptr other ≡ true) × (read other chat ≡ some b) × (f b ≡ c))
change-before ptr other f chat c h =
    let h' = sym (read-change ptr other f chat) ∙ h in
    elim (Bool-cases (same ptr other)) [
      | inr e ↦ inl (e, rw e at h')
      | inl e ↦ elim (Option-cases (read other chat)) [
        | inl n ↦ ground (arith, h', n)
        | inr (b, n) ↦
            let q : some (f b) ≡ some c = ap (Option.map f) (sym n) ∙ (rw e at h') in
            inr (b, e, n, cc)
      ]
    ]
