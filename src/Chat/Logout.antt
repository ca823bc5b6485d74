-- ===== src/Chat/Logout.antt =====
-- One round of the loop of Chat::removeUserFromAllChannels, and the loop over pointers of which none
-- is deleted before its turn.
use jamera_server.Base.{
  ℕ, ◌≤◌, ◌≡◌, refl, sym, ◌∙◌, ap, Bool, true, false, some, ◌==◌, count, contains, contains-count,
  count-erase, arith, Bool-cases, inl, inr,
}
use mathlib.Core.Option
use jamera_server.Chat.{
  Player, ChatChannel, Chat, Pointer, normal, private, guild, dummy_private, read, change,
  delete_channel,
}
use jamera_server.Chat.Pointers.{
  same, read-change, read-delete_channel, change-before, delete_channel-before, target,
}
use jamera_server.Chat.Sound.{
  Sound, id_of, is_key, change-Sound, delete_channel-Sound, take_from-Room,
}
use jamera_server.Chat.Rooms.{remove_user, remove_user_from, take_from}

abbrev pub Readable : Chat → Pointer → Type 0
Readable chat ptr = (c : ChatChannel) × (read ptr chat ≡ some c)

-- Whether what happens at the first pointer leaves the channel of the second one there.
abbrev pub later : Pointer → Pointer → Bool
later dummy_private other = true
later (normal j) (guild k) = false
later (normal j) other = true
later (guild j) (guild k) = false
later (guild j) other = true
later (private j) (private k) = false
later (private j) (guild k) = false
later (private j) other = true

not_target :
    (p : Player) (ptr other : Pointer)
    → later ptr other ≡ true
    → is_key ptr ≡ true
    → is_key other ≡ true
    → same (target p (id_of ptr)) other ≡ false
not_target p (normal j) (normal k) h a b = ground arith
not_target p (normal j) (private k) h a b = ground arith
not_target p (normal j) (guild k) h a b = cc
not_target p (normal j) dummy_private h a b = ground arith
not_target p (private j) (normal k) h a b = ground arith
not_target p (private j) (private k) h a b = cc
not_target p (private j) (guild k) h a b = cc
not_target p (private j) dummy_private h a b = ground arith
not_target p (guild j) (normal k) h a b = refl
not_target p (guild j) (private k) h a b = refl
not_target p (guild j) (guild k) h a b = cc
not_target p (guild j) dummy_private h a b = refl
not_target p dummy_private (normal k) h a b = refl
not_target p dummy_private (private k) h a b = ground arith
not_target p dummy_private (guild k) h a b = refl
not_target p dummy_private dummy_private h a b = refl

change-Readable :
    (ptr other : Pointer) (f : ChatChannel → ChatChannel) (chat : Chat)
    → Readable chat other
    → Readable (change ptr f chat) other
change-Readable ptr other f chat (c, e) = elim (Bool-cases (same ptr other)) [
  | inl h ↦ (f c, read-change ptr other f chat ∙ rw h (ap (Option.map f) e))
  | inr h ↦ (c, read-change ptr other f chat ∙ rw h e)
]

module _ (players : ℕ → Player) (u : ℕ) (id : (players u).id ≡ u) where
  -- Whether each channel of a chat was there before, with all its users.
  abbrev pub Shrinks : Chat → Chat → Type 0
  Shrinks chat chat' =
      (other : Pointer) (c : ChatChannel)
      → read other chat' ≡ some c
      → (b : ChatChannel) × (read other chat ≡ some b)
        × ((v : ℕ) → count v c.users ≤ count v b.users)

  apart-empty :
      (ptr : Pointer) (chat : Chat) (d : ChatChannel)
      → same ptr ptr ≡ false
      → read ptr chat ≡ some d
      → count u d.users ≡ 0
  apart-empty (normal k) chat d h e = absurd (ground arith)
  apart-empty (private k) chat d h e = absurd (ground arith)
  apart-empty (guild k) chat d h e = absurd (ground arith)
  apart-empty dummy_private chat d h e = ground arith

  pub record Step (ptr : Pointer) (chat : Chat) : Type 0 where
    pub after : Chat
    pub done : remove_user_from (players u) ptr chat ≡ some after
    pub sound : Sound players after
    pub shrinks : Shrinks chat after
    pub clean : (c : ChatChannel) → read ptr after ≡ some c → count u c.users ≡ 0
    pub still :
        (other : Pointer) → later ptr other ≡ true → Readable chat other → Readable after other

  module _ (ptr : Pointer) (chat : Chat) (c : ChatChannel) (e : read ptr chat ≡ some c)
      (s : Sound players chat) where
    abbrev taken : Chat
    taken = change ptr (take_from (players u)) chat

    taken-Sound : Sound players taken
    taken-Sound =
        change-Sound players ptr (take_from (players u)) chat
          (λ b h r. take_from-Room players u ptr b r) s

    taken-Shrinks : Shrinks chat taken
    taken-Shrinks other d h = elim (change-before ptr other (take_from (players u)) chat d h) [
      | inl (apart, before) ↦ (d, before, λ v. omega arith)
      | inr (b, here, before, made) ↦
          (b, before, λ v. rw (← made) (ground (arith, count-erase (players u).id v b.users)))
    ]

    taken-clean : (d : ChatChannel) → read ptr taken ≡ some d → count u d.users ≡ 0
    taken-clean d h = elim (change-before ptr ptr (take_from (players u)) chat d h) [
      | inl (apart, before) ↦ apart-empty ptr chat d apart before
      | inr (b, here, before, made) ↦
          rw (← made)
            (ground (arith, count-erase (players u).id u b.users, (s.rooms ptr b before).once u))
    ]

    unhit :
        (other : Pointer) (d : ChatChannel)
        → later ptr other ≡ true
        → read other taken ≡ some d
        → same (target (players u) c.id) other ≡ false
    unhit other d l e' = rw (s.rooms ptr c e).id (
        not_target (players u) ptr other l (s.rooms ptr c e).key (taken-Sound.rooms other d e').key)

    pub step : Step ptr chat
    unfolding remove_user_from remove_user
    step = elim (Bool-cases (contains (players u).id c.users)) [
      | inr absent ↦ record {
        after = chat;
        done = rw (e, remove_user_from) (rw (e, remove_user) (rw absent refl));
        sound = s;
        shrinks = λ other d h. (d, h, λ v. omega arith);
        clean = λ d h.
            (let both : some c ≡ some d = sym e ∙ h in
              let p : c ≡ d = cc in rw (← p) (ground (arith, contains-count u c.users, id)));
        still = λ other l r. r;
      }
      | inl there ↦ elim (Bool-cases (c.owner == (players u).guid)) [
        | inr kept ↦ record {
          after = taken;
          done = rw (e, remove_user_from) (rw (e, remove_user) (rw (there, kept) refl));
          sound = taken-Sound;
          shrinks = taken-Shrinks;
          clean = taken-clean;
          still = λ other l r. change-Readable ptr other (take_from (players u)) chat r;
        }
        | inl own ↦ record {
          after = delete_channel (players u) c.id taken;
          done = rw (e, remove_user_from) (rw (e, remove_user) (rw (there, own) refl));
          sound = delete_channel-Sound players (players u) c.id taken taken-Sound;
          shrinks = λ other d h.
              taken-Shrinks other d (delete_channel-before (players u) c.id other taken d h);
          clean = λ d h. taken-clean d (delete_channel-before (players u) c.id ptr taken d h);
          still = λ other l r.
              (let (d, e') = change-Readable ptr other (take_from (players u)) chat r in
                (d, read-delete_channel (players u) c.id other taken ∙ rw (unhit other d l e') e'));
        }
      ]
    ]
