-- ===== src/Chat/Private.antt =====
-- What createChannel makes of a private channel, given that getPrivateChannel answers with the last
-- channel of all where a player has none of his own.
use jamera_server.Base.{
  ℕ, ◌≡◌, refl, ap, ◌&&◌, none, some, [], ◌∷◌, ◌==◌, if◌then◌else◌, is_empty, arith, Bool-cases,
  List-cases, inl, inr,
}
use jamera_server.Base.Dict.{Dict, lookup, emplace}
use jamera_server.Chat.{
  Player, ChatChannel, Chat, Pointer, private, get_private_channel, own_or_last, free_slot,
  create_own_channel, own_channel, open_slot,
}

own_or_last-some :
    (p : Player) (ptr : Pointer) (m : Dict ChatChannel)
    → ((r : Pointer) × (own_or_last p (some ptr) m ≡ some r))
unfolding own_or_last
own_or_last-some p ptr [] = (ptr, refl)
own_or_last-some p ptr (entry ∷ rest) = elim (Bool-cases (entry.1.owner == p.guid)) [
  | inl e ↦ rw (e, own_or_last) (private entry.0, refl)
  | inr e ↦ rw (e, own_or_last) (own_or_last-some p (private entry.0) rest)
]

-- A channel of the player's own, or of whomever, is an answer.
pub get_private_channel-found :
    (p : Player) (entry : ℕ × ChatChannel) (m : Dict ChatChannel)
    → (r : Pointer) × (own_or_last p none (entry ∷ m) ≡ some r)
unfolding own_or_last
get_private_channel-found p entry m = elim (Bool-cases (entry.1.owner == p.guid)) [
  | inl e ↦ rw (e, own_or_last) (private entry.0, refl)
  | inr e ↦ rw (e, own_or_last) (own_or_last-some p (private entry.0) m)
]

abbrev pub with_first : Player → Chat → Chat
with_first p chat = record chat { private_channels = (100, own_channel p 100) ∷ [] }

-- Where there are no private channels.
module _ (p : Player) (chat : Chat) (h : chat.private_channels ≡ []) where
  nobody : get_private_channel p chat ≡ none
  unfolding own_or_last
  nobody = ap (own_or_last p none) h

  first_slot : free_slot 9900 100 chat.private_channels ≡ some 100
  unfolding free_slot lookup
  first_slot = ap (free_slot 9900 100) h

  placed : emplace 100 (own_channel p 100) chat.private_channels ≡ (100, own_channel p 100) ∷ []
  unfolding emplace
  placed = ap (emplace 100 (own_channel p 100)) h

pub create_own_channel_lem :
    (p : Player) (chat : Chat)
    → create_own_channel p chat ≡ (
        if p.premium && is_empty chat.private_channels
        then (with_first p chat, some (private 100))
        else (chat, none))
unfolding create_own_channel open_slot
create_own_channel_lem p chat = elim (List-cases chat.private_channels) [
  | inl h ↦ ground (arith, h, nobody p chat h, first_slot p chat h, placed p chat h)
  | inr (entry, rest, h) ↦
      let (r, found) = get_private_channel-found p entry rest in
      ground (arith, h, ap (own_or_last p none) h, found)
]
