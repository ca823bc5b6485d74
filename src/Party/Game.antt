-- ===== src/Party/Game.antt =====
-- The calls of source 7.6/game.cpp that concern parties, and how a player leaves the game, from
-- source 7.6/player.cpp. Two players of a call are those that have been found.
use jamera_server.Base.{
  ℕ, ◌+◌, Bool, true, false, ◌&&◌, not, none, some, List, [], ◌∷◌, ◌==◌, if◌then◌else◌,
}
use jamera_server.Party.{
  Result, set_player, set_at, points_to, set_party, is_player_invited, invite_player, join_party,
  remove_invite, pass_party_leadership, leave_party, Party, World, Result,
}

-- Reading a party through a pointer: `none` if it has been deleted.
abbrev pub at_party : ℕ → World → (Party → Result) → Result
at_party k w f = elim (w.party k) [ none ↦ none | some party ↦ f party ]

-- Player::isInviting
abbrev pub is_inviting : ℕ → ℕ → Party → Bool
is_inviting p q party = party.leader == p && is_player_invited q party

-- Game::playerInviteToParty, of two players that are found, once invitedPlayer->isInviting(player) is
-- known to be false: that is so if the invited player has no party, and with a party it is told so.
unfoldable pub player_invite_to_party : ℕ → ℕ → World → Result
player_invite_to_party p invited w = elim (w.player invited).party [
  | some k ↦ at_party k w (λ party. some (false, w))
  | none ↦ elim (w.player p).party [
    | none ↦
        let party : Party = record { leader = p; member_list = []; invite_list = [] } in
        invite_player w.next invited party (record w {
          player = set_party p (some w.next) w.player;
          party = set_at w.party w.next (some party);
          next = w.next + 1;
        })
    | some k ↦
        at_party k w
          (λ party. if party.leader == p then invite_player k invited party w else some (false, w))
  ]
]

-- Game::playerJoinParty
unfoldable pub player_join_party : ℕ → ℕ → World → Result
player_join_party p leader w = elim (w.player leader).party [
  | none ↦ some (false, w)
  | some k ↦ at_party k w (λ party.
      if not (is_inviting leader p party)
      then some (false, w)
      else elim (w.player p).party [ some other ↦ some (false, w) | none ↦ join_party k p party w ])
]

-- Game::playerRevokePartyInvitation, with Party::revokeInvitation
unfoldable pub player_revoke_party_invitation : ℕ → ℕ → World → Result
player_revoke_party_invitation p invited w = elim (w.player p).party [
  | none ↦ some (false, w)
  | some k ↦ at_party k w (λ party.
      if is_inviting p invited party
      then some (true, (remove_invite k invited party w).1)
      else some (false, w))
]

-- Game::playerPassPartyLeadership, with Player::isPartner
unfoldable pub player_pass_party_leadership : ℕ → ℕ → World → Result
player_pass_party_leadership p new_leader w = elim (w.player p).party [
  | none ↦ some (false, w)
  | some k ↦ at_party k w (λ party.
      if party.leader == p && points_to (w.player new_leader).party k
      then (let (success, party') = pass_party_leadership new_leader party in
          some (success, record w { party = set_at w.party k (some party') }))
      else some (false, w))
]

-- Game::playerLeaveParty, of a player who is not in a fight
unfoldable pub player_leave_party : ℕ → World → Result
player_leave_party p w = elim (w.player p).party [
  | none ↦ some (false, w)
  | some k ↦ at_party k w (λ party. some (leave_party k p party w))
]

-- The loop of Player::clearPartyInvitations over the copied list.
unfoldable pub remove_invites : ℕ → List ℕ → World → Result
remove_invites p [] w = some (true, w)
remove_invites p (k ∷ ks) w = elim (w.party k) [
  | none ↦ none
  | some party ↦ remove_invites p ks (remove_invite k p party w).1
]

-- Player::clearPartyInvitations
unfoldable pub clear_party_invitations : ℕ → World → Result
clear_party_invitations p w =
    remove_invites p (w.player p).invite_party_list
      (record w { player = set_player w.player p (record (w.player p) { invite_party_list = [] }) })

-- Player::onCreatureDisappear of the player itself, which is not marked as removed yet.
unfoldable pub on_creature_disappear : ℕ → World → Result
on_creature_disappear p w = elim (clear_party_invitations p w) [
  | none ↦ none
  | some (done, w') ↦ player_leave_party p w'
]
