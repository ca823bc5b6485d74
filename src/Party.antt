-- ===== src/Party.antt =====
-- Parties: source 7.6/party.h and party.cpp, the five calls of source 7.6/game.cpp that players make,
-- and the invitations of a player in source 7.6/player.cpp. A pointer is a number. A party that has
-- been deleted is absent, and an operation that reads it through a pointer is a fault, `none`. The
-- texts and the shields sent to clients are left out.
pub mod Game
pub mod Invariant
pub mod Disband
pub mod Calls
pub mod Returns
pub mod Logout
pub mod Reach
mod Tests
use jamera_server.Base.{
  ℕ, ◌+◌, Bool, true, false, ◌&&◌, ◌||◌, not, Option, none, some, List, [], ◌∷◌, ◌++◌, ◌==◌,
  if◌then◌else◌, contains, erase, is_empty,
}

-- leader, memberList and inviteList
pub record Party : Type 0 where
  pub leader : ℕ
  pub member_list : List ℕ
  pub invite_list : List ℕ

-- The party and invitePartyList of a player
pub record Player : Type 0 where
  pub party : Option ℕ
  pub invite_party_list : List ℕ

-- All players and parties; `next` is where the next party is put.
pub record World : Type 0 where
  pub player : ℕ → Player
  pub party : ℕ → Option Party
  pub next : ℕ

-- An operation's answer and the world after it.
abbrev pub Result : Type 0
Result = Option (Bool × World)

abbrev pub set_player : (ℕ → Player) → ℕ → Player → ℕ → Player
set_player f p x q = if p == q then x else f q

abbrev pub set_at : (ℕ → Option Party) → ℕ → Option Party → ℕ → Option Party
set_at f k x j = if k == j then x else f j

-- p == q for a pointer that may be NULL
abbrev pub points_to : Option ℕ → ℕ → Bool
points_to none p = false
points_to (some q) p = q == p

-- Player::setParty
abbrev pub set_party : ℕ → Option ℕ → (ℕ → Player) → ℕ → Player
set_party p k f = set_player f p (record (f p) { party = k })

-- Player::removePartyInvitation and Player::addPartyInvitation
abbrev pub remove_party_invitation : ℕ → ℕ → (ℕ → Player) → ℕ → Player
remove_party_invitation p k f =
    set_player f p (record (f p) { invite_party_list = erase k (f p).invite_party_list })

abbrev pub add_party_invitation : ℕ → ℕ → (ℕ → Player) → ℕ → Player
add_party_invitation p k f =
    if contains k (f p).invite_party_list
    then f
    else set_player f p (record (f p) { invite_party_list = (f p).invite_party_list ++ k ∷ [] })

-- The two loops of Party::disband.
unfoldable pub uninvite_all : ℕ → List ℕ → (ℕ → Player) → ℕ → Player
uninvite_all k [] f = f
uninvite_all k (p ∷ ps) f = uninvite_all k ps (remove_party_invitation p k f)

unfoldable pub clear_all : List ℕ → (ℕ → Player) → ℕ → Player
clear_all [] f = f
clear_all (p ∷ ps) f = clear_all ps (set_party p none f)

-- Party::disband, which deletes the party
unfoldable pub disband : ℕ → Party → World → World
disband k party w = record w {
  player =
      clear_all party.member_list
        (uninvite_all k party.invite_list (set_party party.leader none w.player));
  party = set_at w.party k none;
}

-- Party::disbandParty
abbrev pub disband_party : Party → Bool
disband_party party = is_empty party.member_list && is_empty party.invite_list

-- A change of a party that may leave it empty.
unfoldable pub store_or_disband : ℕ → Bool → Party → World → World
unfolding disband
store_or_disband k alone party w =
    if alone || disband_party party
    then disband k party w
    else record w { party = set_at w.party k (some party) }

-- Party::isPlayerMember and Party::isPlayerInvited
abbrev pub is_player_member : ℕ → Party → Bool
is_player_member p party = contains p party.member_list

abbrev pub is_player_invited : ℕ → Party → Bool
is_player_invited p party = contains p party.invite_list

-- Party::invitePlayer
unfoldable pub invite_player : ℕ → ℕ → Party → World → Result
invite_player k p party w =
    if is_player_invited p party
    then some (false, w)
    else some (
      true,
      record w {
        player = add_party_invitation p k w.player;
        party =
            set_at w.party k (some (record party { invite_list = party.invite_list ++ p ∷ [] }));
      },
    )

-- Party::joinParty
unfoldable pub join_party : ℕ → ℕ → Party → World → Result
join_party k p party w = some (
  true,
  record w {
    player = remove_party_invitation p k (set_party p (some k) w.player);
    party = set_at w.party k (
        some (record party {
          member_list = party.member_list ++ p ∷ [];
          invite_list = erase p party.invite_list;
        }));
  },
)

-- Party::removeInvite
unfoldable pub remove_invite : ℕ → ℕ → Party → World → Bool × World
remove_invite k p party w = if not (is_player_invited p party) then (false, w) else (
  true,
  store_or_disband k false (record party { invite_list = erase p party.invite_list })
      (record w { player = remove_party_invitation p k w.player }),
)

-- Party::passPartyLeadership
unfoldable pub pass_party_leadership : ℕ → Party → Bool × Party
pass_party_leadership p party =
    if party.leader == p || not (is_player_member p party)
    then (false, party)
    else (true, record party { leader = p; member_list = party.leader ∷ erase p party.member_list })

-- passPartyLeadership(memberList.front()) in leaveParty
abbrev pub pass_to_front : List ℕ → Party → Party
pass_to_front [] party = party
pass_to_front (front ∷ rest) party = (pass_party_leadership front party).1

-- Party::leaveParty
unfoldable pub leave_party : ℕ → ℕ → Party → World → Bool × World
leave_party k p party w =
    if not (is_player_member p party) && not (party.leader == p)
    then (false, w)
    else (let is_leader = party.leader == p in
        let passed = if is_leader then pass_to_front party.member_list party else party in
        let left = record passed {
          member_list = erase p passed.member_list;
          invite_list = erase p passed.invite_list;
        } in
        (
          true,
          store_or_disband k (is_leader && is_empty party.member_list) left
              (record w { player = set_party p none w.player }),
        ))
