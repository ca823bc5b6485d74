-- ===== src/Party/Tests.antt =====
-- Examples of the theorems on parties.
use jamera_server.Base.{◌≡◌, refl, Bool, true, false, none, some, List, [], ◌∷◌, arith}
use jamera_server.Party.{
  World, Result, invite_player, join_party, remove_invite, pass_party_leadership, leave_party,
  store_or_disband, disband, uninvite_all, clear_all,
}
use jamera_server.Party.Game.{
  on_creature_disappear, player_invite_to_party, player_join_party, player_pass_party_leadership,
  player_leave_party, clear_party_invitations, remove_invites,
}
use jamera_server.Party.Invariant.{Keeps, Inv}
use jamera_server.Party.Reach.{
  Call, invite, join, pass, leave, disappear, runs, AllNotSelf, Forgets, no_parties, runs-Inv,
  on_creature_disappear-Forgets,
}

-- Two players make a party, the leader invites a third and passes the leadership on, and all leave.
abbrev evening : List Call
evening = invite 1 2 ∷ join 2 1 ∷ invite 1 3 ∷ pass 1 2 ∷ leave 2 ∷ disappear 3 ∷ []

evening-AllNotSelf : AllNotSelf evening
evening-AllNotSelf = (ground arith, (tt, (ground arith, (tt, (tt, (tt, tt))))))

runs-Inv_example : Keeps (runs evening no_parties)
runs-Inv_example = runs-Inv evening evening-AllNotSelf

abbrev after : Result → World
after none = no_parties
after (some r) = r.1

after-Inv : (r : Result) → Keeps r → Inv (after r)
after-Inv none kept = absurd kept
after-Inv (some r) kept = kept

-- Player 1 leads a party and has invited player 2.
abbrev inviting : List Call
inviting = invite 1 2 ∷ []

on_creature_disappear-Forgets_example :
    Forgets 2 (on_creature_disappear 2 (after (runs inviting no_parties)))
on_creature_disappear-Forgets_example =
    on_creature_disappear-Forgets 2 (after (runs inviting no_parties))
      (after-Inv (runs inviting no_parties) (runs-Inv inviting (ground arith, tt)))

-- Whether the runs return.
abbrev is_some : Result → Bool
is_some none = false
is_some (some r) = true

evening_returns : is_some (runs evening no_parties) ≡ true
unfolding runs player_invite_to_party player_join_party player_pass_party_leadership
    player_leave_party on_creature_disappear clear_party_invitations remove_invites invite_player
    join_party remove_invite pass_party_leadership leave_party store_or_disband disband uninvite_all
    clear_all
evening_returns = refl
