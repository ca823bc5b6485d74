-- ===== src/Party/Reach.antt =====
-- The calls that players make, in any order.
use mathlib.Core.Path.{subst}
use jamera_server.Base.{
  ℕ, ◌≡◌, ◌≢◌, refl, true, none, some, List, [], ◌∷◌, Option-cases, arith, inl, inr,
}
use jamera_server.Party.{
  World, Result, invite_player, leave_party, store_or_disband, disband, uninvite_all, clear_all,
}
use jamera_server.Party.Game.{
  player_invite_to_party, player_join_party, player_revoke_party_invitation,
  player_pass_party_leadership, player_leave_party, on_creature_disappear, clear_party_invitations,
  remove_invites,
}
use jamera_server.Party.Invariant.{seats, asked, Inv, Keeps}
use jamera_server.Party.Returns.{
  player_join_party-Keeps, player_revoke_party_invitation-Keeps, player_pass_party_leadership-Keeps,
  player_leave_party-Keeps, player_invite_to_party-Keeps,
}
use jamera_server.Party.Logout.{
  on_creature_disappear-KeepsGone, KeepsGone, on_creature_disappear-Keeps,
}

-- A call, by the player whom it is for.
pub data Call : Type 0 where
  invite : ℕ → ℕ → Call
  join : ℕ → ℕ → Call
  revoke : ℕ → ℕ → Call
  pass : ℕ → ℕ → Call
  leave : ℕ → Call
  disappear : ℕ → Call

abbrev pub run : Call → World → Result
run (invite p invited) w = player_invite_to_party p invited w
run (join p leader) w = player_join_party p leader w
run (revoke p invited) w = player_revoke_party_invitation p invited w
run (pass p new_leader) w = player_pass_party_leadership p new_leader w
run (leave p) w = player_leave_party p w
run (disappear p) w = on_creature_disappear p w

unfoldable pub runs : List Call → World → Result
runs [] w = some (true, w)
runs (c ∷ cs) w = elim (run c w) [ none ↦ none | some (done, w') ↦ runs cs w' ]

abbrev pub NotSelf : Call → Type 0
NotSelf (invite p invited) = p ≢ invited
NotSelf (join p leader) = Unit
NotSelf (revoke p invited) = Unit
NotSelf (pass p new_leader) = Unit
NotSelf (leave p) = Unit
NotSelf (disappear p) = Unit

pub run-Keeps : (c : Call) (w : World) → NotSelf c → Inv w → Keeps (run c w)
run-Keeps (invite p invited) w apart inv = player_invite_to_party-Keeps p invited w apart inv
run-Keeps (join p leader) w apart inv = player_join_party-Keeps p leader w inv
run-Keeps (revoke p invited) w apart inv = player_revoke_party_invitation-Keeps p invited w inv
run-Keeps (pass p new_leader) w apart inv = player_pass_party_leadership-Keeps p new_leader w inv
run-Keeps (leave p) w apart inv = player_leave_party-Keeps p w inv
run-Keeps (disappear p) w apart inv = on_creature_disappear-Keeps p w inv

-- No party, and nobody invited.
abbrev pub no_parties : World
no_parties = record {
  player = λ p. record { party = none; invite_party_list = [] };
  party = λ k. none;
  next = 0;
}

pub no_parties-Inv : Inv no_parties
no_parties-Inv = record {
  agrees = λ k. record {
    seated = λ p. refl;
    invited = λ p. refl;
    apart = λ p h. refl;
    once = λ p. omega arith;
    others = tt;
  };
  fresh = λ k h. refl;
}

-- Whether nobody invites himself.
abbrev pub AllNotSelf : List Call → Type 0
AllNotSelf [] = Unit
AllNotSelf (c ∷ cs) = NotSelf c × AllNotSelf cs

runs-Keeps : (cs : List Call) (w : World) → AllNotSelf cs → Inv w → Keeps (runs cs w)
unfolding runs
runs-Keeps [] w apart inv = inv
runs-Keeps (c ∷ cs) w apart inv =
    let kept = run-Keeps c w apart.0 inv in
    elim (Option-cases (run c w)) [
      | inl e ↦ absurd (subst Keeps e kept)
      | inr (r, e) ↦ rw (e, runs) (runs-Keeps cs r.1 apart.1 (subst Keeps e kept))
    ]

-- Whether an operation returns and no party has the player as leader, member or invited then.
abbrev pub Forgets : ℕ → Result → Type 0
Forgets p none = ⊥
Forgets p (some r) = (k : ℕ) → (seats (r.1.party k) p ≡ 0) × (asked (r.1.party k) p ≡ 0)

-- However players call, from a game without parties on and nobody inviting himself, no call reads a
-- party that has been deleted, and players and parties agree afterwards.
pub runs-Inv : (cs : List Call) → AllNotSelf cs → Keeps (runs cs no_parties)
runs-Inv cs apart = runs-Keeps cs no_parties apart no_parties-Inv

-- When players and parties agree and a player leaves the game, the call returns, and no party has him
-- as leader, member or invited then.
pub on_creature_disappear-Forgets :
    (p : ℕ) (w : World) → Inv w → Forgets p (on_creature_disappear p w)
on_creature_disappear-Forgets p w inv =
    let gone = on_creature_disappear-KeepsGone p w inv in
    elim (Option-cases (on_creature_disappear p w)) [
      | inl e ↦ absurd (subst (KeepsGone p) e gone)
      | inr (r, e) ↦
          let (kept, (free, uninvited)) = subst (KeepsGone p) e gone in
          rw (e, Forgets)
            (λ k.
              (ground (arith, (kept.agrees k).seated p), ground (arith, (kept.agrees k).invited p)))
    ]

-- A player without a party and without invitations who invites himself, leaves the party that this
-- founds and leaves the game makes the game read the party after it has been deleted.
pub invite_himself-none :
    (p : ℕ) (w : World)
    → (w.player p).party ≡ none
    → (w.player p).invite_party_list ≡ []
    → runs (invite p p ∷ leave p ∷ disappear p ∷ []) w ≡ none
unfolding runs player_invite_to_party invite_player player_leave_party leave_party store_or_disband
    disband uninvite_all clear_all on_creature_disappear clear_party_invitations remove_invites
invite_himself-none p w free uninvited = ground arith
