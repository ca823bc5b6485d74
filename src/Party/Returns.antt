-- ===== src/Party/Returns.antt =====
-- Each call that players make returns, and keeps the invariant.
use jamera_server.Base.{
  ℕ, ◌+◌, ◌≡◌, ◌≢◌, inl, inr, refl, ◌&&◌, none, some, [], ◌==◌, Bool-cases, Option-cases, arith,
}
use jamera_server.Party.{Party, World, set_at, points_to, set_party, invite_player}
use jamera_server.Party.Game.{
  at_party, is_inviting, player_invite_to_party, player_join_party, player_revoke_party_invitation,
  player_pass_party_leadership, player_leave_party,
}
use jamera_server.Party.Invariant.{Inv, Keeps, Around, Around-Inv, Around-players}
use jamera_server.Party.Calls.{
  invited-Inv, invite_player-Inv, join_party-Inv, remove_invite-Inv, pass_party_leadership-Inv,
  leave_party-Inv,
}

-- No pointer to a party dangles.
pub party_there :
    (p k : ℕ) (w : World) → Inv w → (w.player p).party ≡ some k → (t : Party) × (w.party k ≡ some t)
party_there p k w inv e = elim (Option-cases (w.party k)) [
  | inl gone ↦ ground (arith, (inv.agrees k).seated p)
  | inr there ↦ there
]

pub player_join_party-Keeps :
    (p leader : ℕ) (w : World) → Inv w → Keeps (player_join_party p leader w)
unfolding player_join_party
player_join_party-Keeps p leader w inv = elim (Option-cases (w.player leader).party) [
  | inl e ↦ rw (e, player_join_party) inv
  | inr (k, e) ↦
      let (t, there) = party_there leader k w inv e in
      elim (Bool-cases (is_inviting leader p t)) [
        | inr f ↦ rw (e, player_join_party, at_party, there, f) inv
        | inl f ↦ elim (Option-cases (w.player p).party) [
          | inr (other, g) ↦ rw (e, player_join_party, at_party, there, f, g) inv
          | inl g ↦
              rw (e, player_join_party, at_party, there, f, g)
                (join_party-Inv k p t w inv there (ground arith) g)
        ]
      ]
]

pub player_revoke_party_invitation-Keeps :
    (p invited : ℕ) (w : World) → Inv w → Keeps (player_revoke_party_invitation p invited w)
unfolding player_revoke_party_invitation
player_revoke_party_invitation-Keeps p invited w inv = elim (Option-cases (w.player p).party) [
  | inl e ↦ rw (e, player_revoke_party_invitation) inv
  | inr (k, e) ↦
      let (t, there) = party_there p k w inv e in
      elim (Bool-cases (is_inviting p invited t)) [
        | inr f ↦ rw (e, player_revoke_party_invitation, at_party, there, f) inv
        | inl f ↦
            rw (e, player_revoke_party_invitation, at_party, there, f)
              (remove_invite-Inv k invited t w inv there)
      ]
]

pub player_pass_party_leadership-Keeps :
    (p q : ℕ) (w : World) → Inv w → Keeps (player_pass_party_leadership p q w)
unfolding player_pass_party_leadership
player_pass_party_leadership-Keeps p q w inv = elim (Option-cases (w.player p).party) [
  | inl e ↦ rw (e, player_pass_party_leadership) inv
  | inr (k, e) ↦
      let (t, there) = party_there p k w inv e in
      elim (Bool-cases (t.leader == p && points_to (w.player q).party k)) [
        | inr f ↦ rw (e, player_pass_party_leadership, at_party, there, f) inv
        | inl f ↦
            rw (e, player_pass_party_leadership, at_party, there, f)
              (pass_party_leadership-Inv k q t w inv there)
      ]
]

pub player_leave_party-Keeps : (p : ℕ) (w : World) → Inv w → Keeps (player_leave_party p w)
unfolding player_leave_party
player_leave_party-Keeps p w inv = elim (Option-cases (w.player p).party) [
  | inl e ↦ rw (e, player_leave_party) inv
  | inr (k, e) ↦
      let (t, there) = party_there p k w inv e in
      rw (e, player_leave_party, at_party, there) (leave_party-Inv k p t w inv there)
]

-- A new party is put where none was, with its leader in it.
founded : ℕ → World → World
founded p w = record w {
  player = set_party p (some w.next) w.player;
  party = set_at w.party w.next (some (record { leader = p; member_list = []; invite_list = [] }));
  next = w.next + 1;
}

founded-Around :
    (p : ℕ) (w : World) → Inv w → (w.player p).party ≡ none → Around w.next (founded p w)
unfolding founded
founded-Around p w inv free =
    let g = set_party p (some w.next) w.player in
    let moved =
      Around-players w.next g w (λ j q ne. (ground arith, ground arith))
        (Around-Inv w.next w inv) in
    record {
      agrees = λ j ne. rw (ne, set_at) (moved.agrees j ne);
      fresh = λ j le ne. ground (arith, moved.fresh j);
    }

pub player_invite_to_party-Keeps :
    (p invited : ℕ) (w : World) → p ≢ invited → Inv w → Keeps (player_invite_to_party p invited w)
unfolding player_invite_to_party invite_player founded
player_invite_to_party-Keeps p invited w apart inv = elim (Option-cases (w.player invited).party) [
  | inr (k, e) ↦
      let (t, there) = party_there invited k w inv e in
      rw (e, player_invite_to_party, at_party, there) inv
  | inl e ↦ elim (Option-cases (w.player p).party) [
    | inl f ↦
        rw (e, f, player_invite_to_party)
          (invited-Inv w.next invited (record { leader = p; member_list = []; invite_list = [] })
            (founded p w) (founded-Around p w inv f) (omega arith)
            (λ q. ground (arith, (inv.agrees w.next).seated q, inv.fresh w.next))
            (λ q. ground (arith, (inv.agrees w.next).invited q, inv.fresh w.next)) (λ q h. refl)
            (λ q. omega arith) refl (ground arith))
    | inr (k, f) ↦
        let (t, there) = party_there p k w inv f in
        elim (Bool-cases (t.leader == p)) [
          | inr g ↦ rw (e, f, player_invite_to_party, at_party, there, g) inv
          | inl g ↦
              rw (e, f, player_invite_to_party, at_party, there, g)
                (invite_player-Inv k invited t w inv there (ground arith))
        ]
  ]
]
