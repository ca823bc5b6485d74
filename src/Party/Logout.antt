-- ===== src/Party/Logout.antt =====
-- A player leaves the game: first all invitations, then the party.
use mathlib.Core.Path.{subst, fun_ext}
use jamera_server.Base.{
  ℕ, ◌<◌, ◌≡◌, inl, inr, refl, sym, ap, Bool, true, false, ◌&&◌, not, none, some, List, [], ◌∷◌,
  ◌==◌, erase, count, contains-count, Bool-cases, Option-cases, arith,
}
use jamera_server.Party.{
  Party, Player, World, Result, set_player, set_at, set_party, remove_party_invitation,
  disband_party, store_or_disband, disband, uninvite_all, clear_all, is_player_member,
  is_player_invited, remove_invite, leave_party,
}
use jamera_server.Party.Game.{
  at_party, player_leave_party, remove_invites, clear_party_invitations, on_creature_disappear,
}
use jamera_server.Party.Invariant.{seats, asked, Inv, Keeps}
use jamera_server.Party.Calls.{Agrees-party, remove_invite-Inv, leave_party-Inv}
use jamera_server.Party.Disband.{disband_lem}
use jamera_server.Party.Returns.{party_there}

-- A player with another list of invitations.
with_list : ℕ → List ℕ → (ℕ → Player) → ℕ → Player
with_list p l f = set_player f p (record (f p) { invite_party_list = l })

abbrev listed : ℕ → List ℕ → World → World
listed p l w = record w { player = with_list p l w.player }

-- removeInvite, of a player whose list has been emptied and who had the party first in it.
remove_invite_lem :
    (k p : ℕ) (ks : List ℕ) (t : Party) (w : World)
    → is_player_invited p t ≡ true
    → (remove_invite k p t (listed p (k ∷ ks) w)).1 ≡ listed p ks (remove_invite k p t w).1
unfolding remove_invite store_or_disband disband with_list uninvite_all clear_all
remove_invite_lem k p ks t w there =
    let t' : Party = record t { invite_list = erase p t.invite_list } in
    let f = w.player in
    elim (Bool-cases (disband_party t')) [
      | inl e ↦
          let members : t.member_list ≡ [] = ground arith in
          let invites : erase p t.invite_list ≡ [] = ground arith in
          let same : set_party t.leader none (remove_party_invitation p k (with_list p (k ∷ ks) f))
              ≡ with_list p ks (set_party t.leader none (remove_party_invitation p k f)) =
            fun_ext λ q. ground arith in
          rw (there, e, members, invites)
            (ap (λ (g : ℕ → Player). record w { player = g; party = set_at w.party k none }) same)
      | inr e ↦
          let same : remove_party_invitation p k (with_list p (k ∷ ks) f)
              ≡ with_list p ks (remove_party_invitation p k f) =
            fun_ext λ q. ground arith in
          rw (there, e)
            (ap (λ (g : ℕ → Player). record w { player = g; party = set_at w.party k (some t') })
              same)
    ]

pub no_count : (l : List ℕ) → ((j : ℕ) → count j l ≡ 0) → l ≡ []
no_count [] h = refl
no_count (x ∷ xs) h = ground (arith, h x)

-- A list that is empty stays empty.
own_list :
    (k p : ℕ) (t : Party) (w : World)
    → (w.player p).invite_party_list ≡ []
    → ((remove_invite k p t w).1.player p).invite_party_list ≡ []
unfolding remove_invite store_or_disband
own_list k p t w h =
    let t' : Party = record t { invite_list = erase p t.invite_list } in
    let w' = record w { player = remove_party_invitation p k w.player } in
    no_count _ (λ j. ground (arith, (disband_lem k t' w' p).1 j))

listed_own :
    (p : ℕ) (l : List ℕ) (w : World) → (w.player p).invite_party_list ≡ l → listed p l w ≡ w
unfolding with_list
listed_own p l w h =
    let same : with_list p l w.player ≡ w.player = fun_ext λ q. ground arith in
    ap (λ (g : ℕ → Player). record w { player = g }) same

party_asking : (k p : ℕ) (w : World) → 0 < asked (w.party k) p → (t : Party) × (w.party k ≡ some t)
party_asking k p w h = elim (Option-cases (w.party k)) [
  | inl gone ↦ ground arith
  | inr there ↦ there
]

-- The loop over the invitations that have been taken from the player's own list.
abbrev Cleared : ℕ → Result → Type 0
Cleared p none = ⊥
Cleared p (some r) = Inv r.1 × ((r.1.player p).invite_party_list ≡ [])

remove_invites-Cleared :
    (p : ℕ) (ks : List ℕ) (w : World)
    → Inv (listed p ks w)
    → (w.player p).invite_party_list ≡ []
    → Cleared p (remove_invites p ks w)
unfolding remove_invites with_list
remove_invites-Cleared p [] w inv h = (subst Inv (listed_own p [] w h) inv, h)
remove_invites-Cleared p (k ∷ ks) w inv h =
    let asks : count k (k ∷ ks) ≡ asked (w.party k) p = ground (arith, (inv.agrees k).invited p) in
    let (t, there) = party_asking k p w (ground arith) in
    let wanted : is_player_invited p t ≡ true = ground (arith, contains-count p t.invite_list) in
    let step = remove_invite-Inv k p t (listed p (k ∷ ks) w) inv there in
    rw (there, remove_invites)
      (remove_invites-Cleared p ks (remove_invite k p t w).1
        (subst Inv (remove_invite_lem k p ks t w wanted) step) (own_list k p t w h))

-- Player::clearPartyInvitations always returns, and the player is invited by no party then.
clear_party_invitations-Cleared :
    (p : ℕ) (w : World) → Inv w → Cleared p (clear_party_invitations p w)
unfolding clear_party_invitations with_list
clear_party_invitations-Cleared p w inv =
    let l = (w.player p).invite_party_list in
    let w' = listed p [] w in
    let players : with_list p l (with_list p [] w.player) ≡ w.player = fun_ext λ q. ground arith in
    let same : listed p l w' ≡ w = ap (λ (g : ℕ → Player). record w { player = g }) players in
    remove_invites-Cleared p l w' (subst Inv (sym same) inv) (ground arith)

-- Leaving a party changes the player as it should, whether the party is disbanded or not.
stored_or_disbanded :
    (k : ℕ) (alone : Bool) (t : Party) (w : World) (p : ℕ)
    → (w.player p).party ≡ none
    → (w.player p).invite_party_list ≡ []
    → (((store_or_disband k alone t w).player p).party ≡ none)
      × (((store_or_disband k alone t w).player p).invite_party_list ≡ [])
unfolding store_or_disband
stored_or_disbanded k alone t w p free h =
    let d = disband_lem k t w p in (ground (arith, d.0), no_count _ (λ j. ground (arith, d.1 j)))

-- A player whom no party knows.
abbrev pub Gone : ℕ → World → Type 0
Gone p w = ((w.player p).party ≡ none) × ((w.player p).invite_party_list ≡ [])

leave_party-Gone :
    (k p : ℕ) (t : Party) (w : World)
    → 0 < seats (some t) p
    → (w.player p).invite_party_list ≡ []
    → Gone p (leave_party k p t w).1
unfolding leave_party
leave_party-Gone k p t w inside h =
    let known : (not (is_player_member p t) && not (t.leader == p)) ≡ false =
      ground (arith, contains-count p t.member_list) in
    rw known (
      stored_or_disbanded k _ _ (record w { player = set_party p none w.player }) p (ground arith)
        (ground arith))

-- The invariant holds, and no party knows the player.
abbrev pub KeepsGone : ℕ → Result → Type 0
KeepsGone p none = ⊥
KeepsGone p (some r) = Inv r.1 × Gone p r.1

player_leave_party-KeepsGone :
    (p : ℕ) (w : World)
    → Inv w
    → (w.player p).invite_party_list ≡ []
    → KeepsGone p (player_leave_party p w)
unfolding player_leave_party
player_leave_party-KeepsGone p w inv h = elim (Option-cases (w.player p).party) [
  | inl e ↦ rw (e, player_leave_party) (inv, (e, h))
  | inr (k, e) ↦
      let (t, there) = party_there p k w inv e in
      let a = Agrees-party k t w inv there in
      rw (e, player_leave_party, at_party, there)
        (leave_party-Inv k p t w inv there, leave_party-Gone k p t w (ground (arith, a.seated p)) h)
]

pub on_creature_disappear-KeepsGone :
    (p : ℕ) (w : World) → Inv w → KeepsGone p (on_creature_disappear p w)
unfolding on_creature_disappear
on_creature_disappear-KeepsGone p w inv =
    let cleared = clear_party_invitations-Cleared p w inv in
    elim (Option-cases (clear_party_invitations p w)) [
      | inl e ↦ absurd (subst (Cleared p) e cleared)
      | inr (r, e) ↦
          let c = subst (Cleared p) e cleared in
          rw (e, on_creature_disappear) (player_leave_party-KeepsGone p r.1 c.0 c.1)
    ]

pub on_creature_disappear-Keeps : (p : ℕ) (w : World) → Inv w → Keeps (on_creature_disappear p w)
on_creature_disappear-Keeps p w inv =
    let gone = on_creature_disappear-KeepsGone p w inv in
    elim (Option-cases (on_creature_disappear p w)) [
      | inl e ↦ absurd (subst (KeepsGone p) e gone)
      | inr (r, e) ↦ rw (e, Keeps) (subst (KeepsGone p) e gone).0
    ]
