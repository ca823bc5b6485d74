-- ===== src/Party/Disband.antt =====
-- The end of a party: nobody has a pointer to it any longer.
use jamera_server.Base.{
  ℕ, ◌-◌, ◌≤◌, ◌<◌, ◌≡◌, inl, inr, refl, true, false, none, some, List, [], ◌∷◌, ltb, ◌==◌,
  if◌then◌else◌, contains, count, contains-count, count-erase, Bool-cases, arith,
}
use jamera_server.Party.{
  Party, Player, World, points_to, set_party, remove_party_invitation, disband_party, uninvite_all,
  clear_all, disband, store_or_disband,
}
use jamera_server.Party.Invariant.{
  seats, belongs, Agrees, Inv, Around, Inv-Around, SameElsewhere, Around-players,
}

uninvite_all_lem :
    (k : ℕ) (l : List ℕ) (f : ℕ → Player) (p : ℕ)
    → (((uninvite_all k l f) p).party ≡ (f p).party)
      × ((j : ℕ)
          → count j ((uninvite_all k l f) p).invite_party_list ≡ (
              if k == j
              then count j (f p).invite_party_list - count p l
              else count j (f p).invite_party_list))
unfolding uninvite_all
uninvite_all_lem k [] f p = (refl, λ j. ground arith)
uninvite_all_lem k (q ∷ qs) f p =
    let rest = uninvite_all_lem k qs (remove_party_invitation q k f) p in
    (ground (arith, rest.0), λ j. ground (arith, rest.1 j, count-erase k j (f q).invite_party_list))

clear_all_lem :
    (l : List ℕ) (f : ℕ → Player) (p : ℕ)
    → (((clear_all l f) p).party ≡ (if contains p l then none else (f p).party))
      × (((clear_all l f) p).invite_party_list ≡ (f p).invite_party_list)
unfolding clear_all
clear_all_lem [] f p = (refl, refl)
clear_all_lem (q ∷ qs) f p =
    let rest = clear_all_lem qs (set_party q none f) p in
    (ground (arith, rest.0), ground (arith, rest.1))

-- The players after a party has been disbanded.
pub disband_lem :
    (k : ℕ) (t : Party) (w : World) (p : ℕ)
    → (((disband k t w).player p).party
        ≡ (if ltb 0 (seats (some t) p) then none else (w.player p).party))
      × ((j : ℕ)
          → count j ((disband k t w).player p).invite_party_list ≡ (
              if k == j
              then count j (w.player p).invite_party_list - count p t.invite_list
              else count j (w.player p).invite_party_list))
unfolding disband
disband_lem k t w p =
    let f = set_party t.leader none w.player in
    let u = uninvite_all_lem k t.invite_list f p in
    let c = clear_all_lem t.member_list (uninvite_all k t.invite_list f) p in
    (ground (arith, c.0, u.0, contains-count p t.member_list), λ j. ground (arith, c.1, u.1 j))

-- A party can be deleted when all who point to it sit in it, and nobody in it points to another.
pub disband-Inv :
    (k : ℕ) (t : Party) (w : World)
    → Around k w
    → k < w.next
    → ((p : ℕ) → belongs (w.player p) k ≤ seats (some t) p)
    → ((p j : ℕ) → (k == j) ≡ false → 0 < seats (some t) p → belongs (w.player p) j ≡ 0)
    → ((p : ℕ) → count k (w.player p).invite_party_list ≡ count p t.invite_list)
    → Inv (disband k t w)
disband-Inv k t w around lt near own asks =
    let g = (disband k t w).player in
    let same : SameElsewhere k w.player g = λ j p e.
      let d = disband_lem k t w p in (ground (arith, d.0, own p j), ground (arith, d.1 j)) in
    let here : Agrees k none g = record {
      seated = λ p. ground (arith, (disband_lem k t w p).0, near p);
      invited = λ p. ground (arith, (disband_lem k t w p).1 k, asks p);
      apart = λ p h. refl;
      once = λ p. omega arith;
      others = tt;
    } in
    unfold disband in
    Inv-Around k none (record w { player = g }) (Around-players k g w same around) here lt

belongs_once : (x : Player) (k j : ℕ) → (k == j) ≡ false → 0 < belongs x k → belongs x j ≡ 0
belongs_once x k j e h = ground arith

-- Both sides agree on the party that an operation leaves, and it goes if nobody else is left.
pub store_or_disband-Inv :
    (k : ℕ) (t : Party) (w : World)
    → Around k w
    → k < w.next
    → ((p : ℕ) → seats (some t) p ≡ belongs (w.player p) k)
    → ((p : ℕ) → count k (w.player p).invite_party_list ≡ count p t.invite_list)
    → ((p : ℕ) → points_to (w.player p).party k ≡ true → count p t.invite_list ≡ 0)
    → ((p : ℕ) → count p t.invite_list ≤ 1)
    → Inv (store_or_disband k false t w)
unfolding store_or_disband
store_or_disband-Inv k t w around lt seated asks apart once = elim (Bool-cases (disband_party t)) [
  | inl e ↦ rw e (
      disband-Inv k t w around lt (λ p. omega (arith, seated p))
        (λ p j ne h. belongs_once (w.player p) k j ne (omega (arith, seated p))) asks)
  | inr e ↦
      let here : Agrees k (some t) w.player = record {
        seated = seated;
        invited = asks;
        apart = apart;
        once = once;
        others = e;
      } in
      rw e (Inv-Around k (some t) w around here lt)
]
