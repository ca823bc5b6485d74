-- ===== src/Party/Calls.antt =====
-- Each operation of a party keeps the invariant.
use mathlib.Core.Path.{subst}
use jamera_server.Base.{
  ℕ, ◌+◌, ◌≤◌, ◌<◌, ◌≡◌, inl, inr, refl, sym, true, false, none, some, List, [], ◌∷◌, ◌++◌, ◌==◌,
  if◌then◌else◌, contains, erase, is_empty, count, contains-count, count-append, count-erase,
  Bool-cases, List-cases, arith,
}
use jamera_server.Party.{
  Party, World, set_at, points_to, set_party, remove_party_invitation, add_party_invitation,
  store_or_disband, is_player_member, is_player_invited, invite_player, join_party, remove_invite,
  pass_party_leadership, leave_party,
}
use jamera_server.Party.Invariant.{
  seats, belongs, Agrees, Inv, Keeps, Around, Around-Inv, Inv-Around, SameElsewhere, Around-players,
}
use jamera_server.Party.Disband.{disband-Inv, store_or_disband-Inv}

pub lt_of_party : (k : ℕ) (t : Party) (w : World) → Inv w → w.party k ≡ some t → k < w.next
lt_of_party k t w inv e = ground (arith, inv.fresh k)

is_empty-snoc : (l : List ℕ) (p : ℕ) → is_empty (l ++ p ∷ []) ≡ false
is_empty-snoc [] p = refl
is_empty-snoc (x ∷ xs) p = refl

-- What an operation on a party starts from.
pub Agrees-party :
    (k : ℕ) (t : Party) (w : World) → Inv w → w.party k ≡ some t → Agrees k (some t) w.player
Agrees-party k t w inv e = subst (λ x. Agrees k x w.player) e (inv.agrees k)

module _ (k p : ℕ) (t : Party) (w : World) where
  -- The new invitation of invitePlayer; the party may be one without members and invitations yet.
  pub invited-Inv :
      Around k w
      → k < w.next
      → ((q : ℕ) → seats (some t) q ≡ belongs (w.player q) k)
      → ((q : ℕ) → count k (w.player q).invite_party_list ≡ count q t.invite_list)
      → ((q : ℕ) → points_to (w.player q).party k ≡ true → count q t.invite_list ≡ 0)
      → ((q : ℕ) → count q t.invite_list ≤ 1)
      → is_player_invited p t ≡ false
      → points_to (w.player p).party k ≡ false
      → Inv (record w {
        player = add_party_invitation p k w.player;
        party = set_at w.party k (some (record t { invite_list = t.invite_list ++ p ∷ [] }));
      })
  invited-Inv around lt seated asks apart once ne out =
      let g = add_party_invitation p k w.player in
      let none_yet : contains k (w.player p).invite_party_list ≡ false = ground (
        arith,
        asks p,
        contains-count k (w.player p).invite_party_list,
        contains-count p t.invite_list,
      ) in
      let same : SameElsewhere k w.player g = λ j q e.
        (ground arith, ground (arith, count-append j (w.player p).invite_party_list (k ∷ []))) in
      let here : Agrees k (some (record t { invite_list = t.invite_list ++ p ∷ [] })) g = record {
        seated = λ q. ground (arith, seated q);
        invited = λ q. ground (
          arith,
          asks q,
          count-append q t.invite_list (p ∷ []),
          count-append k (w.player p).invite_party_list (k ∷ []),
        );
        apart = λ q h. ground (arith, apart q, count-append q t.invite_list (p ∷ []));
        once = λ q.
            ground (
              arith,
              once q,
              count-append q t.invite_list (p ∷ []),
              contains-count p t.invite_list,
            );
        others = ground (arith, is_empty-snoc t.invite_list p);
      } in
      Inv-Around k (some (record t { invite_list = t.invite_list ++ p ∷ [] }))
        (record w { player = g }) (Around-players k g w same around) here lt

  module _ (inv : Inv w) (e : w.party k ≡ some t) where
    pub invite_player-Inv : points_to (w.player p).party k ≡ false → Keeps (invite_player k p t w)
    unfolding invite_player
    invite_player-Inv out =
        let a = Agrees-party k t w inv e in
        elim (Bool-cases (is_player_invited p t)) [
          | inl old ↦ rw old inv
          | inr new ↦ rw new (
              invited-Inv (Around-Inv k w inv) (lt_of_party k t w inv e) a.seated a.invited a.apart
                a.once new out)
        ]

    pub join_party-Inv :
        is_player_invited p t ≡ true → (w.player p).party ≡ none → Keeps (join_party k p t w)
    unfolding join_party
    join_party-Inv wanted free =
        let a = Agrees-party k t w inv e in
        let g = remove_party_invitation p k (set_party p (some k) w.player) in
        let t' : Party = record t {
          member_list = t.member_list ++ p ∷ [];
          invite_list = erase p t.invite_list;
        } in
        let same : SameElsewhere k w.player g = λ j q ne.
          (ground arith, ground (arith, count-erase k j (w.player p).invite_party_list)) in
        let here : Agrees k (some t') g = record {
          seated = λ q. ground (arith, a.seated q, count-append q t.member_list (p ∷ []));
          invited = λ q. ground (
            arith,
            a.invited q,
            count-erase k k (w.player p).invite_party_list,
            count-erase p q t.invite_list,
          );
          apart = λ q h. ground (
            arith,
            a.apart q,
            a.once q,
            count-erase p q t.invite_list,
            contains-count p t.invite_list,
          );
          once = λ q. ground (arith, a.once q, count-erase p q t.invite_list);
          others = ground (arith, is_empty-snoc t.member_list p);
        } in
        Inv-Around k (some t') (record w { player = g })
          (Around-players k g w same (Around-Inv k w inv)) here (lt_of_party k t w inv e)

    pub remove_invite-Inv : Inv (remove_invite k p t w).1
    unfolding remove_invite
    remove_invite-Inv =
        let a = Agrees-party k t w inv e in
        let g = remove_party_invitation p k w.player in
        let t' : Party = record t { invite_list = erase p t.invite_list } in
        let same : SameElsewhere k w.player g = λ j q ne.
          (ground arith, ground (arith, count-erase k j (w.player p).invite_party_list)) in
        elim (Bool-cases (is_player_invited p t)) [
          | inr not_there ↦ rw not_there inv
          | inl there ↦ rw there (
              store_or_disband-Inv k t' (record w { player = g })
                (Around-players k g w same (Around-Inv k w inv)) (lt_of_party k t w inv e)
                (λ q. ground (arith, a.seated q))
                (λ q. ground (
                  arith,
                  a.invited q,
                  count-erase k k (w.player p).invite_party_list,
                  count-erase p q t.invite_list,
                ))
                (λ q h. ground (arith, a.apart q, count-erase p q t.invite_list))
                (λ q. ground (arith, a.once q, count-erase p q t.invite_list)))
        ]

    pub pass_party_leadership-Inv :
        Inv (record w { party = set_at w.party k (some (pass_party_leadership p t).1) })
    unfolding pass_party_leadership
    pass_party_leadership-Inv =
        let a = Agrees-party k t w inv e in
        let here : Agrees k (some (pass_party_leadership p t).1) w.player = record {
          seated = λ q.
              ground
                (arith, a.seated q, count-erase p q t.member_list, contains-count p t.member_list);
          invited = λ q. ground (arith, a.invited q);
          apart = λ q h. ground (arith, a.apart q);
          once = λ q. ground (arith, a.once q);
          others = ground (arith, a.others);
        } in
        Inv-Around k _ w (Around-Inv k w inv) here (lt_of_party k t w inv e)

    -- A member who does not lead leaves, or the leader when another has become it.
    left-Inv :
        (leader : ℕ) (members : List ℕ)
        → ((q : ℕ)
            → (if leader == q then 1 else 0) + count q members
              ≡ (if p == q then 0 else seats (some t) q))
        → seats (some t) p ≡ 1
        → Inv (
            store_or_disband k false
              (record {
                leader = leader;
                member_list = members;
                invite_list = erase p t.invite_list;
              })
              (record w { player = set_party p none w.player }))
    left-Inv leader members split one =
        let a = Agrees-party k t w inv e in
        let g = set_party p none w.player in
        let inside : points_to (w.player p).party k ≡ true = ground (arith, a.seated p) in
        let same : SameElsewhere k w.player g = λ j q ne. (ground arith, ground arith) in
        store_or_disband-Inv k _ (record w { player = g })
          (Around-players k g w same (Around-Inv k w inv)) (lt_of_party k t w inv e)
          (λ q. ground (arith, split q, a.seated q))
          (λ q. ground (arith, a.invited q, count-erase p q t.invite_list, a.apart p inside))
          (λ q h. ground (arith, a.apart q, count-erase p q t.invite_list))
          (λ q. ground (arith, a.once q, count-erase p q t.invite_list))

    -- The leader leaves a party without members.
    alone-Inv :
        t.leader ≡ p
        → t.member_list ≡ []
        → Inv (
            store_or_disband k true
              (record t { invite_list = erase p t.invite_list })
              (record w { player = set_party p none w.player }))
    unfolding store_or_disband
    alone-Inv lead no_members =
        let a = Agrees-party k t w inv e in
        let g = set_party p none w.player in
        let t' : Party = record t { invite_list = erase p t.invite_list } in
        let inside : points_to (w.player p).party k ≡ true = ground (arith, a.seated p) in
        let same : SameElsewhere k w.player g = λ j q ne. (ground arith, ground arith) in
        disband-Inv k t' (record w { player = g }) (Around-players k g w same (Around-Inv k w inv))
          (lt_of_party k t w inv e) (λ q. ground (arith, a.seated q))
          (λ q j ne h. ground (arith, a.seated q))
          (λ q. ground (arith, a.invited q, count-erase p q t.invite_list, a.apart p inside))

    pub leave_party-Inv : Inv (leave_party k p t w).1
    unfolding leave_party pass_party_leadership
    leave_party-Inv =
        let a = Agrees-party k t w inv e in
        let w' = record w { player = set_party p none w.player } in
        elim (Bool-cases (t.leader == p)) [
          | inl lead ↦ elim (List-cases t.member_list) [
            | inl nobody ↦
                let same : (leave_party k p t w).1
                    ≡ store_or_disband k true (record t { invite_list = erase p t.invite_list })
                        w' =
                  ground arith in
                subst Inv (sym same) (alone-Inv (ground arith) nobody)
            | inr (front, rest, members) ↦
                let other : (t.leader == front) ≡ false = ground (arith, a.seated front) in
                let same : (leave_party k p t w).1
                    ≡ store_or_disband k false
                        (record {
                          leader = front;
                          member_list = rest;
                          invite_list = erase p t.invite_list;
                        })
                        w' =
                  ground arith in
                subst Inv (sym same) (
                  left-Inv front rest (λ q. ground (arith, a.seated q, a.seated p))
                    (ground (arith, a.seated p)))
          ]
          | inr not_lead ↦ elim (Bool-cases (is_player_member p t)) [
            | inr stranger ↦ rw (not_lead, stranger) inv
            | inl member ↦
                rw (not_lead, member)
                  (left-Inv t.leader (erase p t.member_list)
                    (λ q. ground (
                      arith,
                      a.seated q,
                      count-erase p q t.member_list,
                      contains-count p t.member_list,
                    ))
                    (ground (arith, a.seated p, contains-count p t.member_list)))
          ]
        ]
