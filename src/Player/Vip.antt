-- ===== src/Player/Vip.antt =====
-- The VIP list of a player: addVIP and removeVIP of source 7.6/player.cpp. The list is a set of guids,
-- in their order.
use jamera_server.Base.{
  ℕ, suc, ◌+◌, ◌≤◌, ◌≡◌, refl, Bool, true, false, ltb, ◌==◌, ==_iff, if◌then◌else◌, List, [], ◌∷◌,
  length, contains, contains-count, erase, count, count-erase, put_in, count-put_in, Bool-cases,
  inl, inr, arith,
}

pub record VipPlayer : Type 0 where
  pub guid : ℕ
  pub max_vip_limit : ℕ
  pub vip_list : List ℕ

-- Player::addVIP: the player then, and what it returns
unfoldable pub add_vip : ℕ → VipPlayer → VipPlayer × Bool
add_vip other p =
    if p.guid == other
    then (p, false)
    else if ltb p.max_vip_limit (length p.vip_list)
    then (p, false)
    else if contains other p.vip_list
    then (p, false)
    else (record p { vip_list = put_in other p.vip_list }, true)

-- Player::removeVIP
unfoldable pub remove_vip : ℕ → VipPlayer → VipPlayer × Bool
remove_vip other p =
    if contains other p.vip_list
    then (record p { vip_list = erase other p.vip_list }, true)
    else (p, false)

pub data Call : Type 0 where
  adds : ℕ → Call
  removes : ℕ → Call

abbrev pub call : Call → VipPlayer → VipPlayer
call (adds other) p = (add_vip other p).0
call (removes other) p = (remove_vip other p).0

abbrev pub calls : List Call → VipPlayer → VipPlayer
calls [] p = p
calls (c ∷ cs) p = calls cs (call c p)

-- Nobody stands twice on the list, the player himself does not, and it has at most one entry above
-- the limit.
pub record Inv (limit guid : ℕ) (p : VipPlayer) : Type 0 where
  pub limited : p.max_vip_limit ≡ limit
  pub own : p.guid ≡ guid
  pub once : (k : ℕ) → count k p.vip_list ≤ 1
  pub not_own : count guid p.vip_list ≡ 0
  pub short : length p.vip_list ≤ limit + 1

length-put_in : (k : ℕ) (l : List ℕ) → length (put_in k l) ≡ suc (length l)
length-put_in k [] = refl
length-put_in k (x ∷ xs) = ground (arith, length-put_in k xs)

length-erase_le : (k : ℕ) (l : List ℕ) → length (erase k l) ≤ length l
length-erase_le k [] = omega arith
length-erase_le k (x ∷ xs) = ground (arith, length-erase_le k xs)

module _ (limit guid : ℕ) where
  add_vip-Inv : (other : ℕ) (p : VipPlayer) → Inv limit guid p → Inv limit guid (add_vip other p).0
  unfolding add_vip
  add_vip-Inv other p inv = elim (Bool-cases (p.guid == other)) [
    | inl e ↦ rw e inv
    | inr e ↦ elim (Bool-cases (ltb p.max_vip_limit (length p.vip_list))) [
      | inl full ↦ rw (e, full) inv
      | inr room ↦ elim (Bool-cases (contains other p.vip_list)) [
        | inl old ↦ rw (e, room, old) inv
        | inr new ↦
            rw (e, room, new)
              (record {
                limited = inv.limited;
                own = inv.own;
                once = λ k.
                    (let one = inv.once k in
                      let c = count-put_in other k p.vip_list in
                      elim (Bool-cases (other == k)) [
                        | inl q ↦
                            let same : other ≡ k = (==_iff other k).0 q in
                            let none_yet : contains k p.vip_list ≡ ltb 0 (count k p.vip_list) =
                              contains-count k p.vip_list in
                            let absent : contains k p.vip_list ≡ false = rw same at new in
                            ground arith
                        | inr q ↦ ground arith
                      ]);
                not_own =
                    (let none_yet = inv.not_own in
                      let own = inv.own in
                      let c = count-put_in other guid p.vip_list in ground arith);
                short =
                    (let l = inv.limited in let q = length-put_in other p.vip_list in ground arith);
              })
      ]
    ]
  ]

  remove_vip-Inv :
      (other : ℕ) (p : VipPlayer) → Inv limit guid p → Inv limit guid (remove_vip other p).0
  unfolding remove_vip
  remove_vip-Inv other p inv = elim (Bool-cases (contains other p.vip_list)) [
    | inr e ↦ rw e inv
    | inl e ↦ rw e (record {
      limited = inv.limited;
      own = inv.own;
      once = λ k. (let one = inv.once k in let c = count-erase other k p.vip_list in ground arith);
      not_own =
          (let none_yet = inv.not_own in let c = count-erase other guid p.vip_list in ground arith);
      short = (let s = inv.short in omega (arith, length-erase_le other p.vip_list));
    })
  ]

  call-Inv : (c : Call) (p : VipPlayer) → Inv limit guid p → Inv limit guid (call c p)
  call-Inv (adds other) p inv = add_vip-Inv other p inv
  call-Inv (removes other) p inv = remove_vip-Inv other p inv

  -- Whomever a player adds and removes: nobody stands twice on his VIP list, he himself never does,
  -- and it has at most one entry more than maxVipLimit.
  pub calls-Inv : (cs : List Call) (p : VipPlayer) → Inv limit guid p → Inv limit guid (calls cs p)
  calls-Inv [] p inv = inv
  calls-Inv (c ∷ cs) p inv = calls-Inv cs (call c p) (call-Inv c p inv)
