-- ===== src/Trade/Reach.antt =====
-- Every operation of a trade keeps the invariant, and so does every sequence of them.
use mathlib.Core.Path.{subst}
use jamera_server.Base.{
  ℕ, ◌≡◌, inl, inr, refl, sym, Bool, true, false, ◌||◌, not, Option, none, some, [], ◌∷◌, ltb, ◌==◌,
  if◌then◌else◌, Bool-cases, Option-cases, arith,
}
use jamera_server.Base.Dict.{Dict, lookup}
use jamera_server.Trade.{
  TradeState, trade_none, trade_initiated, trade_accept, trade_acknowledge, trade_transfer,
  is_accept, is_transfer, can_accept, World, put, empty, Offer, View, Answer, is_traded,
  request_item, request_offer, player_request_trade, transfer, player_accept_trade, close_one,
  internal_close_trade,
}
use jamera_server.Trade.Invariant.{
  Shape, Inv, closed, lookup-erase_item, closed-Inv, accepted-Inv, moves-Inv,
  internal_start_trade-Inv,
}

module _ (can_add : ℕ → ℕ → Bool) (can_remove : ℕ → Bool) where
  transfer-eq-closed :
      (p q : ℕ) (w w' : World) (b : Bool)
      → transfer can_add can_remove p q w ≡ some (b, w')
      → w' ≡ record (closed p q w) { moves = w'.moves }
  unfolding transfer
  transfer-eq-closed p q w w' b h = ground arith

  transfer-Inv :
      (p q : ℕ) (w w' : World) (b : Bool)
      → Inv w
      → (w.trader p).partner ≡ some q
      → transfer can_add can_remove p q w ≡ some (b, w')
      → Inv w'
  transfer-Inv p q w w' b inv e h =
      subst Inv (sym (transfer-eq-closed p q w w' b h))
        (moves-Inv (closed p q w) w'.moves (closed-Inv p q w inv e))

  player_accept_trade-Inv :
      (p : ℕ) (w w' : World) (b : Bool)
      → Inv w
      → player_accept_trade can_add can_remove p w ≡ some (b, w')
      → Inv w'
  unfolding player_accept_trade
  player_accept_trade-Inv p w w' done inv h = elim (Bool-cases (can_accept (w.trader p).state)) [
    | inr a ↦ let e : w' ≡ w = ground arith in subst Inv (sym e) inv
    | inl a ↦
        let w1 : World = record w {
          trader = put w.trader p (record (w.trader p) { state = trade_accept });
        } in
        let inv1 : Inv w1 = accepted-Inv p w inv a in
        elim (Option-cases (w.trader p).partner) [
          | inl b ↦ let e : w' ≡ w1 = ground arith in subst Inv (sym e) inv1
          | inr (q, b) ↦ elim (Bool-cases (is_accept (w1.trader q).state)) [
            | inl c ↦
                let e : transfer can_add can_remove p q w1 ≡ some (done, w') = ground arith in
                transfer-Inv p q w1 w' done inv1 (ground arith) e
            | inr c ↦ let e : w' ≡ w1 = ground arith in subst Inv (sym e) inv1
          ]
        ]
  ]

module _ (holds : ℕ → ℕ → Bool) (holding_count : ℕ → ℕ) where
  lookup-is_traded :
      (i : ℕ) (m : Dict ℕ) → is_traded holds holding_count i m ≡ false → lookup i m ≡ none
  unfolding is_traded lookup
  lookup-is_traded i [] h = refl
  lookup-is_traded i ((j, owner) ∷ rest) h = ground (arith, lookup-is_traded i rest)

  request_item-Inv :
      (p q : ℕ) (offer : Offer) (w : World)
      → Inv w
      → (q == p) ≡ false
      → Inv (request_item holds holding_count p q offer w).1
  unfolding request_item
  request_item-Inv p q offer w inv ne =
      elim (Bool-cases (is_traded holds holding_count offer.handle w.trade_items)) [
        | inl a ↦ ground (arith, inv)
        | inr a ↦ ground (
          arith,
          inv,
          internal_start_trade-Inv p q offer.handle w inv
              (lookup-is_traded offer.handle w.trade_items a) ne,
        )
      ]

  if-Inv : (b : Bool) (x y : Answer × World) → Inv x.1 → Inv y.1 → Inv (if b then x else y).1
  if-Inv true x y hx hy = hx
  if-Inv false x y hx hy = hy

  if_true-Inv : (b : Bool) (x y : Answer × World) → b ≡ true → Inv x.1 → Inv (if b then x else y).1
  if_true-Inv true x y e hx = hx
  if_true-Inv false x y e hx = cc

  or_true : (b : Bool) → (b || true) ≡ true
  or_true true = refl
  or_true false = refl

  request_offer-Inv :
      (p q sprite_id z : ℕ) (offer : Option Offer) (w : World)
      → Inv w
      → (q == p) ≡ false
      → Inv (request_offer holds holding_count p q sprite_id z offer w).1
  unfolding request_offer
  request_offer-Inv p q sprite_id z none w inv ne = inv
  request_offer-Inv p q sprite_id z (some offer) w inv ne =
      if-Inv
        (not (offer.client_id == sprite_id) || not offer.pickupable || not (offer.unique_id == 0)) _
        _ inv
        (if-Inv (ltb offer.z z) _ _ inv
          (if-Inv (ltb z offer.z) _ _ inv (request_item-Inv p q offer w inv ne)))

  player_request_trade-Inv :
      (p q sprite_id : ℕ) (view : View) (w : World)
      → Inv w
      → Inv (player_request_trade holds holding_count p q sprite_id view w).1
  unfolding player_request_trade
  player_request_trade-Inv p q sprite_id view w inv = elim (Bool-cases (q == p)) [
    | inl self ↦ rw self (
        if-Inv (not view.player_found) _ _ inv
          (if_true-Inv (not view.partner_found || true) _ _ (or_true (not view.partner_found)) inv))
    | inr ne ↦ if-Inv (not view.player_found) _ _ inv (
        if-Inv (not view.partner_found || q == p) _ _ inv (
          if-Inv (not view.partner_near) _ _ inv
            (request_offer-Inv p q sprite_id view.player_z view.offer w inv ne)))
  ]

-- A player without a partner has no item either.
lone_of_fields : (s : TradeState) (i : Option ℕ) → Shape s none i → i ≡ none
lone_of_fields trade_none none h = refl
lone_of_fields trade_none (some i) h = elim h [ ]
lone_of_fields trade_initiated i h = elim h [ ]
lone_of_fields trade_accept i h = elim h [ ]
lone_of_fields trade_acknowledge i h = elim h [ ]
lone_of_fields trade_transfer i h = elim h [ ]

calm_of_fields : (s : TradeState) (q i : Option ℕ) → Shape s q i → is_transfer s ≡ false
calm_of_fields trade_transfer q i h = elim h [ ]
calm_of_fields trade_none q i h = refl
calm_of_fields trade_initiated q i h = refl
calm_of_fields trade_accept q i h = refl
calm_of_fields trade_acknowledge q i h = refl

close_one-Inv : (p : ℕ) (w : World) → Inv w → (w.trader p).partner ≡ none → Inv (close_one p w)
close_one-Inv p w inv e =
    let i =
      lone_of_fields _ _
        (subst (λ x. Shape (w.trader p).state x (w.trader p).item) e (inv.shaped p)) in
    record {
      paired = λ r s h. ground (arith, inv.paired r s);
      apart = λ r. ground (arith, inv.apart r);
      shaped = λ r. elim (Bool-cases (p == r)) [
        | inl b ↦ rw (b, put) tt
        | inr b ↦ rw (b, put) (inv.shaped r)
      ];
      listed = λ r j h.
          ground (arith, inv.listed r j, lookup-erase_item (w.trader p).item j w.trade_items);
      offered = λ r j h.
          ground (arith, inv.offered r j, lookup-erase_item (w.trader p).item j w.trade_items);
    }

internal_close_trade-Inv : (p : ℕ) (w : World) → Inv w → Inv (internal_close_trade p w)
unfolding internal_close_trade
internal_close_trade-Inv p w inv = elim (Option-cases (w.trader p).partner) [
  | inl e ↦
      let calm = calm_of_fields _ _ _ (inv.shaped p) in
      rw (e, internal_close_trade, calm) (close_one-Inv p w inv e)
  | inr (q, e) ↦
      let same : internal_close_trade p w ≡ closed p q w = ground (
        arith,
        calm_of_fields _ _ _ (inv.shaped p),
        calm_of_fields _ _ _ (inv.shaped q),
        inv.apart p,
      ) in
      subst Inv (sym same) (closed-Inv p q w inv e)
]

-- Nobody trades.
abbrev pub idle : World
idle = record { trader = λ p. empty; trade_items = []; moves = [] }

-- What players do, in any order, and with any answers of the map and of the items' places; a player
-- who disappears closes the trade too.
pub data Step : World → World → Type 0 where
  request :
      (holds : ℕ → ℕ → Bool) (holding_count : ℕ → ℕ) (p q sprite_id : ℕ) (view : View) (w : World)
      → Step w (player_request_trade holds holding_count p q sprite_id view w).1
  accept :
      (can_add : ℕ → ℕ → Bool) (can_remove : ℕ → Bool) (p : ℕ) (success : Bool) (w w' : World)
      → player_accept_trade can_add can_remove p w ≡ some (success, w')
      → Step w w'
  close : (p : ℕ) (w : World) → Step w (internal_close_trade p w)

pub data Reach : World → Type 0 where
  start : Reach idle
  next : {w w' : World} → Reach w → Step w w' → Reach w'

Step-Inv : {w w' : World} → Step w w' → Inv w → Inv w'
Step-Inv (request holds holding_count p q sprite_id view w) inv =
    player_request_trade-Inv holds holding_count p q sprite_id view w inv
Step-Inv (accept can_add can_remove p success w w' e) inv =
    player_accept_trade-Inv can_add can_remove p w w' success inv e
Step-Inv (close p w) inv = internal_close_trade-Inv p w inv

-- Whatever players request, accept and close, in any order: a player's partner has that player as
-- partner, and is another; a player has a partner exactly in a trade, and an item when it is the one
-- who has offered; no trade stays in the state of transfer; tradeItems has exactly the items that
-- are so that no item is in two trades.
pub Reach-Inv : {w : World} → Reach w → Inv w
unfolding lookup
Reach-Inv start = record {
  paired = λ p q h. cc;
  apart = λ p h. cc;
  shaped = λ p. tt;
  listed = λ p i h. cc;
  offered = λ p i h. cc;
}
Reach-Inv (next r s) = Step-Inv s (Reach-Inv r)
