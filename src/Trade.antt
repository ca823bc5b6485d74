-- ===== src/Trade.antt =====
-- Trades between two players, source 7.6/game.cpp, playerRequestTrade to internalCloseTrade, with the
-- fields of source 7.6/player.h. A pointer to a player or an item is its number. The texts sent to
-- clients, the use counters of items and the walk to an item that is too far away are left out.
pub mod Invariant
pub mod Reach
pub mod Accept
mod Tests
use jamera_server.Base.{
  ℕ, ◌+◌, Bool, true, false, ◌&&◌, ◌||◌, not, Option, none, some, List, [], ◌∷◌, ◌++◌, ltb, ◌==◌,
  if◌then◌else◌,
}
use jamera_server.Base.Dict.{Dict, lookup, insert, erase}

-- tradestate_t
pub data TradeState : Type 0 where
  trade_none trade_initiated trade_accept trade_acknowledge trade_transfer : TradeState

-- The tests of a state that the code makes.
abbrev pub is_none : TradeState → Bool
is_none trade_none = true
is_none _ = false

abbrev pub is_acknowledge : TradeState → Bool
is_acknowledge trade_acknowledge = true
is_acknowledge _ = false

abbrev pub is_accept : TradeState → Bool
is_accept trade_accept = true
is_accept _ = false

abbrev pub is_transfer : TradeState → Bool
is_transfer trade_transfer = true
is_transfer _ = false

-- state == TRADE_ACKNOWLEDGE || state == TRADE_INITIATED
abbrev pub can_accept : TradeState → Bool
can_accept trade_acknowledge = true
can_accept trade_initiated = true
can_accept _ = false

-- tradeState, tradePartner and tradeItem of a player
pub record Trader : Type 0 where
  pub state : TradeState
  pub partner : Option ℕ
  pub item : Option ℕ

-- The players' fields, Game::tradeItems, and the calls of internalMoveItem that a trade has made: an
-- item and the player to whom it goes.
pub record World : Type 0 where
  pub trader : ℕ → Trader
  pub trade_items : Dict ℕ
  pub moves : List (ℕ × ℕ)

abbrev pub put : (ℕ → Trader) → ℕ → Trader → ℕ → Trader
put f p t q = if p == q then t else f q

abbrev pub empty : Trader
empty = record { state = trade_none; partner = none; item = none }

-- p == q for a pointer that may be NULL
abbrev pub points_to : Option ℕ → ℕ → Bool
points_to none p = false
points_to (some q) p = q == p

-- internalStartTrade: whether the trade has been started, or goes on.
unfoldable pub internal_start_trade : ℕ → ℕ → ℕ → World → Bool × World
internal_start_trade player trade_partner trade_item w =
    let p = w.trader player in
    let q = w.trader trade_partner in
    if not (is_none p.state) && not (is_acknowledge p.state && points_to p.partner trade_partner)
    then (false, w)
    else if not (is_none q.state) && not (points_to q.partner player)
    then (false, w)
    else (let f = put w.trader player (record {
      state = trade_initiated;
      partner = some trade_partner;
      item = some trade_item;
    }) in
        let q' = f trade_partner in
        let f' =
          if is_none q'.state
          then put f trade_partner (record q' { state = trade_acknowledge; partner = some player })
          else f in
        (true, record w { trader = f'; trade_items = insert trade_item player w.trade_items }))

-- What playerRequestTrade sees of the map: whether the players are near each other, and the item at
-- the position asked for.
pub record Offer : Type 0 where
  pub handle : ℕ
  pub client_id : ℕ
  pub pickupable : Bool
  pub unique_id : ℕ
  pub z : ℕ
  pub near : Bool
  pub path : Bool

pub record View : Type 0 where
  pub player_found : Bool
  pub partner_found : Bool
  pub partner_near : Bool
  pub player_z : ℕ
  pub offer : Option Offer

-- What playerRequestTrade answers, apart from the trade that it starts.
pub data Answer : Type 0 where
  no_player no_partner move_closer notpossible firstgoupstairs firstgodownstairs walks thereisnoway
        already_traded too_many :
      Answer
  started : Bool → Answer

-- `holds a b`: a is a container, and holds b (isHoldingItem). `holding_count`: getItemHoldingCount,
-- and 0 for no container.
module _ (holds : ℕ → ℕ → Bool) (holding_count : ℕ → ℕ) where
  -- The loop over tradeItems.
  pub is_traded : ℕ → Dict ℕ → Bool
  is_traded trade_item [] = false
  is_traded trade_item ((other, owner) ∷ rest) =
      trade_item == other
      || holds trade_item other
      || holds other trade_item
      || is_traded trade_item rest

  -- playerRequestTrade from the test of the distance to the item on.
  pub request_item : ℕ → ℕ → Offer → World → Answer × World
  unfolding is_traded internal_start_trade
  request_item player trade_partner offer w =
      if not offer.near
      then (if offer.path then walks else thereisnoway, w)
      else if is_traded offer.handle w.trade_items
      then (already_traded, w)
      else if ltb 100 (holding_count offer.handle + 1)
      then (too_many, w)
      else (let (success, w') = internal_start_trade player trade_partner offer.handle w in
          (started success, w'))

  -- playerRequestTrade from the search for the item on.
  pub request_offer : ℕ → ℕ → ℕ → ℕ → Option Offer → World → Answer × World
  unfolding request_item
  request_offer player trade_partner sprite_id player_z none w = (notpossible, w)
  request_offer player trade_partner sprite_id player_z (some offer) w =
      if not (offer.client_id == sprite_id) || not offer.pickupable || not (offer.unique_id == 0)
      then (notpossible, w)
      else if ltb offer.z player_z
      then (firstgoupstairs, w)
      else if ltb player_z offer.z
      then (firstgodownstairs, w)
      else request_item player trade_partner offer w

  -- playerRequestTrade
  unfoldable pub player_request_trade : ℕ → ℕ → ℕ → View → World → Answer × World
  unfolding request_offer
  player_request_trade player trade_partner sprite_id view w =
      if not view.player_found
      then (no_player, w)
      else if not view.partner_found || trade_partner == player
      then (no_partner, w)
      else if not view.partner_near
      then (move_closer, w)
      else request_offer player trade_partner sprite_id view.player_z view.offer w

-- find and erase in tradeItems, for a pointer that may be NULL
abbrev pub erase_item : Option ℕ → Dict ℕ → Dict ℕ
erase_item none m = m
erase_item (some item) m = erase item m

-- `can_add p i` and `can_remove i`: the answers of internalAddItem and internalRemoveItem as tests.
module _ (can_add : ℕ → ℕ → Bool) (can_remove : ℕ → Bool) where
  -- internalAddItem and internalRemoveItem of both items, each asked only as the source does.
  abbrev pub tests_pass : ℕ → ℕ → Option ℕ → Option ℕ → Bool
  tests_pass player trade_partner (some item1) (some item2) =
      can_add trade_partner item1 && can_add player item2 && can_remove item1 && can_remove item2
  tests_pass player trade_partner _ _ = false

  -- The calls of internalMoveItem, whose answers are not looked at.
  abbrev pub moves_of : ℕ → ℕ → Option ℕ → Option ℕ → List (ℕ × ℕ)
  moves_of player trade_partner (some item1) (some item2) =
      (item1, trade_partner) ∷ (item2, player) ∷ []
  moves_of player trade_partner _ _ = []

  -- player->tradeItem->onTradeEvent(ON_TRADE_CANCEL, player) of both players, which is a fault
  -- (`none`) if an item is NULL.
  abbrev pub both_there : Option ℕ → Option ℕ → Bool
  both_there (some item1) (some item2) = true
  both_there _ _ = false

  -- playerAcceptTrade once both players have accepted.
  unfoldable pub transfer : ℕ → ℕ → World → Option (Bool × World)
  transfer player trade_partner w =
      let item1 = (w.trader player).item in
      let item2 = (w.trader trade_partner).item in
      let closed = record w {
        trader = put (put w.trader player empty) trade_partner empty;
        trade_items = erase_item item2 (erase_item item1 w.trade_items);
      } in
      if tests_pass player trade_partner item1 item2
      then some
          (true, record closed { moves = w.moves ++ moves_of player trade_partner item1 item2 })
      else if both_there item2 item1
      then some (false, closed)
      else none

  -- playerAcceptTrade, of a player that is found
  unfoldable pub player_accept_trade : ℕ → World → Option (Bool × World)
  player_accept_trade player w =
      let p = w.trader player in
      if not (can_accept p.state)
      then some (false, w)
      else (let w' = record w {
        trader = put w.trader player (record p { state = trade_accept });
      } in
          elim p.partner [
            | none ↦ some (false, w')
            | some trade_partner ↦
                if is_accept (w'.trader trade_partner).state
                then transfer player trade_partner w'
                else some (false, w')
          ])

-- The last part of internalCloseTrade: one player's fields and item.
abbrev pub close_one : ℕ → World → World
close_one player w = record w {
  trader = put w.trader player empty;
  trade_items = erase_item (w.trader player).item w.trade_items;
}

-- internalCloseTrade, by playerCloseTrade and when a player disappears
unfoldable pub internal_close_trade : ℕ → World → World
internal_close_trade player w = elim (w.trader player).partner [
  | none ↦ if is_transfer (w.trader player).state then w else close_one player w
  | some trade_partner ↦
      if is_transfer (w.trader trade_partner).state || is_transfer (w.trader player).state
      then w
      else close_one trade_partner (close_one player w)
]
