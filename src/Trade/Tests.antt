-- ===== src/Trade/Tests.antt =====
-- Trades at concrete inputs: player 1 offers item 10 to player 2, who offers item 20.
use jamera_server.Base.{ℕ, ◌≡◌, refl, Bool, true, false, none, some}
use jamera_server.Base.Dict.{insert}
use jamera_server.Trade.{
  trade_accept, World, put, internal_start_trade, player_accept_trade, View, player_request_trade,
}
use jamera_server.Trade.Invariant.{Inv}
use jamera_server.Trade.Reach.{Reach, start, next, request, accept, idle, Reach-Inv}
use jamera_server.Trade.Accept.{player_accept_trade-fault}

abbrev holds : ℕ → ℕ → Bool
holds a b = false

abbrev holding_count : ℕ → ℕ
holding_count a = 0

abbrev can_add : ℕ → ℕ → Bool
can_add p i = true

abbrev can_remove : ℕ → Bool
can_remove i = true

-- The item with a handle and a client id stands in front of a player.
abbrev view : ℕ → ℕ → View
view handle client_id = record {
  player_found = true;
  partner_found = true;
  partner_near = true;
  player_z = 7;
  offer = some (record {
    handle = handle;
    client_id = client_id;
    pickupable = true;
    unique_id = 0;
    z = 7;
    near = true;
    path = true;
  });
}

abbrev requests : ℕ → ℕ → ℕ → World → World
requests p q handle w = (player_request_trade holds holding_count p q 5 (view handle 5) w).1

abbrev both : World
both = requests 2 1 20 (requests 1 2 10 idle)

both-Reach : Reach both
both-Reach =
    next (next start (request holds holding_count 1 2 5 (view 10 5) idle))
      (request holds holding_count 2 1 5 (view 20 5) (requests 1 2 10 idle))

Reach-Inv_example : Inv both
Reach-Inv_example = Reach-Inv both-Reach

-- Player 2 has accepted.
abbrev ready : World
ready = record both { trader = put both.trader 2 (record (both.trader 2) { state = trade_accept }) }

second_accepts : player_accept_trade can_add can_remove 2 both ≡ some (false, ready)
unfolding player_accept_trade player_request_trade internal_start_trade insert
second_accepts = refl

ready-Inv : Inv ready
ready-Inv =
    Reach-Inv (next both-Reach (accept can_add can_remove 2 false both ready second_accepts))

player_accept_trade-fault_example :
    (w' : World) × (player_accept_trade can_add can_remove 1 (internal_start_trade 1 2 10 idle).1
      ≡ some (false, w'))
    × (player_accept_trade can_add can_remove 2 w' ≡ none)
player_accept_trade-fault_example =
    player_accept_trade-fault can_add can_remove 1 2 10 idle (Reach-Inv start) refl refl refl
