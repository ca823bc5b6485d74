-- ===== src/Trade/Accept.antt =====
-- What the acceptance of a trade too early leads to.
use jamera_server.Base.{ℕ, ◌≡◌, ap, ◌∙◌, Bool, true, false, none, some, ◌==◌, arith}
use jamera_server.Trade.{
  trade_none, trade_accept, is_none, World, put, internal_start_trade, transfer,
  player_accept_trade,
}
use jamera_server.Trade.Invariant.{Inv, invites, started_with, none-Shape}

module _ (can_add : ℕ → ℕ → Bool) (can_remove : ℕ → Bool) where
  -- If a player accepts right after the request, before the partner has offered anything, and the
  -- partner then accepts, the server reads the item of the partner through a null pointer.
  pub player_accept_trade-fault :
      (p q i : ℕ) (w : World)
      → Inv w
      → (q == p) ≡ false
      → (w.trader p).state ≡ trade_none
      → (w.trader q).state ≡ trade_none
      → (w' : World) × (player_accept_trade can_add can_remove p (internal_start_trade p q i w).1
          ≡ some (false, w'))
        × (player_accept_trade can_add can_remove q w' ≡ none)
  unfolding player_accept_trade transfer
  player_accept_trade-fault p q i w inv ne sp sq =
      let w1 = invites p q i w in
      let w2 : World = record w1 {
        trader = put w1.trader p (record (w1.trader p) { state = trade_accept });
      } in
      let begun : internal_start_trade p q i w ≡ (true, w1) =
        started_with p q i w ne (ap is_none sp) (ap is_none sq)
          (none-Shape _ _ _ (inv.shaped q) (ap is_none sq)).1 in
      let pq : (p == q) ≡ false = ground arith in
      let first : player_accept_trade can_add can_remove p w1 ≡ some (false, w2) = ground arith in
      let second : player_accept_trade can_add can_remove q w2 ≡ none = ground arith in
      (w2, ap (λ r. player_accept_trade can_add can_remove p r.1) begun ∙ first, second)
