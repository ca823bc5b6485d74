-- ===== src/Trade/Invariant.antt =====
-- What holds of all players' trades between two operations.
use mathlib.Core.Path.{subst}
use jamera_server.Base.{
  ℕ, ◌≡◌, ◌≢◌, inl, inr, refl, sym, ap, true, false, ◌&&◌, Option, none, some, List, ◌==◌,
  if◌then◌else◌, Bool-cases, arith,
}
use jamera_server.Base.Dict.{Dict, lookup, insert, lookup-insert, lookup-erase}
use jamera_server.Trade.{
  TradeState, trade_none, trade_initiated, trade_accept, trade_acknowledge, trade_transfer, is_none,
  is_acknowledge, can_accept, World, put, empty, points_to, internal_start_trade, erase_item,
}

-- What a player's fields may be: a partner exactly in a trade, an item as soon as one is offered.
abbrev pub Shape : TradeState → Option ℕ → Option ℕ → Type 0
Shape trade_none none none = Unit
Shape trade_initiated (some q) (some i) = Unit
Shape trade_accept (some q) i = Unit
Shape trade_acknowledge (some q) none = Unit
Shape _ _ _ = ⊥

pub record Inv (w : World) : Type 0 where
  -- A partner's partner is the player.
  pub paired : (p q : ℕ) → (w.trader p).partner ≡ some q → (w.trader q).partner ≡ some p
  pub apart : (p : ℕ) → (w.trader p).partner ≢ some p
  pub shaped : (p : ℕ) → Shape (w.trader p).state (w.trader p).partner (w.trader p).item
  -- tradeItems has the items offered, each with the one player who offers it.
  pub listed : (p i : ℕ) → (w.trader p).item ≡ some i → lookup i w.trade_items ≡ some p
  pub offered : (p i : ℕ) → lookup i w.trade_items ≡ some p → (w.trader p).item ≡ some i

-- Both players leave a trade.
abbrev pub closed : ℕ → ℕ → World → World
closed p q w = record w {
  trader = put (put w.trader p empty) q empty;
  trade_items = erase_item (w.trader q).item (erase_item (w.trader p).item w.trade_items);
}

pub lookup-erase_item :
    (item : Option ℕ) (i : ℕ) (m : Dict ℕ)
    → lookup i (erase_item item m) ≡ (if points_to item i then none else lookup i m)
lookup-erase_item none i m = refl
lookup-erase_item (some item) i m = lookup-erase item i m

pub closed-Inv : (p q : ℕ) (w : World) → Inv w → (w.trader p).partner ≡ some q → Inv (closed p q w)
closed-Inv p q w inv e = record {
  paired = λ r s h. ground (arith, inv.paired r s, inv.paired p q);
  apart = λ r. ground (arith, inv.apart r);
  shaped = λ r. elim (Bool-cases (q == r)) [
    | inl a ↦ rw (a, put) tt
    | inr a ↦ elim (Bool-cases (p == r)) [
      | inl b ↦ rw (a, put, b) tt
      | inr b ↦ rw (a, put, b) (inv.shaped r)
    ]
  ];
  listed = λ r i h. ground (
    arith,
    inv.listed r i,
    inv.listed p i,
    inv.listed q i,
    lookup-erase_item (w.trader q).item i (erase_item (w.trader p).item w.trade_items),
    lookup-erase_item (w.trader p).item i w.trade_items,
  );
  offered = λ r i h. ground (
    arith,
    inv.offered r i,
    inv.offered p i,
    inv.offered q i,
    lookup-erase_item (w.trader q).item i (erase_item (w.trader p).item w.trade_items),
    lookup-erase_item (w.trader p).item i w.trade_items,
  );
}

-- A player who has not accepted yet accepts.
pub accepted-Inv :
    (p : ℕ) (w : World)
    → Inv w
    → can_accept (w.trader p).state ≡ true
    → Inv (record w { trader = put w.trader p (record (w.trader p) { state = trade_accept }) })
accepted-Inv p w inv c = record {
  paired = λ r s h. ground (arith, inv.paired r s);
  apart = λ r. ground (arith, inv.apart r);
  shaped = λ r. elim (Bool-cases (p == r)) [
    | inl a ↦ rw (a, put) (accept_shape (w.trader p).state _ _ c (inv.shaped p))
    | inr a ↦ rw (a, put) (inv.shaped r)
  ];
  listed = λ r i h. ground (arith, inv.listed r i);
  offered = λ r i h. ground (arith, inv.offered r i);
}
  where
    accept_shape :
        (s : TradeState) (q i : Option ℕ)
        → can_accept s ≡ true
        → Shape s q i
        → Shape trade_accept q i
    accept_shape trade_none q i c h = cc
    accept_shape trade_accept q i c h = cc
    accept_shape trade_transfer q i c h = cc
    accept_shape trade_initiated none i c h = elim h [ ]
    accept_shape trade_initiated (some q) i c h = tt
    accept_shape trade_acknowledge none i c h = elim h [ ]
    accept_shape trade_acknowledge (some q) i c h = tt

-- Neither the calls of internalMoveItem nor other players matter.
pub moves-Inv : (w : World) (moves : List (ℕ × ℕ)) → Inv w → Inv (record w { moves = moves })
moves-Inv w moves inv = record {
  paired = inv.paired;
  apart = inv.apart;
  shaped = inv.shaped;
  listed = inv.listed;
  offered = inv.offered;
}

-- What the fields of a player show of one another.
pub none-Shape :
    (s : TradeState) (q i : Option ℕ) → Shape s q i → is_none s ≡ true → (q ≡ none) × (i ≡ none)
none-Shape trade_none none none h e = (refl, refl)
none-Shape trade_none none (some i) h e = elim h [ ]
none-Shape trade_none (some q) i h e = elim h [ ]
none-Shape trade_initiated q i h e = cc
none-Shape trade_accept q i h e = cc
none-Shape trade_acknowledge q i h e = cc
none-Shape trade_transfer q i h e = cc

partner-Shape : (s : TradeState) (q : ℕ) (i : Option ℕ) → Shape s (some q) i → is_none s ≡ false
partner-Shape trade_none q i h = elim h [ ]
partner-Shape trade_initiated q i h = refl
partner-Shape trade_accept q i h = refl
partner-Shape trade_acknowledge q i h = refl
partner-Shape trade_transfer q i h = refl

acknowledge-Shape :
    (s : TradeState) (q i : Option ℕ) → Shape s q i → is_acknowledge s ≡ true → i ≡ none
acknowledge-Shape trade_acknowledge (some q) none h e = refl
acknowledge-Shape trade_acknowledge (some q) (some i) h e = elim h [ ]
acknowledge-Shape trade_acknowledge none i h e = elim h [ ]
acknowledge-Shape trade_none q i h e = cc
acknowledge-Shape trade_initiated q i h e = cc
acknowledge-Shape trade_accept q i h e = cc
acknowledge-Shape trade_transfer q i h e = cc

-- A player offers an item to a player who is free, or in answer to one who has offered.
abbrev pub offers : ℕ → ℕ → ℕ → World → World
offers p q i w = record w {
  trader = put w.trader p (record { state = trade_initiated; partner = some q; item = some i });
  trade_items = insert i p w.trade_items;
}

abbrev pub invites : ℕ → ℕ → ℕ → World → World
invites p q i w = record (offers p q i w) {
  trader =
      put (offers p q i w).trader q
        (record { state = trade_acknowledge; partner = some p; item = none });
}

pub started_with :
    (p q i : ℕ) (w : World)
    → (q == p) ≡ false
    → is_none (w.trader p).state ≡ true
    → is_none (w.trader q).state ≡ true
    → (w.trader q).item ≡ none
    → internal_start_trade p q i w ≡ (true, invites p q i w)
unfolding internal_start_trade
started_with p q i w ne a b qi =
    let pq : (p == q) ≡ false = ground arith in rw (a, put, pq, b, qi) refl

module _ (p q i : ℕ) (w : World) (inv : Inv w) (free : lookup i w.trade_items ≡ none)
    (ne : (q == p) ≡ false) where
  invites-Inv :
      (w.trader p).partner ≡ none
      → (w.trader p).item ≡ none
      → (w.trader q).partner ≡ none
      → (w.trader q).item ≡ none
      → Inv (invites p q i w)
  invites-Inv pn pi qn qi = record {
    paired = λ r s h. ground (arith, inv.paired r s, inv.paired s r);
    apart = λ r. ground (arith, inv.apart r);
    shaped = λ r. elim (Bool-cases (q == r)) [
      | inl a ↦ rw (a, put) tt
      | inr a ↦ elim (Bool-cases (p == r)) [
        | inl b ↦ rw (a, put, b) tt
        | inr b ↦ rw (a, put, b) (inv.shaped r)
      ]
    ];
    listed = λ r j h. ground (arith, inv.listed r j, lookup-insert i j p w.trade_items);
    offered = λ r j h. ground (arith, inv.offered r j, lookup-insert i j p w.trade_items);
  }

  offers-Inv : (w.trader p).partner ≡ some q → (w.trader p).item ≡ none → Inv (offers p q i w)
  offers-Inv pq pi = record {
    paired = λ r s h. ground (arith, inv.paired r s);
    apart = λ r. ground (arith, inv.apart r);
    shaped = λ r. elim (Bool-cases (p == r)) [
      | inl b ↦ rw (b, put) tt
      | inr b ↦ rw (b, put) (inv.shaped r)
    ];
    listed = λ r j h. ground (arith, inv.listed r j, lookup-insert i j p w.trade_items);
    offered = λ r j h. ground (arith, inv.offered r j, lookup-insert i j p w.trade_items);
  }

  pub internal_start_trade-Inv : Inv (internal_start_trade p q i w).1
  unfolding internal_start_trade
  internal_start_trade-Inv = elim (Bool-cases (is_none (w.trader p).state)) [
    | inl a ↦
        let (pn, pi) = none-Shape _ _ _ (inv.shaped p) a in
        elim (Bool-cases (is_none (w.trader q).state)) [
          | inl b ↦
              let (qn, qi) = none-Shape _ _ _ (inv.shaped q) b in
              let e : internal_start_trade p q i w ≡ (true, invites p q i w) =
                started_with p q i w ne a b qi in
              subst Inv (sym (ap (λ r. r.1) e)) (invites-Inv pn pi qn qi)
          | inr b ↦
              let e : internal_start_trade p q i w ≡ (false, w) = ground (arith, inv.paired q p) in
              subst Inv (sym (ap (λ r. r.1) e)) inv
        ]
    | inr a ↦
        elim (Bool-cases (is_acknowledge (w.trader p).state && points_to (w.trader p).partner q)) [
          | inl b ↦
              let pq : (w.trader p).partner ≡ some q = ground arith in
              let qp = inv.paired p q pq in
              let pi = acknowledge-Shape _ _ _ (inv.shaped p) (ground arith) in
              let busy : is_none (w.trader q).state ≡ false =
                partner-Shape _ p _
                  (subst (λ x. Shape (w.trader q).state x (w.trader q).item) qp (inv.shaped q)) in
              let e : internal_start_trade p q i w ≡ (true, offers p q i w) = ground arith in
              subst Inv (sym (ap (λ r. r.1) e)) (offers-Inv pq pi)
          | inr b ↦
              let e : internal_start_trade p q i w ≡ (false, w) = ground arith in
              subst Inv (sym (ap (λ r. r.1) e)) inv
        ]
  ]
