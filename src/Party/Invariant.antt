-- ===== src/Party/Invariant.antt =====
-- What holds of players and parties between two operations: both sides agree on who is in a party
-- and who is invited to it.
use mathlib.Core.Path.{subst}
use jamera_server.Base.{
  ℕ, ◌+◌, ◌≤◌, ◌<◌, ◌≡◌, inl, inr, sym, ◌∙◌, true, false, Option, none, some, ◌==◌, if◌then◌else◌,
  count, Bool-cases, arith,
}
use jamera_server.Party.{Party, Player, World, Result, set_at, points_to, disband_party}

-- How often a party has a player as leader or member, and how often as invited.
abbrev pub seats : Option Party → ℕ → ℕ
seats none p = 0
seats (some t) p = (if t.leader == p then 1 else 0) + count p t.member_list

abbrev pub asked : Option Party → ℕ → ℕ
asked none p = 0
asked (some t) p = count p t.invite_list

-- Whether a player's own pointer leads to a party, as a number.
abbrev pub belongs : Player → ℕ → ℕ
belongs x k = if points_to x.party k then 1 else 0

-- Neither alone nor without anybody invited.
abbrev pub HasOthers : Option Party → Type 0
HasOthers none = Unit
HasOthers (some t) = disband_party t ≡ false

-- What holds of the party at one place.
pub record Agrees (k : ℕ) (party : Option Party) (player : ℕ → Player) : Type 0 where
  pub seated : (p : ℕ) → seats party p ≡ belongs (player p) k
  pub invited : (p : ℕ) → count k (player p).invite_party_list ≡ asked party p
  pub apart : (p : ℕ) → points_to (player p).party k ≡ true → asked party p ≡ 0
  pub once : (p : ℕ) → asked party p ≤ 1
  pub others : HasOthers party

pub record Inv (w : World) : Type 0 where
  pub agrees : (k : ℕ) → Agrees k (w.party k) w.player
  pub fresh : (k : ℕ) → w.next ≤ k → w.party k ≡ none

-- An operation returns, and the invariant holds then.
abbrev pub Keeps : Result → Type 0
Keeps none = ⊥
Keeps (some r) = Inv r.1

-- The same of all places but one.
pub record Around (k : ℕ) (w : World) : Type 0 where
  pub agrees : (j : ℕ) → (k == j) ≡ false → Agrees j (w.party j) w.player
  pub fresh : (j : ℕ) → w.next ≤ j → (k == j) ≡ false → w.party j ≡ none

pub Around-Inv : (k : ℕ) (w : World) → Inv w → Around k w
Around-Inv k w inv = record { agrees = λ j h. inv.agrees j; fresh = λ j h e. inv.fresh j h }

-- The party at the one place is replaced.
pub Inv-Around :
    (k : ℕ) (x : Option Party) (w : World)
    → Around k w
    → Agrees k x w.player
    → k < w.next
    → Inv (record w { party = set_at w.party k x })
Inv-Around k x w around here lt = record {
  agrees = λ j. elim (Bool-cases (k == j)) [
    | inl e ↦
        let same : k ≡ j = ground arith in
        rw (e, set_at) (subst (λ i. Agrees i x w.player) same here)
    | inr e ↦ rw (e, set_at) (around.agrees j e)
  ];
  fresh = λ j h. ground (arith, around.fresh j h);
}

-- Players change only in what concerns that party.
abbrev pub SameElsewhere : ℕ → (ℕ → Player) → (ℕ → Player) → Type 0
SameElsewhere k f g =
    (j p : ℕ)
    → (k == j) ≡ false
    → (belongs (g p) j ≡ belongs (f p) j)
      × (count j (g p).invite_party_list ≡ count j (f p).invite_party_list)

pub Around-players :
    (k : ℕ) (g : ℕ → Player) (w : World)
    → SameElsewhere k w.player g
    → Around k w
    → Around k (record w { player = g })
Around-players k g w same around = record {
  agrees = λ j e.
      let a = around.agrees j e in
      record {
        seated = λ q. a.seated q ∙ sym (same j q e).0;
        invited = λ q. (same j q e).1 ∙ a.invited q;
        apart = λ q h. a.apart q (ground (arith, same j q e));
        once = a.once;
        others = a.others;
      };
  fresh = around.fresh;
}
