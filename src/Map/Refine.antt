-- ===== src/Map/Refine.antt =====
-- Map::setTile and Map::getTile implement a function from positions to tiles, in which the first
-- tile of a position stays.
use jamera_server.Base.{
  ℕ, ◌+◌, ◌^◌, ◌<◌, ◌≡◌, refl, ◌∙◌, true, ◌&&◌, Option, none, some, Bool-cases, inl, inr, ltb,
  ltb→lt, ◌==◌, if◌then◌else◌, arith, List, [], ◌∷◌, All,
}
use jamera_server.Map.{Map, Tile, empty_map, get_leaf, get_tile, put_tile, remember, set_tile}
use jamera_server.Map.Tree.{create_leaf-Created}
use jamera_server.Map.Tiles.{Inv, Opened, opened, Opened-old, Opened-new}
use jamera_server.Map.Put.{put, put_tile-Inv, put_tile-view}

remember-Inv :
    (clone : ℕ → ℕ) (now : ℕ) (tile : Tile) (m : Map) → Inv m → Inv (remember clone now tile m)
unfolding remember
remember-Inv clone now tile m inv = elim (Bool-cases tile.refresh) [
  | inl e ↦ rw e (record { fits = inv.fits; node = inv.node; linked = inv.linked })
  | inr e ↦ rw e inv
]

remember-get_tile :
    (clone : ℕ → ℕ) (now : ℕ) (tile : Tile) (m : Map) (x y z : ℕ)
    → get_tile (remember clone now tile m) x y z ≡ get_tile m x y z
unfolding remember
remember-get_tile clone now tile m x y z = elim (Bool-cases tile.refresh) [
  | inl e ↦ rw e (unfold get_tile in refl)
  | inr e ↦ rw e refl
]

-- What setTile returns.
record Stored (clone : ℕ → ℕ) (now x y z : ℕ) (tile : Tile) (m : Map) : Type 0 where
  after : Map
  done : set_tile clone now x y z tile m ≡ some after
  inv : Inv after
  view :
      (x' y' z' : ℕ)
      → x' < 2 ^ 16
      → y' < 2 ^ 16
      → get_tile after x' y' z' ≡ put x y z tile.pointer (get_tile m) x' y' z'

module _ (clone : ℕ → ℕ) (now x y z : ℕ) (tile : Tile) (m : Map) (hx : x < 2 ^ 16)
    (hy : y < 2 ^ 16) where
  stored :
      (m' : Map) (l : ℕ)
      → z < 16
      → Opened m m' x y l
      → set_tile clone now x y z tile m
        ≡ some (remember clone now tile (put_tile l x y z tile.pointer m'))
      → Stored clone now x y z tile m
  stored m' l hz o done = record {
    after = remember clone now tile (put_tile l x y z tile.pointer m');
    done = done;
    inv =
        remember-Inv clone now tile (put_tile l x y z tile.pointer m')
          (put_tile-Inv l x y z tile.pointer m' o.inv);
    view = λ x' y' z' hx' hy'.
        remember-get_tile clone now tile (put_tile l x y z tile.pointer m') x' y' z'
        ∙ put_tile-view l x y z tile.pointer m' o.inv.linked o.found hx hy hz x' y' z' hx' hy'
        ∙ rw (o.view x' y' z', o.view x y z) refl;
  }

  set_tile-Stored : Inv m → Stored clone now x y z tile m
  unfolding set_tile
  set_tile-Stored inv = elim (Bool-cases (ltb z 16)) [
    | inr h ↦ record {
      after = m;
      done = rw h refl;
      inv = inv;
      view = λ x' y' z' hx' hy'. rw h refl;
    }
    | inl h ↦
        let c = create_leaf-Created 13 m.next m.root x y inv.fits inv.node in
        elim (Bool-cases c.new) [
          | inr old ↦
              stored (record m { root = c.root }) c.number (ltb→lt z 16 h)
                (Opened-old m x y inv c old)
                (rw h (rw (c.made, set_tile) (rw (old, set_tile) refl)))
          | inl new ↦
              stored (opened m x y c.root c.number true) c.number (ltb→lt z 16 h)
                (Opened-new m x y inv c new)
                (rw h (rw (c.made, set_tile) (rw (new, set_tile) refl)))
        ]
  ]

-- A call of setTile.
pub record Call : Type 0 where
  pub now : ℕ
  pub x : ℕ
  pub y : ℕ
  pub z : ℕ
  pub tile : Tile

abbrev pub InRange : Call → Type 0
InRange c = (c.x < 2 ^ 16) × (c.y < 2 ^ 16)

abbrev pub set_tiles : (ℕ → ℕ) → List Call → Map → Option Map
set_tiles clone [] m = some m
set_tiles clone (c ∷ cs) m = elim (set_tile clone c.now c.x c.y c.z c.tile m) [
  | none ↦ none
  | some m' ↦ set_tiles clone cs m'
]

-- The tile of the first call for a position on one of the 16 floors.
abbrev pub first : List Call → ℕ → ℕ → ℕ → Option ℕ
first [] x y z = none
first (c ∷ cs) x y z =
    if ltb c.z 16 && (c.x == x && c.y == y && c.z == z) then some c.tile.pointer else first cs x y z

abbrev or_first : Option ℕ → Option ℕ → Option ℕ
or_first none b = b
or_first (some a) b = some a

or_first-none : (a : Option ℕ) → a ≡ or_first a none
or_first-none none = refl
or_first-none (some a) = refl

empty_map-get_tile : (x y z : ℕ) → get_tile empty_map x y z ≡ none
unfolding get_tile get_leaf
empty_map-get_tile x y z = ground arith

record Ran (clone : ℕ → ℕ) (calls : List Call) (m : Map) : Type 0 where
  after : Map
  done : set_tiles clone calls m ≡ some after
  inv : Inv after
  view :
      (x y z : ℕ)
      → x < 2 ^ 16
      → y < 2 ^ 16
      → get_tile after x y z ≡ or_first (get_tile m x y z) (first calls x y z)

put-first :
    (c : Call) (cs : List Call) (tiles : ℕ → ℕ → ℕ → Option ℕ) (x y z : ℕ)
    → or_first (put c.x c.y c.z c.tile.pointer tiles x y z) (first cs x y z)
      ≡ or_first (tiles x y z) (first (c ∷ cs) x y z)
put-first c cs tiles x y z = ground arith

set_tiles-Ran :
    (clone : ℕ → ℕ) (calls : List Call) (m : Map) → All InRange calls → Inv m → Ran clone calls m
set_tiles-Ran clone [] m h inv = record {
  after = m;
  done = refl;
  inv = inv;
  view = λ x y z hx hy. or_first-none (get_tile m x y z);
}
set_tiles-Ran clone (c ∷ cs) m h inv =
    let s = set_tile-Stored clone c.now c.x c.y c.z c.tile m h.0.0 h.0.1 inv in
    let r = set_tiles-Ran clone cs s.after h.1 s.inv in
    record {
      after = r.after;
      done = rw (s.done, set_tiles) r.done;
      inv = r.inv;
      view = λ x y z hx hy.
          r.view x y z hx hy ∙ rw (s.view x y z hx hy) (put-first c cs (get_tile m) x y z);
    }

empty_map-Inv : Inv empty_map
unfolding get_leaf
empty_map-Inv = record {
  fits = λ i. tt;
  node = refl;
  linked = record {
    along = λ x y x' y' h. refl;
    apart = λ x y x' y' l h. cc;
    allocated = λ x y l h. cc;
    south = λ x y l h. cc;
    east = λ x y l h. cc;
  };
}

-- After any calls of setTile on an empty map, at coordinates below 2^16, getTile gives at each
-- position the tile of the first call for it, and none where there was no such call or the floor
-- is not one of the 16; and setTile has always come to its end.
pub set_tiles-first :
    (clone : ℕ → ℕ) (calls : List Call)
    → All InRange calls
    → (m : Map) × (set_tiles clone calls empty_map ≡ some m)
      × ((x y z : ℕ) → x < 2 ^ 16 → y < 2 ^ 16 → get_tile m x y z ≡ first calls x y z)
set_tiles-first clone calls h =
    let r = set_tiles-Ran clone calls empty_map h empty_map-Inv in
    (r.after, r.done, λ x y z hx hy. r.view x y z hx hy ∙ rw (empty_map-get_tile x y z) refl)

-- After any such calls each leaf has as m_leafS and m_leafE the leaves that the tree has 8 further
-- on in the south and in the east, or NULL where it has none, whatever the order in which they
-- were made.
pub set_tiles-links :
    (clone : ℕ → ℕ) (calls : List Call)
    → All InRange calls
    → (m : Map) × (set_tiles clone calls empty_map ≡ some m)
      × ((x y l : ℕ)
          → get_leaf m.root x y ≡ some l
          → ((m.leaves l).leaf_s ≡ get_leaf m.root x (y + 8))
            × ((m.leaves l).leaf_e ≡ get_leaf m.root (x + 8) y))
set_tiles-links clone calls h =
    let r = set_tiles-Ran clone calls empty_map h empty_map-Inv in
    (r.after, r.done, λ x y l e. (r.inv.linked.south x y l e, r.inv.linked.east x y l e))
