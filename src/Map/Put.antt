-- ===== src/Map/Put.antt =====
-- Map::setTile puts a tile on the leaf of its position.
use jamera_server.Base.{
  ℕ, ◌%◌, ◌^◌, ◌<◌, ◌≡◌, refl, sym, ap, ◌∙◌, true, false, ◌&&◌, Option, none, some, Bool-cases,
  Option-cases, inl, inr, ltb, lt→ltb, ltb→lt, ◌==◌, if◌then◌else◌, arith,
}
use jamera_server.Map.{
  Map, Leaf, Floor, put_floor, put_tile, set_cell, create_floor, tile_of, get_leaf, get_tile,
}
use jamera_server.Map.Tiles.{Inv}
use jamera_server.Map.Links.{Linked, together}

-- The map as a function from positions to tiles, and a tile that is put where none is.
abbrev pub put : ℕ → ℕ → ℕ → ℕ → (ℕ → ℕ → ℕ → Option ℕ) → ℕ → ℕ → ℕ → Option ℕ
put x y z tile tiles x' y' z' =
    if ltb z 16 && (x == x' && y == y' && z == z')
    then (elim (tiles x y z) [ none ↦ some tile | some there ↦ some there ])
    else tiles x' y' z'

-- The floor after the tile is put on it.
abbrev written : Floor → ℕ → ℕ → ℕ → Floor
written floor x y tile = elim (floor (x % 8) (y % 8)) [
  | some there ↦ floor
  | none ↦ set_cell floor (x % 8) (y % 8) tile
]

put_tile-leaves :
    (l x y z tile : ℕ) (m : Map) (j : ℕ)
    → (put_tile l x y z tile m).leaves j
      ≡ put_floor l z (written (create_floor ((m.leaves l).floors z)) x y tile) m.leaves j
unfolding put_tile
put_tile-leaves l x y z tile m j =
    elim (Option-cases (create_floor ((m.leaves l).floors z) (x % 8) (y % 8))) [
      | inl e ↦ rw (e, put_tile) (rw (e, written) refl)
      | inr (t, e) ↦ rw (e, put_tile) (rw (e, written) refl)
    ]

pub put_tile-root : (l x y z tile : ℕ) (m : Map) → (put_tile l x y z tile m).root ≡ m.root
unfolding put_tile
put_tile-root l x y z tile m = ground arith

put_tile-next : (l x y z tile : ℕ) (m : Map) → (put_tile l x y z tile m).next ≡ m.next
unfolding put_tile
put_tile-next l x y z tile m = ground arith

put_floor-same :
    {B : Type 0} (field : Leaf → B) (l z : ℕ) (floor : Floor) (f : ℕ → Leaf) (j : ℕ)
    → ((a : Leaf) (g : ℕ → Option Floor) → field (record a { floors = g }) ≡ field a)
    → field (put_floor l z floor f j) ≡ field (f j)
put_floor-same field l z floor f j h = elim (Bool-cases (l == j)) [
  | inl e ↦
      let same : l ≡ j = ground arith in
      rw e
        (h (f l) (λ k. if z == k then some floor else (f l).floors k) ∙ ap (λ k. field (f k)) same)
  | inr e ↦ rw e refl
]

put_tile-same :
    {B : Type 0} (field : Leaf → B) (l x y z tile : ℕ) (m : Map) (j : ℕ)
    → ((a : Leaf) (g : ℕ → Option Floor) → field (record a { floors = g }) ≡ field a)
    → field ((put_tile l x y z tile m).leaves j) ≡ field (m.leaves j)
put_tile-same field l x y z tile m j h =
    ap field (put_tile-leaves l x y z tile m j)
    ∙ put_floor-same field l z (written (create_floor ((m.leaves l).floors z)) x y tile) m.leaves j
        h

pub put_tile-Inv : (l x y z tile : ℕ) (m : Map) → Inv m → Inv (put_tile l x y z tile m)
put_tile-Inv l x y z tile m inv =
    let k = inv.linked in
    rw (put_tile-root l x y z tile m, put_tile-next l x y z tile m)
      (record {
        fits = inv.fits;
        node = inv.node;
        linked = record {
          along = k.along;
          apart = k.apart;
          allocated = k.allocated;
          south = λ x' y' j h.
              put_tile-same (λ a. a.leaf_s) l x y z tile m j (λ a g. refl) ∙ k.south x' y' j h;
          east = λ x' y' j h.
              put_tile-same (λ a. a.leaf_e) l x y z tile m j (λ a g. refl) ∙ k.east x' y' j h;
        };
      })

cell_lem :
    (floor : Option Floor) (x y x' y' tile : ℕ)
    → written (create_floor floor) x y tile (x' % 8) (y' % 8) ≡ (
        if x % 8 == x' % 8 && y % 8 == y' % 8
        then (elim (tile_of floor x y) [ none ↦ some tile | some there ↦ some there ])
        else tile_of floor x' y')
cell_lem none x y x' y' tile = refl
cell_lem (some floor) x y x' y' tile = elim (Option-cases (floor (x % 8) (y % 8))) [
  | inl e ↦ rw (e, written) refl
  | inr (t, e) ↦ rw (e, written) (ground arith)
]

get_tile-at :
    (m : Map) (x y z l : ℕ)
    → get_leaf m.root x y ≡ some l
    → z < 16
    → get_tile m x y z ≡ tile_of ((m.leaves l).floors z) x y
unfolding get_tile
get_tile-at m x y z l h k = rw (h, get_tile) (rw (lt→ltb z 16 k) refl)

get_tile-nowhere : (m : Map) (x y z : ℕ) → get_leaf m.root x y ≡ none → get_tile m x y z ≡ none
unfolding get_tile
get_tile-nowhere m x y z h = rw (h, get_tile) (ground arith)

get_tile-above : (m : Map) (x y z : ℕ) → ltb z 16 ≡ false → get_tile m x y z ≡ none
unfolding get_tile
get_tile-above m x y z h = rw h refl

-- In a map with the leaf for a position the tile is put there.
module _ (l x y z tile : ℕ) (m : Map) (k : Linked (get_leaf m.root) m.leaves m.next)
    (found : get_leaf m.root x y ≡ some l) (hx : x < 2 ^ 16) (hy : y < 2 ^ 16) (hz : z < 16) where
  abbrev pub after : Map
  after = put_tile l x y z tile m

  view_here :
      (x' y' z' : ℕ)
      → x' < 2 ^ 16
      → y' < 2 ^ 16
      → z' < 16
      → together x y x' y' ≡ true
      → get_tile after x' y' z' ≡ put x y z tile (get_tile m) x' y' z'
  view_here x' y' z' hx' hy' hz' e =
      let there : get_leaf m.root x' y' ≡ some l = sym (k.along x y x' y' e) ∙ found in
      let self : (l == l) ≡ true = ground arith in
      get_tile-at after x' y' z' l (rw (put_tile-root l x y z tile m) there) hz'
      ∙ ap (λ (a : Leaf). tile_of (a.floors z') x' y') (put_tile-leaves l x y z tile m l)
      ∙ rw (self, get_tile-at m x y z l found hz, get_tile-at m x' y' z' l there hz')
          (elim (Bool-cases (z == z')) [
            | inl q ↦
                let same : z ≡ z' = ground arith in
                let cell : (x % 8 == x' % 8 && y % 8 == y' % 8)
                    ≡ (ltb z 16 && (x == x' && y == y' && true)) =
                  ground arith in
                rw q (
                  cell_lem ((m.leaves l).floors z) x y x' y' tile
                  ∙ (rw cell (
                      ap
                        (λ k.
                          if ltb z 16 && (x == x' && y == y' && true)
                          then (elim (tile_of ((m.leaves l).floors z) x y) [
                            | none ↦ some tile
                            | some t ↦ some t
                          ])
                          else tile_of ((m.leaves l).floors k) x' y')
                        same)))
            | inr q ↦ rw q (ground arith)
          ])

  view_there :
      (x' y' z' : ℕ)
      → x' < 2 ^ 16
      → y' < 2 ^ 16
      → z' < 16
      → together x y x' y' ≡ false
      → get_tile after x' y' z' ≡ get_tile m x' y' z'
  view_there x' y' z' hx' hy' hz' e = elim (Option-cases (get_leaf m.root x' y')) [
    | inl n ↦
        get_tile-nowhere after x' y' z' (rw (put_tile-root l x y z tile m) n)
        ∙ sym (get_tile-nowhere m x' y' z' n)
    | inr (j, n) ↦
        let other : (l == j) ≡ false = ground (arith, k.apart x y x' y' j) in
        let kept : (after.leaves j).floors ≡ (m.leaves j).floors =
          ap (λ (a : Leaf). a.floors) (put_tile-leaves l x y z tile m j) ∙ rw other refl in
        get_tile-at after x' y' z' j (rw (put_tile-root l x y z tile m) n) hz'
        ∙ ap (λ g. tile_of (g z') x' y') kept
        ∙ sym (get_tile-at m x' y' z' j n hz')
  ]

  pub put_tile-view :
      (x' y' z' : ℕ)
      → x' < 2 ^ 16
      → y' < 2 ^ 16
      → get_tile after x' y' z' ≡ put x y z tile (get_tile m) x' y' z'
  put_tile-view x' y' z' hx' hy' = elim (Bool-cases (ltb z' 16)) [
    | inr h ↦ get_tile-above after x' y' z' h ∙ ground (arith, get_tile-above m x' y' z' h)
    | inl h ↦ elim (Bool-cases (together x y x' y')) [
      | inl e ↦ view_here x' y' z' hx' hy' (ltb→lt z' 16 h) e
      | inr e ↦ view_there x' y' z' hx' hy' (ltb→lt z' 16 h) e ∙ ground arith
    ]
  ]
