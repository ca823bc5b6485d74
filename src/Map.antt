-- ===== src/Map.antt =====
-- The tiles of the map: source 7.6/map.h and map.cpp. A quad tree leads from a position to a leaf,
-- which is numbered as it is allocated, and a leaf has 16 floors of 8 by 8 tiles and pointers to
-- its neighbours in the south and in the east. A tile is the number of its pointer. An unsigned
-- 32-bit number wraps around.
pub mod Key
pub mod Tree
pub mod Tiles
pub mod Put
pub mod Refine
pub mod Links
pub mod PathFinding
mod Tests
use jamera_server.Base.{
  ℕ, zero, suc, ◌+◌, ◌-◌, ◌*◌, ◌/◌, ◌%◌, ◌^◌, Bool, true, false, ◌&&◌, ◌||◌, Option, none, some,
  ltb, ◌==◌, if◌then◌else◌, List, map,
}

-- A pointer to a QTreeNode: NULL, a node with its m_child, or a leaf.
pub data QTreeNode : Type 0 where
  null : QTreeNode
  node : (ℕ → QTreeNode) → QTreeNode
  leaf : ℕ → QTreeNode

abbrev pub empty_node : QTreeNode
empty_node = node (λ i. null)

-- ((x & 0x8000) >> 15) | ((y & 0x8000) >> 14)
abbrev pub index : ℕ → ℕ → ℕ
index x y = x / 2 ^ 15 % 2 + 2 * (y / 2 ^ 15 % 2)

-- x*2
abbrev pub twice : ℕ → ℕ
twice x = x * 2 % 2 ^ 32

-- QTreeNode::getLeaf
unfoldable pub get_leaf : QTreeNode → ℕ → ℕ → Option ℕ
get_leaf null x y = none
get_leaf (leaf l) x y = some l
get_leaf (node child) x y = get_leaf (child (index x y)) (twice x) (twice y)

abbrev pub is_null : QTreeNode → Bool
is_null null = true
is_null (node child) = false
is_null (leaf l) = false

abbrev pub set_child : (ℕ → QTreeNode) → ℕ → QTreeNode → ℕ → QTreeNode
set_child child i t j = if i == j then t else child j

-- The child of a node that createLeaf goes on with.
abbrev pub made_child : ℕ → ℕ → QTreeNode → QTreeNode
made_child level next t = if is_null t then (if level == 3 then leaf next else empty_node) else t

-- QTreeNode::createLeaf: the node then, the leaf, and newLeaf. At level 0 it would go on with the
-- level wrapped around.
unfoldable pub create_leaf : ℕ → ℕ → QTreeNode → ℕ → ℕ → Option (QTreeNode × ℕ × Bool)
create_leaf level next null x y = none
create_leaf level next (leaf l) x y = some (leaf l, l, false)
create_leaf zero next (node child) x y = none
create_leaf (suc level) next (node child) x y =
    let i = index x y in
    let rest = create_leaf level next (made_child (suc level) next (child i)) (twice x) (twice y) in
    elim rest [
      | none ↦ none
      | some (t, l, new_leaf) ↦
          some (node (set_child child i t), l, is_null (child i) && suc level == 3 || new_leaf)
    ]

-- The tiles of a floor, by the last three bits of a position
abbrev pub Floor : Type 0
Floor = ℕ → ℕ → Option ℕ

-- m_array, m_leafS and m_leafE
pub record Leaf : Type 0 where
  pub floors : ℕ → Option Floor
  pub leaf_s : Option ℕ
  pub leaf_e : Option ℕ

abbrev pub new_leaf : Leaf
new_leaf = record { floors = λ z. none; leaf_s = none; leaf_e = none }

-- A Tile by its pointer, whether its flag TILESTATE_REFRESH is set, and its downItems.
pub record Tile : Type 0 where
  pub pointer : ℕ
  pub refresh : Bool
  pub down_items : List ℕ

pub record RefreshBlock : Type 0 where
  pub last_refresh : ℕ
  pub list : List ℕ

-- root, all leaves, and where the next one is put; the leaf that a tile has as its qt_node; and
-- refreshTileMap.
pub record Map : Type 0 where
  pub root : QTreeNode
  pub leaves : ℕ → Leaf
  pub next : ℕ
  pub qt_node : ℕ → Option ℕ
  pub refresh_tile_map : ℕ → Option RefreshBlock

abbrev pub empty_map : Map
empty_map = record {
  root = empty_node;
  leaves = λ l. new_leaf;
  next = 0;
  qt_node = λ t. none;
  refresh_tile_map = λ t. none;
}

abbrev pub tile_of : Option Floor → ℕ → ℕ → Option ℕ
tile_of none x y = none
tile_of (some floor) x y = floor (x % 8) (y % 8)

-- Map::getTile
unfoldable pub get_tile : Map → ℕ → ℕ → ℕ → Option ℕ
get_tile m x y z =
    if ltb z 16
    then (elim (get_leaf m.root x y) [ none ↦ none | some l ↦ tile_of ((m.leaves l).floors z) x y ])
    else none

abbrev pub put_leaf : (ℕ → Leaf) → ℕ → Leaf → ℕ → Leaf
put_leaf f l a k = if l == k then a else f k

abbrev pub set_south : Option ℕ → ℕ → (ℕ → Leaf) → ℕ → Leaf
set_south none l f = f
set_south (some k) l f = put_leaf f k (record (f k) { leaf_s = some l })

abbrev pub set_east : Option ℕ → ℕ → (ℕ → Leaf) → ℕ → Leaf
set_east none l f = f
set_east (some k) l f = put_leaf f k (record (f k) { leaf_e = some l })

abbrev pub keep_south : Option ℕ → ℕ → (ℕ → Leaf) → ℕ → Leaf
keep_south none l f = f
keep_south (some k) l f = put_leaf f l (record (f l) { leaf_s = some k })

abbrev pub keep_east : Option ℕ → ℕ → (ℕ → Leaf) → ℕ → Leaf
keep_east none l f = f
keep_east (some k) l f = put_leaf f l (record (f l) { leaf_e = some k })

-- x - FLOOR_SIZE and x + FLOOR_SIZE
abbrev pub before : ℕ → ℕ
before x = (x + 2 ^ 32 - 8) % 2 ^ 32

-- The links of a new leaf in Map::setTile.
unfoldable pub link_leaf : QTreeNode → ℕ → ℕ → ℕ → (ℕ → Leaf) → ℕ → Leaf
link_leaf root x y l f = keep_east (get_leaf root (x + 8) y) l (
    keep_south (get_leaf root x (y + 8)) l
      (set_east (get_leaf root (before x) y) l (set_south (get_leaf root x (before y)) l f)))

-- QTreeLeafNode::createFloor
abbrev pub create_floor : Option Floor → Floor
create_floor none = λ i j. none
create_floor (some floor) = floor

abbrev pub set_cell : Floor → ℕ → ℕ → ℕ → Floor
set_cell floor x y tile i j = if x == i && y == j then some tile else floor i j

abbrev pub put_floor : ℕ → ℕ → Floor → (ℕ → Leaf) → ℕ → Leaf
put_floor l z floor f =
    put_leaf f l (record (f l) { floors = λ k. if z == k then some floor else (f l).floors k })

-- A tile is put on a floor of a leaf, unless one is there.
unfoldable pub put_tile : ℕ → ℕ → ℕ → ℕ → ℕ → Map → Map
put_tile l x y z tile m =
    let floor = create_floor ((m.leaves l).floors z) in
    elim (floor (x % 8) (y % 8)) [
      | some there ↦ record m { leaves = put_floor l z floor m.leaves }
      | none ↦ record m {
        leaves = put_floor l z (set_cell floor (x % 8) (y % 8) tile) m.leaves;
        qt_node = λ t. if tile == t then some l else m.qt_node t;
      }
    ]

-- The end of Map::setTile: a tile that is to be refreshed is remembered with clones of its items.
unfoldable pub remember : (ℕ → ℕ) → ℕ → Tile → Map → Map
remember clone now tile m =
    if tile.refresh
    then record m {
      refresh_tile_map = λ t.
          if tile.pointer == t
          then some (record { last_refresh = now; list = map clone tile.down_items })
          else m.refresh_tile_map t;
    }
    else m

-- Map::setTile at the time now; `none` if createLeaf would not end.
unfoldable pub set_tile : (ℕ → ℕ) → ℕ → ℕ → ℕ → ℕ → Tile → Map → Option Map
set_tile clone now x y z tile m =
    if ltb z 16
    then elim (create_leaf 15 m.next m.root x y) [
      | none ↦ none
      | some (root, l, false) ↦
          some (remember clone now tile (put_tile l x y z tile.pointer (record m { root = root })))
      | some (root, l, true) ↦ some (
          remember clone now tile (
            put_tile l x y z tile.pointer (record m {
              root = root;
              leaves = link_leaf root x y l (put_leaf m.leaves l new_leaf);
              next = m.next + 1;
            })))
    ]
    else some m
