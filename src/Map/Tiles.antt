-- ===== src/Map/Tiles.antt =====
-- Map::setTile makes the leaf for a position, if there is none, and links it.
use jamera_server.Base.{
  ℕ, ◌+◌, ◌≡◌, refl, sym, ◌∙◌, Bool, true, false, Option, none, some, Bool-cases, Option-cases, inl,
  inr, ◌==◌, arith,
}
use mathlib.Core.Path.{fun_ext}
use jamera_server.Map.{
  Map, QTreeNode, Leaf, new_leaf, before, put_leaf, link_leaf, get_leaf, get_tile, is_null,
}
use jamera_server.Map.Key.{same_way_lem}
use jamera_server.Map.Tree.{Fits, Created}
use jamera_server.Map.Links.{Linked, together, overlay, relinked-Linked, relinked-floors}

-- Every leaf of the tree is as deep as the others, and has the right links.
pub record Inv (m : Map) : Type 0 where
  pub fits : Fits 13 m.root
  pub node : is_null m.root ≡ false
  pub linked : Linked (get_leaf m.root) m.leaves m.next

-- The leaf of a position as setTile makes it, before the tile is put there.
pub record Opened (m m' : Map) (x y l : ℕ) : Type 0 where
  pub inv : Inv m'
  pub found : get_leaf m'.root x y ≡ some l
  pub view : (x' y' z' : ℕ) → get_tile m' x' y' z' ≡ get_tile m x' y' z'

-- The map with the new root, and with a new leaf if there is one.
abbrev pub opened : Map → ℕ → ℕ → QTreeNode → ℕ → Bool → Map
opened m x y root l false = record m { root = root }
opened m x y root l true = record m {
  root = root;
  leaves = link_leaf root x y l (put_leaf m.leaves l new_leaf);
  next = m.next + 1;
}

get_leaf-overlay :
    (m : Map) (x y : ℕ) (c : Created 13 m.next m.root x y) (x' y' : ℕ)
    → get_leaf c.root x' y' ≡ overlay (get_leaf m.root) c.number x y x' y'
get_leaf-overlay m x y c x' y' = c.found x' y' ∙ rw (same_way_lem x x', same_way_lem y y') refl

overlay-old :
    (look : ℕ → ℕ → Option ℕ) (l x y : ℕ)
    → ((x y x' y' : ℕ) → together x y x' y' ≡ true → look x y ≡ look x' y')
    → look x y ≡ some l
    → (x' y' : ℕ) → overlay look l x y x' y' ≡ look x' y'
overlay-old look l x y along found x' y' = elim (Bool-cases (together x y x' y')) [
  | inl e ↦ rw e (sym found ∙ along x y x' y' e)
  | inr e ↦ rw e refl
]

get_tile-root :
    (m : Map) (root : QTreeNode)
    → get_leaf root ≡ get_leaf m.root
    → (x y z : ℕ) → get_tile (record m { root = root }) x y z ≡ get_tile m x y z
unfolding get_tile
get_tile-root m root h x y z = rw (h, get_tile) refl

pub Opened-old :
    (m : Map) (x y : ℕ)
    → Inv m
    → (c : Created 13 m.next m.root x y) → c.new ≡ false
    → Opened m (record m { root = c.root }) x y c.number
Opened-old m x y inv c old =
    let found : get_leaf m.root x y ≡ some c.number = c.previous ∙ rw old refl in
    let same : get_leaf c.root ≡ get_leaf m.root = fun_ext (λ x'. fun_ext (λ y'.
      get_leaf-overlay m x y c x' y'
      ∙ overlay-old (get_leaf m.root) c.number x y inv.linked.along found x' y')) in
    record {
      inv = record { fits = c.fits; node = c.node; linked = rw same inv.linked };
      found = rw same found;
      view = λ x' y' z'. get_tile-root m c.root same x' y' z';
    }

link_leaf-floors :
    (root : QTreeNode) (x y l : ℕ) (f : ℕ → Leaf) (j : ℕ)
    → (link_leaf root x y l f j).floors ≡ (f j).floors
unfolding link_leaf
link_leaf-floors root x y l f j =
    relinked-floors (get_leaf root x (before y)) (get_leaf root (before x) y)
      (get_leaf root x (y + 8)) (get_leaf root (x + 8) y) l f j

-- A leaf that is not the new one is as it was but for its links.
get_tile-new :
    (m : Map) (root : QTreeNode) (x y : ℕ)
    → Linked (get_leaf m.root) m.leaves m.next
    → get_leaf m.root x y ≡ none
    → get_leaf root ≡ overlay (get_leaf m.root) m.next x y
    → (x' y' z' : ℕ) → get_tile (opened m x y root m.next true) x' y' z' ≡ get_tile m x' y' z'
unfolding get_tile link_leaf
get_tile-new m root x y k free h x' y' z' = elim (Bool-cases (together x y x' y')) [
  | inl e ↦
      rw (h, get_tile)
        (rw
          (e, get_tile, link_leaf-floors root x y m.next (put_leaf m.leaves m.next new_leaf) m.next)
          (let empty : get_leaf m.root x' y' ≡ none = sym (k.along x y x' y' e) ∙ free in
            let self : (m.next == m.next) ≡ true = ground arith in
            rw (empty, get_tile) (rw self (ground arith))))
  | inr e ↦
      rw (h, get_tile)
        (rw (e, get_tile)
          (elim (Option-cases (get_leaf m.root x' y')) [
            | inl f ↦ rw (f, get_tile) refl
            | inr (l, f) ↦
                rw (f, get_tile)
                  (let other : (m.next == l) ≡ false = ground (arith, k.allocated x' y' l f) in
                    rw (link_leaf-floors root x y m.next (put_leaf m.leaves m.next new_leaf) l)
                      (rw other refl))
          ]))
]

pub Opened-new :
    (m : Map) (x y : ℕ)
    → Inv m
    → (c : Created 13 m.next m.root x y) → c.new ≡ true
    → Opened m (opened m x y c.root c.number true) x y c.number
unfolding link_leaf
Opened-new m x y inv c new =
    let free : get_leaf m.root x y ≡ none = c.previous ∙ rw new refl in
    let number : c.number ≡ m.next = c.allocated new in
    let look : get_leaf c.root ≡ overlay (get_leaf m.root) m.next x y =
      fun_ext (λ x'. fun_ext (λ y'. get_leaf-overlay m x y c x' y' ∙ rw number refl)) in
    rw number (record {
      inv = record {
        fits = c.fits;
        node = c.node;
        linked = rw look (relinked-Linked inv.linked x y);
      };
      found = rw look ground arith;
      view = get_tile-new m c.root x y inv.linked free look;
    })
