-- ===== src/Map/Tree.antt =====
-- The quad tree as a partial function from ways to leaves, and what createLeaf changes of it.
use jamera_server.Base.{
  ℕ, zero, suc, ◌≡◌, refl, Bool, true, false, ◌&&◌, ◌||◌, ◌==◌, if◌then◌else◌, arith, Bool-cases,
  inl, inr, none, some,
}
use jamera_server.Map.{
  QTreeNode, null, node, leaf, index, twice, get_leaf, is_null, set_child, made_child, create_leaf,
}
use jamera_server.Map.Key.{same_way}

-- All leaves of a tree are as deep as they should be.
abbrev pub Fits : ℕ → QTreeNode → Type 0
Fits d null = Unit
Fits zero (leaf l) = Unit
Fits zero (node child) = ⊥
Fits (suc d) (leaf l) = ⊥
Fits (suc d) (node child) = (i : ℕ) → Fits d (child i)

pub get_leaf-same_way :
    (d : ℕ) (t : QTreeNode) (x y x' y' : ℕ)
    → Fits d t
    → same_way d x x' ≡ true
    → same_way d y y' ≡ true
    → get_leaf t x y ≡ get_leaf t x' y'
unfolding get_leaf same_way
get_leaf-same_way d null x y x' y' fits h k = refl
get_leaf-same_way zero (leaf l) x y x' y' fits h k = refl
get_leaf-same_way zero (node child) x y x' y' fits h k = elim fits [ ]
get_leaf-same_way (suc d) (leaf l) x y x' y' fits h k = elim fits [ ]
get_leaf-same_way (suc d) (node child) x y x' y' fits h k =
    let same : index x y ≡ index x' y' = ground arith in
    let rest =
      get_leaf-same_way d (child (index x y)) (twice x) (twice y) (twice x') (twice y')
        (fits (index x y)) (ground arith) (ground arith) in
    ground (arith, same, rest)

-- What createLeaf returns, with d levels of nodes below its own.
pub record Created (d next : ℕ) (t : QTreeNode) (x y : ℕ) : Type 0 where
  pub root : QTreeNode
  pub number : ℕ
  pub new : Bool
  pub made : create_leaf (suc (suc d)) next t x y ≡ some (root, number, new)
  pub fits : Fits d root
  pub node : is_null root ≡ false
  pub found :
      (x' y' : ℕ)
      → get_leaf root x' y'
        ≡ (if same_way d x x' && same_way d y y' then some number else get_leaf t x' y')
  pub previous : get_leaf t x y ≡ (if new then none else some number)
  pub allocated : new ≡ true → number ≡ next

record Made (d next : ℕ) (t : QTreeNode) (s : QTreeNode) : Type 0 where
  fits : Fits d s
  not_null : is_null s ≡ false
  found :
      (x y : ℕ)
      → get_leaf s x y ≡ (if is_null t && suc (suc (suc d)) == 3 then some next else get_leaf t x y)

made_child-Made :
    (d next : ℕ) (t : QTreeNode) → Fits d t → Made d next t (made_child (suc (suc (suc d))) next t)
unfolding get_leaf
made_child-Made zero next null fits = record { fits = tt; not_null = refl; found = λ x y. refl }
made_child-Made (suc d) next null fits =
    let deep : (suc (suc (suc (suc d))) == 3) ≡ false = ground arith in
    record {
      fits = rw (deep, made_child) (λ i. tt);
      not_null = rw (deep, made_child) refl;
      found = λ x y. rw (deep, made_child) refl;
    }
made_child-Made d next (leaf l) fits = record { fits = fits; not_null = refl; found = λ x y. refl }
made_child-Made d next (node child) fits = record {
  fits = fits;
  not_null = refl;
  found = λ x y. refl;
}

get_leaf-is_null : (t : QTreeNode) (x y : ℕ) → is_null t ≡ true → get_leaf t x y ≡ none
unfolding get_leaf
get_leaf-is_null null x y h = refl
get_leaf-is_null (node child) x y h = cc
get_leaf-is_null (leaf l) x y h = cc

-- A node with a child put at its place i.
module _ (child : ℕ → QTreeNode) (i : ℕ) (t : QTreeNode) where
  set_child-Fits :
      (d : ℕ) → ((j : ℕ) → Fits d (child j)) → Fits d t → Fits (suc d) (node (set_child child i t))
  set_child-Fits d fits fit j = elim (Bool-cases (i == j)) [
    | inl e ↦ rw e fit
    | inr e ↦ rw e (fits j)
  ]

  get_leaf-set_child :
      (x y : ℕ)
      → get_leaf (node (set_child child i t)) x y
        ≡ (if i == index x y then get_leaf t (twice x) (twice y) else get_leaf (node child) x y)
  unfolding get_leaf
  get_leaf-set_child x y = elim (Bool-cases (i == index x y)) [
    | inl e ↦ rw (e, get_leaf) refl
    | inr e ↦ rw (e, get_leaf) refl
  ]

  get_leaf-same_index :
      (x y : ℕ) → i ≡ index x y → get_leaf (node child) x y ≡ get_leaf (child i) (twice x) (twice y)
  unfolding get_leaf
  get_leaf-same_index x y e = rw e

same_way-zero : (d x x' : ℕ) → d ≡ 0 → same_way d x x' ≡ true
unfolding same_way
same_way-zero zero x x' h = refl
same_way-zero (suc d) x x' h = ground arith

-- The call for a child of a node, and what comes of it.
module _ (d next : ℕ) (child : ℕ → QTreeNode) (x y : ℕ)
    (m : Made d next (child (index x y)) (made_child (suc (suc (suc d))) next (child (index x y))))
    (r : Created d next
      (made_child (suc (suc (suc d))) next (child (index x y)))
      (twice x)
      (twice y))
    (fits : (i : ℕ) → Fits d (child i)) where
  other_way :
      (x' y' : ℕ)
      → (index x y == index x' y') ≡ false
      → (same_way (suc d) x x' && same_way (suc d) y y') ≡ false
  unfolding same_way
  other_way x' y' h = ground arith

  this_way :
      (x' y' : ℕ)
      → index x y ≡ index x' y'
      → (same_way (suc d) x x' && same_way (suc d) y y')
        ≡ (same_way d (twice x) (twice x') && same_way d (twice y) (twice y'))
  unfolding same_way
  this_way x' y' h = ground arith

  not_new :
      (is_null (child (index x y)) && suc (suc (suc d)) == 3) ≡ true
      → (r.new ≡ false) × (r.number ≡ next)
  not_new h = ground (arith, r.previous, m.found (twice x) (twice y))

  found_below :
      (x' y' : ℕ)
      → get_leaf r.root (twice x') (twice y') ≡ (
          if same_way d (twice x) (twice x') && same_way d (twice y) (twice y')
          then some r.number
          else get_leaf (child (index x y)) (twice x') (twice y'))
  found_below x' y' = elim (Bool-cases (is_null (child (index x y)) && suc (suc (suc d)) == 3)) [
    | inl e ↦
        let z : d ≡ 0 = ground arith in
        ground (
          arith,
          r.found (twice x') (twice y'),
          same_way-zero d (twice x) (twice x') z,
          same_way-zero d (twice y) (twice y') z,
        )
    | inr e ↦ rw (r.found (twice x') (twice y'), m.found (twice x') (twice y'), e)
  ]

  step_found :
      (x' y' : ℕ)
      → get_leaf (node (set_child child (index x y) r.root)) x' y' ≡ (
          if same_way (suc d) x x' && same_way (suc d) y y'
          then some r.number
          else get_leaf (node child) x' y')
  step_found x' y' = elim (Bool-cases (index x y == index x' y')) [
    | inr e ↦ rw (get_leaf-set_child child (index x y) r.root x' y', e, other_way x' y' e) refl
    | inl e ↦
        let same : index x y ≡ index x' y' = ground arith in
        rw
          (
            get_leaf-set_child child (index x y) r.root x' y',
            e,
            this_way x' y' same,
            get_leaf-same_index child (index x y) null x' y' same,
          )
          (found_below x' y')
  ]

  step : Created (suc d) next (node child) x y
  unfolding create_leaf get_leaf
  step = record {
    root = node (set_child child (index x y) r.root);
    number = r.number;
    new = is_null (child (index x y)) && suc (suc (suc d)) == 3 || r.new;
    made = rw (r.made, create_leaf) refl;
    fits = set_child-Fits child (index x y) r.root d fits r.fits;
    node = refl;
    found = step_found;
    previous = ground (
      arith,
      r.previous,
      m.found (twice x) (twice y),
      get_leaf-is_null (child (index x y)) (twice x) (twice y),
    );
    allocated = λ e. ground (arith, r.allocated, not_new);
  }

pub create_leaf-Created :
    (d next : ℕ) (t : QTreeNode) (x y : ℕ) → Fits d t → is_null t ≡ false → Created d next t x y
unfolding create_leaf get_leaf same_way
create_leaf-Created d next null x y fits h = ground arith
create_leaf-Created zero next (leaf l) x y fits h = record {
  root = leaf l;
  number = l;
  new = false;
  made = refl;
  fits = tt;
  node = refl;
  found = λ x' y'. refl;
  previous = refl;
  allocated = λ e. ground arith;
}
create_leaf-Created zero next (node child) x y fits h = elim fits [ ]
create_leaf-Created (suc d) next (leaf l) x y fits h = elim fits [ ]
create_leaf-Created (suc d) next (node child) x y fits h =
    let m = made_child-Made d next (child (index x y)) (fits (index x y)) in
    step d next child x y m
      (create_leaf-Created d next (made_child (suc (suc (suc d))) next (child (index x y)))
        (twice x) (twice y) m.fits m.not_null)
      fits
