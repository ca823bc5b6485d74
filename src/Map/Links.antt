-- ===== src/Map/Links.antt =====
-- The links of a leaf to its neighbours in the south and in the east, in Map::setTile. The
-- coordinates go round: the neighbour of the last row is the first.
use jamera_server.Base.{
  ℕ, ◌+◌, ◌/◌, ◌%◌, ◌^◌, ◌<◌, ◌≡◌, refl, Bool, true, false, ◌&&◌, Option, none, some, Bool-cases,
  Option-cases, inl, inr, ◌==◌, ◌∙◌, if◌then◌else◌, arith,
}
use jamera_server.Map.{Leaf, new_leaf, set_south, set_east, keep_south, keep_east, before, put_leaf}

-- Whether a pointer is that of a leaf.
abbrev is_at : Option ℕ → ℕ → Bool
is_at none j = false
is_at (some k) j = k == j

abbrev or_else : Option ℕ → Option ℕ → Option ℕ
or_else none b = b
or_else (some a) b = some a

or_else-none : (a : Option ℕ) → or_else a none ≡ a
or_else-none none = refl
or_else-none (some a) = refl

-- The leaves with the links of the leaf l to and from its neighbours in the north, the west, the
-- south and the east.
abbrev pub relinked : Option ℕ → Option ℕ → Option ℕ → Option ℕ → ℕ → (ℕ → Leaf) → ℕ → Leaf
relinked n w s e l f = keep_east e l (keep_south s l (set_east w l (set_south n l f)))

module _ (n w s e : Option ℕ) (l : ℕ) (f : ℕ → Leaf) (j : ℕ) where
  pub relinked-floors : (relinked n w s e l f j).floors ≡ (f j).floors
  relinked-floors = ground arith

  module _ (hn : is_at n l ≡ false) (hw : is_at w l ≡ false) where
    relinked-leaf_s :
        (relinked n w s e l f j).leaf_s
        ≡ (if l == j then or_else s (f j).leaf_s else if is_at n j then some l else (f j).leaf_s)
    relinked-leaf_s = ground arith

    relinked-leaf_e :
        (relinked n w s e l f j).leaf_e
        ≡ (if l == j then or_else e (f j).leaf_e else if is_at w j then some l else (f j).leaf_e)
    relinked-leaf_e = ground arith

-- Whether two positions lie in the square of one leaf.
abbrev pub together : ℕ → ℕ → ℕ → ℕ → Bool
together x y x' y' = x / 8 % 2 ^ 13 == x' / 8 % 2 ^ 13 && y / 8 % 2 ^ 13 == y' / 8 % 2 ^ 13

-- The way to a leaf leads to the links that the leaf has.
pub record Linked (look : ℕ → ℕ → Option ℕ) (leaves : ℕ → Leaf) (next : ℕ) : Type 0 where
  pub along : (x y x' y' : ℕ) → together x y x' y' ≡ true → look x y ≡ look x' y'
  pub apart :
      (x y x' y' l : ℕ) → look x y ≡ some l → look x' y' ≡ some l → together x y x' y' ≡ true
  pub allocated : (x y l : ℕ) → look x y ≡ some l → l < next
  pub south : (x y l : ℕ) → look x y ≡ some l → (leaves l).leaf_s ≡ look x (y + 8)
  pub east : (x y l : ℕ) → look x y ≡ some l → (leaves l).leaf_e ≡ look (x + 8) y

-- With a leaf for the square of a position.
abbrev pub overlay : (ℕ → ℕ → Option ℕ) → ℕ → ℕ → ℕ → ℕ → ℕ → Option ℕ
overlay look next cx cy x y = if together cx cy x y then some next else look x y

module _ {look : ℕ → ℕ → Option ℕ} {leaves : ℕ → Leaf} {next : ℕ} (k : Linked look leaves next)
    (cx cy : ℕ) where
  overlay-along :
      (x y x' y' : ℕ)
      → together x y x' y' ≡ true
      → overlay look next cx cy x y ≡ overlay look next cx cy x' y'
  overlay-along x y x' y' h = ground (arith, k.along x y x' y')

  overlay-apart :
      (x y x' y' l : ℕ)
      → overlay look next cx cy x y ≡ some l
      → overlay look next cx cy x' y' ≡ some l
      → together x y x' y' ≡ true
  overlay-apart x y x' y' l h h' =
      ground (arith, k.apart x y x' y' l, k.allocated x y l, k.allocated x' y' l)

  overlay-allocated : (x y l : ℕ) → overlay look next cx cy x y ≡ some l → l < next + 1
  overlay-allocated x y l h = ground (arith, k.allocated x y l)

  not_next :
      (x y : ℕ) → together cx cy x y ≡ false → is_at (overlay look next cx cy x y) next ≡ false
  not_next x y h = rw h (ground (arith, k.allocated x y next))

  -- One direction: the position ahead of a position, and the one behind that of the new leaf.
  module _ (ax ay : ℕ → ℕ) (bx by : ℕ)
      (same : (x y : ℕ) → together cx cy x y ≡ true → together (ax cx) (ay cy) (ax x) (ay y) ≡ true)
      (apart : together cx cy (ax cx) (ay cy) ≡ false)
      (behind : (x y : ℕ) → together bx by x y ≡ together cx cy (ax x) (ay y)) where
    -- The leaf behind the new one is the one that the new one lies ahead of.
    at_behind :
        (x y j : ℕ)
        → together cx cy x y ≡ false
        → look x y ≡ some j
        → is_at (overlay look next cx cy bx by) j ≡ together bx by x y
    at_behind x y j t old = elim (Bool-cases (together cx cy bx by)) [
      | inl b ↦ rw b (ground (arith, k.allocated x y j old))
      | inr b ↦ rw b (elim (Option-cases (look bx by)) [
        | inl e ↦ ground (arith, k.along bx by x y)
        | inr (q, e) ↦ rw e (ground (arith, k.along bx by x y, k.apart bx by x y q))
      ])
    ]

    link :
        (field : ℕ → Option ℕ)
        → ((x y l : ℕ) → look x y ≡ some l → field l ≡ look (ax x) (ay y))
        → (x y j : ℕ) → overlay look next cx cy x y ≡ some j
        → (if next == j
            then overlay look next cx cy (ax cx) (ay cy)
            else if is_at (overlay look next cx cy bx by) j
            then some next
            else field j)
          ≡ overlay look next cx cy (ax x) (ay y)
    link field held x y j h = elim (Bool-cases (together cx cy x y)) [
      | inl t ↦
          let there : next ≡ j = ground arith in
          let clear : together cx cy (ax x) (ay y) ≡ false = ground (arith, same x y t) in
          ground (arith, k.along (ax cx) (ay cy) (ax x) (ay y) (same x y t))
      | inr t ↦
          let old : look x y ≡ some j = rw t at h in
          let other : (next == j) ≡ false = ground (arith, k.allocated x y j old) in
          rw (other, at_behind x y j t old, behind x y) (ground (arith, held x y j old))
    ]

  -- A new leaf has no links of its own yet.
  fresh :
      (field : Leaf → Option ℕ) (s n : Option ℕ) (j : ℕ)
      → field new_leaf ≡ none
      → (if next == j
          then or_else s (field (put_leaf leaves next new_leaf j))
          else if is_at n j
          then some next
          else field (put_leaf leaves next new_leaf j))
        ≡ (if next == j then s else if is_at n j then some next else field (leaves j))
  fresh field s n j h = elim (Bool-cases (next == j)) [
    | inl e ↦ rw (e, h) (or_else-none s)
    | inr e ↦ rw e refl
  ]

  pub relinked-Linked :
      let look' = overlay look next cx cy in
      Linked look'
        (relinked
          (look' cx (before cy))
          (look' (before cx) cy)
          (look' cx (cy + 8))
          (look' (cx + 8) cy)
          next
          (put_leaf leaves next new_leaf))
        (next + 1)
  relinked-Linked =
      let look' = overlay look next cx cy in
      let f = put_leaf leaves next new_leaf in
      let n : is_at (look' cx (before cy)) next ≡ false = not_next cx (before cy) (ground arith) in
      let w : is_at (look' (before cx) cy) next ≡ false = not_next (before cx) cy (ground arith) in
      record {
        along = overlay-along;
        apart = overlay-apart;
        allocated = overlay-allocated;
        south = λ x y l h.
            relinked-leaf_s (look' cx (before cy)) (look' (before cx) cy) (look' cx (cy + 8))
              (look' (cx + 8) cy) next f l n w
            ∙ fresh (λ a. a.leaf_s) (look' cx (cy + 8)) (look' cx (before cy)) l refl
            ∙ link (λ x. x) (λ y. y + 8) cx (before cy) (λ x y t. ground arith) (ground arith)
                (λ x y. ground arith) (λ j. (leaves j).leaf_s) k.south x y l h;
        east = λ x y l h.
            relinked-leaf_e (look' cx (before cy)) (look' (before cx) cy) (look' cx (cy + 8))
              (look' (cx + 8) cy) next f l n w
            ∙ fresh (λ a. a.leaf_e) (look' (cx + 8) cy) (look' (before cx) cy) l refl
            ∙ link (λ x. x + 8) (λ y. y) (before cx) cy (λ x y t. ground arith) (ground arith)
                (λ x y. ground arith) (λ j. (leaves j).leaf_e) k.east x y l h;
      }
