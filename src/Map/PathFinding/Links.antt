-- ===== src/Map/PathFinding/Links.antt =====
-- The parents of the nodes in getPathTo of source 7.6/map.cpp.
use jamera_server.Base.{
  ℕ, suc, ◌+◌, ◌<◌, ◌≤◌, ◌≡◌, refl, sym, true, false, Option, none, some, leb, ◌==◌, ==_iff,
  if◌then◌else◌, arith, ◌⊎◌, inl, inr, Bool, Bool-cases, Option-cases, List, [], ◌∷◌,
}
use jamera_server.Base.Int.{ℤ, ◌+ℤ◌}
use jamera_server.Map.PathFinding.{
  AStarNode, AStarNodes, Walker, Direction, offset_x, offset_y, can_walk_to, get_node_in_list,
  create_open_node, get_map_walk_cost, get_tile_walk_cost, set_open,
}
use jamera_server.Map.PathFinding.Search.{
  node_at, reach, try_neighbour, try_neighbours, out_of_range,
}
use jamera_server.Map.PathFinding.Progress.{sum_g-write, Less, more, cheaper, Progress-trans}
use jamera_server.Map.PathFinding.Nodes.{node_from-at}

-- The node b is one step from a, and its cost is higher.
pub record Link (a b : AStarNode) : Type 0 where
  pub by : Direction
  pub lower : a.g < b.g
  pub step_x : b.x ≡ a.x +ℤ offset_x by
  pub step_y : b.y ≡ a.y +ℤ offset_y by

pub record Linked (s : AStarNodes) (b : AStarNode) : Type 0 where
  pub via : ℕ
  pub parent : b.parent ≡ some via
  pub in_list : via < s.cur_node
  pub link : Link (s.nodes via) b

pub record First (x y : ℤ) (b : AStarNode) : Type 0 where
  pub parent : b.parent ≡ none
  pub at_x : b.x ≡ x
  pub at_y : b.y ≡ y

module _ (w : Walker) (z x0 y0 : ℤ) where
  pub record Inv (s : AStarNodes) : Type 0 where
    pub walkable :
        (j : ℕ)
        → j < s.cur_node
        → (tile : ℕ) × (can_walk_to w (s.nodes j).x (s.nodes j).y z ≡ some tile)
    pub linked : (j : ℕ) → j < s.cur_node → First x0 y0 (s.nodes j) ⊎ Linked s (s.nodes j)
    pub bounded : s.cur_node ≤ 512

  -- What holds where a node a is written at i for a step from n.
  pub record Fits (s : AStarNodes) (i cur : ℕ) (a : AStarNode) (n : ℕ) : Type 0 where
    pub old : n < s.cur_node
    pub grows : s.cur_node ≤ cur
    pub bounded : cur ≤ 512
    pub only : (j : ℕ) → j < cur → (i == j) ≡ false → j < s.cur_node
    pub other : (i == n) ≡ false
    pub parent : a.parent ≡ some n
    pub link : Link (s.nodes n) a
    pub same : i < s.cur_node → a.g ≤ (s.nodes i).g × ((s.nodes i).x ≡ a.x) × ((s.nodes i).y ≡ a.y)
    pub walkable : (tile : ℕ) × (can_walk_to w a.x a.y z ≡ some tile)

  Link-lowered : (a c b : AStarNode) → a.g ≤ c.g × (c.x ≡ a.x) × (c.y ≡ a.y) → Link c b → Link a b
  Link-lowered a c b h l = record {
    by = l.by;
    lower = omega (arith, h.0, l.lower);
    step_x = rw (sym h.1) l.step_x;
    step_y = rw (sym h.2) l.step_y;
  }

  abbrev written : AStarNodes → ℕ → ℕ → (ℕ → Bool) → AStarNode → AStarNodes
  written s i cur o a = record {
    nodes = λ j. if i == j then a else s.nodes j;
    open_nodes = o;
    cur_node = cur;
  }

  module _ (s : AStarNodes) (i cur : ℕ) (o : ℕ → Bool) (a : AStarNode) (n : ℕ) (inv : Inv s)
      (fits : Fits s i cur a n) where
    written-Linked : (b : AStarNode) → Linked s b → Linked (written s i cur o a) b
    written-Linked b l = record {
      via = l.via;
      parent = l.parent;
      in_list = omega (arith, l.in_list, fits.grows);
      link = elim (Bool-cases (i == l.via)) [
        | inl e ↦
            let same : i ≡ l.via = (==_iff i l.via).0 e in
            rw e (
              Link-lowered a (s.nodes l.via) b (rw same at (fits.same (omega (arith, l.in_list))))
                l.link)
        | inr e ↦ rw e l.link
      ];
    }

    pub written-Inv : Inv (written s i cur o a)
    written-Inv = record {
      bounded = fits.bounded;
      walkable = λ j h. elim (Bool-cases (i == j)) [
        | inl e ↦ rw e fits.walkable
        | inr e ↦ rw e (inv.walkable j (fits.only j h e))
      ];
      linked = λ j h. elim (Bool-cases (i == j)) [
        | inl e ↦ rw e (
            inr record {
              via = n;
              parent = fits.parent;
              in_list = omega (arith, fits.old, fits.grows);
              link = rw fits.other fits.link;
            })
        | inr e ↦ elim (inv.linked j (fits.only j h e)) [
          | inl q ↦ inl (rw e q)
          | inr q ↦ inr (rw e (written-Linked (s.nodes j) q))
        ]
      ];
    }

  -- What a turn of the loop keeps.
  pub record Keeps (s s' : AStarNodes) : Type 0 where
    pub inv : Inv s'
    pub grows : s.cur_node ≤ s'.cur_node
    pub progress : (s ≡ s') ⊎ Less s s'

  module _ (s : AStarNodes) (n : ℕ) (x y : ℤ) (newg : ℕ) (inv : Inv s) (old : n < s.cur_node)
      (walk : (tile : ℕ) × (can_walk_to w x y z ≡ some tile))
      (link : Link (s.nodes n) (node_at w x y (some n) newg)) where
    skipped : (s' : AStarNodes) → some s ≡ some s' → Keeps s s'
    skipped s' h =
        let same : s ≡ s' = cc in
        rw (sym same) (record { inv = inv; grows = omega arith; progress = inl refl })

    put-Keeps :
        (i cur : ℕ) (o : ℕ → Bool) (s' : AStarNodes)
        → Less s (written s i cur o (node_at w x y (some n) newg))
        → Fits s i cur (node_at w x y (some n) newg) n
        → some (written s i cur o (node_at w x y (some n) newg)) ≡ some s'
        → Keeps s s'
    put-Keeps i cur o s' less fits h =
        let same : written s i cur o (node_at w x y (some n) newg) ≡ s' = cc in
        rw (sym same) (record {
          inv = written-Inv s i cur o (node_at w x y (some n) newg) n inv fits;
          grows = fits.grows;
          progress = inr less;
        })

    created-Fits :
        leb 512 s.cur_node ≡ false
        → Fits s s.cur_node (suc s.cur_node) (node_at w x y (some n) newg) n
    created-Fits room = record {
      old = old;
      grows = omega arith;
      bounded = ground arith;
      only = λ j h e. ground arith;
      other = ground arith;
      parent = refl;
      link = link;
      same = λ h. ground arith;
      walkable = walk;
    }

    module _ (i : ℕ) (found : get_node_in_list s x y ≡ some i)
        (dear : leb (s.nodes i).g newg ≡ false) where
      found-other : (i == n) ≡ false
      found-other = elim (Bool-cases (i == n)) [
        | inr e ↦ e
        | inl e ↦
            let same : i ≡ n = (==_iff i n).0 e in
            let low : leb (s.nodes n).g newg ≡ false = rw same at dear in
            let lower = link.lower in ground arith
      ]

      found-Fits : Fits s i s.cur_node (node_at w x y (some n) newg) n
      found-Fits =
          let at = node_from-at s x y s.cur_node 0 i found in
          record {
            old = old;
            grows = omega arith;
            bounded = inv.bounded;
            only = λ j h e. h;
            other = found-other;
            parent = refl;
            link = link;
            same = λ h. (ground arith, at.1, at.2);
            walkable = walk;
          }

      found-Less : (o : ℕ → Bool) → Less s (written s i s.cur_node o (node_at w x y (some n) newg))
      found-Less o =
          let at = node_from-at s x y s.cur_node 0 i found in
          let low = sum_g-write s.nodes i s.cur_node (node_at w x y (some n) newg) (ground arith) in
          cheaper refl (low.1 (omega (arith, at.0)))

    pub reach-Keeps : (s' : AStarNodes) → reach w n x y newg s ≡ some s' → Keeps s s'
    unfolding reach create_open_node
    reach-Keeps s' h = elim (Option-cases (get_node_in_list s x y)) [
      | inl e ↦ elim (Bool-cases (leb 512 s.cur_node)) [
        | inl full ↦
            let bad : ◌≡◌ {A = Option AStarNodes} none (some s') =
              rw (full, create_open_node) at (rw (e, reach) at h) in
            cc
        | inr room ↦
            put-Keeps s.cur_node (suc s.cur_node) (set_open s.cur_node true s.open_nodes) s'
              (more (omega arith)) (created-Fits room)
              (rw (room, create_open_node) at (rw (e, reach) at h))
      ]
      | inr (i, e) ↦ elim (Bool-cases (leb (s.nodes i).g newg)) [
        | inl cheap ↦ skipped s' (rw cheap at (rw (e, reach) at h))
        | inr dear ↦ elim (Bool-cases (leb 512 i)) [
          | inl out ↦
              put-Keeps i s.cur_node s.open_nodes s' (found-Less i e dear s.open_nodes)
                (found-Fits i e dear) (rw (dear, out) at (rw (e, reach) at h))
          | inr inside ↦
              put-Keeps i s.cur_node (set_open i true s.open_nodes) s'
                (found-Less i e dear (set_open i true s.open_nodes)) (found-Fits i e dear)
                (rw (dear, inside) at (rw (e, reach) at h))
        ]
      ]
    ]

  module _ (n : ℕ) where
    pub try_neighbour-Keeps :
        (d : Direction) (s s' : AStarNodes)
        → Inv s
        → n < s.cur_node
        → try_neighbour w z n d s ≡ some s'
        → Keeps s s'
    unfolding try_neighbour get_map_walk_cost
    try_neighbour-Keeps d s s' inv old h =
        let x = (s.nodes n).x +ℤ offset_x d in
        let y = (s.nodes n).y +ℤ offset_y d in
        elim (Bool-cases (out_of_range w x y)) [
          | inl e ↦
              let same : s ≡ s' = (let q : some s ≡ some s' = rw (e, try_neighbour) at h in cc) in
              rw (sym same) (record { inv = inv; grows = omega arith; progress = inl refl })
          | inr e ↦ elim (Option-cases (can_walk_to w x y z)) [
            | inl q ↦
                let same : s ≡ s' =
                  (let q : some s ≡ some s' = rw q at (rw (e, try_neighbour) at h) in cc) in
                rw (sym same) (record { inv = inv; grows = omega arith; progress = inl refl })
            | inr (tile, q) ↦
                reach-Keeps s n x y
                  ((s.nodes n).g + get_map_walk_cost (s.nodes n) x y + get_tile_walk_cost w tile)
                  inv old (tile, q)
                  (record { by = d; lower = ground arith; step_x = refl; step_y = refl }) s'
                  (rw q at (rw (e, try_neighbour) at h))
          ]
        ]

    pub try_neighbours-Keeps :
        (ds : List Direction) (s s' : AStarNodes)
        → Inv s
        → n < s.cur_node
        → try_neighbours w z n ds s ≡ some s'
        → Keeps s s'
    unfolding try_neighbours
    try_neighbours-Keeps [] s s' inv old h =
        let same : s ≡ s' = cc in
        rw (sym same) (record { inv = inv; grows = omega arith; progress = inl refl })
    try_neighbours-Keeps (d ∷ ds) s s' inv old h = elim (Option-cases (try_neighbour w z n d s)) [
      | inl e ↦
          let bad : ◌≡◌ {A = Option AStarNodes} none (some s') = rw (e, try_neighbours) at h in cc
      | inr (mid, e) ↦
          let k = try_neighbour-Keeps d s mid inv old e in
          let rest =
            try_neighbours-Keeps ds mid s' k.inv (omega (arith, k.grows, old))
              (rw (e, try_neighbours) at h) in
          record {
            inv = rest.inv;
            grows = omega (arith, k.grows, rest.grows);
            progress = Progress-trans s mid s' k.progress rest.progress;
          }
    ]
