-- ===== src/Map/PathFinding/Ends.antt =====
-- The end of the loop of getPathTo in source 7.6/map.cpp. The measure is the nodes that are left,
-- then the sum of the costs g, then the number of open nodes.
use jamera_server.Base.{
  ℕ, zero, suc, ◌+◌, ◌<◌, ◌≤◌, ◌≡◌, refl, sym, true, false, none, some, arith, inl, inr, Bool,
  Bool-cases, Option-cases, ==_iff, ◌==◌, leb, ◌-◌,
}
use jamera_server.Base.Int.{ℤ}
use jamera_server.Map.PathFinding.{
  AStarNodes, Walker, count_nodes, count_open_nodes, set_open, close_node, neighbour_order_list,
  get_best_node,
}
use jamera_server.Map.PathFinding.Search.{
  found, search_from, is_there, goes_on, try_neighbours, Search, no_path,
}
use jamera_server.Map.PathFinding.Nodes.{best_from-open}
use jamera_server.Map.PathFinding.Links.{Inv, try_neighbours-Keeps}
use jamera_server.Map.PathFinding.Progress.{sum_g, Less, more, cheaper}

count_nodes-close :
    (n k : ℕ) (o : ℕ → Bool)
    → o n ≡ true
    → count_nodes (set_open n false o) k ≤ count_nodes o k
      × (n < k → count_nodes (set_open n false o) k < count_nodes o k)
unfolding count_nodes
count_nodes-close n zero o h = (omega arith, λ q. omega arith)
count_nodes-close n (suc k) o h =
    let rest = count_nodes-close n k o h in
    elim (Bool-cases (n == k)) [
      | inl e ↦
          let same : n ≡ k = (==_iff n k).0 e in
          let was_open : o k ≡ true = rw same at h in
          rw (e, was_open) (omega (arith, rest.0), λ q. omega (arith, rest.0))
      | inr e ↦
          let other : ¬ (n ≡ k) = λ q. ground arith in
          rw e (
            omega (arith, rest.0),
            λ q. (let r = rest.1 (omega (arith, other)) in omega (arith, r)),
          )
    ]

add_suc : (k n : ℕ) → k + suc n ≡ suc (k + n)
add_suc k n = omega arith

module _ (w : Walker) (z x0 y0 : ℤ) where
  -- How a search ends: without a way, or at a node where the creature is.
  pub data Outcome : Search → Type 0 where
    no_way : Outcome no_path
    at :
        (i : ℕ)
        → (s : AStarNodes) → Inv w z x0 y0 s
        → i < s.cur_node
        → is_there w (s.nodes i) ≡ true
        → Outcome (found i s)

  -- All fuel from some on is enough.
  abbrev pub Ended : AStarNodes → Type 0
  Ended s = (fuel : ℕ) × ((k : ℕ) → Outcome (search_from (k + fuel) w z s))

  data Smaller (s s' : AStarNodes) : Type 0 where
    less : Less s s' → Smaller s s'
    fewer :
        s.cur_node ≡ s'.cur_node
        → sum_g s.nodes s.cur_node ≡ sum_g s'.nodes s'.cur_node
        → count_open_nodes s' < count_open_nodes s
        → Smaller s s'

  closed-Inv : (n : ℕ) (s : AStarNodes) → Inv w z x0 y0 s → Inv w z x0 y0 (close_node n s)
  closed-Inv n s inv = elim (Bool-cases (leb 512 n)) [
    | inl e ↦ rw e inv
    | inr e ↦ rw e (record {
      walkable = inv.walkable;
      linked = λ j h. elim (inv.linked j h) [
        | inl q ↦ inl q
        | inr q ↦ inr record { via = q.via; parent = q.parent; in_list = q.in_list; link = q.link }
      ];
      bounded = inv.bounded;
    })
  ]

  closed-Less : (n : ℕ) (s s' : AStarNodes) → Less s s' → Less s (close_node n s')
  closed-Less n s s' l = elim (Bool-cases (leb 512 n)) [
    | inl e ↦ rw e l
    | inr e ↦ elim l [ more h ↦ rw e (more h) | cheaper h k ↦ rw e (cheaper h k) ]
  ]

  module _ (s : AStarNodes) (inv : Inv w z x0 y0 s) where
    closed-Smaller : (n : ℕ) → n < s.cur_node → s.open_nodes n ≡ true → Smaller s (close_node n s)
    closed-Smaller n h o =
        let inside : leb 512 n ≡ false = (let b = inv.bounded in ground arith) in
        rw inside (fewer refl refl ((count_nodes-close n s.cur_node s.open_nodes o).1 h))

    expand :
        (n : ℕ)
        → goes_on w s ≡ true
        → get_best_node s ≡ some n
        → n < 0 + s.cur_node × (s.open_nodes n ≡ true)
        → is_there w (s.nodes n) ≡ false
        → ((s' : AStarNodes) → Inv w z x0 y0 s' → Smaller s s' → Ended s')
        → Ended s
    unfolding search_from
    expand n on e best on_way smaller =
        elim (Option-cases (try_neighbours w z n neighbour_order_list s)) [
          | inl q ↦ (1, λ k. rw (add_suc k 0) (rw (on, e, on_way, q, search_from) no_way))
          | inr (after, q) ↦
              let keeps =
                try_neighbours-Keeps w z x0 y0 n neighbour_order_list s after inv
                  (omega (arith, best.0)) q in
              let r =
                smaller (close_node n after) (closed-Inv n after keeps.inv) (elim keeps.progress [
                  | inl same ↦ rw (sym same) (closed-Smaller n (omega (arith, best.0)) best.1)
                  | inr l ↦ less (closed-Less n s after l)
                ]) in
              (suc r.0, λ k. rw (add_suc k r.0) (rw (on, e, on_way, q, search_from) (r.1 k)))
        ]

    step-Ended : ((s' : AStarNodes) → Inv w z x0 y0 s' → Smaller s s' → Ended s') → Ended s
    unfolding search_from
    step-Ended smaller = elim (Bool-cases (goes_on w s)) [
      | inr stops ↦ (1, λ k. rw (add_suc k 0) (rw (stops, search_from) no_way))
      | inl on ↦ elim (Option-cases (get_best_node s)) [
        | inl e ↦ (1, λ k. rw (add_suc k 0) (rw (on, e, search_from) no_way))
        | inr (n, e) ↦ elim (best_from-open s s.cur_node 0 100000 none n e) [
          | inl bad ↦ cc
          | inr best ↦ elim (Bool-cases (is_there w (s.nodes n))) [
            | inl there ↦ (
              1,
              λ k.
                  rw (add_suc k 0)
                    (rw (on, e, there, search_from) (at n s inv (omega (arith, best.0)) there)),
            )
            | inr on_way ↦ expand n on e best on_way smaller
          ]
        ]
      ]
    ]

  ends :
      (a b c : ℕ) (s : AStarNodes)
      → Inv w z x0 y0 s
      → 512 - s.cur_node < a
      → sum_g s.nodes s.cur_node < b
      → count_open_nodes s < c
      → Ended s
  ends zero b c s inv ha hb hc = ground arith
  ends (suc a) zero c s inv ha hb hc = ground arith
  ends (suc a) (suc b) zero s inv ha hb hc = ground arith
  ends (suc a) (suc b) (suc c) s inv ha hb hc = step-Ended s inv (λ s' inv' smaller. elim smaller [
    | less (more h) ↦
        ends a (suc (sum_g s'.nodes s'.cur_node)) (suc (count_open_nodes s')) s' inv'
          (omega (arith, inv'.bounded)) (omega arith) (omega arith)
    | less (cheaper h k) ↦
        ends (suc a) b (suc (count_open_nodes s')) s' inv' (omega arith) (omega arith) (omega arith)
    | fewer h k l ↦ ends (suc a) (suc b) c s' inv' (omega arith) (omega arith) (omega arith)
  ])

  pub search-Ended : (s : AStarNodes) → Inv w z x0 y0 s → Ended s
  search-Ended s inv =
      ends (suc (512 - s.cur_node)) (suc (sum_g s.nodes s.cur_node)) (suc (count_open_nodes s)) s
        inv (omega arith) (omega arith) (omega arith)
