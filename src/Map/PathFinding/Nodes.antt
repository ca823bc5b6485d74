-- ===== src/Map/PathFinding/Nodes.antt =====
-- What getBestNode and getNodeInList of source 7.6/map.cpp find.
use jamera_server.Base.{
  ℕ, zero, suc, ◌+◌, ◌<◌, ◌≡◌, sym, true, ◌&&◌, Option, some, ltb, arith, ◌⊎◌, inl, inr, Bool-cases,
}
use jamera_server.Base.Int.{ℤ, eq_of_parts}
use jamera_server.Map.PathFinding.{AStarNodes, best_from, node_from, eq_ℤ}

pub eq_ℤ→eq : (a b : ℤ) → eq_ℤ a b ≡ true → a ≡ b
eq_ℤ→eq a b h = eq_of_parts a b (ground arith)

pub best_from-open :
    (s : AStarNodes) (left i b : ℕ) (o : Option ℕ) (n : ℕ)
    → best_from s left i b o ≡ some n
    → (o ≡ some n) ⊎ (n < i + left × (s.open_nodes n ≡ true))
unfolding best_from
best_from-open s zero i b o n h = inl h
best_from-open s (suc left) i b o n h = elim (Bool-cases (ltb (s.nodes i).f b && s.open_nodes i)) [
  | inl e ↦ elim (best_from-open s left (suc i) (s.nodes i).f (some i) n (rw (e, best_from) at h)) [
    | inl q ↦ (let same : some i ≡ some n = q in inr (ground (arith)))
    | inr q ↦ inr (omega (arith, q.0), q.1)
  ]
  | inr e ↦ elim (best_from-open s left (suc i) b o n (rw (e, best_from) at h)) [
    | inl q ↦ inl q
    | inr q ↦ inr (omega (arith, q.0), q.1)
  ]
]

pub node_from-at :
    (s : AStarNodes) (x y : ℤ) (left i k : ℕ)
    → node_from s x y left i ≡ some k
    → k < i + left × ((s.nodes k).x ≡ x) × ((s.nodes k).y ≡ y)
unfolding node_from
node_from-at s x y zero i k h = ground arith
node_from-at s x y (suc left) i k h =
    elim (Bool-cases (eq_ℤ (s.nodes i).x x && eq_ℤ (s.nodes i).y y)) [
      | inl e ↦
          let same : some i ≡ some k = rw (e, node_from) at h in
          let index : i ≡ k = cc in
          (
            omega arith,
            rw (sym index) (eq_ℤ→eq (s.nodes i).x x (ground arith)),
            rw (sym index) (eq_ℤ→eq (s.nodes i).y y (ground arith)),
          )
      | inr e ↦
          (let q = node_from-at s x y left (suc i) k (rw (e, node_from) at h) in
            (omega (arith, q.0), q.1, q.2))
    ]
