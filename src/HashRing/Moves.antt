-- ===== src/HashRing/Moves.antt =====
-- Which keys move when a node comes or goes.
use database_management_syst.Prelude.{
  ℕ, zero, suc, ◌≡◌, ◌<◌, refl, ◌⊎◌, inl, inr, [], ◌∷◌, Bool-cases, ◌==◌, Option, none, some, All,
  arith,
}
use database_management_syst.Binary.{Bytes}
use database_management_syst.HashRing.{
  Points, ConsistentHashRing, hash, set_point, erase_point, lower_bound, first_node, vnode_key,
  add_points, remove_points, add_node, remove_node, node_at, get_node,
}

lower_bound-set_point :
    (h point : ℕ) (node : Bytes) (ring : Points)
    → (lower_bound h (set_point point node ring) ≡ some node)
      ⊎ (lower_bound h (set_point point node ring) ≡ lower_bound h ring)
unfolding lower_bound set_point
lower_bound-set_point h point node [] = ground arith
lower_bound-set_point h point node ((q, other) ∷ ring) =
    ground (arith, lower_bound-set_point h point node ring)

first_node-set_point :
    (point : ℕ) (node : Bytes) (ring : Points)
    → (first_node (set_point point node ring) ≡ node)
      ⊎ (first_node (set_point point node ring) ≡ first_node ring)
unfolding set_point
first_node-set_point point node [] = inl refl
first_node-set_point point node ((q, other) ∷ ring) = ground arith

node_at-set_point :
    (h point : ℕ) (node : Bytes) (ring : Points)
    → (node_at h (set_point point node ring) ≡ node)
      ⊎ (node_at h (set_point point node ring) ≡ node_at h ring)
unfolding node_at
node_at-set_point h point node ring =
    go (lower_bound h (set_point point node ring)) (lower_bound h ring)
      (lower_bound-set_point h point node ring)
  where
    a : Bytes
    a = first_node (set_point point node ring)

    go :
        (o o' : Option Bytes)
        → (o ≡ some node) ⊎ (o ≡ o')
        → (elim o as (λ _. Bytes) [ none ↦ a | some n ↦ n ] ≡ node)
          ⊎ (elim o as (λ _. Bytes) [ none ↦ a | some n ↦ n ]
              ≡ elim o' as (λ _. Bytes) [ none ↦ first_node ring | some n ↦ n ])
    go o o' (inl e) = rw e (inl refl)
    go o none (inr e) = rw e (first_node-set_point point node ring)
    go o (some n) (inr e) = rw e (inr refl)

add_points_lem :
    (h : ℕ) (node : Bytes) (n : ℕ) (ring : Points)
    → (node_at h (add_points node n ring) ≡ node)
      ⊎ (node_at h (add_points node n ring) ≡ node_at h ring)
unfolding add_points
add_points_lem h node zero ring = inr refl
add_points_lem h node (suc i) ring = ground (
  arith,
  node_at-set_point h (hash (vnode_key node i)) node (add_points node i ring),
  add_points_lem h node i ring,
)

-- After a node is added, each key is at the new node or where it was.
pub get_node-add_node :
    (r : ConsistentHashRing) (node key : Bytes)
    → (get_node (add_node node r) key ≡ node) ⊎ (get_node (add_node node r) key ≡ get_node r key)
unfolding get_node add_node
get_node-add_node r node key = add_points_lem (hash key) node r.virtual_nodes r.ring

-- Of the points at this hash, all are the node's.
abbrev OwnsPoint : Bytes → ℕ → Points → Type 0
OwnsPoint node point ring = All (λ p. p.0 ≡ point → p.1 ≡ node) ring

lower_bound-erase_point :
    (h point : ℕ) (node : Bytes) (ring : Points)
    → OwnsPoint node point ring
    → (lower_bound h ring ≡ some node)
      ⊎ (lower_bound h (erase_point point ring) ≡ lower_bound h ring)
unfolding lower_bound erase_point
lower_bound-erase_point h point node [] o = inr refl
lower_bound-erase_point h point node ((q, other) ∷ ring) (o, os) =
    ground (arith, o, lower_bound-erase_point h point node ring os)

first_node-erase_point :
    (point : ℕ) (node : Bytes) (ring : Points)
    → OwnsPoint node point ring
    → (first_node ring ≡ node) ⊎ (first_node (erase_point point ring) ≡ first_node ring)
unfolding erase_point
first_node-erase_point point node [] o = inr refl
first_node-erase_point point node ((q, other) ∷ ring) (o, os) = ground (arith, o)

erase_point-OwnsPoint :
    (node : Bytes) (a b : ℕ) (ring : Points)
    → OwnsPoint node a ring
    → OwnsPoint node a (erase_point b ring)
unfolding erase_point
erase_point-OwnsPoint node a b [] o = tt
erase_point-OwnsPoint node a b ((q, other) ∷ ring) (o, os) = elim (Bool-cases (b == q)) [
  | inl e ↦ rw e os
  | inr e ↦ rw e (o, erase_point-OwnsPoint node a b ring os)
]

node_at-erase_point :
    (h point : ℕ) (node : Bytes) (ring : Points)
    → OwnsPoint node point ring
    → (node_at h ring ≡ node) ⊎ (node_at h (erase_point point ring) ≡ node_at h ring)
unfolding node_at
node_at-erase_point h point node ring owned =
    go (lower_bound h (erase_point point ring)) (lower_bound h ring)
      (lower_bound-erase_point h point node ring owned)
  where
    a : Bytes
    a = first_node (erase_point point ring)

    go :
        (o o' : Option Bytes)
        → (o' ≡ some node) ⊎ (o ≡ o')
        → (elim o' as (λ _. Bytes) [ none ↦ first_node ring | some n ↦ n ] ≡ node)
          ⊎ (elim o as (λ _. Bytes) [ none ↦ a | some n ↦ n ]
              ≡ elim o' as (λ _. Bytes) [ none ↦ first_node ring | some n ↦ n ])
    go o o' (inl e) = rw e (inl refl)
    go o none (inr e) = rw e (first_node-erase_point point node ring owned)
    go o (some n) (inr e) = rw e (inr refl)

-- The points that the node's keys hash to are all its own.
abbrev pub OwnsPoints : Bytes → ℕ → Points → Type 0
OwnsPoints node n ring = (i : ℕ) → i < n → OwnsPoint node (hash (vnode_key node i)) ring

remove_points-OwnsPoint :
    (node : Bytes) (a n : ℕ) (ring : Points)
    → OwnsPoint node a ring
    → OwnsPoint node a (remove_points node n ring)
unfolding remove_points
remove_points-OwnsPoint node a zero ring o = o
remove_points-OwnsPoint node a (suc i) ring o =
    erase_point-OwnsPoint node a _ _ (remove_points-OwnsPoint node a i ring o)

remove_points_lem :
    (h : ℕ) (node : Bytes) (n : ℕ) (ring : Points)
    → OwnsPoints node n ring
    → (node_at h ring ≡ node) ⊎ (node_at h (remove_points node n ring) ≡ node_at h ring)
unfolding remove_points
remove_points_lem h node zero ring o = inr refl
remove_points_lem h node (suc i) ring o = ground (
  arith,
  remove_points_lem h node i ring (λ k l. o k (omega arith)),
  node_at-erase_point h (hash (vnode_key node i)) node (remove_points node i ring)
      (remove_points-OwnsPoint node (hash (vnode_key node i)) i ring (o i (omega arith))),
)

-- After a node is removed whose keys hash to no other node's points, each key that was not at this node
-- is where it was.
pub get_node-remove_node :
    (r : ConsistentHashRing) (node key : Bytes)
    → OwnsPoints node r.virtual_nodes r.ring
    → (get_node r key ≡ node) ⊎ (get_node (remove_node node r) key ≡ get_node r key)
unfolding get_node remove_node
get_node-remove_node r node key o = remove_points_lem (hash key) node r.virtual_nodes r.ring o
