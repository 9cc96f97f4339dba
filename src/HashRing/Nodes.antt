-- ===== src/HashRing/Nodes.antt =====
-- AllNodes against GetNode.
use database_management_syst.Prelude.{
  ℕ, ◌≡◌, ◌≢◌, refl, subst, ◌⊎◌, inl, inr, List, [], ◌∷◌, Bool-cases, ltb, Option, none, some,
  arith,
}
use database_management_syst.Binary.{Bytes}
use database_management_syst.Value.{eq_bytes, lt_bytes}
use database_management_syst.Value.Order.{eq_bytes→eq}
use database_management_syst.HashRing.{
  Points, ConsistentHashRing, hash, lower_bound, first_node, node_at, get_node, insert_node,
  nodes_of, all_nodes,
}

abbrev pub HasNode : Bytes → List Bytes → Type 0
HasNode node [] = ⊥
HasNode node (other ∷ nodes) = (node ≡ other) ⊎ HasNode node nodes

insert_node-HasNode : (node : Bytes) (nodes : List Bytes) → HasNode node (insert_node node nodes)
unfolding insert_node
insert_node-HasNode node [] = inl refl
insert_node-HasNode node (other ∷ nodes) = elim (Bool-cases (lt_bytes node other)) [
  | inl e ↦ rw e (inl refl)
  | inr e ↦ elim (Bool-cases (eq_bytes node other)) [
    | inl f ↦ rw (e, f) (inl (eq_bytes→eq node other f))
    | inr f ↦ rw (e, f) (inr (insert_node-HasNode node nodes))
  ]
]

HasNode-insert_node :
    (m node : Bytes) (nodes : List Bytes) → HasNode m nodes → HasNode m (insert_node node nodes)
unfolding insert_node
HasNode-insert_node m node [] h = absurd h
HasNode-insert_node m node (other ∷ nodes) h = elim (Bool-cases (lt_bytes node other)) [
  | inl e ↦ rw e (inr h)
  | inr e ↦ elim (Bool-cases (eq_bytes node other)) [
    | inl f ↦ rw (e, f) h
    | inr f ↦ rw (e, f) (deeper h (HasNode-insert_node m node nodes))
  ]
]
  where
    deeper :
        HasNode m (other ∷ nodes)
        → (HasNode m nodes → HasNode m (insert_node node nodes))
        → HasNode m (other ∷ insert_node node nodes)
    deeper (inl same) f = inl same
    deeper (inr there) f = inr (f there)

lower_bound-HasNode :
    (h : ℕ) (ring : Points) (node : Bytes)
    → lower_bound h ring ≡ some node
    → HasNode node (nodes_of ring)
unfolding lower_bound nodes_of
lower_bound-HasNode h [] node e = absurd (ground (arith, e))
lower_bound-HasNode h ((q, other) ∷ ring) node e = elim (Bool-cases (ltb q h)) [
  | inl skipped ↦
      HasNode-insert_node node other (nodes_of ring)
        (lower_bound-HasNode h ring node (ground (arith, e, skipped)))
  | inr found ↦
      let same : other ≡ node = ground (arith, e, found) in
      subst (λ n. HasNode n (insert_node other (nodes_of ring))) same
        (insert_node-HasNode other (nodes_of ring))
]

-- On a ring with a point, GetNode answers each key with one of the nodes that AllNodes lists.
pub get_node-HasNode :
    (r : ConsistentHashRing) (key : Bytes) → r.ring ≢ [] → HasNode (get_node r key) (all_nodes r)
unfolding get_node node_at all_nodes nodes_of
get_node-HasNode r key some_point = go (lower_bound (hash key) r.ring) refl
  where
    first : (ring : Points) → ring ≢ [] → HasNode (first_node ring) (nodes_of ring)
    first [] h = absurd (h refl)
    first ((q, node) ∷ ring) h = insert_node-HasNode node (nodes_of ring)

    go :
        (o : Option Bytes)
        → lower_bound (hash key) r.ring ≡ o
        → HasNode
            (elim o as (λ _. Bytes) [ none ↦ first_node r.ring | some node ↦ node ])
            (nodes_of r.ring)
    go none e = first r.ring some_point
    go (some node) e = lower_bound-HasNode (hash key) r.ring node e
