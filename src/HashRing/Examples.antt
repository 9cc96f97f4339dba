-- ===== src/HashRing/Examples.antt =====
-- Hashes of known texts, and a ring of two nodes.
use database_management_syst.Prelude.{◌≡◌, ◌⊎◌, refl, zero, suc, [], arith}
use database_management_syst.Prelude.Text.{codes}
use database_management_syst.HashRing.{
  ConsistentHashRing, hash, add_node, get_node, vnode_key, add_points, set_point, all_nodes,
}
use database_management_syst.HashRing.Nodes.{HasNode, get_node-HasNode}
use database_management_syst.HashRing.Moves.{OwnsPoints, get_node-add_node}

hash_of_test : hash (codes "test") ≡ 0x704b81dc
unfolding hash
hash_of_test = refl

hash_of_greeting : hash (codes "Hello, world!") ≡ 0x24884cba
unfolding hash
hash_of_greeting = refl

abbrev empty_ring : ConsistentHashRing
empty_ring = record { virtual_nodes = 1; ring = [] }

abbrev one_node : ConsistentHashRing
one_node = add_node (codes "a") empty_ring

get_node-add_node_example :
    (get_node (add_node (codes "b") one_node) (codes "k") ≡ codes "b")
    ⊎ (get_node (add_node (codes "b") one_node) (codes "k") ≡ get_node one_node (codes "k"))
get_node-add_node_example = get_node-add_node one_node (codes "b") (codes "k")

abbrev two_nodes : ConsistentHashRing
two_nodes = add_node (codes "b") one_node

b_owned : OwnsPoints (codes "b") 1 two_nodes.ring
unfolding add_node add_points set_point hash vnode_key
b_owned zero l = (λ e. absurd (omega (arith, e)), (λ e. refl, tt))
b_owned (suc i) l = absurd (omega arith)

get_node-HasNode_example : HasNode (get_node two_nodes (codes "k")) (all_nodes two_nodes)
unfolding add_node add_points set_point hash vnode_key
get_node-HasNode_example = get_node-HasNode two_nodes (codes "k") λ e. absurd (ground (arith, e))
