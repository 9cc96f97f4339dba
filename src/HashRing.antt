-- ===== src/HashRing.antt =====
-- cluster/consistent_hash.cpp: nodes on a ring of 32-bit hashes. The std::map is the list of its
-- points in the order of their hashes.
pub mod Moves
pub mod Nodes
mod Examples
use Prim.Native.Nat.{bit_or, bit_xor}
use database_management_syst.Prelude.{
  ℕ, zero, suc, ◌+◌, ◌-◌, ◌*◌, ◌/◌, ◌%◌, ◌^◌, List, [], ◌∷◌, ◌++◌, Bool, ltb, ◌==◌, if◌then◌else◌,
  Option, none, some, length,
}
use database_management_syst.Binary.{Bytes}
use database_management_syst.Value.{eq_bytes, lt_bytes}

abbrev pub word : ℕ
word = 2 ^ 32

unfoldable pub rotl32 : ℕ → ℕ → ℕ
rotl32 x r = bit_or (x * 2 ^ r % word) (x / 2 ^ (32 - r))

abbrev pub c1 : ℕ
c1 = 0xcc9e2d51

abbrev pub c2 : ℕ
c2 = 0x1b873593

-- k1 *= c1; k1 = rotl32(k1, 15); k1 *= c2;
unfoldable pub scramble : ℕ → ℕ
unfolding rotl32
scramble k = rotl32 (k * c1 % word) 15 * c2 % word

unfoldable pub mix_block : ℕ → ℕ → ℕ
unfolding scramble rotl32
mix_block h k = (rotl32 (bit_xor h (scramble k)) 13 * 5 + 0xe6546b64) % word

-- The blocks of four bytes, lowest first, and then the tail of up to three.
unfoldable pub mix_bytes : ℕ → Bytes → ℕ
unfolding mix_block
mix_bytes h [] = h
mix_bytes h (a ∷ []) = bit_xor h (scramble a)
mix_bytes h (a ∷ (b ∷ [])) = bit_xor h (scramble (bit_xor (b * 2 ^ 8) a))
mix_bytes h (a ∷ (b ∷ (c ∷ []))) =
    bit_xor h (scramble (bit_xor (bit_xor (c * 2 ^ 16) (b * 2 ^ 8)) a))
mix_bytes h (a ∷ (b ∷ (c ∷ (d ∷ rest)))) =
    mix_bytes (mix_block h (a + 256 * (b + 256 * (c + 256 * d)))) rest

unfoldable pub finish_hash : ℕ → ℕ
finish_hash h0 =
    let h1 = bit_xor h0 (h0 / 2 ^ 16) * 0x85ebca6b % word in
    let h2 = bit_xor h1 (h1 / 2 ^ 13) * 0xc2b2ae35 % word in bit_xor h2 (h2 / 2 ^ 16)

-- MurmurHash3_x86_32, for a key of less than 2^31 bytes.
unfoldable pub murmur_hash : Bytes → ℕ → ℕ
unfolding mix_bytes finish_hash
murmur_hash key seed = finish_hash (bit_xor (mix_bytes seed key) (length key % word))

unfoldable pub hash : Bytes → ℕ
unfolding murmur_hash
hash key = murmur_hash key 0x9747b28c

abbrev pub Points : Type 0
Points = List (ℕ × Bytes)

pub record ConsistentHashRing : Type 0 where
  pub virtual_nodes : ℕ
  pub ring : Points

-- `ring_[point] = node`
unfoldable pub set_point : ℕ → Bytes → Points → Points
set_point point node [] = (point, node) ∷ []
set_point point node ((q, other) ∷ ring) =
    let rest = set_point point node ring in
    if ltb point q
    then (point, node) ∷ (q, other) ∷ ring
    else if point == q
    then (point, node) ∷ ring
    else (q, other) ∷ rest

unfoldable pub erase_point : ℕ → Points → Points
erase_point point [] = []
erase_point point ((q, node) ∷ ring) =
    let rest = erase_point point ring in if point == q then ring else (q, node) ∷ rest

-- The node of the first point at or behind the hash.
unfoldable pub lower_bound : ℕ → Points → Option Bytes
lower_bound h [] = none
lower_bound h ((q, node) ∷ ring) =
    let rest = lower_bound h ring in if ltb q h then rest else some node

abbrev pub first_node : Points → Bytes
first_node [] = []
first_node ((q, node) ∷ ring) = node

-- std::to_string of a number that is not negative; the fuel bounds the digits.
unfoldable pub decimal_digits : ℕ → ℕ → Bytes → Bytes
decimal_digits zero n digits = digits
decimal_digits (suc fuel) n digits =
    let more = decimal_digits fuel (n / 10) ((b'0' + n % 10) ∷ digits) in
    if n / 10 == 0 then (b'0' + n % 10) ∷ digits else more

unfoldable pub vnode_key : Bytes → ℕ → Bytes
unfolding decimal_digits
vnode_key node_id i = node_id ++ (b'#' ∷ decimal_digits (suc i) i [])

-- The points of a node, from the first on.
unfoldable pub add_points : Bytes → ℕ → Points → Points
unfolding hash vnode_key set_point
add_points node_id zero ring = ring
add_points node_id (suc i) ring =
    set_point (hash (vnode_key node_id i)) node_id (add_points node_id i ring)

unfoldable pub remove_points : Bytes → ℕ → Points → Points
unfolding hash vnode_key erase_point
remove_points node_id zero ring = ring
remove_points node_id (suc i) ring =
    erase_point (hash (vnode_key node_id i)) (remove_points node_id i ring)

unfoldable pub add_node : Bytes → ConsistentHashRing → ConsistentHashRing
unfolding add_points
add_node node_id r = record r { ring = add_points node_id r.virtual_nodes r.ring }

unfoldable pub remove_node : Bytes → ConsistentHashRing → ConsistentHashRing
unfolding remove_points
remove_node node_id r = record r { ring = remove_points node_id r.virtual_nodes r.ring }

-- The node of a hash; the empty text if there is no point.
unfoldable pub node_at : ℕ → Points → Bytes
unfolding lower_bound
node_at h ring = elim (lower_bound h ring) [ none ↦ first_node ring | some node ↦ node ]

unfoldable pub get_node : ConsistentHashRing → Bytes → Bytes
unfolding node_at hash
get_node r key = node_at (hash key) r.ring

-- std::set's insertion: in the order of the texts, each once.
unfoldable pub insert_node : Bytes → List Bytes → List Bytes
insert_node node [] = node ∷ []
insert_node node (other ∷ nodes) =
    let rest = insert_node node nodes in
    if lt_bytes node other
    then node ∷ other ∷ nodes
    else if eq_bytes node other
    then other ∷ nodes
    else other ∷ rest

unfoldable pub nodes_of : Points → List Bytes
unfolding insert_node
nodes_of [] = []
nodes_of ((q, node) ∷ ring) = insert_node node (nodes_of ring)

unfoldable pub all_nodes : ConsistentHashRing → List Bytes
unfolding nodes_of
all_nodes r = nodes_of r.ring
