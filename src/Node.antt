-- ===== src/Node.antt =====
-- crates/core/src/backend/node.rs and backend/node/modification.rs: nodes, their names, link targets
-- and metadata. A time is its distance from the epoch, a path its bytes.
pub mod Utf8
pub mod Escape
pub mod Meta
pub mod Names
mod Tests
use rustic_core.Base.{
  ℕ, zero, suc, Bool, true, false, not, ◌&&◌, ltb, Option, none, some, List, [], ◌∷◌, ◌++◌, drop,
  length, unwrap_or, if◌then◌else◌, ◌⊎◌, inl, inr,
}
use rustic_core.Base.Int.{ℤ}
use Utf8.{Decoded, valid, error, from_utf8, as_bytes}
use Escape.{NodeResult, escape_filename, unescape_filename}

-- `ExtendedAttribute`
pub record ExtendedAttribute : Type 0 where
  pub name : List ℕ
  pub value : Option (List ℕ)

-- `Metadata`
pub record Metadata : Type 0 where
  pub mode : Option ℕ
  pub mtime : Option ℤ
  pub atime : Option ℤ
  pub ctime : Option ℤ
  pub uid : Option ℕ
  pub gid : Option ℕ
  pub user : Option (List ℕ)
  pub group : Option (List ℕ)
  pub inode : ℕ
  pub device_id : ℕ
  pub size : ℕ
  pub links : ℕ
  pub extended_attributes : List ExtendedAttribute

-- `NodeType`
pub data NodeType : Type 0 where
  file dir : NodeType
  symlink : List ℕ → Option (List ℕ) → NodeType
  dev chardev : ℕ → NodeType
  fifo socket : NodeType

-- `Node`
pub record Node : Type 0 where
  pub name : List ℕ
  pub node_type : NodeType
  pub meta : Metadata
  pub content : Option (List ℕ)
  pub subtree : Option ℕ

lossy_loop : ℕ → List ℕ → List ℕ
lossy_loop zero input = []
lossy_loop (suc fuel) input = elim (from_utf8 input) [
  | valid cs ↦ cs
  | error cs n after ↦
      cs ++ 65533 ∷ elim n [ none ↦ [] | some len ↦ lossy_loop fuel (drop len after) ]
]

-- `to_string_lossy`: the replacement character stands for what is invalid.
to_string_lossy : List ℕ → List ℕ
to_string_lossy bytes = lossy_loop (suc (length bytes)) bytes

-- `NodeType::from_link`
unfoldable pub from_link : List ℕ → NodeType
unfolding to_string_lossy lossy_loop
from_link target = elim (from_utf8 target) [
  | valid t ↦ symlink t none
  | error cs n after ↦ symlink (to_string_lossy target) (some target)
]

-- `NodeType::to_link`; a panic is `none`.
unfoldable pub to_link : NodeType → Option (List ℕ)
to_link (symlink linktarget linktarget_raw) = some (unwrap_or linktarget_raw (as_bytes linktarget))
to_link _ = none

unfoldable pub new_node : List ℕ → NodeType → Metadata → Node
new_node name node_type meta = record {
  name = escape_filename name;
  node_type = node_type;
  meta = meta;
  content = none;
  subtree = none;
}

-- `Node::name`
unfoldable pub name_of : Node → List ℕ
name_of node = elim (unescape_filename node.name) [ inl e ↦ as_bytes node.name | inr name ↦ name ]

unfoldable pub is_dir : Node → Bool
is_dir node = elim node.node_type [ dir ↦ true | _ ↦ false ]
