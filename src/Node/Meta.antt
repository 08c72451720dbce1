-- ===== src/Node/Meta.antt =====
-- What of a node's metadata is kept: `NodeModification` of crates/core/src/backend/node/modification.rs
-- and `Node::into_restore` of crates/core/src/backend/node.rs.

pub mod Changed
use rustic_core.Base.{
  ℕ, Bool, true, false, not, ◌&&◌, ltb, ◌==◌, Option, none, some, List, [], ◌∷◌, unwrap_or,
  if◌then◌else◌, all,
}
use rustic_core.Base.Int.{ℤ, pos, negsuc}
use rustic_core.Config.Poly.{eq_codes}
use rustic_core.Node.{ExtendedAttribute, Metadata, NodeType, dev, file, Node, is_dir}

-- `TimeOption`, `DevIdOption`, `BlockdevOption` and `XattrOption`
pub data TimeOption : Type 0 where
  yes mtime no : TimeOption

pub data DevIdOption : Type 0 where
  yes hardlink no : DevIdOption

pub data BlockdevOption : Type 0 where
  special as_file : BlockdevOption

pub data XattrOption : Type 0 where
  yes no : XattrOption

-- `NodeModification`
pub record NodeModification : Type 0 where
  pub set_atime : Option TimeOption
  pub set_ctime : Option TimeOption
  pub set_devid : Option DevIdOption
  pub set_xattrs : Option XattrOption

-- `SaveOptions`
pub record SaveOptions : Type 0 where
  pub set_atime : Option TimeOption
  pub set_ctime : Option TimeOption
  pub set_devid : Option DevIdOption
  pub set_blockdev : Option BlockdevOption
  pub set_xattrs : Option XattrOption

-- The options of a modification, with one for block devices.
abbrev pub with_blockdev : Option BlockdevOption → NodeModification → SaveOptions
with_blockdev blockdev opts = record {
  set_atime = opts.set_atime;
  set_ctime = opts.set_ctime;
  set_devid = opts.set_devid;
  set_blockdev = blockdev;
  set_xattrs = opts.set_xattrs;
}

-- The `map_or_else` of the options.
time_of : TimeOption → Option ℤ → Option ℤ → Option ℤ
time_of TimeOption.yes default modified_at = default
time_of TimeOption.mtime default modified_at = modified_at
time_of TimeOption.no default modified_at = none

device_of : DevIdOption → ℕ → Bool → ℕ
device_of DevIdOption.yes dev_id linked = dev_id
device_of DevIdOption.hardlink dev_id true = dev_id
device_of _ dev_id linked = 0

xattrs_of : XattrOption → List ExtendedAttribute → List ExtendedAttribute
xattrs_of XattrOption.yes default = default
xattrs_of XattrOption.no default = []

-- The metadata after `modify_node`.
unfoldable pub modified : NodeModification → Node → Metadata
unfolding time_of device_of xattrs_of is_dir
modified opts node =
    let meta = node.meta in
    record meta {
      atime = time_of (unwrap_or opts.set_atime TimeOption.mtime) meta.atime meta.mtime;
      ctime = time_of (unwrap_or opts.set_ctime TimeOption.yes) meta.ctime meta.mtime;
      device_id =
          device_of (unwrap_or opts.set_devid DevIdOption.hardlink) meta.device_id
            (ltb 1 meta.links && not (is_dir node));
      extended_attributes =
          xattrs_of (unwrap_or opts.set_xattrs XattrOption.yes) meta.extended_attributes;
    }

device_restored : DevIdOption → Node → ℕ
device_restored DevIdOption.yes node = node.meta.device_id
device_restored DevIdOption.hardlink node =
    if ltb 1 node.meta.links && not (is_dir node) then node.meta.device_id else 0
device_restored DevIdOption.no node = 0

type_restored : BlockdevOption → NodeType → NodeType
type_restored BlockdevOption.as_file (dev device) = file
type_restored _ other = other

-- `Node::into_restore`, which changes the metadata one field after the other.
unfoldable pub into_restore : SaveOptions → Node → Node
unfolding device_restored type_restored is_dir
into_restore opts node =
    let meta = node.meta in
    record node {
      node_type = type_restored (unwrap_or opts.set_blockdev BlockdevOption.special) node.node_type;
      meta = record meta {
        atime = elim (unwrap_or opts.set_atime TimeOption.mtime) [
          | TimeOption.yes ↦ meta.atime
          | TimeOption.mtime ↦ meta.mtime
          | TimeOption.no ↦ none
        ];
        ctime = elim (unwrap_or opts.set_ctime TimeOption.yes) [
          | TimeOption.yes ↦ meta.ctime
          | TimeOption.mtime ↦ meta.mtime
          | TimeOption.no ↦ none
        ];
        device_id = device_restored (unwrap_or opts.set_devid DevIdOption.hardlink) node;
        extended_attributes = elim (unwrap_or opts.set_xattrs XattrOption.yes) [
          | XattrOption.yes ↦ meta.extended_attributes
          | XattrOption.no ↦ []
        ];
      };
    }

-- The derived equality of `Metadata`.
eq_option {ℓ} : {A : Type ℓ} → (A → A → Bool) → Option A → Option A → Bool
eq_option eq none none = true
eq_option eq (some a) (some b) = eq a b
eq_option eq _ _ = false

eq_int : ℤ → ℤ → Bool
eq_int (pos a) (pos b) = a == b
eq_int (negsuc a) (negsuc b) = a == b
eq_int _ _ = false

eq_attribute : ExtendedAttribute → ExtendedAttribute → Bool
eq_attribute a b = eq_codes a.name b.name && eq_option eq_codes a.value b.value

eq_attributes : List ExtendedAttribute → List ExtendedAttribute → Bool
eq_attributes [] [] = true
eq_attributes (a ∷ as') (b ∷ bs) = eq_attribute a b && eq_attributes as' bs
eq_attributes _ _ = false

same_fields : Metadata → Metadata → List Bool
same_fields a b =
    eq_option ◌==◌ a.mode b.mode
    ∷ eq_option eq_int a.mtime b.mtime
    ∷ eq_option eq_int a.atime b.atime
    ∷ eq_option eq_int a.ctime b.ctime
    ∷ eq_option ◌==◌ a.uid b.uid
    ∷ eq_option ◌==◌ a.gid b.gid
    ∷ eq_option eq_codes a.user b.user
    ∷ eq_option eq_codes a.group b.group
    ∷ (a.inode == b.inode)
    ∷ (a.device_id == b.device_id)
    ∷ (a.size == b.size)
    ∷ (a.links == b.links)
    ∷ eq_attributes a.extended_attributes b.extended_attributes
    ∷ []

unfoldable pub eq_metadata : Metadata → Metadata → Bool
unfolding same_fields eq_option eq_int eq_attributes eq_attribute
eq_metadata a b = all (λ same. same) (same_fields a b)

-- `NodeModification::modify_node`: the node, and whether it was changed.
unfoldable pub modify_node : NodeModification → Node → Node × Bool
unfolding modified eq_metadata
modify_node opts node =
    let meta = modified opts node in (record node { meta = meta }, not (eq_metadata node.meta meta))
