-- ===== src/Node/Names.antt =====
-- Names of new nodes and targets of links of crates/core/src/backend/node.rs.
use rustic_core.Base.{ℕ, ◌≡◌, ◌<◌, refl, ap, none, some, List, All, inl, inr}
use rustic_core.Node.{Metadata, from_link, to_link, symlink, new_node, name_of, to_string_lossy}
use rustic_core.Node.Utf8.{Decoded, valid, error, from_utf8, as_bytes}
use rustic_core.Node.Utf8.Read.{Splits, from_utf8-Splits}
use rustic_core.Node.Escape.{escape_filename}
use rustic_core.Node.Escape.RoundTrip.{unescape_filename-escape_filename}

-- A node that `new_node` makes has the given name, and one that `from_link` makes the given target, whether
-- their bytes are valid UTF-8 or not.
pub name_of-new_node :
    (name target : List ℕ) (meta : Metadata)
    → All (λ b. b < 256) name
    → (name_of (new_node name (from_link target) meta) ≡ name)
      × (to_link (new_node name (from_link target) meta).node_type ≡ some target)
unfolding name_of new_node from_link
name_of-new_node name target meta h = (
  ap (λ r. elim r [ inl e ↦ as_bytes (escape_filename name) | inr n ↦ n ])
      (unescape_filename-escape_filename name h),
  linked (from_utf8 target) (from_utf8-Splits target),
)
  where
    linked :
        (d : Decoded)
        → Splits target d
        → to_link (elim d [
          | valid t ↦ symlink t none
          | error cs n after ↦ symlink (to_string_lossy target) (some target)
        ])
          ≡ some target
    linked (valid t) e = unfold to_link in ap some e
    linked (error cs n after) e = unfold to_link in refl
