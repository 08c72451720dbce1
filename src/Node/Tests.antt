-- ===== src/Node/Tests.antt =====
-- Runs on names with bytes that are no UTF-8.
use rustic_core.Base.{
  ℕ, ◌≡◌, ◌<◌, ◌↔◌, false, none, some, List, [], ◌∷◌, All, inl, inr, arith, refl,
}
use rustic_core.Base.Int.{pos}
use rustic_core.Node.{Metadata, Node, dev, from_link, to_link, new_node, name_of}
use rustic_core.Node.Utf8.{as_bytes, from_utf8, front}
use rustic_core.Node.Escape.{escape_filename, unescape_filename, push, push_bytes}
use rustic_core.Config.Poly.{hex_digit}
use rustic_core.Node.Escape.RoundTrip.{unescape_filename-escape_filename}
use rustic_core.Node.Escape.Plain.{IsPlain, escape_filename-as_bytes}
use rustic_core.Node.Names.{name_of-new_node}
use rustic_core.Node.Meta.{
  NodeModification, TimeOption, BlockdevOption, modify_node, into_restore, with_blockdev,
}
use rustic_core.Node.Meta.Changed.{modify_node-into_restore}

-- An `a`, a newline, an umlaut, and a byte that is in no character.
abbrev name : List ℕ
name = b'a' ∷ 10 ∷ 195 ∷ 164 ∷ 255 ∷ []

name_bytes : All (λ b. b < 256) name
name_bytes = (omega arith, (omega arith, (omega arith, (omega arith, (omega arith, tt)))))

escaped_name : escape_filename name ≡ b'a' ∷ b'\\' ∷ b'n' ∷ 228 ∷ b'\\' ∷ b'x' ∷ b'f' ∷ b'f' ∷ []
unfolding escape_filename from_utf8 front push push_bytes hex_digit
escaped_name = refl

abbrev meta : Metadata
meta = record {
  mode = some 420;
  mtime = some (pos 5);
  atime = some (pos 9);
  ctime = none;
  uid = none;
  gid = none;
  user = none;
  group = some (b'u' ∷ []);
  inode = 7;
  device_id = 3;
  size = 0;
  links = 1;
  extended_attributes = [];
}

unescape_filename-escape_filename_example : unescape_filename (escape_filename name) ≡ inr name
unescape_filename-escape_filename_example = unescape_filename-escape_filename name name_bytes

escape_filename-as_bytes_example :
    (escape_filename (as_bytes (228 ∷ 9 ∷ 8364 ∷ [])) ≡ 228 ∷ 9 ∷ 8364 ∷ [])
    ↔ All IsPlain (228 ∷ 9 ∷ 8364 ∷ [])
escape_filename-as_bytes_example =
    escape_filename-as_bytes (228 ∷ 9 ∷ 8364 ∷ [])
      (inl (omega arith), (inl (omega arith), (inl (omega arith), tt)))

name_of-new_node_example :
    (name_of (new_node name (from_link (128 ∷ [])) meta) ≡ name)
    × (to_link (new_node name (from_link (128 ∷ [])) meta).node_type ≡ some (128 ∷ []))
name_of-new_node_example = name_of-new_node name (128 ∷ []) meta name_bytes

abbrev opts : NodeModification
opts = record {
  set_atime = none;
  set_ctime = some TimeOption.no;
  set_devid = none;
  set_xattrs = none;
}

abbrev node : Node
node = new_node name (dev 4) meta

modify_node-into_restore_example :
    ((modify_node opts node).0.meta
      ≡ (into_restore (with_blockdev (some BlockdevOption.as_file) opts) node).meta)
    × (((modify_node opts node).1 ≡ false) ↔ ((modify_node opts node).0 ≡ node))
    × (modify_node opts (modify_node opts node).0 ≡ ((modify_node opts node).0, false))
modify_node-into_restore_example = modify_node-into_restore opts (some BlockdevOption.as_file) node
