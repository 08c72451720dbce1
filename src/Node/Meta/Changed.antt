-- ===== src/Node/Meta/Changed.antt =====
-- `modify_node` of crates/core/src/backend/node/modification.rs and `into_restore` of
-- crates/core/src/backend/node.rs compared.
use rustic_core.Base.{
  All, all, Bool, true, ◌≡◌, ◌↔◌, refl, ap, ◌==◌, ==_iff, none, some, List, [], ◌∷◌, all, All,
  arith, some-injective, Option, false, ltb, ℕ, unwrap_or, ◌&&◌, not, Bool-cases, inl, inr, sym,
}
use rustic_core.Base.Int.{pos, negsuc, ℤ}
use rustic_core.Config.Poly.{eq_codes, eq_codes_iff}
use rustic_core.Node.{ExtendedAttribute, Metadata, Node, is_dir}
use rustic_core.Node.Meta.{
  eq_metadata, eq_option, eq_int, eq_attribute, same_fields, eq_attributes, with_blockdev, time_of,
  device_of, xattrs_of, device_restored, modify_node, NodeModification, BlockdevOption,
  into_restore, TimeOption, DevIdOption, XattrOption, modified,
}

-- A test for equality.
abbrev IsTest {ℓ} : {A : Type ℓ} → (A → A → Bool) → Type ℓ
IsTest {A = A} eq = (a b : A) → (eq a b ≡ true) ↔ (a ≡ b)

eq_option-IsTest {ℓ} : {A : Type ℓ} (eq : A → A → Bool) → IsTest eq → IsTest (eq_option eq)
unfolding eq_option
eq_option-IsTest eq t none none = ((λ h. refl), (λ h. refl))
eq_option-IsTest eq t none (some b) = ((λ h. cc), (λ h. cc))
eq_option-IsTest eq t (some a) none = ((λ h. cc), (λ h. cc))
eq_option-IsTest eq t (some a) (some b) =
    ((λ h. ap some ((t a b).0 h)), (λ h. (t a b).1 (some-injective h)))

eq_int-IsTest : IsTest eq_int
unfolding eq_int
eq_int-IsTest (pos a) (pos b) = ((λ h. ap pos ((==_iff a b).0 h)), (λ h. (==_iff a b).1 cc))
eq_int-IsTest (negsuc a) (negsuc b) =
    ((λ h. ap negsuc ((==_iff a b).0 h)), (λ h. (==_iff a b).1 cc))
eq_int-IsTest (pos a) (negsuc b) = ((λ h. cc), (λ h. cc))
eq_int-IsTest (negsuc a) (pos b) = ((λ h. cc), (λ h. cc))

eq_attribute-IsTest : IsTest eq_attribute
unfolding eq_attribute
eq_attribute-IsTest a b =
    let n = eq_codes_iff a.name b.name in
    let v = eq_option-IsTest eq_codes eq_codes_iff a.value b.value in
    (
      (λ h. let x = n.0 (ground arith) in let y = v.0 (ground arith) in cc),
      (λ h.
          rw
            (
              n.1 (ap (λ (x : ExtendedAttribute). x.name) h),
              v.1 (ap (λ (x : ExtendedAttribute). x.value) h),
            )
            refl),
    )

eq_attributes-IsTest : IsTest eq_attributes
unfolding eq_attributes
eq_attributes-IsTest [] [] = ((λ h. refl), (λ h. refl))
eq_attributes-IsTest [] (b ∷ bs) = ((λ h. cc), (λ h. cc))
eq_attributes-IsTest (a ∷ as') [] = ((λ h. cc), (λ h. cc))
eq_attributes-IsTest (a ∷ as') (b ∷ bs) =
    let x = eq_attribute-IsTest a b in
    let y = eq_attributes-IsTest as' bs in
    (
      (λ h. let p = x.0 (ground arith) in let q = y.0 (ground arith) in cc),
      (λ h. rw (x.1 cc, y.1 cc) refl),
    )

all_same : (l : List Bool) → (all (λ same. same) l ≡ true) ↔ All (λ same. same ≡ true) l
all_same [] = ((λ h. tt), (λ h. refl))
all_same (b ∷ l) =
    let r = all_same l in
    ((λ h. (ground arith, r.0 (ground arith))), (λ h. let e = r.1 h.1 in ground (arith, h.0)))

eq_metadata-IsTest : IsTest eq_metadata
unfolding eq_metadata same_fields
eq_metadata-IsTest a b =
    let mode = eq_option-IsTest ◌==◌ ==_iff a.mode b.mode in
    let mtime = eq_option-IsTest eq_int eq_int-IsTest a.mtime b.mtime in
    let atime = eq_option-IsTest eq_int eq_int-IsTest a.atime b.atime in
    let ctime = eq_option-IsTest eq_int eq_int-IsTest a.ctime b.ctime in
    let uid = eq_option-IsTest ◌==◌ ==_iff a.uid b.uid in
    let gid = eq_option-IsTest ◌==◌ ==_iff a.gid b.gid in
    let user = eq_option-IsTest eq_codes eq_codes_iff a.user b.user in
    let group = eq_option-IsTest eq_codes eq_codes_iff a.group b.group in
    let inode = ==_iff a.inode b.inode in
    let device_id = ==_iff a.device_id b.device_id in
    let size = ==_iff a.size b.size in
    let links = ==_iff a.links b.links in
    let xattrs = eq_attributes-IsTest a.extended_attributes b.extended_attributes in
    (
      (λ h.
          let (e0, (e1, (e2, (e3, (e4, (e5, (e6, (e7, (e8, (e9, (e10, (e11, (e12, e13))))))))))))) =
            (all_same (same_fields a b)).0 h in
          let x0 = mode.0 e0 in
          let x1 = mtime.0 e1 in
          let x2 = atime.0 e2 in
          let x3 = ctime.0 e3 in
          let x4 = uid.0 e4 in
          let x5 = gid.0 e5 in
          let x6 = user.0 e6 in
          let x7 = group.0 e7 in
          let x8 = inode.0 e8 in
          let x9 = device_id.0 e9 in
          let x10 = size.0 e10 in let x11 = links.0 e11 in let x12 = xattrs.0 e12 in cc),
      (λ h. (all_same (same_fields a b)).1 (
        mode.1 (ap (λ (m : Metadata). m.mode) h),
        (
          mtime.1 (ap (λ (m : Metadata). m.mtime) h),
          (
            atime.1 (ap (λ (m : Metadata). m.atime) h),
            (
              ctime.1 (ap (λ (m : Metadata). m.ctime) h),
              (
                uid.1 (ap (λ (m : Metadata). m.uid) h),
                (
                  gid.1 (ap (λ (m : Metadata). m.gid) h),
                  (
                    user.1 (ap (λ (m : Metadata). m.user) h),
                    (
                      group.1 (ap (λ (m : Metadata). m.group) h),
                      (
                        inode.1 (ap (λ (m : Metadata). m.inode) h),
                        (
                          device_id.1 (ap (λ (m : Metadata). m.device_id) h),
                          (
                            size.1 (ap (λ (m : Metadata). m.size) h),
                            (
                              links.1 (ap (λ (m : Metadata). m.links) h),
                              (xattrs.1 (ap (λ (m : Metadata). m.extended_attributes) h), tt),
                            ),
                          ),
                        ),
                      ),
                    ),
                  ),
                ),
              ),
            ),
          ),
        ),
      )),
    )

time_of_lem :
    (t : TimeOption) (d m : Option ℤ)
    → (time_of t d m ≡ elim t [ TimeOption.yes ↦ d | TimeOption.mtime ↦ m | TimeOption.no ↦ none ])
      × (time_of t (time_of t d m) m ≡ time_of t d m)
unfolding time_of
time_of_lem TimeOption.yes d m = (refl, refl)
time_of_lem TimeOption.mtime d m = (refl, refl)
time_of_lem TimeOption.no d m = (refl, refl)

device_of_lem :
    (t : DevIdOption) (node : Node)
    → device_of t node.meta.device_id (ltb 1 node.meta.links && not (is_dir node))
      ≡ device_restored t node
unfolding device_of device_restored
device_of_lem DevIdOption.yes node = refl
device_of_lem DevIdOption.hardlink node =
    elim (Bool-cases (ltb 1 node.meta.links && not (is_dir node))) [
      | inl h ↦ rw h refl
      | inr h ↦ rw h refl
    ]
device_of_lem DevIdOption.no node = refl

device_of-device_of :
    (t : DevIdOption) (d : ℕ) (b : Bool) → device_of t (device_of t d b) b ≡ device_of t d b
unfolding device_of
device_of-device_of DevIdOption.yes d b = refl
device_of-device_of DevIdOption.hardlink d true = refl
device_of-device_of DevIdOption.hardlink d false = refl
device_of-device_of DevIdOption.no d b = refl

xattrs_of_lem :
    (t : XattrOption) (l : List ExtendedAttribute)
    → (xattrs_of t l ≡ elim t [ XattrOption.yes ↦ l | XattrOption.no ↦ [] ])
      × (xattrs_of t (xattrs_of t l) ≡ xattrs_of t l)
unfolding xattrs_of
xattrs_of_lem XattrOption.yes l = (refl, refl)
xattrs_of_lem XattrOption.no l = (refl, refl)

module _ (opts : NodeModification) (node : Node) where
  modified-into_restore :
      (blockdev : Option BlockdevOption)
      → modified opts node ≡ (into_restore (with_blockdev blockdev opts) node).meta
  unfolding modified into_restore
  modified-into_restore blockdev =
      let m = node.meta in
      rw
        (
          (time_of_lem (unwrap_or opts.set_atime TimeOption.mtime) m.atime m.mtime).0,
          (time_of_lem (unwrap_or opts.set_ctime TimeOption.yes) m.ctime m.mtime).0,
          device_of_lem (unwrap_or opts.set_devid DevIdOption.hardlink) node,
          (xattrs_of_lem (unwrap_or opts.set_xattrs XattrOption.yes) m.extended_attributes).0,
        )
        refl

  modified-modified : modified opts (record node { meta = modified opts node }) ≡ modified opts node
  unfolding modified is_dir
  modified-modified =
      let m = node.meta in
      rw
        (
          (time_of_lem (unwrap_or opts.set_atime TimeOption.mtime) m.atime m.mtime).1,
          (time_of_lem (unwrap_or opts.set_ctime TimeOption.yes) m.ctime m.mtime).1,
          device_of-device_of (unwrap_or opts.set_devid DevIdOption.hardlink) m.device_id
              (ltb 1 m.links && not (is_dir node)),
          (xattrs_of_lem (unwrap_or opts.set_xattrs XattrOption.yes) m.extended_attributes).1,
        )
        refl

  -- The node with the new metadata.
  abbrev result : Node
  result = record node { meta = modified opts node }

  not_changed_iff : (not (eq_metadata node.meta (modified opts node)) ≡ false) ↔ (result ≡ node)
  not_changed_iff =
      let t = eq_metadata-IsTest node.meta (modified opts node) in
      (
        (λ h. sym (ap (λ m. record node { meta = m }) (t.0 (ground arith)))),
        (λ h. ap not (t.1 (sym (ap (λ (n : Node). n.meta) h)))),
      )

  -- What a call gives.
  abbrev given : Node → Node × Bool
  given n = (record n { meta = modified opts n }, not (eq_metadata n.meta (modified opts n)))

  not_changed_again : given result ≡ (result, false)
  not_changed_again =
      let e = modified-modified in
      let t = (eq_metadata-IsTest result.meta (modified opts result)).1 (sym e) in
      rw t (ap (λ m. (record node { meta = m }, false)) e)

-- `modify_node` and `into_restore` with the same options give the same metadata. `modify_node` says that it
-- changed the node exactly if the metadata is another one, and a second call changes nothing.
pub modify_node-into_restore :
    (opts : NodeModification) (blockdev : Option BlockdevOption) (node : Node)
    → ((modify_node opts node).0.meta ≡ (into_restore (with_blockdev blockdev opts) node).meta)
      × (((modify_node opts node).1 ≡ false) ↔ ((modify_node opts node).0 ≡ node))
      × (modify_node opts (modify_node opts node).0 ≡ ((modify_node opts node).0, false))
unfolding modify_node
modify_node-into_restore opts blockdev node = (
  modified-into_restore opts node blockdev,
  not_changed_iff opts node,
  not_changed_again opts node,
)
