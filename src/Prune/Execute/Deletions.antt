-- ===== src/Prune/Execute/Deletions.antt =====
-- The events of a prune, crates/core/src/commands/prune.rs, that delete packs.
use rustic_core.Prune.Run.{Work}
use rustic_core.Prune.Execute.{
  Event, delete_packs, delete_indexes, write_pack, save_index, perform_if, delete_old, is_empty,
}
use rustic_core.Prune.Execute.Events.{perform-appends}
use rustic_core.Snapshot.{is_empty}
use mathlib.Core.List.{append-nil, append_assoc}
use rustic_core.Base.{
  Bool, List, true, ℕ, Option, ◌&&◌, ◌∷◌, [], false, not, ◌≡◌, ErrorKind, ◌++◌, ok, refl, sym, all,
  ok-injective, >>=-eq-ok, ap, ◌∙◌, ◌>>=◌, arith,
}

abbrev pub event_if : Bool → Event → List Event
event_if true e = e ∷ []
event_if false e = []

-- Only packs are deleted.
abbrev pub deletes_packs : Event → Bool
deletes_packs (delete_packs ids) = true
deletes_packs (delete_indexes ids) = false
deletes_packs (write_pack p) = false
deletes_packs (save_index f) = false

-- The packs that are deleted.
abbrev pub packs_deleted : List Event → List ℕ
packs_deleted [] = []
packs_deleted (delete_packs ids ∷ events) = ids ++ packs_deleted events
packs_deleted (delete_indexes ids ∷ events) = packs_deleted events
packs_deleted (write_pack p ∷ events) = packs_deleted events
packs_deleted (save_index f ∷ events) = packs_deleted events

two_deletions :
    (xs ys : List ℕ)
    → let es : List Event =
        event_if (not (is_empty xs)) (delete_packs xs)
        ++ event_if (not (is_empty ys)) (delete_packs ys) in
      (all deletes_packs es ≡ true) × (packs_deleted es ≡ xs ++ ys)
unfolding is_empty
two_deletions [] [] = (refl, refl)
two_deletions [] (y ∷ ys) = (refl, append-nil (y ∷ ys))
two_deletions (x ∷ xs) [] = (refl, refl)
two_deletions (x ∷ xs) (y ∷ ys) = (refl, ap (λ l. (x ∷ xs) ++ l) (append-nil (y ∷ ys)))

module _ (refuse : List Event → Event → Option ErrorKind) where
  pub perform_if-appends :
      (b : Bool) (e : Event) (es fs : List Event)
      → perform_if refuse b e es ≡ ok fs
      → fs ≡ es ++ event_if b e
  unfolding perform_if
  perform_if-appends true e es fs h = perform-appends refuse e es fs h
  perform_if-appends false e es fs h = sym (ok-injective h) ∙ sym (append-nil es)

  -- Index files are deleted before packs.
  pub delete_old-appends :
      (ids : List ℕ) (w : Work) (es fs : List Event)
      → is_empty ids ≡ false
      → delete_old refuse false ids w es ≡ ok fs
      → (deletes : List Event) × (fs ≡ es ++ delete_indexes ids ∷ deletes)
        × (all deletes_packs deletes ≡ true)
        × (packs_deleted deletes ≡ w.data_packs_remove ++ w.tree_packs_remove)
  unfolding delete_old
  delete_old-appends ids w es fs n h =
      let others : Event = delete_packs w.data_packs_remove in
      let trees : Event = delete_packs w.tree_packs_remove in
      let x = not (is_empty w.data_packs_remove) in
      let y = not (is_empty w.tree_packs_remove) in
      let z = not (is_empty ids) && not false in
      let (gs, a, f) =
        >>=-eq-ok (perform_if refuse z (delete_indexes ids) es)
          (λ gs. perform_if refuse x others gs >>= λ hs. perform_if refuse y trees hs) h in
      let (hs, b, c) =
        >>=-eq-ok (perform_if refuse x others gs) (λ hs. perform_if refuse y trees hs) f in
      let is_z : z ≡ true = ground arith in
      let d = two_deletions w.data_packs_remove w.tree_packs_remove in
      (
        event_if x others ++ event_if y trees,
        perform_if-appends y trees hs fs c
            ∙ ap (λ l. l ++ event_if y trees) (perform_if-appends x others gs hs b)
            ∙ append_assoc gs (event_if x others) (event_if y trees)
            ∙ ap (λ l. l ++ (event_if x others ++ event_if y trees))
                (perform_if-appends z (delete_indexes ids) es gs a
                  ∙ ap (λ v. es ++ event_if v (delete_indexes ids)) is_z)
            ∙ append_assoc es (delete_indexes ids ∷ []) (event_if x others ++ event_if y trees),
        d.0,
        d.1,
      )
