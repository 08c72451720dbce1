-- ===== src/Prune/Execute/Logged.antt =====
-- The calls of the indexer in the loop of `prune_repository`, crates/core/src/commands/prune.rs.
use rustic_core.Prune.{
  PackToDo, PrunePack, into_index_pack, into_index_pack_with_time, IndexPack, BlobType,
}
use rustic_core.Prune.Run.{
  Work, delete_of, delete_pack, add, add_remove, dispose, repack, run_todo, run_pack, run_packs,
}
use rustic_core.Prune.Execute.Events.{called, called-append}
use mathlib.Core.List.{append-nil, append_assoc}
use rustic_core.Base.{
  List, ◌≡◌, Bool, false, true, ℕ, ◌++◌, sym, ok, ◌∷◌, [], arith, subst, ◌∙◌, ok-injective, refl,
  ap, >>=-eq-ok,
}
use rustic_core.Blob.{tree_blob, data_blob}

-- The calls add what the work has more than before.
abbrev pub IsLogged : List IndexPack → List IndexPack → Work → Type 0
IsLogged added removed w =
    (w.added ≡ added ++ called false w.calls) × (w.removed ≡ removed ++ called true w.calls)

module _ (added removed : List IndexPack) where
  one_more :
      (d e : Bool) (p : IndexPack) (l before now : List IndexPack) (calls : List (Bool × IndexPack))
      → now ≡ before ++ called d ((e, p) ∷ [])
      → before ≡ l ++ called d calls
      → now ≡ l ++ called d (calls ++ (e, p) ∷ [])
  one_more d e p l before now calls f g =
      f
      ∙ ap (λ k. k ++ called d ((e, p) ∷ [])) g
      ∙ append_assoc l (called d calls) (called d ((e, p) ∷ []))
      ∙ ap (λ k. l ++ k) (sym (called-append d calls ((e, p) ∷ [])))

  add-IsLogged :
      (p : IndexPack) (w : Work) → IsLogged added removed w → IsLogged added removed (add p w)
  unfolding add
  add-IsLogged p w (a, b) = (
    one_more false false p added w.added (w.added ++ p ∷ []) w.calls refl a,
    one_more true false p removed w.removed w.removed w.calls (sym (append-nil w.removed)) b,
  )

  add_remove-IsLogged :
      (p : IndexPack) (w : Work)
      → IsLogged added removed w
      → IsLogged added removed (add_remove p w)
  unfolding add_remove
  add_remove-IsLogged p w (a, b) = (
    one_more false true p added w.added w.added w.calls (sym (append-nil w.added)) a,
    one_more true true p removed w.removed (w.removed ++ p ∷ []) w.calls refl b,
  )

  delete_pack-IsLogged :
      (p : PrunePack) (w : Work)
      → IsLogged added removed w
      → IsLogged added removed (delete_pack p w)
  unfolding delete_pack delete_of
  delete_pack-IsLogged p w h = go p.blob_type
    where
      go : (t : BlobType) → IsLogged added removed (delete_of t p.id w)
      go tree_blob = h
      go data_blob = h

  dispose-IsLogged :
      (i : Bool) (p : PrunePack) (q : IndexPack) (w : Work)
      → IsLogged added removed w
      → IsLogged added removed (dispose i p q w)
  unfolding dispose
  dispose-IsLogged true p q w h = delete_pack-IsLogged p w h
  dispose-IsLogged false p q w h = add_remove-IsLogged q w h

  run_todo-IsLogged :
      (todo : PackToDo) (i : Bool) (time : ℕ) (p : PrunePack) (w w' : Work)
      → run_todo todo i time p w ≡ ok w'
      → IsLogged added removed w
      → IsLogged added removed w'
  unfolding run_todo repack
  run_todo-IsLogged PackToDo.undecided i time p w w' e h = absurd (ground arith)
  run_todo-IsLogged PackToDo.keep i time p w w' e h =
      subst (IsLogged added removed) (ok-injective e) (add-IsLogged (into_index_pack p time) w h)
  run_todo-IsLogged PackToDo.repack i time p w w' e h =
      subst (IsLogged added removed) (ok-injective e)
        (dispose-IsLogged i p (into_index_pack_with_time p time) w h)
  run_todo-IsLogged PackToDo.mark_delete i time p w w' e h =
      subst (IsLogged added removed) (ok-injective e)
        (dispose-IsLogged i p (into_index_pack_with_time p time) w h)
  run_todo-IsLogged PackToDo.keep_marked i time p w w' e h =
      subst (IsLogged added removed) (ok-injective e)
        (dispose-IsLogged i p (into_index_pack p time) w h)
  run_todo-IsLogged PackToDo.keep_marked_and_correct i time p w w' e h =
      subst (IsLogged added removed) (ok-injective e)
        (dispose-IsLogged i p (into_index_pack p time) w h)
  run_todo-IsLogged PackToDo.recover i time p w w' e h =
      subst (IsLogged added removed) (ok-injective e)
        (add-IsLogged (into_index_pack_with_time p time) w h)
  run_todo-IsLogged PackToDo.delete i time p w w' e h =
      subst (IsLogged added removed) (ok-injective e) (delete_pack-IsLogged p w h)

  pub run_packs-IsLogged :
      (i : Bool) (time : ℕ) (packs : List PrunePack) (w w' : Work)
      → run_packs i time packs w ≡ ok w'
      → IsLogged added removed w
      → IsLogged added removed w'
  unfolding run_packs run_pack
  run_packs-IsLogged i time [] w w' e h = subst (IsLogged added removed) (ok-injective e) h
  run_packs-IsLogged i time (p ∷ packs) w w' e h =
      let (v, a, b) = >>=-eq-ok (run_pack i time p w) (run_packs i time packs) e in
      run_packs-IsLogged i time packs v w' b (run_todo-IsLogged p.to_do i time p w v a h)
