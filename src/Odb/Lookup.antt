-- ===== src/Odb/Lookup.antt =====
-- Looking an object up over all packs.
use webgit.Base.{
  ℕ, suc, ◌<◌, ◌≡◌, ◌≢◌, ◌∙◌, ◌↔◌, ◌⊎◌, inl, inr, sym, refl, List, [], ◌∷◌, All, Option, none, some,
}
use webgit.Base.{ok, err, panic, stuck, ◌>>=◌, bind-eq_ok}
use webgit.Fs.{File, Directory}
use webgit.Hash.{ObjectId, IsId}
use webgit.Pack.{PackResult}
use webgit.Pack.Index.{
  total_objects, find_object_idx, find_object_in_pack_index, get_obj_packfile_offset,
}
use webgit.Pack.Index.Find.{IsIndex, Locates, find_object_idx-Locates}
use webgit.Odb.{PackIndex, from_pack, from_file_system, find_packed_loop, find_packed_object}
use webgit.Odb.Resolve.{InPack, InPacks, IsPack, InPack-entry, entry-InPack}
use mathlib.Core.Path.{subst}

module _ (id : ObjectId) where
  -- What one pack's index says of the name.
  abbrev Absent : PackIndex → File → (ℕ → ObjectId) → Type 0
  Absent index file entries =
      ((i : ℕ) → i < total_objects index.fanout → entries i ≢ id)
      × (find_object_in_pack_index index.fanout index.offsets file id ≡ ok none)

  abbrev Present : PackIndex → File → (ℕ → ObjectId) → Type 0
  Present index file entries =
      (i : ℕ) × (i < total_objects index.fanout)
      × (entries i ≡ id)
      × (find_object_in_pack_index index.fanout index.offsets file id ≡ (
          get_obj_packfile_offset index.offsets file i (total_objects index.fanout) >>= λ offset.
          ok (some offset)))

  lookup :
      (index : PackIndex) (file : File) (entries : ℕ → ObjectId)
      → IsId id
      → IsIndex index.fanout file entries (total_objects index.fanout)
      → Absent index file entries ⊎ Present index file entries
  unfolding find_object_in_pack_index
  lookup index file entries hid x =
      let (at, run, l) =
        find_object_idx-Locates index.fanout file entries (total_objects index.fanout) id hid x in
      (elim at
          as (λ at.
            find_object_idx index.fanout file id ≡ ok at
            → Locates index.fanout file entries (total_objects index.fanout) id at
            → Absent index file entries ⊎ Present index file entries) [
              | none ↦ λ run l. inl (l, rw run refl)
              | some i ↦ λ run l. inr (i, l.0, l.1, rw run refl)
            ])
        run l

-- A lookup that read an offset does not report that the object is missing.
offset-some :
    (m : PackResult ℕ) (at : Option ℕ)
    → from_pack (m >>= λ offset. ok (some offset)) ≡ ok at
    → (offset : ℕ) × (at ≡ some offset)
unfolding from_pack
offset-some (ok offset) at e = (offset, cc)
offset-some (err e') at e = cc
offset-some panic at e = cc
offset-some stuck at e = cc

module _ (pack_dir : Directory) (id : ObjectId) where
  absent_step :
      (n : ℕ) (index : PackIndex) (indexes : List PackIndex) (file : File)
      → pack_dir.open_file index.name.index_filename ≡ ok file
      → find_object_in_pack_index index.fanout index.offsets file id ≡ ok none
      → find_packed_loop pack_dir id n (index ∷ indexes)
        ≡ find_packed_loop pack_dir id (suc n) indexes
  unfolding find_packed_loop from_pack from_file_system
  absent_step n index indexes file opens finds = rw (opens, finds) refl

  present_step :
      (n : ℕ) (index : PackIndex) (indexes : List PackIndex) (file : File) (m : PackResult ℕ)
      → pack_dir.open_file index.name.index_filename ≡ ok file
      → find_object_in_pack_index index.fanout index.offsets file id
        ≡ (m >>= λ offset. ok (some offset))
      → find_packed_loop pack_dir id n (index ∷ indexes) ≢ ok none
  unfolding find_packed_loop from_file_system
  present_step n index indexes file m opens finds e =
      let e' = rw (opens, from_file_system, finds) at e in
      let (at, e1, k1) = bind-eq_ok (from_pack (m >>= λ offset. ok (some offset))) _ e' in
      let (offset, q) = offset-some m at e1 in
      let k2 = rw q at k1 in
      let (pack_file, e2, k3) =
        bind-eq_ok (from_file_system (pack_dir.open_file index.name.pack_filename)) _ k2 in
      cc

  find_packed_loop-none :
      (n : ℕ) (indexes : List PackIndex)
      → IsId id
      → All (IsPack pack_dir) indexes
      → (find_packed_loop pack_dir id n indexes ≡ ok none) ↔ (InPacks pack_dir indexes id → ⊥)
  unfolding find_packed_loop
  find_packed_loop-none n [] hid all = ((λ e in_id. in_id), λ none_in. refl)
  find_packed_loop-none n (index ∷ indexes) hid ((file, entries, opens, x), all) =
      elim (lookup id index file entries hid x) [
        | inl (absent, run) ↦
            (let step = absent_step n index indexes file opens run in
              let (to, back) = find_packed_loop-none (suc n) indexes hid all in
              (
                (λ e in_id. elim in_id [
                  | inl here ↦
                      (let (i, hi, q) = InPack-entry pack_dir index file entries opens x id here in
                        absent i hi q)
                  | inr there ↦ to (sym step ∙ e) there
                ]),
                λ none_in. step ∙ back (λ there. none_in (inr there)),
              ))
        | inr (i, hi, q, run) ↦ (
          (λ e in_id.
              present_step n index indexes file
                (get_obj_packfile_offset index.offsets file i (total_objects index.fanout)) opens
                run e),
          λ none_in. absurd (
              none_in (
                inl (
                  subst (InPack pack_dir index) q
                    (entry-InPack pack_dir index file entries opens x i hi)))),
        )
      ]

-- Over packs with well-formed indexes, the lookup reports that an object is missing exactly when no
-- pack holds its name.
pub find_packed_object-none :
    (pack_dir : Directory) (indexes : List PackIndex) (id : ObjectId)
    → IsId id
    → All (IsPack pack_dir) indexes
    → (find_packed_object pack_dir indexes id ≡ ok none) ↔ (InPacks pack_dir indexes id → ⊥)
unfolding find_packed_object
find_packed_object-none pack_dir indexes id hid all =
    find_packed_loop-none pack_dir id 0 indexes hid all
