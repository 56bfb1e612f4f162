-- ===== src/Pack/Index/Offsets.antt =====
-- The table of offsets, loaded or read entry by entry.
use webgit.Base.{
  false, ℕ, ◌+◌, ◌-◌, ◌*◌, ◌%◌, ◌^◌, ◌≤◌, ◌<◌, arith, ◌≡◌, sym, ap, refl, ◌∙◌, true, Bytes, [],
  length, take, drop,
}
use webgit.Base.{
  Bool-cases, inl, inr, ltb, not_ltb→le, le→leb, leb, ok, err, if◌then◌else◌, some, none, ◌>>=◌,
  append-nil, length-take, length-drop, take-drop-take, drop-drop,
}
use webgit.Fs.{File, filled}
use webgit.Base.{Option}
use webgit.Hash.{ObjectId, IsId}
use webgit.Pack.Index.Find.{IsIndex, Locates, find_object_idx-Locates}
use webgit.Pack.{PackResult, PackError}
use webgit.Pack.Index.{
  ShortOffsetTable, load_offsets, read_table, offset_entry, offset_of_table, short_offset,
  FanoutTable, total_objects, find_object_in_pack_index, get_obj_packfile_offset,
}

-- A file with these bytes in it, read without failure and as far as it goes.
abbrev pub Holds : File → Bytes → Type 0
Holds file contents = (o n : ℕ) → file.read_segment o n ≡ inr (take n (drop o contents))

filled_full : (n : ℕ) (read : Bytes) → n ≤ length read → filled n read ≡ read
unfolding filled
filled_full n read h = (let e : n - length read ≡ 0 = omega arith in rw e (append-nil read))

abbrev table_of : PackResult ShortOffsetTable → Bytes
table_of (ok offsets) = offsets.table
table_of _ = []

module _ (file : File) (contents : Bytes) (holds : Holds file contents) (total : ℕ) where
  abbrev table_bytes : Bytes
  table_bytes = take (total * 4) (drop (offset_of_table total) contents)

  abbrev loaded : PackResult ShortOffsetTable
  loaded =
      if ltb (length table_bytes) (total * 4)
      then err PackError.corrupt_index_file
      else ok (record { table = filled (total * 4) table_bytes })

  load_offsets-loaded : total * 4 < 2 ^ 31 → load_offsets file total ≡ loaded
  unfolding load_offsets read_table
  load_offsets-loaded small =
      let m : total * 4 % 2 ^ 32 ≡ total * 4 = omega arith in
      let h : leb (2 ^ 31) (total * 4) ≡ false = ground arith in rw (m, h, holds) refl

  -- A table that loads is the table in the file.
  load_offsets-table :
      (offsets : ShortOffsetTable)
      → total * 4 < 2 ^ 31
      → load_offsets file total ≡ ok offsets
      → (offsets.table ≡ table_bytes) × (total * 4 ≤ length table_bytes)
  load_offsets-table offsets small e =
      let run = sym (load_offsets-loaded small) ∙ e in
      elim (Bool-cases (ltb (length table_bytes) (total * 4))) [
        | inl t ↦ (let q = rw t at run in cc)
        | inr f ↦
            (let q = ap table_of (rw f at run) in
              let size = not_ltb→le _ _ f in (sym q ∙ filled_full _ _ size, size))
      ]

  -- An entry of the table that was loaded is the entry that is read from the file.
  short_offset-loaded :
      (offsets : ShortOffsetTable) (i : ℕ)
      → total * 4 < 2 ^ 31
      → i < total
      → load_offsets file total ≡ ok offsets
      → short_offset (some offsets) file i total ≡ short_offset none file i total
  unfolding short_offset offset_entry
  short_offset-loaded offsets i small h e =
      let (t, size) = load_offsets-table offsets small e in
      let rest = drop (offset_of_table total) contents in
      let m1 : i * 4 % 2 ^ 32 ≡ i * 4 = omega arith in
      let m2 : (i + 1) % 2 ^ 32 * 4 % 2 ^ 32 ≡ i * 4 + 4 = omega arith in
      let s : i * 4 + 4 - i * 4 ≡ 4 = omega arith in
      let in1 : leb (i * 4) (i * 4 + 4) ≡ true = le→leb _ _ (omega arith) in
      let in2 : leb (i * 4 + 4) (length table_bytes) ≡ true = le→leb _ _ (omega arith) in
      let read : take 4 (drop (i * 4) table_bytes) ≡ take 4 (drop (i * 4) rest) =
        take-drop-take 4 (i * 4) (total * 4) rest (omega arith) in
      let full : 4 ≤ length (take 4 (drop (i * 4) rest)) = omega (
        arith,
        length-take 4 (drop (i * 4) rest),
        length-drop (i * 4) rest,
        length-take (total * 4) rest,
      ) in
      rw
        (
          t,
          m1,
          m2,
          in1,
          in2,
          s,
          read,
          holds,
          sym (drop-drop (i * 4) (offset_of_table total) contents),
          filled_full 4 _ full,
        )
        refl

-- The steps behind the search.
offset_at : Option ShortOffsetTable → File → ℕ → Option ℕ → PackResult (Option ℕ)
offset_at offsets file total none = ok none
offset_at offsets file total (some i) =
    get_obj_packfile_offset offsets file i total >>= λ offset. ok (some offset)

offset_at-loaded :
    (f : FanoutTable) (file : File) (contents : Bytes) (entries : ℕ → ObjectId) (id : ObjectId)
    (offsets : ShortOffsetTable) (at : Option ℕ)
    → Holds file contents
    → total_objects f * 4 < 2 ^ 31
    → load_offsets file (total_objects f) ≡ ok offsets
    → Locates f file entries (total_objects f) id at
    → offset_at (some offsets) file (total_objects f) at ≡ offset_at none file (total_objects f) at
unfolding offset_at get_obj_packfile_offset
offset_at-loaded f file contents entries id offsets none holds small e l = refl
offset_at-loaded f file contents entries id offsets (some i) holds small e l =
    rw (short_offset-loaded file contents holds (total_objects f) offsets i small l.0 e) refl

-- Where the index is well formed and its file reads without failure, a lookup gives the same offset
-- with the table of offsets held in memory as with entries read from the file. The table holds
-- fewer than 2^31 bytes.
pub find_object_in_pack_index-loaded :
    (f : FanoutTable) (file : File) (contents : Bytes) (entries : ℕ → ObjectId) (id : ObjectId)
    (offsets : ShortOffsetTable)
    → Holds file contents
    → total_objects f * 4 < 2 ^ 31
    → load_offsets file (total_objects f) ≡ ok offsets
    → IsId id
    → IsIndex f file entries (total_objects f)
    → find_object_in_pack_index f (some offsets) file id ≡ find_object_in_pack_index f none file id
unfolding find_object_in_pack_index offset_at
find_object_in_pack_index-loaded f file contents entries id offsets holds small e hid x =
    let (at, run, l) = find_object_idx-Locates f file entries (total_objects f) id hid x in
    rw run (offset_at-loaded f file contents entries id offsets at holds small e l)
