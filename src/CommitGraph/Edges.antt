-- ===== src/CommitGraph/Edges.antt =====
-- The list of a merge's further parents ends.
use webgit.Base.{
  ℕ, zero, suc, ◌+◌, ◌*◌, ◌%◌, ◌^◌, ◌≤◌, ◌<◌, arith, ◌≡◌, ap, Bytes, length, take, drop, some,
}
use webgit.Base.{
  Bool-cases, inl, inr, ltb, not_ltb→le, ok, Returns, Returns-bind, Returns-ok_or, ok_or,
  length-take, length-drop,
}
use webgit.Fs.{File}
use webgit.Pack.Index.{from_be_bytes}
use webgit.Pack.Index.Offsets.{Holds}
use webgit.CommitGraph.{CommitGraph, CommitGraphError, read_array, has_extra_edges, position_mask}
use webgit.CommitGraph.Lookup.{oid_at, edges_loop, read_extra_edges}

module _ (g : CommitGraph) (file : File) (contents : Bytes) (holds : Holds file contents) where
  read_array-Returns : (n offset : ℕ) → Returns (read_array n file offset)
  unfolding read_array
  read_array-Returns n offset = elim (Bool-cases (ltb (length (take n (drop offset contents))) n)) [
    | inl e ↦ rw (read_array, holds, e) tt
    | inr e ↦ rw (read_array, holds, e) tt
  ]

  -- What is read lies in the file.
  read_array-within :
      (n offset : ℕ) (buf : Bytes)
      → 0 < n
      → read_array n file offset ≡ ok buf
      → offset + n ≤ length contents
  unfolding read_array
  read_array-within n offset buf pos e =
      elim (Bool-cases (ltb (length (take n (drop offset contents))) n)) [
        | inl t ↦ (let q = rw (read_array, holds, t) at e in cc)
        | inr f ↦
            (let l = not_ltb→le _ _ f in
              omega (arith, length-take n (drop offset contents), length-drop offset contents))
      ]

  oid_at-Returns : (pos : ℕ) → Returns (oid_at g file pos)
  unfolding oid_at
  oid_at-Returns pos =
      Returns-bind (read_array 20 file ((g.oidl_offset + pos * 20) % 2 ^ 64)) _
        (read_array-Returns 20 _) λ buf e. tt

  edges_loop-Returns :
      (fuel edge_offset index : ℕ)
      → length contents < 2 ^ 34
      → edge_offset + 2 ^ 34 ≤ 2 ^ 64
      → index < 2 ^ 32
      → 2 ^ 32 ≤ index + fuel
      → Returns (edges_loop fuel g file edge_offset index)
  unfolding edges_loop
  edges_loop-Returns zero edge_offset index small far h fuel_left = absurd (omega arith)
  edges_loop-Returns (suc fuel) edge_offset index small far h fuel_left =
      Returns-bind (read_array 4 file ((edge_offset + index * 4) % 2 ^ 64)) _
        (read_array-Returns 4 _)
        λ buf e.
          Returns-bind (oid_at g file (position_mask (from_be_bytes buf))) _ (oid_at-Returns _)
            λ oid e'. elim (Bool-cases (has_extra_edges (from_be_bytes buf))) [
              | inl t ↦ rw t tt
              | inr f ↦
                  (let within =
                      read_array-within 4 ((edge_offset + index * 4) % 2 ^ 64) buf (omega arith)
                        e in
                    let m : (index + 1) % 2 ^ 32 ≡ index + 1 = omega arith in
                    let rest =
                      edges_loop-Returns fuel edge_offset (index + 1) small far (omega arith)
                        (omega arith) in
                    rw (f, m)
                      (Returns-bind (edges_loop fuel g file edge_offset (index + 1)) _ rest
                        λ oids e''. tt))
            ]

-- Reading the further parents of a merge ends, with a list or an error, for a file of less than
-- 2^34 bytes: the fuel is enough for every index of 32 bits. The table starts at least as far below
-- the end of the 64-bit offsets.
pub read_extra_edges-Returns :
    (g : CommitGraph) (file : File) (contents : Bytes) (edge_offset start : ℕ)
    → Holds file contents
    → length contents < 2 ^ 34
    → g.edge_offset ≡ some edge_offset
    → edge_offset + 2 ^ 34 ≤ 2 ^ 64
    → start < 2 ^ 32
    → Returns (read_extra_edges g file start)
unfolding read_extra_edges
read_extra_edges-Returns g file contents edge_offset start holds small e far h =
    Returns-bind (ok_or g.edge_offset CommitGraphError.corrupt) _ (Returns-ok_or _ _) λ offset e'.
      let e'' : ok_or g.edge_offset CommitGraphError.corrupt ≡ ok edge_offset =
        ap (λ o. ok_or o CommitGraphError.corrupt) e in
      let same : offset ≡ edge_offset = cc in
      edges_loop-Returns g file contents holds (2 ^ 32) offset start small (omega arith) h
        (omega arith)
