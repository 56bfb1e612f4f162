-- ===== src/Diff/Examples.antt =====
-- Two versions of a small tree of files, and what the walk reports of them.
use webgit.Base.{ℕ, ◌+◌, ◌≡◌, refl, ap, sym, Bytes, false, [], ◌∷◌, All}
use webgit.Base.{arith, if◌then◌else◌, Outcome, ok, err, eq_bytes, eq_bytes-eq, replicate}
use webgit.Hash.{ObjectId, cmp_bytes}
use webgit.Object.Trees.{TreeEntryType, TreeEntry, Tree, Object, tree_of, is_tree, eq_type, to_tree}
use webgit.Pack.Header.{zero_id}
use webgit.Diff.{
  DiffError, canceled, right_only, both, join, then_with, cmp_option, or_slash, byte_at,
  entry_name_cmp, push, emit, entries_of, same_ids, is_some, asserted, map_err, match_ordering,
  sub_tree, less, greater, equal_trees, equal, identical, merge_step, walk_entries, walk_stack,
  tree_diff_impl,
}
use Prim.Native.Nat.{Ordering}
use webgit.Diff.Names.{sort_name, entry_name_cmp-sort_name}
use webgit.Diff.Results.{After, After-if}
use webgit.Diff.Entries.{IsChange, Answers}
use webgit.Diff.Changes.{tree_diff_impl-changes}
use webgit.Diff.Ends.{cost, costs, size, Covers, tree_diff_impl-ends}

abbrev id_of : ℕ → ObjectId
id_of n = record { bytes = replicate 20 n }

abbrev dir_a : Bytes
dir_a = b'a' ∷ []

abbrev file_ab : Bytes
file_ab = b'a' ∷ b'.' ∷ b'b' ∷ []

abbrev entry : Bytes → TreeEntryType → ℕ → TreeEntry
entry name entry_type n = record { name = name; entry_type = entry_type; id = id_of n }

abbrev old_dir : Tree
old_dir = record { id = id_of 10; entries = entry dir_a TreeEntryType.file 1 ∷ [] }

abbrev new_dir : Tree
new_dir = record {
  id = id_of 11;
  entries = entry dir_a TreeEntryType.executable 1 ∷ entry file_ab TreeEntryType.file 2 ∷ [];
}

abbrev old_root : Tree
old_root = record { id = id_of 20; entries = entry dir_a TreeEntryType.tree 10 ∷ [] }

abbrev new_root : Tree
new_root = record {
  id = id_of 21;
  entries = entry file_ab TreeEntryType.symlink 3 ∷ entry dir_a TreeEntryType.tree 11 ∷ [];
}

abbrev lookup : ObjectId → Outcome DiffError Object
lookup id =
    if eq_bytes id.bytes (id_of 10).bytes
    then ok (tree_of old_dir)
    else if eq_bytes id.bytes (id_of 11).bytes
    then ok (tree_of new_dir)
    else err canceled

abbrev same : DiffError → DiffError
same e = e

abbrev weight : ObjectId → ℕ
weight id = 1

lookup-Answers : (id : ObjectId) → After ⊥ (Answers id) (lookup id)
unfolding After Answers
lookup-Answers id =
    After-if ⊥ (Answers id) (eq_bytes id.bytes (id_of 10).bytes) _ _
      (λ h. ap (λ (b : Bytes). record { bytes = b }) (sym (eq_bytes-eq _ _ h)))
      (λ _.
        After-if ⊥ (Answers id) (eq_bytes id.bytes (id_of 11).bytes) _ _
          (λ h. ap (λ (b : Bytes). record { bytes = b }) (sym (eq_bytes-eq _ _ h))) (λ _. tt))

lookup-Covers : (id : ObjectId) → After ⊥ (Covers weight id) (lookup id)
unfolding After Covers size costs cost is_tree
lookup-Covers id =
    After-if ⊥ (Covers weight id) (eq_bytes id.bytes (id_of 10).bytes) _ _ (λ _. omega arith)
      (λ _.
        After-if ⊥ (Covers weight id) (eq_bytes id.bytes (id_of 11).bytes) _ _ (λ _. omega arith)
          (λ _. tt))

-- The file before the directory, the mode that alone changed, and the new file.
reported :
    tree_diff_impl same lookup (λ round. false) 4 old_root new_root
    ≡ ok (
        right_only file_ab TreeEntryType.symlink (zero_id, id_of 3)
        ∷ both
            (b'a' ∷ b'/' ∷ b'a' ∷ [])
            TreeEntryType.file
            TreeEntryType.executable
            (id_of 1, id_of 1)
        ∷ right_only (b'a' ∷ b'/' ∷ file_ab) TreeEntryType.file (zero_id, id_of 2)
        ∷ [])
unfolding tree_diff_impl walk_stack walk_entries merge_step match_ordering less greater equal
    equal_trees identical eq_type sub_tree map_err to_tree is_tree entry_name_cmp byte_at or_slash
    cmp_option then_with cmp_bytes join push emit entries_of same_ids is_some asserted
reported = refl

entry_name_cmp-sort_name_example :
    entry_name_cmp (entry dir_a TreeEntryType.tree 10) (entry file_ab TreeEntryType.symlink 3)
    ≡ cmp_bytes
        (sort_name dir_a (is_tree TreeEntryType.tree))
        (sort_name file_ab (is_tree TreeEntryType.symlink))
entry_name_cmp-sort_name_example =
    entry_name_cmp-sort_name (entry dir_a TreeEntryType.tree 10)
      (entry file_ab TreeEntryType.symlink 3) (omega arith, tt)
      (omega arith, (omega arith, (omega arith, tt)))

tree_diff_impl-changes_example :
    After Unit (All IsChange) (tree_diff_impl same lookup (λ round. false) 9 old_root new_root)
tree_diff_impl-changes_example =
    tree_diff_impl-changes same lookup lookup-Answers (λ round. false) 9 old_root new_root

tree_diff_impl-ends_example : After ⊥ (All IsChange) (
    tree_diff_impl same lookup
      (λ round. false)
      (size weight old_root + size weight new_root)
      old_root
      new_root)
tree_diff_impl-ends_example =
    tree_diff_impl-ends weight same lookup lookup-Covers lookup-Answers (λ round. false) old_root
      new_root

-- A name with a slash, which no git writes, compares equal to the directory in front of the slash.
slashed :
    entry_name_cmp
      (entry dir_a TreeEntryType.tree 10)
      (entry (b'a' ∷ b'/' ∷ b'b' ∷ []) TreeEntryType.file 3)
    ≡ Ordering.eq
unfolding entry_name_cmp byte_at or_slash cmp_option then_with cmp_bytes is_tree
slashed = refl
