-- ===== src/Diff/Entries.antt =====
-- crates/gib-diff/src/lib.rs: what the walk of two trees keeps of its output and of its stack.
use webgit.Base.{◌≡◌, refl, sym, Bytes, All, All-append}
use webgit.Base.{Bool, true, false, ◌&&◌, Option, none, some, [], ◌∷◌}
use webgit.Base.{eq_bytes}
use webgit.Hash.{ObjectId}
use webgit.Object.Trees.{
  TreeEntryType, TreeEntry, Tree, Object, commit_of, tag_of, blob_of, tree_of,
}
use webgit.Object.Trees.{is_tree, eq_type, to_tree}
use webgit.Pack.Header.{zero_id}
use webgit.Diff.{DiffError, Entry, left_only, right_only, both, StackInner, Progress, push, emit}
use webgit.Diff.{asserted, same_ids, is_some, map_err}
use webgit.Diff.{identical}
use webgit.Diff.Results.{After}

-- An entry names files only, and what it says of their two sides differs.
unfoldable pub IsChange : Entry → Type 0
IsChange (left_only path t (a, b)) = (is_tree t ≡ false) × (b ≡ zero_id)
IsChange (right_only path t (a, b)) = (is_tree t ≡ false) × (a ≡ zero_id)
IsChange (both path s t (a, b)) =
    (is_tree s ≡ false) × (is_tree t ≡ false) × ((eq_bytes a.bytes b.bytes && eq_type s t) ≡ false)

-- The names that a lookup is asked for are those of the trees that it gives.
unfoldable pub Answers : ObjectId → Object → Type 0
Answers id (tree_of t) = t.id ≡ id
Answers id (commit_of c) = Unit
Answers id (tag_of c) = Unit
Answers id (blob_of c) = Unit

abbrev pub IsAsserted : StackInner → Type 0
IsAsserted top = asserted top ≡ true

abbrev pub IsProgress : Progress → Type 0
IsProgress p = All IsChange p.out × All IsAsserted p.stack

is_tree-eq : (t : TreeEntryType) → is_tree t ≡ true → t ≡ TreeEntryType.tree
unfolding is_tree
is_tree-eq TreeEntryType.file h = cc
is_tree-eq TreeEntryType.executable h = cc
is_tree-eq TreeEntryType.symlink h = cc
is_tree-eq TreeEntryType.tree h = refl
is_tree-eq TreeEntryType.commit h = cc

module _ {E : Type 0} (from : DiffError → E) where
  pub to_tree-Answers :
      (id : ObjectId) (object : Object)
      → Answers id object
      → After ⊥ (λ t. t.id ≡ id) (map_err from (to_tree object))
  unfolding After Answers map_err to_tree
  to_tree-Answers id (tree_of t) h = h
  to_tree-Answers id (commit_of c) h = tt
  to_tree-Answers id (tag_of c) h = tt
  to_tree-Answers id (blob_of c) h = tt

pub emit-IsProgress : (p : Progress) (e : Entry) → IsChange e → IsProgress p → IsProgress (emit p e)
unfolding emit
emit-IsProgress p e h (out, stack) = (All-append IsChange p.out (e ∷ []) out (h, tt), stack)

push-IsProgress :
    (p : Progress) (path : Bytes) (l r : Option Tree)
    → asserted (record { parent_path = some path; left = l; right = r }) ≡ true
    → IsProgress p
    → IsProgress (push p path l r)
unfolding push
push-IsProgress p path l r h (out, stack) = (out, (h, stack))

pub left-IsProgress :
    (p : Progress) (path : Bytes) (t : Tree) → IsProgress p → IsProgress (push p path (some t) none)
unfolding asserted is_some same_ids
left-IsProgress p path t h = push-IsProgress p path (some t) none refl h

pub right-IsProgress :
    (p : Progress) (path : Bytes) (t : Tree) → IsProgress p → IsProgress (push p path none (some t))
unfolding asserted is_some same_ids
right-IsProgress p path t h = push-IsProgress p path none (some t) refl h

pub pair-IsProgress :
    (p : Progress) (path : Bytes) (s t : Tree)
    → eq_bytes s.id.bytes t.id.bytes ≡ false
    → IsProgress p
    → IsProgress (push p path (some s) (some t))
unfolding asserted is_some same_ids
pair-IsProgress p path s t e h = push-IsProgress p path (some s) (some t) (rw e refl) h

and_false : (a b : Bool) → b ≡ true → (a && b) ≡ false → a ≡ false
and_false true true e h = h
and_false true false e h = sym e
and_false false b e h = refl

pub trees-differ :
    (l r : TreeEntry) (s t : Tree)
    → is_tree l.entry_type ≡ true
    → is_tree r.entry_type ≡ true
    → identical l r ≡ false
    → s.id ≡ l.id
    → t.id ≡ r.id
    → eq_bytes s.id.bytes t.id.bytes ≡ false
unfolding identical eq_type
trees-differ l r s t hl hr d es et =
    let same : eq_type l.entry_type r.entry_type ≡ true =
      rw (is_tree-eq l.entry_type hl, is_tree-eq r.entry_type hr) refl in
    let apart = and_false (eq_bytes l.id.bytes r.id.bytes) _ same d in rw (es, et) apart
