-- ===== src/Object/Trees.antt =====
-- crates/gib-object/src/tree.rs and lib.rs: the entries of a tree, and an object coerced to one.
use webgit.Base.{ℕ, Bytes, Bool, true, false, List, ◌==◌, Outcome, ok, err}
use webgit.Hash.{ObjectId}
use webgit.Object.{ObjectType}

pub data TreeEntryType : Type 0 where
  file executable symlink tree commit : TreeEntryType

pub record TreeEntry : Type 0 where
  pub name : Bytes
  pub entry_type : TreeEntryType
  pub id : ObjectId

-- A tree after `parse`: its entries are what its iterator gives, in that order.
pub record Tree : Type 0 where
  pub id : ObjectId
  pub entries : List TreeEntry

-- Of the kinds of object that are not read further, the name is all that is kept.
pub data Object : Type 0 where
  commit_of tag_of blob_of : ObjectId → Object
  tree_of : Tree → Object

pub record UnexpectedObjectType : Type 0 where
  pub id : ObjectId
  expected : ObjectType
  received : ObjectType

unfoldable pub is_tree : TreeEntryType → Bool
is_tree TreeEntryType.tree = true
is_tree _ = false

-- `==`, as derived.
unfoldable pub eq_type : TreeEntryType → TreeEntryType → Bool
eq_type a b = discriminant a == discriminant b
  where
    discriminant : TreeEntryType → ℕ
    discriminant TreeEntryType.file = 0
    discriminant TreeEntryType.executable = 1
    discriminant TreeEntryType.symlink = 2
    discriminant TreeEntryType.tree = 3
    discriminant TreeEntryType.commit = 4

-- `Object::tree`
unfoldable pub to_tree : Object → Outcome UnexpectedObjectType Tree
to_tree (tree_of t) = ok t
to_tree (commit_of id) =
    err (record { id = id; expected = ObjectType.tree; received = ObjectType.commit })
to_tree (tag_of id) =
    err (record { id = id; expected = ObjectType.tree; received = ObjectType.tag })
to_tree (blob_of id) =
    err (record { id = id; expected = ObjectType.tree; received = ObjectType.blob })
