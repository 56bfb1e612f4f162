-- ===== src/Diff.antt =====
-- crates/gib-diff/src/lib.rs: the files that differ between two trees.
mod Examples
pub mod Results
pub mod Ends
pub mod Entries
pub mod Changes
pub mod Names
use webgit.Base.{ℕ, zero, suc, ◌+◌, min, Bytes, length, take, get_elem?, eq_bytes, replicate}
use webgit.Base.{Bool, true, false, not, ◌&&◌, ◌||◌, Option, none, some, List, [], ◌∷◌, ◌++◌}
use webgit.Base.{if◌then◌else◌, Outcome, ok, err, panic, stuck, ◌>>=◌}
use webgit.Hash.{ObjectId, cmp_bytes}
use webgit.Pack.Header.{zero_id}
use webgit.Object.Trees.{TreeEntryType, TreeEntry, Tree, Object, UnexpectedObjectType}
use webgit.Object.Trees.{is_tree, eq_type, to_tree}
use Prim.Native.Nat.{compare, Ordering}

-- What the walk itself fails with: the other variants come from the lookup that it is given.
pub data DiffError : Type 0 where
  canceled : DiffError
  unexpected_object_type : UnexpectedObjectType → DiffError

pub data DiffEntry (Content : Type 0) : Type 0 where
  left_only right_only : Bytes → TreeEntryType → Content → DiffEntry Content
  both : Bytes → TreeEntryType → TreeEntryType → Content → DiffEntry Content

abbrev pub Entry : Type 0
Entry = DiffEntry (ObjectId × ObjectId)

-- A pair of trees left to compare, either of which may be missing, and where they stand.
pub record StackInner : Type 0 where
  pub parent_path : Option Bytes
  pub left : Option Tree
  pub right : Option Tree

pub join : Option Bytes → Bytes → Bytes
join none component = component
join (some path) component = path ++ b'/' ∷ component

pub then_with : Ordering → Ordering → Ordering
then_with Ordering.eq o = o
then_with Ordering.lt o = Ordering.lt
then_with Ordering.gt o = Ordering.gt

-- `None` comes before every `Some`.
pub cmp_option : Option ℕ → Option ℕ → Ordering
cmp_option none none = Ordering.eq
cmp_option none (some b) = Ordering.lt
cmp_option (some a) none = Ordering.gt
cmp_option (some a) (some b) = compare a b

pub or_slash : Option ℕ → Bool → Option ℕ
or_slash (some b) directory = some b
or_slash none true = some b'/'
or_slash none false = none

pub byte_at : TreeEntry → ℕ → Option ℕ
byte_at entry at = or_slash (get_elem? entry.name at) (is_tree entry.entry_type)

pub entry_name_cmp : TreeEntry → TreeEntry → Ordering
entry_name_cmp left right =
    let common = min (length left.name) (length right.name) in
    then_with (cmp_bytes (take common left.name) (take common right.name))
      (cmp_option (byte_at left common) (byte_at right common))

-- `out` as it is filled, and `stack` with its top first.
pub record Progress : Type 0 where
  pub out : List Entry
  pub stack : List StackInner

pub push : Progress → Bytes → Option Tree → Option Tree → Progress
push p path left right = record {
  out = p.out;
  stack = record { parent_path = some path; left = left; right = right } ∷ p.stack;
}

pub emit : Progress → Entry → Progress
emit p entry = record { out = p.out ++ entry ∷ []; stack = p.stack }

pub entries_of : Option Tree → List TreeEntry
entries_of none = []
entries_of (some tree) = tree.entries

-- What the outer loop asserts of the pair that it takes: one of the two is there, and their names
-- differ.
pub same_ids : Option Tree → Option Tree → Bool
same_ids none none = true
same_ids none (some r) = false
same_ids (some l) none = false
same_ids (some l) (some r) = eq_bytes l.id.bytes r.id.bytes

pub is_some : Option Tree → Bool
is_some none = false
is_some (some t) = true

pub asserted : StackInner → Bool
asserted top = (is_some top.left || is_some top.right) && not (same_ids top.left top.right)

-- `From<DiffError>` of the caller's error.
pub map_err : {E : Type 0} → (DiffError → E) → Outcome UnexpectedObjectType Tree → Outcome E Tree
map_err from (ok t) = ok t
map_err from (err e) = err (from (unexpected_object_type e))
map_err from panic = panic
map_err from stuck = stuck

pub identical : TreeEntry → TreeEntry → Bool
identical left right =
    eq_bytes left.id.bytes right.id.bytes && eq_type left.entry_type right.entry_type

-- `match` on an ordering: what to do on `Less`, on `Equal`, on `Greater`.
pub match_ordering : {A : Type 0} → Ordering → A → A → A → A
match_ordering Ordering.lt x y z = x
match_ordering Ordering.eq x y z = y
match_ordering Ordering.gt x y z = z

module _ {E : Type 0} (from : DiffError → E) (lookup : ObjectId → Outcome E Object) where
  pub sub_tree : ObjectId → Outcome E Tree
  sub_tree id = do object ← lookup id; map_err from (to_tree object)

  pub less : Option Bytes → TreeEntry → Progress → Outcome E Progress
  less parent_path left p =
      let path = join parent_path left.name in
      if is_tree left.entry_type
      then sub_tree left.id >>= (λ tree. ok (push p path (some tree) none))
      else ok (emit p (left_only path left.entry_type (left.id, zero_id)))

  pub greater : Option Bytes → TreeEntry → Progress → Outcome E Progress
  greater parent_path right p =
      let path = join parent_path right.name in
      if is_tree right.entry_type
      then sub_tree right.id >>= (λ tree. ok (push p path none (some tree)))
      else ok (emit p (right_only path right.entry_type (zero_id, right.id)))

  pub equal_trees : Bytes → TreeEntry → TreeEntry → Progress → Outcome E Progress
  equal_trees path left right p = do
    left_tree ← sub_tree left.id
    right_tree ← sub_tree right.id
    ok (push p path (some left_tree) (some right_tree))

  pub equal : Option Bytes → TreeEntry → TreeEntry → Progress → Outcome E Progress
  equal parent_path left right p =
      let path = join parent_path left.name in
      if is_tree left.entry_type
      then if is_tree right.entry_type
        then equal_trees path left right p
        else sub_tree left.id >>= (λ tree. ok (
            emit (push p path (some tree) none)
              (right_only path right.entry_type (zero_id, right.id))))
      else if is_tree right.entry_type
      then sub_tree right.id >>= (λ tree.
        ok
          (emit (push p path none (some tree)) (left_only path left.entry_type (left.id, zero_id))))
      else ok (emit p (both path left.entry_type right.entry_type (left.id, right.id)))

  -- One round of the inner loop: what it leaves of both lists.
  pub merge_step :
      Option Bytes
      → List TreeEntry
      → List TreeEntry
      → Progress
      → Outcome E (List TreeEntry × List TreeEntry × Progress)
  merge_step parent_path [] [] p = ok ([], [], p)
  merge_step parent_path (l ∷ ls) [] p = do q ← less parent_path l p; ok (ls, [], q)
  merge_step parent_path [] (r ∷ rs) p = do q ← greater parent_path r p; ok ([], rs, q)
  merge_step parent_path (l ∷ ls) (r ∷ rs) p =
      match_ordering (entry_name_cmp l r) (less parent_path l p >>= (λ q. ok (ls, r ∷ rs, q)))
        (if identical l r
          then ok (ls, rs, p)
          else equal parent_path l r p >>= (λ q. ok (ls, rs, q)))
        (greater parent_path r p >>= (λ q. ok (l ∷ ls, rs, q)))

  -- The inner loop.
  pub walk_entries :
      ℕ → Option Bytes → List TreeEntry → List TreeEntry → Progress → Outcome E Progress
  walk_entries fuel parent_path [] [] p = ok p
  walk_entries zero parent_path (l ∷ ls) rs p = stuck
  walk_entries zero parent_path [] (r ∷ rs) p = stuck
  walk_entries (suc fuel) parent_path (l ∷ ls) rs p = do
    (ls', rs', q) ← merge_step parent_path (l ∷ ls) rs p
    walk_entries fuel parent_path ls' rs' q
  walk_entries (suc fuel) parent_path [] (r ∷ rs) p = do
    (ls', rs', q) ← merge_step parent_path [] (r ∷ rs) p
    walk_entries fuel parent_path ls' rs' q

  -- The outer loop, as built with its assertions. `cancel` answers for each of its rounds, which `round` counts.
  pub walk_stack : (ℕ → Bool) → ℕ → ℕ → List Entry → List StackInner → Outcome E (List Entry)
  walk_stack cancel fuel round out [] = ok out
  walk_stack cancel zero round out (top ∷ stack) = stuck
  walk_stack cancel (suc fuel) round out (top ∷ stack) =
      let ls = entries_of top.left in
      let rs = entries_of top.right in
      if not (asserted top) then panic else if cancel round then err (from canceled) else do
        p ←
            walk_entries (length ls + length rs) top.parent_path ls rs
              (record { out = out; stack = stack })
        walk_stack cancel fuel (suc round) p.out p.stack

  pub tree_diff_impl : (ℕ → Bool) → ℕ → Tree → Tree → Outcome E (List Entry)
  tree_diff_impl cancel fuel left right =
      if eq_bytes left.id.bytes right.id.bytes
      then ok []
      else walk_stack cancel fuel 0 []
          (record { parent_path = none; left = some left; right = some right } ∷ [])
