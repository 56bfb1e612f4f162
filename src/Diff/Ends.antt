-- ===== src/Diff/Ends.antt =====
-- crates/gib-diff/src/lib.rs: the walk of two trees ends.
use webgit.Base.{ℕ, zero, suc, ◌+◌, ◌≤◌, ◌≡◌, refl, Bytes, arith, length, All}
use webgit.Base.{Bool, true, not, ◌&&◌, ◌||◌, Option, none, some, List, [], ◌∷◌, if◌then◌else◌}
use webgit.Base.{Outcome, ok, ◌>>=◌, eq_bytes}
use webgit.Hash.{ObjectId}
use webgit.Object.Trees.{
  TreeEntry, Tree, Object, commit_of, tag_of, blob_of, tree_of, is_tree, to_tree,
}
use webgit.Diff.{DiffError, Entry, StackInner, Progress, push, emit, entry_name_cmp, identical}
use webgit.Diff.{entries_of, asserted, same_ids, is_some, map_err, sub_tree, less, greater}
use webgit.Diff.{equal_trees, equal, merge_step, walk_entries, walk_stack, tree_diff_impl}
use webgit.Diff.Results.{After, After-bind, After-if, After-ordering, After-both, After-weaken}
use webgit.Diff.Entries.{Answers, IsChange, IsProgress, IsAsserted}
use webgit.Diff.Changes.{walk_entries-IsProgress}

module _ (weight : ObjectId → ℕ) where
  -- A bound on the trees that an entry leads to, and on those under a tree, itself among them.
  unfoldable pub cost : TreeEntry → ℕ
  cost e = if is_tree e.entry_type then weight e.id else 0

  unfoldable pub costs : List TreeEntry → ℕ
  costs [] = 0
  costs (e ∷ es) = cost e + costs es

  unfoldable pub size : Tree → ℕ
  size t = suc (costs t.entries)

  -- A weight of a name covers the tree that the lookup gives for it.
  unfoldable pub Covers : ObjectId → Object → Type 0
  Covers id (tree_of t) = size t ≤ weight id
  Covers id (commit_of c) = Unit
  Covers id (tag_of c) = Unit
  Covers id (blob_of c) = Unit

  unfoldable side : Option Tree → ℕ
  side none = 0
  side (some t) = size t

  unfoldable total : List StackInner → ℕ
  total [] = 0
  total (top ∷ stack) = side top.left + side top.right + total stack

  -- The trees of a pair count for more than what their entries lead to, one at least being there.
  side-costs :
      (l r : Option Tree)
      → ((is_some l || is_some r) && not (same_ids l r)) ≡ true
      → suc (costs (entries_of l) + costs (entries_of r)) ≤ side l + side r
  unfolding is_some side size entries_of costs
  side-costs none none h = cc
  side-costs none (some r) h = omega arith
  side-costs (some l) none h = omega arith
  side-costs (some l) (some r) h = omega arith

  module _ {E : Type 0} (from : DiffError → E) where
    to_tree-Covers :
        (id : ObjectId) (object : Object)
        → Covers id object
        → After ⊥ (λ t. size t ≤ weight id) (map_err from (to_tree object))
    unfolding After Covers map_err to_tree
    to_tree-Covers id (tree_of t) h = h
    to_tree-Covers id (commit_of c) h = tt
    to_tree-Covers id (tag_of c) h = tt
    to_tree-Covers id (blob_of c) h = tt

  module _ {E : Type 0} (from : DiffError → E) (lookup : ObjectId → Outcome E Object)
      (covered : (id : ObjectId) → After ⊥ (Covers id) (lookup id)) where
    abbrev Within : ℕ → Progress → Type 0
    Within n p = total p.stack ≤ n

    sub_tree-Covers : (id : ObjectId) → After ⊥ (λ t. size t ≤ weight id) (sub_tree from lookup id)
    unfolding sub_tree
    sub_tree-Covers id =
        After-bind ⊥ (Covers id) (λ t. size t ≤ weight id) (lookup id) _ (covered id)
          (to_tree-Covers from id)

    less-Within :
        (path : Option Bytes) (l : TreeEntry) (p : Progress)
        → After ⊥ (Within (cost l + total p.stack)) (less from lookup path l p)
    unfolding less After cost total side push emit
    less-Within path l p =
        After-if ⊥ (Within (cost l + total p.stack)) (is_tree l.entry_type) _ _
          (λ hl.
            After-bind ⊥ (λ t. size t ≤ weight l.id) (Within (cost l + total p.stack))
              (sub_tree from lookup l.id) _ (sub_tree-Covers l.id) (λ t ht. rw hl (omega arith)))
          (λ hl. omega arith)

    greater-Within :
        (path : Option Bytes) (r : TreeEntry) (p : Progress)
        → After ⊥ (Within (cost r + total p.stack)) (greater from lookup path r p)
    unfolding greater After cost total side push emit
    greater-Within path r p =
        After-if ⊥ (Within (cost r + total p.stack)) (is_tree r.entry_type) _ _
          (λ hr.
            After-bind ⊥ (λ t. size t ≤ weight r.id) (Within (cost r + total p.stack))
              (sub_tree from lookup r.id) _ (sub_tree-Covers r.id) (λ t ht. rw hr (omega arith)))
          (λ hr. omega arith)

    equal-Within :
        (path : Option Bytes) (l r : TreeEntry) (p : Progress)
        → After ⊥ (Within (cost l + cost r + total p.stack)) (equal from lookup path l r p)
    unfolding equal equal_trees After cost total side push emit
    equal-Within path l r p =
        let n = cost l + cost r + total p.stack in
        After-if ⊥ (Within n) (is_tree l.entry_type) _ _
          (λ hl.
            After-if ⊥ (Within n) (is_tree r.entry_type) _ _
              (λ hr.
                After-bind ⊥ (λ t. size t ≤ weight l.id) (Within n) (sub_tree from lookup l.id) _
                  (sub_tree-Covers l.id)
                  (λ s hs.
                    After-bind ⊥ (λ t. size t ≤ weight r.id) (Within n) (sub_tree from lookup r.id)
                      _ (sub_tree-Covers r.id) (λ t ht. rw (hl, hr) (omega arith))))
              (λ hr.
                After-bind ⊥ (λ t. size t ≤ weight l.id) (Within n) (sub_tree from lookup l.id) _
                  (sub_tree-Covers l.id) (λ s hs. rw hl (omega arith))))
          (λ hl.
            After-if ⊥ (Within n) (is_tree r.entry_type) _ _
              (λ hr.
                After-bind ⊥ (λ t. size t ≤ weight r.id) (Within n) (sub_tree from lookup r.id) _
                  (sub_tree-Covers r.id) (λ t ht. rw hr (omega arith)))
              (λ hr. omega arith))

    abbrev IsLess : ℕ → List TreeEntry × List TreeEntry × Progress → Type 0
    IsLess n x = costs x.0 + costs x.1 + total x.2.stack ≤ n

    spent :
        (n k : ℕ) (ls rs : List TreeEntry) (m : Outcome E Progress)
        → costs ls + costs rs + k ≤ n
        → After ⊥ (Within k) m
        → After ⊥ (IsLess n) (m >>= (λ q. ok (ls, rs, q)))
    unfolding After
    spent n k ls rs m short h = After-bind ⊥ (Within k) (IsLess n) m _ h (λ q hq. omega arith)

    merge_step-IsLess :
        (path : Option Bytes) (ls rs : List TreeEntry) (p : Progress)
        → After ⊥
            (IsLess (costs ls + costs rs + total p.stack))
            (merge_step from lookup path ls rs p)
    unfolding merge_step After costs
    merge_step-IsLess path [] [] p = omega arith
    merge_step-IsLess path (l ∷ ls) [] p = spent _ _ ls [] _ (omega arith) (less-Within path l p)
    merge_step-IsLess path [] (r ∷ rs) p = spent _ _ [] rs _ (omega arith) (greater-Within path r p)
    merge_step-IsLess path (l ∷ ls) (r ∷ rs) p =
        let n = costs (l ∷ ls) + costs (r ∷ rs) + total p.stack in
        After-ordering ⊥ (IsLess n) (entry_name_cmp l r) _ _ _
          (spent n _ ls (r ∷ rs) _ (omega arith) (less-Within path l p))
          (After-if ⊥ (IsLess n) (identical l r) _ _ (λ _. omega arith)
            (λ d. spent n _ ls rs _ (omega arith) (equal-Within path l r p)))
          (spent n _ (l ∷ ls) rs _ (omega arith) (greater-Within path r p))

    walk_entries-Within :
        (fuel : ℕ) (path : Option Bytes) (ls rs : List TreeEntry) (p : Progress)
        → After Unit
            (Within (costs ls + costs rs + total p.stack))
            (walk_entries from lookup fuel path ls rs p)
    unfolding walk_entries After costs
    walk_entries-Within fuel path [] [] p = omega arith
    walk_entries-Within zero path (l ∷ ls) rs p = tt
    walk_entries-Within zero path [] (r ∷ rs) p = tt
    walk_entries-Within (suc fuel) path (l ∷ ls) rs p =
        let n = costs (l ∷ ls) + costs rs + total p.stack in
        After-bind Unit (IsLess n) (Within n) (merge_step from lookup path (l ∷ ls) rs p) _
          (merge_step-IsLess path (l ∷ ls) rs p)
          (λ x hx.
            After-weaken Unit (Within _) (Within n) _ (λ q hq. omega arith)
              (walk_entries-Within fuel path x.0 x.1 x.2))
    walk_entries-Within (suc fuel) path [] (r ∷ rs) p =
        let n = costs [] + costs (r ∷ rs) + total p.stack in
        After-bind Unit (IsLess n) (Within n) (merge_step from lookup path [] (r ∷ rs) p) _
          (merge_step-IsLess path [] (r ∷ rs) p)
          (λ x hx.
            After-weaken Unit (Within _) (Within n) _ (λ q hq. omega arith)
              (walk_entries-Within fuel path x.0 x.1 x.2))

    module _ (lawful : (id : ObjectId) → After ⊥ (Answers id) (lookup id)) where
      walk_stack-ends :
          (cancel : ℕ → Bool) (fuel round : ℕ) (out : List Entry) (stack : List StackInner)
          → total stack ≤ fuel
          → All IsChange out
          → All IsAsserted stack
          → After ⊥ (All IsChange) (walk_stack from lookup cancel fuel round out stack)
      unfolding walk_stack After total asserted
      walk_stack-ends cancel fuel round out [] enough h k = h
      walk_stack-ends cancel zero round out (top ∷ stack) enough h (k, ks) =
          (let below = side-costs top.left top.right k in let no : ⊥ = omega arith in elim no [ ])
      walk_stack-ends cancel (suc fuel) round out (top ∷ stack) enough h (k, ks) =
          let ls = entries_of top.left in
          let rs = entries_of top.right in
          let p : Progress = record { out = out; stack = stack } in
          let run = walk_entries from lookup (length ls + length rs) top.parent_path ls rs p in
          let both_hold =
            After-both IsProgress (Within (costs ls + costs rs + total stack)) run
              (walk_entries-IsProgress from lookup lawful _ top.parent_path ls rs p (omega arith)
                (h, ks))
              (walk_entries-Within _ top.parent_path ls rs p) in
          let below = side-costs top.left top.right k in
          rw k (
            After-if ⊥ (All IsChange) (cancel round) _ _ (λ _. tt)
              (λ _. After-bind ⊥ _ (All IsChange) run _ both_hold (λ q ((hq, kq), within).
                walk_stack-ends cancel fuel (suc round) q.out q.stack (omega arith) hq kq)))

      -- Where each name has a weight that is more than the weights of the trees that the entries of
      -- its tree name together, and the lookup answers, or fails, with objects of the names that it
      -- is asked for, the walk of two trees ends within as many rounds as the sizes of the two
      -- trees say: with an error or with a list of changes.
      pub tree_diff_impl-ends :
          (cancel : ℕ → Bool) (left right : Tree)
          → After ⊥
              (All IsChange)
              (tree_diff_impl from lookup cancel (size left + size right) left right)
      unfolding tree_diff_impl After asserted is_some same_ids total side
      tree_diff_impl-ends cancel left right =
          After-if ⊥ (All IsChange) (eq_bytes left.id.bytes right.id.bytes) _ _ (λ _. tt)
            (λ d.
              walk_stack-ends cancel (size left + size right) 0 [] _ (omega arith) tt
                (rw d refl, tt))
