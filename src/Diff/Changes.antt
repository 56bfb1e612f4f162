-- ===== src/Diff/Changes.antt =====
-- crates/gib-diff/src/lib.rs: what the walk of two trees reports, and that its assertions hold.
use webgit.Base.{ℕ, zero, suc, ◌+◌, ◌≤◌, ◌≡◌, refl, Bytes, arith, length, All}
use webgit.Base.{Bool, true, false, Option, none, some, List, [], ◌∷◌}
use webgit.Base.{Outcome, ok, ◌>>=◌, eq_bytes}
use webgit.Hash.{ObjectId}
use webgit.Object.Trees.{TreeEntry, Tree, Object}
use webgit.Object.Trees.{is_tree}
use webgit.Diff.{DiffError, Entry, StackInner, Progress, join, push}
use webgit.Diff.{entry_name_cmp, entries_of, asserted, same_ids, is_some, sub_tree}
use webgit.Diff.{
  less, greater, equal_trees, equal, identical, merge_step, walk_entries, walk_stack,
  tree_diff_impl,
}
use webgit.Diff.Results.{After, After-bind, After-if, After-ordering}
use webgit.Diff.Entries.{
  IsChange, IsProgress, IsAsserted, Answers, to_tree-Answers, emit-IsProgress, left-IsProgress,
  right-IsProgress, pair-IsProgress, trees-differ,
}

module _ {E : Type 0} (from : DiffError → E) (lookup : ObjectId → Outcome E Object)
    (lawful : (id : ObjectId) → After ⊥ (Answers id) (lookup id)) where
  sub_tree-Answers : (id : ObjectId) → After ⊥ (λ t. t.id ≡ id) (sub_tree from lookup id)
  unfolding sub_tree
  sub_tree-Answers id =
      After-bind ⊥ (Answers id) (λ t. t.id ≡ id) (lookup id) _ (lawful id) (to_tree-Answers from id)

  less-IsProgress :
      (path : Option Bytes) (l : TreeEntry) (p : Progress)
      → IsProgress p
      → After ⊥ IsProgress (less from lookup path l p)
  unfolding less After IsChange
  less-IsProgress path l p h =
      After-if ⊥ IsProgress (is_tree l.entry_type) _ _
        (λ _.
          After-bind ⊥ (λ t. t.id ≡ l.id) IsProgress (sub_tree from lookup l.id) _
            (sub_tree-Answers l.id) (λ t _. left-IsProgress p (join path l.name) t h))
        (λ file. emit-IsProgress p _ (file, refl) h)

  greater-IsProgress :
      (path : Option Bytes) (r : TreeEntry) (p : Progress)
      → IsProgress p
      → After ⊥ IsProgress (greater from lookup path r p)
  unfolding greater After IsChange
  greater-IsProgress path r p h =
      After-if ⊥ IsProgress (is_tree r.entry_type) _ _
        (λ _.
          After-bind ⊥ (λ t. t.id ≡ r.id) IsProgress (sub_tree from lookup r.id) _
            (sub_tree-Answers r.id) (λ t _. right-IsProgress p (join path r.name) t h))
        (λ file. emit-IsProgress p _ (file, refl) h)

  equal_trees-IsProgress :
      (path : Bytes) (l r : TreeEntry) (p : Progress)
      → is_tree l.entry_type ≡ true
      → is_tree r.entry_type ≡ true
      → identical l r ≡ false
      → IsProgress p
      → After ⊥ IsProgress (equal_trees from lookup path l r p)
  unfolding equal_trees After
  equal_trees-IsProgress path l r p hl hr d h =
      After-bind ⊥ (λ t. t.id ≡ l.id) IsProgress (sub_tree from lookup l.id) _
        (sub_tree-Answers l.id)
        (λ s es.
          After-bind ⊥ (λ t. t.id ≡ r.id) IsProgress (sub_tree from lookup r.id) _
            (sub_tree-Answers r.id)
            (λ t et. pair-IsProgress p path s t (trees-differ l r s t hl hr d es et) h))

  equal-IsProgress :
      (path : Option Bytes) (l r : TreeEntry) (p : Progress)
      → identical l r ≡ false
      → IsProgress p
      → After ⊥ IsProgress (equal from lookup path l r p)
  unfolding equal After IsChange identical
  equal-IsProgress path l r p d h =
      After-if ⊥ IsProgress (is_tree l.entry_type) _ _
        (λ hl.
          After-if ⊥ IsProgress (is_tree r.entry_type) _ _
            (λ hr. equal_trees-IsProgress (join path l.name) l r p hl hr d h)
            (λ hr.
              After-bind ⊥ (λ t. t.id ≡ l.id) IsProgress (sub_tree from lookup l.id) _
                (sub_tree-Answers l.id)
                (λ t _.
                  emit-IsProgress (push p (join path l.name) (some t) none) _ (hr, refl)
                    (left-IsProgress p (join path l.name) t h))))
        (λ hl.
          After-if ⊥ IsProgress (is_tree r.entry_type) _ _
            (λ hr.
              After-bind ⊥ (λ t. t.id ≡ r.id) IsProgress (sub_tree from lookup r.id) _
                (sub_tree-Answers r.id)
                (λ t _.
                  emit-IsProgress (push p (join path l.name) none (some t)) _ (hl, refl)
                    (right-IsProgress p (join path l.name) t h)))
            (λ hr. emit-IsProgress p _ (hl, hr, d) h))

  -- A round leaves less of the two lists.
  abbrev IsRound : ℕ → List TreeEntry × List TreeEntry × Progress → Type 0
  IsRound n x = (suc (length x.0 + length x.1) ≤ n) × IsProgress x.2

  taken :
      (n : ℕ) (ls rs : List TreeEntry) (m : Outcome E Progress)
      → suc (length ls + length rs) ≤ n
      → After ⊥ IsProgress m
      → After ⊥ (IsRound n) (m >>= (λ q. ok (ls, rs, q)))
  unfolding After
  taken n ls rs m short h = After-bind ⊥ IsProgress (IsRound n) m _ h (λ q hq. (short, hq))

  merge_step-IsRound :
      (path : Option Bytes) (ls rs : List TreeEntry) (p : Progress)
      → 1 ≤ length ls + length rs
      → IsProgress p
      → After ⊥ (IsRound (length ls + length rs)) (merge_step from lookup path ls rs p)
  unfolding merge_step After
  merge_step-IsRound path [] [] p some_left h = (let no : ⊥ = omega arith in elim no [ ])
  merge_step-IsRound path (l ∷ ls) [] p some_left h =
      taken _ ls [] _ (omega arith) (less-IsProgress path l p h)
  merge_step-IsRound path [] (r ∷ rs) p some_left h =
      taken _ [] rs _ (omega arith) (greater-IsProgress path r p h)
  merge_step-IsRound path (l ∷ ls) (r ∷ rs) p some_left h =
      After-ordering ⊥ (IsRound (length (l ∷ ls) + length (r ∷ rs))) (entry_name_cmp l r) _ _ _
        (taken _ ls (r ∷ rs) _ (omega arith) (less-IsProgress path l p h))
        (After-if ⊥ _ (identical l r) _ _ (λ _. (omega arith, h))
          (λ d. taken _ ls rs _ (omega arith) (equal-IsProgress path l r p d h)))
        (taken _ (l ∷ ls) rs _ (omega arith) (greater-IsProgress path r p h))

  pub walk_entries-IsProgress :
      (fuel : ℕ) (path : Option Bytes) (ls rs : List TreeEntry) (p : Progress)
      → length ls + length rs ≤ fuel
      → IsProgress p
      → After ⊥ IsProgress (walk_entries from lookup fuel path ls rs p)
  unfolding walk_entries After
  walk_entries-IsProgress fuel path [] [] p enough h = h
  walk_entries-IsProgress zero path (l ∷ ls) rs p enough h =
      (let no : ⊥ = omega arith in elim no [ ])
  walk_entries-IsProgress zero path [] (r ∷ rs) p enough h =
      (let no : ⊥ = omega arith in elim no [ ])
  walk_entries-IsProgress (suc fuel) path (l ∷ ls) rs p enough h =
      After-bind ⊥ (IsRound (length (l ∷ ls) + length rs)) IsProgress
        (merge_step from lookup path (l ∷ ls) rs p) _
        (merge_step-IsRound path (l ∷ ls) rs p (omega arith) h)
        (λ x (spent, hx). walk_entries-IsProgress fuel path x.0 x.1 x.2 (omega arith) hx)
  walk_entries-IsProgress (suc fuel) path [] (r ∷ rs) p enough h =
      After-bind ⊥ (IsRound (length {A = TreeEntry} [] + length (r ∷ rs))) IsProgress
        (merge_step from lookup path [] (r ∷ rs) p) _
        (merge_step-IsRound path [] (r ∷ rs) p (omega arith) h)
        (λ x (spent, hx). walk_entries-IsProgress fuel path x.0 x.1 x.2 (omega arith) hx)

  walk_stack-changes :
      (cancel : ℕ → Bool) (fuel round : ℕ) (out : List Entry) (stack : List StackInner)
      → All IsChange out
      → All IsAsserted stack
      → After Unit (All IsChange) (walk_stack from lookup cancel fuel round out stack)
  unfolding walk_stack After
  walk_stack-changes cancel fuel round out [] h k = h
  walk_stack-changes cancel zero round out (top ∷ stack) h k = tt
  walk_stack-changes cancel (suc fuel) round out (top ∷ stack) h (k, ks) =
      let ls = entries_of top.left in
      let rs = entries_of top.right in
      rw k (
        After-if Unit (All IsChange) (cancel round) _ _ (λ _. tt)
          (λ _.
            After-bind Unit IsProgress (All IsChange)
              (walk_entries from lookup (length ls + length rs) top.parent_path ls rs
                (record { out = out; stack = stack }))
              _ (walk_entries-IsProgress _ top.parent_path ls rs _ (omega arith) (h, ks))
              (λ p (hp, kp). walk_stack-changes cancel fuel (suc round) p.out p.stack hp kp)))

  -- Where the lookup answers with objects of the names that it is asked for, the walk of two trees
  -- fails no assertion, and each entry that it reports is a change: it names files, not trees, and
  -- a file that both trees have differs in its object or in its type.
  pub tree_diff_impl-changes :
      (cancel : ℕ → Bool) (fuel : ℕ) (left right : Tree)
      → After Unit (All IsChange) (tree_diff_impl from lookup cancel fuel left right)
  unfolding tree_diff_impl After asserted is_some same_ids
  tree_diff_impl-changes cancel fuel left right =
      After-if Unit (All IsChange) (eq_bytes left.id.bytes right.id.bytes) _ _ (λ _. tt)
        (λ d. walk_stack-changes cancel fuel 0 [] _ tt (rw d refl, tt))
