-- ===== src/Fs/Lru/Examples.antt =====
-- Runs of the cache, and the theorems at concrete inputs.
use webgit.Base.{ℕ, arith, ◌≡◌, refl, [], ◌∷◌, none, some}
use webgit.Fs.Lru.{
  ByteLru, new, get, insert, remove, touch, next_tick, evict, evict_loop, add_entry, lookup, put,
  erase,
}
use webgit.Base.{true, false}
use webgit.Fs.Lru.{unbounded, contains_key}
use webgit.Fs.Lru.Recency.{Item, find, used, added, without, total, trim}
use webgit.Fs.Lru.Refines.{Represents, value_of, get-Represents}
use webgit.Fs.Lru.Insert.{insert-Represents}
use webgit.Fs.Lru.Keeps.{new-Represents, get-insert}

program : Unit {0}
unfolding new unbounded contains_key get insert remove touch next_tick evict evict_loop add_entry
    lookup put erase find used added without total trim
program = tt

-- Two pages of four bytes in a cache of ten.
abbrev first_page : Item ℕ
first_page = record { key = 0; value = 100; bytes = 4 }

abbrev second_page : Item ℕ
second_page = record { key = 4096; value = 200; bytes = 4 }

abbrev third_page : Item ℕ
third_page = record { key = 8192; value = 300; bytes = 4 }

abbrev one_in : ByteLru ℕ
one_in = insert (new 10) 0 100 4

abbrev two_in : ByteLru ℕ
two_in = insert one_in 4096 200 4

one_in-Represents : Represents one_in (first_page ∷ [])
unfolding program
one_in-Represents =
    insert-Represents (new 10) [] 0 100 4 (new-Represents 10 (omega arith)) (omega arith)
      (omega arith)

two_in-Represents : Represents two_in (first_page ∷ second_page ∷ [])
unfolding program
two_in-Represents =
    insert-Represents one_in (first_page ∷ []) 4096 200 4 one_in-Represents (omega arith)
      (omega arith)

-- After a use of the first page, the second is the one that a third replaces.
replaces : (get (insert (get two_in 0).1 8192 300 4) 4096).0 ≡ none
unfolding program
replaces = refl

keeps : (get (insert (get two_in 0).1 8192 300 4) 0).0 ≡ some 100
unfolding program
keeps = refl

get-Represents_example :
    ((get two_in 0).0 ≡ value_of (find 0 (first_page ∷ second_page ∷ [])))
    × Represents (get two_in 0).1 (used 0 (first_page ∷ second_page ∷ []))
unfolding program
get-Represents_example =
    get-Represents two_in (first_page ∷ second_page ∷ []) 0 two_in-Represents (omega arith)

insert-Represents_example :
    Represents
      (insert two_in 8192 300 4)
      (added two_in.limit third_page (first_page ∷ second_page ∷ []))
unfolding program
insert-Represents_example =
    insert-Represents two_in (first_page ∷ second_page ∷ []) 8192 300 4 two_in-Represents
      (omega arith) (omega arith)

get-insert_example : (get (insert two_in 8192 300 4) 8192).0 ≡ some 300
unfolding program
get-insert_example =
    get-insert two_in (first_page ∷ second_page ∷ []) 8192 300 4 two_in-Represents (omega arith)
      (omega arith) (omega arith)

over_the_limit : contains_key (insert two_in 0 1 11) 0 ≡ false
unfolding program
over_the_limit = refl

never_full : contains_key (insert (unbounded {V = ℕ}) 0 1 1000000) 0 ≡ true
unfolding program
never_full = refl
