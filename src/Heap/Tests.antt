-- ===== src/Heap/Tests.antt =====
-- Runs of the heap, and its theorems at heaps of five and six items.
use godelayq.Prelude.{
  ℕ, ◌≡◌, refl, [], ◌∷◌, some, String, Bool, string_discrete, Returns, Returns-at, not, ltb, ◌>>=◌,
}
use godelayq.Dict
use godelayq.Heap.{
  Item, QuaternaryHeap, new, push_item, sift_up, sift_up_loop, sift_down, sift_down_loop,
  sift_range, min_child, less, swap, remove_at, pop_if_due_where, each_due, each_child, visit_best,
  pop_best, earlier,
}
use godelayq.Heap.Order.{WellFormed}
use godelayq.Heap.Calls.{Popped, pop_if_due_where_lem}
use godelayq.Heap.Insert.{new-WellFormed, push_item_lem}

record Entry : Type 0 where
  due : ℕ
  name : String

instance abbrev entry_item : Item Entry
entry_item = record { trigger_time = λ e. e.due; id = λ e. e.name }

abbrev entry : ℕ → String → Entry
entry due name = record { due = due; name = name }

abbrev one : QuaternaryHeap Entry
one = record { items = entry 7 "a" ∷ []; index_map = ("a", 0) ∷ [] }

push_item-one : push_item new (entry 7 "a") ≡ some one
unfolding push_item sift_up sift_up_loop less swap new Dict.insert string_discrete
push_item-one = refl

one-WellFormed : WellFormed one
unfolding Dict.lookup new string_discrete
one-WellFormed =
    (Returns-at (push_item_lem new (entry 7 "a") new-WellFormed refl) push_item-one).well_formed

abbrev two : QuaternaryHeap Entry
two = record { items = entry 3 "b" ∷ entry 7 "a" ∷ []; index_map = ("a", 1) ∷ ("b", 0) ∷ [] }

push_item-two : push_item one (entry 3 "b") ≡ some two
unfolding push_item sift_up sift_up_loop less swap new Dict.insert string_discrete
push_item-two = refl

two-WellFormed : WellFormed two
unfolding Dict.lookup new string_discrete
two-WellFormed =
    (Returns-at (push_item_lem one (entry 3 "b") one-WellFormed refl) push_item-two).well_formed

abbrev three : QuaternaryHeap Entry
three = record {
  items = entry 3 "b" ∷ entry 7 "a" ∷ entry 5 "c" ∷ [];
  index_map = ("a", 1) ∷ ("b", 0) ∷ ("c", 2) ∷ [];
}

push_item-three : push_item two (entry 5 "c") ≡ some three
unfolding push_item sift_up sift_up_loop less swap new Dict.insert string_discrete
push_item-three = refl

three-WellFormed : WellFormed three
unfolding Dict.lookup new string_discrete
three-WellFormed =
    (Returns-at (push_item_lem two (entry 5 "c") two-WellFormed refl) push_item-three).well_formed

abbrev four : QuaternaryHeap Entry
four = record {
  items = entry 1 "d" ∷ entry 7 "a" ∷ entry 5 "c" ∷ entry 3 "b" ∷ [];
  index_map = ("a", 1) ∷ ("b", 3) ∷ ("c", 2) ∷ ("d", 0) ∷ [];
}

push_item-four : push_item three (entry 1 "d") ≡ some four
unfolding push_item sift_up sift_up_loop less swap new Dict.insert string_discrete
push_item-four = refl

four-WellFormed : WellFormed four
unfolding Dict.lookup new string_discrete
four-WellFormed =
    (Returns-at (push_item_lem three (entry 1 "d") three-WellFormed refl)
      push_item-four).well_formed

abbrev five : QuaternaryHeap Entry
five = record {
  items = entry 1 "d" ∷ entry 7 "a" ∷ entry 5 "c" ∷ entry 3 "b" ∷ entry 9 "e" ∷ [];
  index_map = ("a", 1) ∷ ("b", 3) ∷ ("c", 2) ∷ ("d", 0) ∷ ("e", 4) ∷ [];
}

push_item-five : push_item four (entry 9 "e") ≡ some five
unfolding push_item sift_up sift_up_loop less swap new Dict.insert string_discrete
push_item-five = refl

five-WellFormed : WellFormed five
unfolding Dict.lookup new string_discrete
five-WellFormed =
    (Returns-at (push_item_lem four (entry 9 "e") four-WellFormed refl) push_item-five).well_formed

abbrev six : QuaternaryHeap Entry
six = record {
  items = entry 1 "d" ∷ entry 2 "f" ∷ entry 5 "c" ∷ entry 3 "b" ∷ entry 9 "e" ∷ entry 7 "a" ∷ [];
  index_map = ("a", 5) ∷ ("b", 3) ∷ ("c", 2) ∷ ("d", 0) ∷ ("e", 4) ∷ ("f", 1) ∷ [];
}

push_item-six : push_item five (entry 2 "f") ≡ some six
unfolding push_item sift_up sift_up_loop less swap new Dict.insert string_discrete
push_item-six = refl

six-WellFormed : WellFormed six
unfolding Dict.lookup new string_discrete
six-WellFormed =
    (Returns-at (push_item_lem five (entry 2 "f") five-WellFormed refl) push_item-six).well_formed

-- Only the items whose name is not d, so the root is blocked.
abbrev not_root : Entry → Bool
not_root e = not (ltb e.due 2)

pop_if_due_where_lem_example : Returns (Popped six 4 not_root) (pop_if_due_where six 4 not_root)
pop_if_due_where_lem_example = pop_if_due_where_lem six 4 not_root six-WellFormed

-- The root is blocked: the earliest of the others is taken.
pop_blocked : (pop_if_due_where six 4 not_root >>= λ r. some r.0) ≡ some (some (entry 2 "f"))
unfolding pop_if_due_where each_due each_child visit_best earlier pop_best remove_at swap sift_range
    less sift_up sift_up_loop sift_down sift_down_loop min_child Dict.insert Dict.delete
    string_discrete
pop_blocked = refl
