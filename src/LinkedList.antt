-- ===== src/LinkedList.antt =====
-- src/smcp/ll.h: doubly linked lists of items that are linked in place.
-- An item is its address, NULL is 0, and a list is the address of its first item.
pub mod Chain
pub mod Sorted
pub mod Order
pub mod Remove
use smcp.Prelude.{
  ℕ, zero, suc, ◌+◌, Bool, true, false, not, Option, none, some, ◌==◌, if◌then◌else◌,
}
use smcp.Prelude.Bytes.{store}

-- The `next` and `prev` of every `struct ll_item_s`.
pub record Heap : Type 0 where
  pub next : ℕ → ℕ
  pub prev : ℕ → ℕ

abbrev pub set_next : Heap → ℕ → ℕ → Heap
unfolding store
set_next h item v = record h { next = store h.next item v }

abbrev pub set_prev : Heap → ℕ → ℕ → Heap
unfolding store
set_prev h item v = record h { prev = store h.prev item v }

unfoldable pub insert_after : Heap → ℕ → ℕ → Heap
insert_after h location item =
    let h1 = set_prev h item location in
    let h2 = set_next h1 item (h1.next location) in
    let h3 = if h2.next item == 0 then h2 else set_prev h2 (h2.next item) item in
    set_next h3 location item

unfoldable pub insert : Heap → ℕ → ℕ → Heap
insert h location item =
    let h1 = set_next h item location in
    let h2 = set_prev h1 item (h1.prev location) in
    let h3 = set_prev h2 location item in
    if h3.prev item == 0 then h3 else set_next h3 (h3.prev item) item

-- The heap and the list.
unfoldable pub prepend : Heap → ℕ → ℕ → Heap × ℕ
unfolding insert
prepend h list item = (if list == 0 then h else insert h list item, item)

-- The loop of `ll_sorted_insert` at `location`; `ge a b` is `compare_func(a, b, context) >= 0`.
-- `none`: out of fuel.
pub sorted_insert_at : (ℕ → ℕ → Bool) → Heap → ℕ → ℕ → ℕ → ℕ → Option (Heap × ℕ)
unfolding insert insert_after prepend
sorted_insert_at ge h list item zero location = none
sorted_insert_at ge h list item (suc fuel) location =
    let rest = sorted_insert_at ge h list item fuel (h.next location) in
    if ge item location
    then (if h.next location == 0 then some (insert_after h location item, list) else rest)
    else if location == list
    then some (prepend h list item)
    else some (insert h location item, list)

pub sorted_insert : (ℕ → ℕ → Bool) → ℕ → Heap → ℕ → ℕ → Option (Heap × ℕ)
unfolding sorted_insert_at
sorted_insert ge fuel h list item =
    if list == 0 then some (h, item) else sorted_insert_at ge h list item fuel list

unfoldable pub remove : Heap → ℕ → ℕ → Heap × ℕ
remove h list item =
    let h1 = if h.prev item == 0 then h else set_next h (h.prev item) (h.next item) in
    let h2 = if h1.next item == 0 then h1 else set_prev h1 (h1.next item) (h1.prev item) in
    (h2, if list == item then h2.next item else list)

-- The item that is popped, the heap and the list.
pub pop : Heap → ℕ → ℕ × (Heap × ℕ)
unfolding remove
pop h list = (list, remove h list list)

-- `ll_last`, on fuel.
pub last : Heap → ℕ → ℕ → Option ℕ
last h zero item = none
last h (suc fuel) item =
    let rest = last h fuel (h.next item) in
    if item == 0 then some item else if h.next item == 0 then some item else rest

pub push : Heap → ℕ → ℕ → ℕ → Option (Heap × ℕ)
unfolding insert_after last
push h fuel list item =
    if list == 0
    then some (h, item)
    else elim (last h fuel list) [ none ↦ none | some end ↦ some (insert_after h end item, list) ]

-- `ll_count`, on fuel.
unfoldable pub count : Heap → ℕ → ℕ → Option ℕ
count h zero item = none
count h (suc fuel) item =
    let rest = count h fuel (h.next item) in
    if item == 0 then some 0 else elim rest [ none ↦ none | some n ↦ some (suc n) ]
