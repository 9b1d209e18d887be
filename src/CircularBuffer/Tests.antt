-- ===== src/CircularBuffer/Tests.antt =====
-- A buffer of eight bytes, with data in region A only and in both regions.
use gsp.Prelude.{ℕ, ◌+◌, ◌≤◌, ◌≡◌, refl, List, [], ◌∷◌, ◌++◌, arith, length, drop}
use gsp.CircularBuffer.{
  CircularBuffer, make, get_free_space_size, get_stored_size, get_buffer, commit, remove,
  remove_from_a, remove_from_b, switch_to_b,
}
use gsp.CircularBuffer.Invariant.{IsValid, make-IsValid, remove-IsValid}
use gsp.CircularBuffer.Queue.{
  contents, store, free_space_bounds, contents-store, store-IsValid, contents-remove,
}

abbrev empty : CircularBuffer
empty = make (λ _. 0) 8

empty-IsValid : IsValid empty
empty-IsValid = make-IsValid (λ _. 0) 8 (omega arith)

abbrev six : List ℕ
six = 1 ∷ 2 ∷ 3 ∷ 4 ∷ 5 ∷ 6 ∷ []

-- Six bytes in region A.
abbrev filled : CircularBuffer
filled = store (get_free_space_size empty).1 six

empty_fits : length six ≤ (get_free_space_size empty).0
unfolding make get_free_space_size
empty_fits = omega arith

filled-IsValid : IsValid filled
filled-IsValid = store-IsValid empty six empty-IsValid empty_fits

abbrev more : List ℕ
more = 7 ∷ 8 ∷ 9 ∷ []

-- Five of them are removed, and the next bytes go to region B.
abbrev shifted : CircularBuffer
shifted = remove filled 5

shifted-IsValid : IsValid shifted
shifted-IsValid = remove-IsValid filled 5 filled-IsValid

shifted_fits : length more ≤ (get_free_space_size shifted).0
unfolding make get_free_space_size store commit get_buffer remove remove_from_a remove_from_b
    switch_to_b
shifted_fits = omega arith

abbrev both : CircularBuffer
both = store (get_free_space_size shifted).1 more

both-IsValid : IsValid both
both-IsValid = store-IsValid shifted more shifted-IsValid shifted_fits

both_test : contents both ≡ 6 ∷ 7 ∷ 8 ∷ 9 ∷ []
unfolding make get_free_space_size store commit get_buffer remove remove_from_a remove_from_b
    switch_to_b
both_test = refl

contents-store_example :
    contents (store (get_free_space_size shifted).1 more) ≡ contents shifted ++ more
contents-store_example = contents-store shifted more shifted-IsValid shifted_fits

contents-remove_example : contents (remove both 2) ≡ drop 2 (contents both)
contents-remove_example = contents-remove both 2 both-IsValid

free_space_bounds_example :
    let (n, b') = get_free_space_size shifted in
    (get_buffer b' + n ≤ shifted.capacity) × (n + get_stored_size shifted ≤ shifted.capacity)
free_space_bounds_example = free_space_bounds shifted shifted-IsValid
