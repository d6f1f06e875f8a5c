-- ===== src/Commons.antt =====
-- The lists of the commons library (commons/collections/list.h), which is not part of the
-- repository: its operations are parameters, with their documented behaviour. A `t_list` is read as
-- the sequence of its elements, and `none` stands for NULL.
pub mod Instance
use esthe_r.Base.{ℕ, zero, suc, ◌≡◌, Bool, true, false, Option, none, some, List, [], ◌∷◌, ◌++◌}
use esthe_r.Base.{length, get_elem?, if◌then◌else◌}

module _ {ℓ} {A : Type ℓ} where
  -- The list without the element at an index; an index out of range takes nothing.
  abbrev pub erase_idx : List A → ℕ → List A
  erase_idx [] i = []
  erase_idx (x ∷ xs) zero = xs
  erase_idx (x ∷ xs) (suc i) = x ∷ erase_idx xs i

  abbrev pub find? : (A → Bool) → List A → Option A
  find? p [] = none
  find? p (x ∷ xs) = if p x then some x else find? p xs

  abbrev pub filter : (A → Bool) → List A → List A
  filter p [] = []
  filter p (x ∷ xs) = if p x then x ∷ filter p xs else filter p xs

pub record CommonsList : Type 1 where
  pub list_create : {A : Type 0} → List A
  pub list_add : {A : Type 0} → List A → A → List A
  pub list_get : {A : Type 0} → List A → ℕ → Option A
  pub list_remove : {A : Type 0} → List A → ℕ → Option A × List A
  pub list_size : {A : Type 0} → List A → ℕ
  pub list_find : {A : Type 0} → List A → (A → Bool) → Option A
  pub list_filter : {A : Type 0} → List A → (A → Bool) → List A
  -- a new list is empty
  pub create_lem : {A : Type 0} → list_create {A = A} ≡ []
  -- `list_add` adds at the end
  pub add_lem : {A : Type 0} (l : List A) (x : A) → list_add l x ≡ l ++ (x ∷ [])
  -- `list_get` counts from 0
  pub get_lem : {A : Type 0} (l : List A) (i : ℕ) → list_get l i ≡ get_elem? l i
  -- `list_remove` returns the element that it takes out
  pub remove_lem :
      {A : Type 0} (l : List A) (i : ℕ) → list_remove l i ≡ (get_elem? l i, erase_idx l i)
  pub size_lem : {A : Type 0} (l : List A) → list_size l ≡ length l
  -- `list_find` returns the first element that satisfies the condition
  pub find_lem : {A : Type 0} (l : List A) (p : A → Bool) → list_find l p ≡ find? p l
  -- `list_filter` keeps the order
  pub filter_lem : {A : Type 0} (l : List A) (p : A → Bool) → list_filter l p ≡ filter p l
