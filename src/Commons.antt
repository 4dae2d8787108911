-- ===== src/Commons.antt =====
-- The calls of the so-commons library (commons/collections/list.h, commons/string.h) that the
-- programs make. The library is a copy of another project's code: its functions are parameters,
-- with what its headers document of them as laws. A `t_list` is seen as the sequence of its elements.
use mathlib.Core.List.{Perm}
use tp_sistemas_operativos_u.Base.{
  false, true, ℕ, ◌≤◌, ◌≡◌, ◌≢◌, none, some, refl, Bool, List, ◌∷◌, [], ◌++◌, Option, length, find,
  erase_first, any, insert_at, head?, tail, Bytes,
}

pub record ListLib (A : Type 0) : Type 0 where
  pub list_find : (A → Bool) → List A → Option A
  pub list_any_satisfy : (A → Bool) → List A → Bool
  pub list_remove_by_condition : (A → Bool) → List A → Option A × List A
  pub list_remove_and_destroy_by_condition : (A → Bool) → List A → List A
  pub list_add : List A → A → List A
  pub list_add_in_index : ℕ → A → List A → List A
  pub list_remove : ℕ → List A → Option A × List A
  -- The first element that meets the condition.
  pub list_find_lem : (p : A → Bool) (xs : List A) → list_find p xs ≡ find p xs
  -- Whether some element meets it.
  pub list_any_satisfy_lem : (p : A → Bool) (xs : List A) → list_any_satisfy p xs ≡ any p xs
  -- Takes the first such element out and returns it.
  pub list_remove_by_condition_lem :
      (p : A → Bool) (xs : List A) → list_remove_by_condition p xs ≡ (find p xs, erase_first p xs)
  pub list_remove_and_destroy_by_condition_lem :
      (p : A → Bool) (xs : List A) → list_remove_and_destroy_by_condition p xs ≡ erase_first p xs
  pub list_add_lem : (xs : List A) (a : A) → list_add xs a ≡ xs ++ a ∷ []
  -- An index up to the number of elements.
  pub list_add_in_index_lem :
      (i : ℕ) (a : A) (xs : List A) → i ≤ length xs → list_add_in_index i a xs ≡ insert_at i a xs
  -- The first element, or NULL.
  pub list_remove-zero : (xs : List A) → list_remove 0 xs ≡ (head? xs, tail xs)

-- What the headers document can be met: the functions on sequences.
abbrev pub sequences : {A : Type 0} → ListLib A
sequences = record {
  list_find = find;
  list_any_satisfy = any;
  list_remove_by_condition = λ p xs. (find p xs, erase_first p xs);
  list_remove_and_destroy_by_condition = erase_first;
  list_add = λ xs a. xs ++ a ∷ [];
  list_add_in_index = insert_at;
  list_remove = λ i xs. (head? xs, tail xs);
  list_find_lem = λ p xs. refl;
  list_any_satisfy_lem = λ p xs. refl;
  list_remove_by_condition_lem = λ p xs. refl;
  list_remove_and_destroy_by_condition_lem = λ p xs. refl;
  list_add_lem = λ xs a. refl;
  list_add_in_index_lem = λ i a xs h. refl;
  list_remove-zero = λ xs. refl;
}

-- Each element before one that it may stand before.
unfoldable pub EnOrden : {A : Type 0} → (A → A → Bool) → List A → Type 0
EnOrden c (x ∷ (y ∷ ys)) = (c x y ≡ true) × EnOrden c (y ∷ ys)
EnOrden c _ = Unit

-- `list_sort` puts the same elements into the order of a comparator that is total and transitive.
pub record SortLib (A : Type 0) : Type 0 where
  pub list_sort : (A → A → Bool) → List A → List A
  pub list_sort-Perm : (c : A → A → Bool) (xs : List A) → Perm (list_sort c xs) xs
  pub list_sort-EnOrden :
      (c : A → A → Bool) (xs : List A)
      → ((x y : A) → c x y ≡ false → c y x ≡ true)
      → ((x y z : A) → c x y ≡ true → c y z ≡ true → c x z ≡ true)
      → EnOrden c (list_sort c xs)

-- `string_duplicate` returns a copy of its text.
pub record TextLib : Type 0 where
  pub string_duplicate : Bytes → Bytes
  pub string_duplicate_lem : (text : Bytes) → string_duplicate text ≡ text

-- A `t_dictionary` of words. An entry is only put under a key that has none.
pub record DictLib (D : Type 0) : Type 0 where
  pub dictionary_get : D → Bytes → Option ℕ
  pub dictionary_put : D → Bytes → ℕ → D
  pub dictionary_clean : D → D
  -- A new entry is found under its key.
  pub dictionary_put_same :
      (d : D) (key : Bytes) (dato : ℕ)
      → dictionary_get d key ≡ none
      → dictionary_get (dictionary_put d key dato) key ≡ some dato
  -- The others are found as before.
  pub dictionary_put_other :
      (d : D) (key other : Bytes) (dato : ℕ)
      → other ≢ key
      → dictionary_get (dictionary_put d key dato) other ≡ dictionary_get d other
  -- Nothing is left.
  pub dictionary_clean_lem : (d : D) (key : Bytes) → dictionary_get (dictionary_clean d) key ≡ none
