-- ===== src/Tests/HashRuns.antt =====
-- The theorems on the hash table of the memory at a table of four rows.
use esthe_r.Base.{ℕ, ◌+◌, ◌-◌, ◌*◌, ◌≡◌, refl, some, List, [], ◌∷◌, length, arith, true, false, set}
use esthe_r.Base.Int.{ℤ, pos, negsuc}
use esthe_r.Cpu.Primitives.{remainder}
use esthe_r.Memory.HashTable.{
  ElementHash, no_element, incorrect, create_keys, finds_free, add_element, element_search,
  delete_element, is_free,
}
use esthe_r.Memory.HashTable.Search.{Found, element_search-Found}
use esthe_r.Memory.HashTable.Insert.{overwritten, add_element-finds_free}

-- sprintf and atoi for numbers of one digit.
abbrev digit : ℤ → List ℕ
digit (pos n) = (48 + n) ∷ []
digit (negsuc n) = 45 ∷ (49 + n) ∷ []

abbrev value_of : List ℕ → ℕ → ℕ
value_of [] v = v
value_of (c ∷ cs) v = value_of cs (v * 10 + (c - 48))

abbrev value : List ℕ → ℤ
value cs = pos (value_of cs 0)

-- Page 3 of program 1 is in the row behind its own.
abbrev rows : List ElementHash
rows =
    no_element
    ∷ record { id_process = pos 2; page = pos 1 }
    ∷ record { id_process = pos 1; page = pos 3 }
    ∷ no_element
    ∷ []

key_of_page : create_keys digit value (pos 3) (pos 1) (length rows) ≡ some (pos 1)
unfolding create_keys remainder
key_of_page = refl

search_run : element_search digit value (pos 3) (pos 1) rows ≡ some (pos 2)
unfolding element_search create_keys esthe_r.Memory.HashTable.scan_rows remainder
search_run = refl

refused_run : add_element digit value 0 (pos 5) (pos 1) rows ≡ some (incorrect, rows)
unfolding add_element esthe_r.Memory.HashTable.table_complete finds_free
refused_run = refl

element_search-Found_example :
    (r : ℤ) × (element_search digit value (pos 3) (pos 1) rows ≡ some r)
    × Found (pos 3) (pos 1) rows r
element_search-Found_example =
    element_search-Found digit value (pos 3) (pos 1) 1 rows key_of_page (omega arith)

add_element-finds_free_example :
    (finds_free rows ≡ true
      → add_element digit value 0 (pos 3) (pos 1) rows ≡ some (incorrect, rows))
    × (finds_free rows ≡ false
        → add_element digit value 0 (pos 3) (pos 1) rows
          ≡ some (pos 0, overwritten (record { id_process = pos 1; page = pos 3 }) 1 rows))
add_element-finds_free_example =
    add_element-finds_free digit value (pos 3) (pos 1) 1 rows key_of_page (omega arith)

delete_run : delete_element digit value (pos 3) (pos 1) rows ≡ some (true, set rows 2 no_element)
unfolding delete_element element_search create_keys esthe_r.Memory.HashTable.scan_rows remainder
delete_run = refl
