-- ===== src/Storage/FreeSpace.antt =====
-- src/tinydb/storage/free_space.py: the dictionary from a page to its free bytes.
use tinydb.Base.{
  ℕ, Option, none, some, [], ◌∷◌, leb, if◌then◌else◌, Result, ok, raise, value_error, ℤ, pos,
  negsuc,
}
use tinydb.Base.Dict.{Dict, eq_nat, lookup, insert, pop}

-- `FreeSpaceMap`
abbrev pub FreeSpaceMap : Type 0
FreeSpaceMap = Dict ℕ ℕ

unfoldable pub update : ℕ → ℤ → FreeSpaceMap → Result FreeSpaceMap
update page_id (pos n) entries = ok (insert page_id n entries)
update page_id (negsuc n) entries = raise value_error

unfoldable pub forget : ℕ → FreeSpaceMap → FreeSpaceMap
forget page_id entries = pop page_id entries

unfoldable pub find_with_space : ℕ → FreeSpaceMap → Option ℕ
find_with_space needed [] = none
find_with_space needed ((pid, free) ∷ entries) =
    if leb needed free then some pid else find_with_space needed entries

unfoldable pub free_bytes : ℕ → FreeSpaceMap → Option ℕ
free_bytes page_id entries = lookup page_id entries
