-- ===== src/PageTable/Tests.antt =====
-- A table whose three levels are pages 1, 2 and 3, in which page 7 of the address space is free.
use k210_os.Prelude.{◌+◌, ◌*◌, ◌≡◌, refl, false, some, [], ◌∷◌, arith, Yields}
use k210_os.PageTable.{
  put_word, vpn_indexes, pte_get_ppn, pte_get_flags, pte_is_valid, PageTable, find_from, find_pte,
  map,
}
use k210_os.PageTable.Mapping.{Mapped, map-Mapped, Restored, map_unmap, unmap-map}

abbrev table : PageTable
table = record {
  root_ppn = 1;
  fnode = 1 ∷ 3 ∷ 2 ∷ [];
  memory = put_word (put_word (λ ppn i. 0) (1, 0) (2 * 1024 + 1)) (2, 0) (3 * 1024 + 1);
  frames = record {
    current = 4;
    end = 9;
    recycled = record { heap_array = []; current_size = 0; max_size = 0 };
  };
}

entry_found : find_pte table.memory 1 7 ≡ some (3, 7)
unfolding find_pte find_from vpn_indexes pte_is_valid pte_get_ppn pte_get_flags
entry_found = refl

entry_free : pte_is_valid (table.memory 3 7) ≡ false
unfolding pte_is_valid pte_get_flags
entry_free = refl

map-Mapped_example : Yields (Mapped table 7 50 6 (3, 7)) (map table 7 50 6)
map-Mapped_example =
    map-Mapped table 7 50 6 (3, 7) entry_found entry_free (omega arith) (omega arith)

unmap-map_example : Yields (Restored table 7 (3, 7)) (map_unmap table 7 50 6)
unmap-map_example = unmap-map table 7 50 6 (3, 7) entry_found entry_free (omega arith) (omega arith)
