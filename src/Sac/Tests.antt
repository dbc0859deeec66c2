-- ===== src/Sac/Tests.antt =====
-- The table of opened files at concrete entries.
mod Bits
mod Nodes
mod Environment
mod Disk
mod Server
mod Served
mod Reading
mod OpenRead
mod Formatting
use locomatch.Prelude.{ℕ, [], ◌∷◌, refl, arith, replicate}
use locomatch.Sac.OpenedFiles.Refinement.{Refines, insert_all-Refines}
use locomatch.Sac.OpenedFiles.{OpenedFile, Inserted, strlen, insert_to_opened_files_table-Inserted}

-- The file "a" in a node block.
abbrev archivo : ℕ → ℕ → OpenedFile
archivo fd node = record {
  fd = fd;
  node_block = node;
  mode = 0;
  state = 1;
  fname = 97 ∷ 0 ∷ [];
  parent_block = 0;
}

insert_to_opened_files_table-Inserted_example :
    Inserted (replicate 71 170) (archivo 1 5 ∷ archivo 2 9 ∷ []) (archivo 0 7)
unfolding strlen
insert_to_opened_files_table-Inserted_example =
    insert_to_opened_files_table-Inserted (replicate 71 170) (archivo 1 5 ∷ archivo 2 9 ∷ [])
      (archivo 0 7) 1 (refl, (refl, tt)) (omega arith) refl

-- A second file for the same node does not change the descriptor.
insert_all-Refines_example : Refines [] (archivo 0 5 ∷ archivo 0 5 ∷ []) []
unfolding strlen
insert_all-Refines_example =
    insert_all-Refines [] (archivo 0 5 ∷ archivo 0 5 ∷ []) [] tt (omega arith)
      ((_, refl), ((_, refl), tt))
