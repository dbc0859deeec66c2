-- ===== src/Sac/OpenedFiles/Refinement.antt =====
-- The table of opened files as a function from nodes to descriptors.
use locomatch.Prelude.{
  ℕ, suc, ◌+◌, ◌^◌, ◌<◌, ◌≡◌, refl, ap, ◌∙◌, ◌&&◌, List, [], ◌∷◌, Option, some, arith, ◌==◌,
  if◌then◌else◌, length,
}
use locomatch.Prelude.Maybe.{◌>>=◌}
use locomatch.Sac.OpenedFiles.{
  OpenedFile, strlen, insert_to_opened_files_table, is_file_opened, Numbered,
  insert_to_opened_files_table-Inserted,
}

-- One file after the other; `garbage` is what malloc leaves in each new name.
unfoldable pub insert_all : List ℕ → List OpenedFile → List OpenedFile → Option (List OpenedFile)
insert_all garbage [] table = some table
insert_all garbage (f ∷ fs) table = do
  (fd, after) ← insert_to_opened_files_table garbage table f
  insert_all garbage fs after

-- The same on a function, with the number of the files opened so far: a node that has no descriptor
-- gets the next number, one that has keeps it.
unfoldable pub replay : List OpenedFile → ℕ → (ℕ → ℕ) → ℕ → ℕ
replay [] n view = view
replay (f ∷ fs) n view =
    replay fs (suc n) λ node. if view node == 0 && f.node_block == node then n + 1 else view node

abbrev pub AreNamed : List OpenedFile → Type 0
AreNamed [] = Unit {0}
AreNamed (f ∷ fs) = ((n : ℕ) × (strlen f.fname ≡ some n)) × AreNamed fs

pub record Refines (garbage : List ℕ) (files table : List OpenedFile) : Type 0 where
  pub after : List OpenedFile
  pub result : insert_all garbage files table ≡ some after
  pub numbered : Numbered 1 after
  pub size : length after ≡ length table + length files
  pub view :
      (node : ℕ)
      → is_file_opened after node ≡ replay files (length table) (is_file_opened table) node

replay_cong :
    (files : List OpenedFile) (n m : ℕ) (f g : ℕ → ℕ) (node : ℕ)
    → n ≡ m
    → ((k : ℕ) → f k ≡ g k)
    → replay files n f node ≡ replay files m g node
unfolding replay
replay_cong [] n m f g node e h = h node
replay_cong (x ∷ xs) n m f g node e h =
    replay_cong xs (suc n) (suc m) _ _ node (ap suc e) λ k. rw (h k, e) refl

-- Any sequence of insertions into the table of opened files ends, keeps the descriptors 1, 2, 3 and
-- so on, and is then seen by is_file_opened as the same sequence of updates of a function: a node
-- without a descriptor gets the number of the files opened so far plus one, and a descriptor that a
-- node has stays. The descriptors are 1, 2, 3 and so on before, the files are fewer than 2 ^ 16 with
-- those in the table, and each name ends in a zero.
pub insert_all-Refines :
    (garbage : List ℕ) (files table : List OpenedFile)
    → Numbered 1 table
    → length table + length files < 2 ^ 16
    → AreNamed files
    → Refines garbage files table
unfolding insert_all replay
insert_all-Refines garbage [] table h b z = record {
  after = table;
  result = refl;
  numbered = h;
  size = omega arith;
  view = λ node. refl;
}
insert_all-Refines garbage (f ∷ fs) table h b z =
    let first =
      insert_to_opened_files_table-Inserted garbage table f z.0.0 h (omega (arith, b)) z.0.1 in
    let rest =
      insert_all-Refines garbage fs first.after first.numbered (omega (arith, b, first.size)) z.1 in
    record {
      after = rest.after;
      result = rw first.result rest.result;
      numbered = rest.numbered;
      size = omega (arith, rest.size, first.size);
      view = λ node.
          rest.view node
          ∙ replay_cong fs (length first.after) (suc (length table)) _ _ node
              (omega (arith, first.size)) first.lookup;
    }
