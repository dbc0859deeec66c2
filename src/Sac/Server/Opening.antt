-- ===== src/Sac/Server/Opening.antt =====
-- A file that action_open opens is found open by action_read.
use locomatch.Prelude.{
  ℕ, ◌+◌, ◌^◌, ◌%◌, ◌≡◌, ◌≢◌, ◌≤◌, ◌<◌, refl, ap, ◌∙◌, false, ◌&&◌, List, ◌++◌, some, arith, length,
  drop, lt→ltb, le→leb, ◌==◌, if◌then◌else◌,
}
use locomatch.Prelude.Text.{strcmp}
use locomatch.Sac.OpenedFiles.{
  OpenedFile, strlen, insert_to_opened_files_table, is_file_opened, Numbered,
  insert_to_opened_files_table-Inserted,
}
use locomatch.Sac.Disk.{Node, read_node}
use locomatch.Sac.Lookup.{root, node_name, check_node_state}
use locomatch.Sac.Server.{
  Entorno, opened_file_name, new_entry_name, Servidor, print_int-small, locate, action_open,
}
use locomatch.Sac.Server.Read.{read_opened, action_read}

-- A regular file in a block of the node table, at a path. Its name, over what malloc left, ends.
pub record IsFile (e : Entorno) (s : Servidor) (path : List ℕ) (block : ℕ) : Type 0 where
  pub node : Node
  pub name : List ℕ
  pub size : ℕ
  pub not_root : strcmp path root ≡ false
  pub located : locate e s path ≡ some block
  pub not_missing : (block == 0) ≡ false
  pub there : read_node s.disco block ≡ some node
  pub regular : node.state ≡ 1
  pub named : node_name node ≡ some name
  pub name_fits : length name ≤ 71
  pub name_ends : strlen (name ++ drop (length name) (e.basura opened_file_name)) ≡ some size

-- What opening comes to.
pub record Opened (e : Entorno) (s : Servidor) (path : List ℕ) (flags block : ℕ) : Type 0 where
  pub after : Servidor
  pub result :
      action_open e s (record { path = path; flags = flags })
      ≡ some (e.decimal.itoa (length s.opened + 1), after)
  pub same_disk : after.disco ≡ s.disco
  pub numbered : Numbered 1 after.opened
  pub others :
      (node : ℕ) → node ≢ block → is_file_opened after.opened node ≡ is_file_opened s.opened node
  pub readable :
      (size offset : List ℕ)
      → action_read e after (record { path = path; size = size; offset = offset })
        ≡ read_opened e after block (record { path = path; size = size; offset = offset })

module _ (e : Entorno) {s : Servidor} {path : List ℕ} {block : ℕ} (f : IsFile e s path block) where
  opened_file : ℕ → OpenedFile
  opened_file flags = record {
    fd = 0;
    node_block = block;
    mode = flags % 2 ^ 8;
    state = 1;
    fname = f.name ++ drop (length f.name) (e.basura opened_file_name);
    parent_block = f.node.parent_block;
  }

  -- The handler, once the entry is in the table.
  action_open-inserted :
      (flags fd : ℕ) (table : List OpenedFile)
      → insert_to_opened_files_table (e.basura new_entry_name) s.opened (opened_file flags)
        ≡ some (fd, table)
      → fd < 1000
      → action_open e s (record { path = path; flags = flags })
        ≡ some (e.decimal.itoa fd, record s { opened = table })
  unfolding action_open check_node_state opened_file
  action_open-inserted flags fd table inserted small =
      rw (f.not_root, f.located)
        (rw (f.not_missing, f.there)
          (rw (f.regular, f.named)
            (rw (le→leb (length f.name) 71 f.name_fits) (
              rw (inserted, print_int-small e fd (omega (arith, small)))
                (rw
                  (lt→ltb (length (e.decimal.itoa fd)) 5
                    (omega (arith, e.decimal.length-itoa fd small)))
                  refl)))))

  locate_same : (table : List OpenedFile) → locate e (record s { opened = table }) path ≡ some block
  unfolding locate
  locate_same table = f.located

  state_there : check_node_state s.disco block ≡ some 1
  unfolding check_node_state
  state_there = rw f.there (ap (λ (n : ℕ). some n) f.regular)

  found_open :
      (table : List OpenedFile) (size offset : List ℕ)
      → (is_file_opened table block == 0) ≡ false
      → action_read e
          (record s { opened = table })
          (record { path = path; size = size; offset = offset })
        ≡ read_opened e
            (record s { opened = table })
            block
            (record { path = path; size = size; offset = offset })
  unfolding action_read
  found_open table size offset open_now =
      rw (f.not_root, locate_same table) (rw (f.not_missing, state_there) (rw open_now refl))

  -- A regular file that is opened gets the number of the files opened so far plus one as its
  -- descriptor, the descriptors stay 1, 2, 3 and so on, no other file's changes, and action_read of
  -- the path goes on to the file's blocks. The descriptors are 1, 2, 3 and so on before, and fewer
  -- than 999 files are opened.
  pub action_open-Opened :
      (flags : ℕ) → Numbered 1 s.opened → length s.opened + 1 < 1000 → Opened e s path flags block
  unfolding opened_file
  action_open-Opened flags h small =
      let inserted =
        insert_to_opened_files_table-Inserted (e.basura new_entry_name) s.opened (opened_file flags)
          f.size h (omega (arith, small)) f.name_ends in
      record {
        after = record s { opened = inserted.after };
        result =
            action_open-inserted flags (length s.opened + 1) inserted.after inserted.result small;
        same_disk = refl;
        numbered = inserted.numbered;
        others = λ node differs. inserted.lookup node ∙ other_node node differs;
        readable = λ size offset.
            found_open inserted.after size offset
              (ap (λ (fd : ℕ). fd == 0) (inserted.lookup block) ∙ now_open);
      }
    where
      other_node :
          (node : ℕ)
          → node ≢ block
          → (if is_file_opened s.opened node == 0 && block == node
              then length s.opened + 1
              else is_file_opened s.opened node)
            ≡ is_file_opened s.opened node
      other_node node differs = ground (arith, differs)

      now_open :
          ((if is_file_opened s.opened block == 0 && block == block
              then length s.opened + 1
              else is_file_opened s.opened block)
            == 0)
          ≡ false
      now_open = ground arith
