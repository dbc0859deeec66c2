-- ===== src/Sac/OpenedFiles.antt =====
-- The table of opened files of fileSystem/sac/sac_servidor/sac_servidor.c:
-- insert_to_opened_files_table and is_file_opened.
pub mod Refinement
use locomatch.Prelude.{
  ℕ, suc, ◌+◌, ◌%◌, ◌^◌, ◌<◌, ◌≡◌, refl, ◌&&◌, List, [], ◌∷◌, ◌++◌, Option, none, some, arith, ◌==◌,
  if◌then◌else◌, length, length-append, take, drop,
}
use locomatch.Prelude.Maybe.{◌>>=◌}

-- struct sac_opened_file, without its link: the table is the list of its entries.
pub record OpenedFile : Type 0 where
  pub fd : ℕ
  pub node_block : ℕ
  pub mode : ℕ
  pub state : ℕ
  pub fname : List ℕ
  pub parent_block : ℕ

-- MAX_FILENAME_LENGTH
abbrev pub max_filename_length : ℕ
max_filename_length = 71

-- `none` where the name has no zero: the search then leaves it.
unfoldable pub strlen : List ℕ → Option ℕ
strlen [] = none
strlen (c ∷ cs) = if c == 0 then some 0 else (do n ← strlen cs; some (suc n))

-- `fd` of the last entry; a uint16_t.
unfoldable pub last_fd : OpenedFile → List OpenedFile → ℕ
last_fd e [] = e.fd
last_fd e (f ∷ fs) = last_fd f fs

-- `garbage` is what malloc left in the new entry's name. The fd that is returned is an int, the
-- one that is stored a uint16_t.
unfoldable pub insert_to_opened_files_table :
    List ℕ → List OpenedFile → OpenedFile → Option (ℕ × List OpenedFile)
insert_to_opened_files_table garbage [] opened_file =
    some (1, record opened_file { fd = 1; fname = take max_filename_length opened_file.fname } ∷ [])
insert_to_opened_files_table garbage (e ∷ es) opened_file = do
  n ← strlen opened_file.fname
  let fd = last_fd e es + 1
  let new_nodo_file = record opened_file {
    fd = fd % 2 ^ 16;
    fname = take n opened_file.fname ++ drop n garbage;
  }
  some (fd, (e ∷ es) ++ new_nodo_file ∷ [])

-- 0 if the file is not opened.
unfoldable pub is_file_opened : List OpenedFile → ℕ → ℕ
is_file_opened [] file_node_number = 0
is_file_opened (e ∷ es) file_node_number =
    let rest = is_file_opened es file_node_number in
    if e.node_block == file_node_number then e.fd else rest

-- The descriptors count up from `i`.
abbrev pub Numbered : ℕ → List OpenedFile → Type 0
Numbered i [] = Unit {0}
Numbered i (e ∷ es) = (e.fd ≡ i) × Numbered (i + 1) es

last_fd-Numbered :
    (i : ℕ) (e : OpenedFile) (es : List OpenedFile)
    → Numbered i (e ∷ es)
    → last_fd e es ≡ i + length es
unfolding last_fd
last_fd-Numbered i e [] h = ground (arith, h.0)
last_fd-Numbered i e (f ∷ fs) h = ground (arith, last_fd-Numbered (i + 1) f fs h.1)

Numbered-append :
    (i : ℕ) (es : List OpenedFile) (f : OpenedFile)
    → Numbered i es
    → f.fd ≡ i + length es
    → Numbered i (es ++ f ∷ [])
Numbered-append i [] f h e = (omega (arith, e), tt)
Numbered-append i (e ∷ es) f h eq = (h.0, Numbered-append (i + 1) es f h.1 (omega (arith, eq)))

-- What a further entry at the end changes.
pub is_file_opened-append :
    (i : ℕ) (es : List OpenedFile) (f : OpenedFile) (node : ℕ)
    → 0 < i
    → Numbered i es
    → is_file_opened (es ++ f ∷ []) node ≡ (
        if is_file_opened es node == 0 && f.node_block == node
        then f.fd
        else is_file_opened es node)
unfolding is_file_opened
is_file_opened-append i [] f node z h = ground arith
is_file_opened-append i (e ∷ es) f node z h =
    ground (arith, z, h.0, is_file_opened-append (i + 1) es f node (omega arith) h.1)

-- The outcome of an insertion.
pub record Inserted (garbage : List ℕ) (table : List OpenedFile) (f : OpenedFile) : Type 0 where
  pub after : List OpenedFile
  pub result : insert_to_opened_files_table garbage table f ≡ some (length table + 1, after)
  pub size : length after ≡ length table + 1
  pub numbered : Numbered 1 after
  pub lookup :
      (node : ℕ)
      → is_file_opened after node ≡ (
          if is_file_opened table node == 0 && f.node_block == node
          then length table + 1
          else is_file_opened table node)

-- insert_to_opened_files_table succeeds and returns the number of files opened so far plus one,
-- the descriptors stay 1, 2, 3 and so on, and is_file_opened then gives the new descriptor for the
-- file's node unless an earlier entry has that node, and the same as before for every other node.
-- The descriptors are 1, 2, 3 and so on before, fewer than 2 ^ 16 - 1 files are opened, and the
-- name ends in a zero.
pub insert_to_opened_files_table-Inserted :
    (garbage : List ℕ) (table : List OpenedFile) (f : OpenedFile) (n : ℕ)
    → Numbered 1 table
    → length table + 1 < 2 ^ 16
    → strlen f.fname ≡ some n
    → Inserted garbage table f
unfolding insert_to_opened_files_table
insert_to_opened_files_table-Inserted garbage [] f n h b z = record {
  after = _;
  result = refl;
  size = refl;
  numbered = (refl, tt);
  lookup = λ node. is_file_opened-append 1 [] _ node (omega arith) tt;
}
insert_to_opened_files_table-Inserted garbage (e ∷ es) f n h b z =
    let last : last_fd e es ≡ suc (length es) = omega (arith, last_fd-Numbered 1 e es h) in
    let fits : (suc (length es) + 1) % 65536 ≡ suc (length es) + 1 = omega (arith, b) in
    let new_file : OpenedFile = record f {
      fd = length (e ∷ es) + 1;
      fname = take n f.fname ++ drop n garbage;
    } in
    record {
      after = (e ∷ es) ++ new_file ∷ [];
      result = rw z (rw last (rw fits refl));
      size = omega (arith, length-append (e ∷ es) (new_file ∷ []));
      numbered = Numbered-append 1 (e ∷ es) new_file h (omega arith);
      lookup = λ node. is_file_opened-append 1 (e ∷ es) new_file node (omega arith) h;
    }
