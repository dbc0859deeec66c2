-- ===== src/Sac/Lookup.antt =====
-- The search for a file in fileSystem/sac/sac_servidor/sac_servidor.c: parse_path, find_node,
-- search_for_file, check_node_state. `none` is undefined behaviour, or a disk that ends too early.
pub mod Climbing
pub mod Table
pub mod Found
use locomatch.Prelude.{
  ℕ, zero, suc, ◌+◌, ◌-◌, Bool, true, false, List, [], ◌∷◌, ◌++◌, Option, none, some, get_elem?,
  length, ltb, ◌==◌, if◌then◌else◌, map,
}
use locomatch.Prelude.Maybe.{◌>>=◌}
use locomatch.Prelude.Text.{strcmp, strdup}
use mathlib.Core.List.{reverse}
use locomatch.Sac.Disk.{Node, node_bytes, read_node}

-- string_split of the commons library, at a separator of one character.
abbrev pub Split : Type 0
Split = List ℕ → ℕ → List (List ℕ)

-- What lies in front of the closing quote of a component. Without one, parse_path returns a text
-- for the array, and with nothing in front it copies a negative number of bytes.
unfoldable pub closed_quote : List ℕ → Option (List ℕ)
closed_quote [] = none
closed_quote (c ∷ []) = if c == b'"' then some [] else none
closed_quote (c ∷ d ∷ cs) = do rest ← closed_quote (d ∷ cs); some (c ∷ rest)

unfoldable pub unquote : List ℕ → Option (List ℕ)
unfolding closed_quote
unquote [] = some []
unquote (c ∷ cs) = if c == b'"' then closed_quote cs else some (c ∷ cs)

-- `while (path_array[path_array_length] != NULL)`
unfoldable pub unquote_all : List (List ℕ) → Option (List (List ℕ))
unfolding unquote
unquote_all [] = some []
unquote_all (t ∷ ts) = do value ← unquote t; rest ← unquote_all ts; some (value ∷ rest)

-- For a path without components the empty text is returned for the array, which is then read.
unfoldable pub parse_path : Split → List ℕ → Option (List (List ℕ))
unfolding unquote_all
parse_path string_split path = elim (string_split path b'/') [
  | [] ↦ none
  | t ∷ ts ↦ unquote_all (t ∷ ts)
]

-- `fname` as a text, which may run on into the following fields.
unfoldable pub node_name : Node → Option (List ℕ)
unfolding node_bytes
node_name node = elim (node_bytes node) [ [] ↦ none | state ∷ bytes ↦ strdup bytes ]

module _ (nodes : ℕ → Option Node) where
  -- The loop over the node table: the rounds left, and the index. The nodes are read from `start`
  -- on, but the number of a match counts from block 2.
  unfoldable pub possible_matches : ℕ → ℕ → ℕ → List ℕ → Option (List ℕ)
  unfolding node_name
  possible_matches start zero i name = some []
  possible_matches start (suc rounds) i name = do
    current_node ← nodes (start + i)
    fname ← node_name current_node
    rest ← possible_matches start rounds (i + 1) name
    some (if strcmp fname name then (2 + i) ∷ rest else rest)

  -- The inner loop, for one match: whether it is found, or discarded.
  unfoldable pub climb : ℕ → List (List ℕ) → ℕ → ℕ → Option Bool
  unfolding node_name
  climb zero path parent iterations = none
  climb (suc fuel) path parent iterations =
      let above : Option Bool = do
        parent_node ← nodes parent
        let same : Option Bool = do
          fname ← node_name parent_node
          level ← get_elem? path (length path - 1 - iterations)
          let next = climb fuel path parent_node.parent_block (iterations + 1)
          if strcmp fname level then next else some false
        if ltb iterations (length path) then same else some false
      in if parent == 0 then some (length path == iterations) else above

  -- The outer loop, over the matches from the last on. flag_discarded stays set.
  unfoldable pub examine : List (List ℕ) → Bool → List ℕ → Option ℕ
  unfolding climb
  examine path discarded [] = some 0
  examine path discarded (current ∷ others) = do
    match_node ← nodes current
    found ←
        (if discarded then some false else climb (length path + 1) path match_node.parent_block 1)
    let later = examine path true others
    if found then some current else later

  unfoldable pub find_node : ℕ → List (List ℕ) → Option ℕ
  find_node node_table_start path_array = do
    name ← get_elem? path_array (length path_array - 1)
    matches ← possible_matches node_table_start 1024 0 name
    examine path_array false (reverse matches)

-- The path of the root directory.
abbrev pub root : List ℕ
root = b'/' ∷ []

-- 0 if there is no such file, 1 for the root directory.
unfoldable pub search_for_file : Split → ℕ → List ℕ → List ℕ → Option ℕ
search_for_file string_split node_table_start disco path =
    let search : Option ℕ = do
      path_array ← parse_path string_split path
      find_node (read_node disco) node_table_start path_array
    in if strcmp path root then some 1 else search

unfoldable pub check_node_state : List ℕ → ℕ → Option ℕ
check_node_state disco directory_node_number = do
  check_node ← read_node disco directory_node_number
  some check_node.state
