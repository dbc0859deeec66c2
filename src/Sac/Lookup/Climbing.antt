-- ===== src/Sac/Lookup/Climbing.antt =====
-- The inner loop of find_node follows the parents of a node up to the root directory.
use locomatch.Prelude.{
  ℕ, zero, suc, ◌+◌, ◌-◌, ◌<◌, ◌≡◌, ◌≢◌, ◌⊎◌, inl, inr, refl, sym, ap, ◌∙◌, subst, Bool, true,
  false, List, Option, some, arith, get_elem?, get_elem?-lt, length, ltb, lt→ltb, le→ltb, ◌==◌,
  Bool-cases, eqb→eq, eqb→ne, ne→eqb,
}
use locomatch.Prelude.Text.{strcmp, strcmp_refl, strcmp→eq}
use locomatch.Sac.Disk.{Node}
use locomatch.Sac.Lookup.{node_name, climb}

-- The node in a block has this name.
abbrev pub IsNamed : (ℕ → Option Node) → ℕ → List ℕ → Type 0
IsNamed nodes block name = (n : Node) × (nodes block ≡ some n) × (node_name n ≡ some name)

-- Every block below the limit holds a node with a name, whose parent is below the limit too.
pub record IsReadable (nodes : ℕ → Option Node) (limit : ℕ) : Type 0 where
  pub readable :
      (block : ℕ)
      → block < limit
      → (n : Node) × (name : List ℕ) × (nodes block ≡ some n)
        × (node_name n ≡ some name)
        × (n.parent_block < limit)

-- The first `k` components of the path lead to this block: 0 is the root directory, and the node
-- in any other has the last of them as its name and its parent as the block for the others.
abbrev pub LeadsTo : (ℕ → Option Node) → List (List ℕ) → ℕ → ℕ → Type 0
LeadsTo nodes path zero block = block ≡ 0
LeadsTo nodes path (suc k) block =
    (block ≢ 0)
    × ((n : Node) × (name : List ℕ) × (nodes block ≡ some n)
        × (node_name n ≡ some name)
        × (get_elem? path k ≡ some name)
        × LeadsTo nodes path k n.parent_block)

-- The loop answers the question, whatever is left of the path.
abbrev pub Climbed : (ℕ → Option Node) → List (List ℕ) → ℕ → Option Bool → ℕ → Type 0
Climbed nodes path k result block =
    (LeadsTo nodes path k block × (result ≡ some true))
    ⊎ ((LeadsTo nodes path k block → ⊥) × (result ≡ some false))

module _ {nodes : ℕ → Option Node} {limit : ℕ} (r : IsReadable nodes limit)
    (path : List (List ℕ)) where
  -- One turn at a block that is not the root directory's, below the path's first component.
  climb-step :
      (fuel k parent i : ℕ) (n : Node) (name level : List ℕ)
      → nodes parent ≡ some n
      → node_name n ≡ some name
      → get_elem? path k ≡ some level
      → i + suc k ≡ length path
      → (parent == 0) ≡ false
      → strcmp name level ≡ true
      → climb nodes (suc fuel) path parent i ≡ climb nodes fuel path n.parent_block (i + 1)
  unfolding climb
  climb-step fuel k parent i n name level there named at e other same =
      rw (climb, other, there, lt→ltb i (length path) (omega (arith, e)), named)
        (rw (index) (rw (at, same) refl))
    where
      index : length path - 1 - i ≡ k
      index = omega (arith, e)

  climb-discard :
      (fuel k parent i : ℕ) (n : Node) (name level : List ℕ)
      → nodes parent ≡ some n
      → node_name n ≡ some name
      → get_elem? path k ≡ some level
      → i + suc k ≡ length path
      → (parent == 0) ≡ false
      → strcmp name level ≡ false
      → climb nodes (suc fuel) path parent i ≡ some false
  unfolding climb
  climb-discard fuel k parent i n name level there named at e other differs =
      rw (climb, other, there, lt→ltb i (length path) (omega (arith, e)), named)
        (rw (index) (rw (at, differs) refl))
    where
      index : length path - 1 - i ≡ k
      index = omega (arith, e)

  pub LeadsTo-up :
      (k parent : ℕ) (n : Node)
      → nodes parent ≡ some n
      → LeadsTo nodes path (suc k) parent
      → LeadsTo nodes path k n.parent_block
  LeadsTo-up k parent n there (other, (n', name', there', named', at', l)) =
      let same : n' ≡ n = cc in subst (λ (m : Node). LeadsTo nodes path k m.parent_block) same l

  not_here :
      (parent k : ℕ) (n : Node) (name level : List ℕ)
      → nodes parent ≡ some n
      → node_name n ≡ some name
      → get_elem? path k ≡ some level
      → strcmp name level ≡ false
      → LeadsTo nodes path (suc k) parent
      → ⊥
  not_here parent k n name level there named at differs
        (other, (n', name', there', named', at', l)) =
      let same : name ≡ level = cc in
      let holds : strcmp name level ≡ true = rw same (strcmp_refl level) in cc

  go_on :
      (parent k : ℕ) (n : Node) (name level : List ℕ)
      → nodes parent ≡ some n
      → node_name n ≡ some name
      → get_elem? path k ≡ some level
      → strcmp name level ≡ true
      → {now later : Option Bool} → now ≡ later
      → (parent == 0) ≡ false
      → Climbed nodes path k later n.parent_block
      → Climbed nodes path (suc k) now parent
  go_on parent k n name level there named at same step other (inl (l, e)) = inl (
    (
      eqb→ne parent 0 other,
      (
        n,
        name,
        there,
        named,
        at ∙ ap (λ (t : List ℕ). some t) (sym (strcmp→eq name level same)),
        l,
      ),
    ),
    step ∙ e,
  )
  go_on parent k n name level there named at same step other (inr (no_way, e)) =
      inr ((λ l. no_way (LeadsTo-up k parent n there l)), step ∙ e)

  pub climb-Climbed :
      (fuel k parent iterations : ℕ)
      → k < fuel
      → iterations + k ≡ length path
      → parent < limit
      → Climbed nodes path k (climb nodes fuel path parent iterations) parent
  unfolding climb
  climb-Climbed zero k parent i h e b = elim h [ ]
  climb-Climbed (suc fuel) zero parent i h e b = elim (Bool-cases (parent == 0)) [
    | inl top ↦ inl (eqb→eq parent 0 top, rw (climb, top) (ap some all))
    | inr other ↦
        let (n, name, there, named, up) = r.readable parent b in
        inr ((λ z. eqb→ne parent 0 other z), rw (climb, other, there, past) refl)
  ]
    where
      all : (length path == i) ≡ true
      all = ground arith

      past : ltb i (length path) ≡ false
      past = le→ltb i (length path) (omega (arith, e))
  climb-Climbed (suc fuel) (suc k) parent i h e b = elim (Bool-cases (parent == 0)) [
    | inl top ↦ inr (
      (λ l. l.0 (eqb→eq parent 0 top)),
      rw (climb, top) (ap some (ne→eqb (length path) i (omega (arith, e)))),
    )
    | inr other ↦
        let (n, name, there, named, up) = r.readable parent b in
        let (level, at) = get_elem?-lt path k (omega (arith, e)) in
        elim (Bool-cases (strcmp name level)) [
          | inl same ↦
              go_on parent k n name level there named at same
                (climb-step fuel k parent i n name level there named at e other same) other
                (climb-Climbed fuel k n.parent_block (i + 1) (omega arith) (omega (arith, e)) up)
          | inr differs ↦ inr (
            not_here parent k n name level there named at differs,
            climb-discard fuel k parent i n name level there named at e other differs,
          )
        ]
  ]
