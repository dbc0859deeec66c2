-- ===== src/Sac/Lookup/Found.antt =====
-- find_node: the matches are tried from the last on, and after the first one that is discarded
-- flag_discarded stays set, so that no other match is tried.
use locomatch.Prelude.{
  ℕ, suc, ◌+◌, ◌-◌, ◌≤◌, ◌<◌, ◌≡◌, ◌≢◌, ◌⊎◌, inl, inr, refl, sym, ap, ◌∙◌, subst, true, false, List,
  [], ◌∷◌, ◌++◌, Option, some, arith, get_elem?, length,
}
use locomatch.Prelude.Maybe.{◌>>=◌}
use mathlib.Core.List.{reverse, reverse-append, reverse-cons}
use locomatch.Sac.Disk.{Node}
use locomatch.Sac.Lookup.{examine, find_node, possible_matches}
use locomatch.Sac.Lookup.Climbing.{IsNamed, IsReadable, LeadsTo, LeadsTo-up, climb-Climbed}
use locomatch.Sac.Lookup.Table.{
  AllBelow, NoneNamed, IsLast, Gathered, none_there, one_last, possible_matches-Gathered,
}

-- The path leads to the last node of the table with the name of its last component.
abbrev pub IsFound : (ℕ → Option Node) → List (List ℕ) → List ℕ → ℕ → Type 0
IsFound nodes path name block =
    IsLast nodes name 2 1026 block × LeadsTo nodes path (length path) block

-- The last node with the name, whose path is another one.
abbrev pub IsShadowed : (ℕ → Option Node) → List (List ℕ) → List ℕ → Type 0
IsShadowed nodes path name =
    (block : ℕ) × IsLast nodes name 2 1026 block × (LeadsTo nodes path (length path) block → ⊥)

module _ {nodes : ℕ → Option Node} {limit : ℕ} (r : IsReadable nodes limit)
    (path : List (List ℕ)) where
  AllBelow-append :
      (xs ys : List ℕ) → AllBelow limit xs → AllBelow limit ys → AllBelow limit (xs ++ ys)
  AllBelow-append [] ys a b = b
  AllBelow-append (x ∷ xs) ys (h, a) b = (h, AllBelow-append xs ys a b)

  AllBelow-reverse : (xs : List ℕ) → AllBelow limit xs → AllBelow limit (reverse xs)
  AllBelow-reverse [] a = tt
  AllBelow-reverse (x ∷ xs) (b, a) =
      subst (λ (l : List ℕ). AllBelow limit l) (sym (reverse-cons x xs))
        (AllBelow-append (reverse xs) (x ∷ []) (AllBelow-reverse xs a) (b, tt))

  -- Once a match is discarded the others are read, but not found.
  examine-discarded : (ms : List ℕ) → AllBelow limit ms → examine nodes path true ms ≡ some 0
  unfolding examine
  examine-discarded [] a = refl
  examine-discarded (m ∷ ms) (b, a) =
      let (n, name, there, named, up) = r.readable m b in
      rw (examine, there, examine-discarded ms a) refl

  examine_first :
      (name : List ℕ) (k last : ℕ) (others : List ℕ)
      → length path ≡ suc k
      → get_elem? path k ≡ some name
      → AllBelow limit others
      → last < limit
      → last ≢ 0
      → IsNamed nodes last name
      → (LeadsTo nodes path (length path) last
          × (examine nodes path false (last ∷ others) ≡ some last))
        ⊎ ((LeadsTo nodes path (length path) last → ⊥)
            × (examine nodes path false (last ∷ others) ≡ some 0))
  unfolding examine
  examine_first name k last others e at a b nonzero (n, there, named) =
      let (n', name', there', named', up) = r.readable last b in
      let same : n' ≡ n = cc in
      let up' : n.parent_block < limit = subst (λ (m : Node). m.parent_block < limit) same up in
      elim (climb-Climbed r path (length path + 1) k n.parent_block 1 (omega (arith, e))
        (omega (arith, e)) up') [
          | inl (l, found) ↦ inl (
            subst (λ (j : ℕ). LeadsTo nodes path j last) (sym e)
                (nonzero, (n, name, there, named, at, l)),
            rw (examine, there, found) refl,
          )
          | inr (no_way, discarded) ↦ inr (
            (λ l. no_way (
                LeadsTo-up r path k last n there
                  (subst (λ (j : ℕ). LeadsTo nodes path j last) e l))),
            rw (examine, there, discarded, examine-discarded others a) refl,
          )
        ]

  found_matches :
      {name ms : List ℕ} (component : Option (List ℕ)) (search : List ℕ → Option (List ℕ))
      (judge : List ℕ → Option ℕ)
      → component ≡ some name
      → search name ≡ some ms
      → (component >>= λ nm. search nm >>= λ l. judge l) ≡ judge ms
  found_matches component search judge e f = rw e (rw f refl)

  -- find_node ends, with the last node of the table that has the name of the path's last component if
  -- the parents of that node lead along the path up to the root directory, and with 0 if no node has
  -- the name or the last one is at another path, whether or not an earlier one is at this path. The
  -- path has a component, and every block below a limit of at least 1026 holds a node with a name and
  -- a parent below the limit.
  pub find_node_outcome :
      (k : ℕ) (name : List ℕ)
      → length path ≡ suc k
      → get_elem? path k ≡ some name
      → 1026 ≤ limit
      → ((block : ℕ) × IsFound nodes path name block × (find_node nodes 2 path ≡ some block))
        ⊎ ((NoneNamed nodes name 2 1026 ⊎ IsShadowed nodes path name)
            × (find_node nodes 2 path ≡ some 0))
  unfolding find_node examine
  find_node_outcome k name e at h =
      let (ms, gathered, g) = possible_matches-Gathered r name 1024 0 h in
      let run : find_node nodes 2 path ≡ examine nodes path false (reverse ms) =
        found_matches (get_elem? path (length path - 1)) (λ nm. possible_matches nodes 2 1024 0 nm)
          (λ l. examine nodes path false (reverse l)) (ap (λ (i : ℕ). get_elem? path i) index ∙ at)
          gathered in
      outcome ms g run
    where
      index : length path - 1 ≡ k
      index = omega (arith, e)

      Outcome : Option ℕ → Type 0
      Outcome result =
          ((block : ℕ) × IsFound nodes path name block × (result ≡ some block))
          ⊎ ((NoneNamed nodes name 2 1026 ⊎ IsShadowed nodes path name) × (result ≡ some 0))

      outcome :
          (ms : List ℕ)
          → Gathered nodes name limit 2 1026 ms
          → find_node nodes 2 path ≡ examine nodes path false (reverse ms)
          → Outcome (find_node nodes 2 path)
      outcome ms (none_there never) run = inr (inl never, run)
      outcome ms (one_last front {last} below l) run =
          let turned : reverse (front ++ last ∷ []) ≡ last ∷ reverse front =
            reverse-append front (last ∷ []) in
          let first =
            examine_first name k last (reverse front) e at (AllBelow-reverse front below)
              (omega (arith, h, l.inside)) (λ z. absurd (omega (arith, z, l.reached))) l.named in
          elim first [
            | inl (leads, found) ↦ inl (last, (l, leads), run ∙ rw turned found)
            | inr (no_way, discarded) ↦ inr (inr (last, l, no_way), run ∙ rw turned discarded)
          ]
