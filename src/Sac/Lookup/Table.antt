-- ===== src/Sac/Lookup/Table.antt =====
-- The loop of find_node over the node table gathers the blocks with the name in their order.
use locomatch.Prelude.{
  ℕ, zero, suc, ◌+◌, ◌≤◌, ◌<◌, ◌≡◌, inl, inr, refl, ap, ◌∙◌, subst, true, false, List, [], ◌∷◌,
  ◌++◌, Option, some, arith, ltb, ltb→lt, ltb→le, Bool-cases,
}
use locomatch.Prelude.Text.{strcmp, strcmp_refl, strcmp→eq}
use locomatch.Sac.Disk.{Node}
use locomatch.Sac.Lookup.{node_name, possible_matches}
use locomatch.Sac.Lookup.Climbing.{IsNamed, IsReadable}

-- Every block of the list is below the limit.
abbrev pub AllBelow : ℕ → List ℕ → Type 0
AllBelow limit [] = Unit {0}
AllBelow limit (b ∷ bs) = (b < limit) × AllBelow limit bs

-- No block from `low` up to `high` has the name.
abbrev pub NoneNamed : (ℕ → Option Node) → List ℕ → ℕ → ℕ → Type 0
NoneNamed nodes name low high =
    (block : ℕ) → low ≤ block → block < high → IsNamed nodes block name → ⊥

-- `last` is the last block from `low` up to `high` with the name.
pub record IsLast (nodes : ℕ → Option Node) (name : List ℕ) (low high last : ℕ) : Type 0 where
  pub reached : low ≤ last
  pub inside : last < high
  pub named : IsNamed nodes last name
  pub none_after : NoneNamed nodes name (last + 1) high

-- The matches, with the last one apart.
pub data Gathered (nodes : ℕ → Option Node) (name : List ℕ) (limit low high : ℕ)
    : List ℕ → Type 0 where
  none_there : NoneNamed nodes name low high → Gathered nodes name limit low high []
  one_last :
      (front : List ℕ) {last : ℕ}
      → AllBelow limit front
      → IsLast nodes name low high last
      → Gathered nodes name limit low high (front ++ last ∷ [])

module _ {nodes : ℕ → Option Node} {limit : ℕ} (r : IsReadable nodes limit) (name : List ℕ) where
  IsNamed-strcmp :
      (block : ℕ) (n : Node) (fname : List ℕ)
      → nodes block ≡ some n
      → node_name n ≡ some fname
      → strcmp fname name ≡ false
      → IsNamed nodes block name
      → ⊥
  IsNamed-strcmp block n fname there named differs (n', there', named') =
      let same : fname ≡ name = cc in
      let holds : strcmp fname name ≡ true = rw same (strcmp_refl name) in cc

  NoneNamed-next :
      (low high : ℕ)
      → (IsNamed nodes low name → ⊥)
      → NoneNamed nodes name (low + 1) high
      → NoneNamed nodes name low high
  NoneNamed-next low high here later block reached inside named =
      elim (Bool-cases (ltb low block)) [
        | inl above ↦ later block (omega (arith, ltb→lt low block above)) inside named
        | inr below ↦
            let same : block ≡ low = omega (arith, reached, ltb→le low block below) in
            here (subst (λ (b : ℕ). IsNamed nodes b name) same named)
      ]

  IsLast-next :
      (low high last : ℕ) → IsLast nodes name (low + 1) high last → IsLast nodes name low high last
  IsLast-next low high last l = record {
    reached = omega (arith, l.reached);
    inside = l.inside;
    named = l.named;
    none_after = l.none_after;
  }

  Gathered-skip :
      (low high : ℕ) {ms : List ℕ}
      → (IsNamed nodes low name → ⊥)
      → Gathered nodes name limit (low + 1) high ms
      → Gathered nodes name limit low high ms
  Gathered-skip low high here (none_there later) = none_there (NoneNamed-next low high here later)
  Gathered-skip low high here (one_last front {last} below l) =
      one_last front below (IsLast-next low high last l)

  Gathered-take :
      (low high : ℕ) {ms : List ℕ}
      → low < high
      → low < limit
      → IsNamed nodes low name
      → Gathered nodes name limit (low + 1) high ms
      → Gathered nodes name limit low high (low ∷ ms)
  Gathered-take low high inside below named (none_there later) =
      one_last [] tt
        (record { reached = omega arith; inside = inside; named = named; none_after = later })
  Gathered-take low high inside below named (one_last front {last} f l) =
      one_last (low ∷ front) (below, f) (IsLast-next low high last l)

  pub possible_matches-Gathered :
      (rounds i : ℕ)
      → 2 + i + rounds ≤ limit
      → (ms : List ℕ) × (possible_matches nodes 2 rounds i name ≡ some ms)
        × Gathered nodes name limit (2 + i) (2 + i + rounds) ms
  unfolding possible_matches
  possible_matches-Gathered zero i h =
      ([], refl, none_there (λ block a b. absurd (omega (arith, a, b))))
  possible_matches-Gathered (suc rounds) i h =
      let (n, fname, there, named, up) = r.readable (2 + i) (omega (arith, h)) in
      let (ms, e, g) = possible_matches-Gathered rounds (i + 1) (omega (arith, h)) in
      let later : Gathered nodes name limit (2 + i + 1) (2 + i + suc rounds) ms =
        subst (λ (low : ℕ). Gathered nodes name limit low (2 + i + suc rounds) ms) (next i)
          (subst (λ (high : ℕ). Gathered nodes name limit (2 + (i + 1)) high ms) (shift rounds i)
            g) in
      elim (Bool-cases (strcmp fname name)) [
        | inl same ↦ (
          (2 + i) ∷ ms,
          rw (possible_matches, there, named, e, same) refl,
          Gathered-take (2 + i) (2 + i + suc rounds) (omega arith) (omega (arith, h))
              (n, there, named ∙ ap (λ (t : List ℕ). some t) (strcmp→eq fname name same)) later,
        )
        | inr differs ↦ (
          ms,
          rw (possible_matches, there, named, e, differs) refl,
          Gathered-skip (2 + i) (2 + i + suc rounds)
              (IsNamed-strcmp (2 + i) n fname there named differs) later,
        )
      ]
    where
      shift : (rounds i : ℕ) → 2 + (i + 1) + rounds ≡ 2 + i + suc rounds
      shift rounds i = omega arith

      next : (i : ℕ) → 2 + (i + 1) ≡ 2 + i + 1
      next i = omega arith
