-- ===== src/Sac/Parser/Kept.antt =====
-- What every message to the server keeps.
use locomatch.Prelude.{
  ℕ, ◌+◌, ◌^◌, ◌≡◌, ◌≢◌, ◌≤◌, ◌<◌, ◌⊎◌, inl, inr, refl, sym, ap, ◌∙◌, subst, Bool, true, false,
  ◌&&◌, List, [], ◌∷◌, Option, none, some, arith, ◌==◌, length, if◌then◌else◌,
}
use locomatch.Prelude.Maybe.{◌>>=◌}
use locomatch.Sac.OpenedFiles.{
  OpenedFile, strlen, insert_to_opened_files_table, is_file_opened, Numbered, Inserted,
  is_file_opened-append, insert_to_opened_files_table-Inserted,
}
use locomatch.Sac.Server.{
  Entorno, Servidor, PackageOpen, add_opened_file, action_open, action_opendir,
}
use locomatch.Sac.Server.Write.{PackageWrite, write_opened, action_write}

-- From one state to a later one: the geometry stays, and at most `n` files are opened. As long as
-- the descriptors fit a uint16_t they count up from 1 and those that are given stay.
pub record Kept (n : ℕ) (s s' : Servidor) : Type 0 where
  pub geometry : s'.geometry ≡ s.geometry
  pub opened_more :
      Numbered 1 s.opened → length s.opened + n < 2 ^ 16 → length s'.opened ≤ length s.opened + n
  pub numbered : Numbered 1 s.opened → length s.opened + n < 2 ^ 16 → Numbered 1 s'.opened
  pub stays :
      Numbered 1 s.opened
      → length s.opened + n < 2 ^ 16
      → (node : ℕ) → is_file_opened s.opened node ≢ 0
      → is_file_opened s'.opened node ≡ is_file_opened s.opened node

-- Nothing is opened.
pub Kept-same :
    {s s' : Servidor} (n : ℕ) → s'.geometry ≡ s.geometry → s'.opened ≡ s.opened → Kept n s s'
Kept-same {s} {s'} n g o = record {
  geometry = g;
  opened_more = λ h b. omega (arith, ap length o);
  numbered = λ h b. subst (λ (t : List OpenedFile). Numbered 1 t) (sym o) h;
  stays = λ h b node f. ap (λ (t : List OpenedFile). is_file_opened t node) o;
}

-- Every result keeps it; a crash does.
pub record AllKept (s : Servidor) (result : Option (List ℕ × Servidor)) : Type 0 where
  pub kept : (answer : List ℕ) (s' : Servidor) → result ≡ some (answer, s') → Kept 1 s s'

module _ (s : Servidor) where
  pub AllKept-none : AllKept s none
  AllKept-none = record { kept = λ answer s' e. cc }

  AllKept-some : (answer : List ℕ) (s' : Servidor) → Kept 1 s s' → AllKept s (some (answer, s'))
  AllKept-some answer s' k = record {
    kept = λ answer' s'' e. let same : s' ≡ s'' = cc in subst (λ (t : Servidor). Kept 1 s t) same k;
  }

  pub AllKept-bind :
      {A : Type 0} (o : Option A) (f : A → Option (List ℕ × Servidor))
      → ((a : A) → o ≡ some a → AllKept s (f a))
      → AllKept s (o >>= f)
  AllKept-bind none f h = AllKept-none
  AllKept-bind (some a) f h = h a refl

  pub AllKept-if :
      (test : Bool) (x y : Option (List ℕ × Servidor))
      → AllKept s x
      → AllKept s y
      → AllKept s (if test then x else y)
  AllKept-if true x y a b = a
  AllKept-if false x y a b = b

  pub AllKept-here : (answer : List ℕ) → AllKept s (some (answer, s))
  AllKept-here answer = AllKept-some answer s (Kept-same 1 refl refl)

Option-cases : {A : Type 0} (o : Option A) → (o ≡ none) ⊎ ((a : A) × (o ≡ some a))
Option-cases none = inl refl
Option-cases (some a) = inr (a, refl)

-- An insertion, whatever the name.
inserted :
    (garbage : List ℕ) (table : List OpenedFile) (f : OpenedFile) (fd : ℕ) (after : List OpenedFile)
    → insert_to_opened_files_table garbage table f ≡ some (fd, after)
    → Numbered 1 table
    → length table + 1 < 2 ^ 16
    → (i : Inserted garbage table f) × (after ≡ i.after)
unfolding insert_to_opened_files_table
inserted garbage [] f fd after e h b = (
  record {
    after = _;
    result = refl;
    size = refl;
    numbered = (refl, tt);
    lookup = λ node. is_file_opened-append 1 [] _ node (omega arith) tt;
  },
  cc,
)
inserted garbage (t ∷ ts) f fd after e h b = elim (Option-cases (strlen f.fname)) [
  | inl endless ↦ crash (rw endless refl)
  | inr (n, ends) ↦
      let i = insert_to_opened_files_table-Inserted garbage (t ∷ ts) f n h b ends in
      let result = i.result in (i, cc)
]
  where
    crash :
        insert_to_opened_files_table garbage (t ∷ ts) f ≡ none
        → (i : Inserted garbage (t ∷ ts) f) × (after ≡ i.after)
    crash missing = cc

module _ (s : Servidor) where
  AllKept-insert :
      (garbage : List ℕ) (f : OpenedFile) (answer : List ℕ) (result : ℕ × List OpenedFile)
      → insert_to_opened_files_table garbage s.opened f ≡ some result
      → AllKept s (some (answer, record s { opened = result.1 }))
  AllKept-insert garbage f answer result e = AllKept-some s answer _ (record {
    geometry = refl;
    opened_more = λ h b.
        let (i, same) = inserted garbage s.opened f result.0 result.1 e h b in
        omega (arith, i.size, ap length same);
    numbered = λ h b.
        let (i, same) = inserted garbage s.opened f result.0 result.1 e h b in
        subst (λ (t : List OpenedFile). Numbered 1 t) (sym same) i.numbered;
    stays = λ h b node before.
        let (i, same) = inserted garbage s.opened f result.0 result.1 e h b in
        ap (λ (t : List OpenedFile). is_file_opened t node) same
        ∙ i.lookup node
        ∙ earlier node before;
  })
    where
      earlier :
          (node : ℕ)
          → is_file_opened s.opened node ≢ 0
          → (if is_file_opened s.opened node == 0 && f.node_block == node
              then length s.opened + 1
              else is_file_opened s.opened node)
            ≡ is_file_opened s.opened node
      earlier node before = ground (arith, before)

  AllKept-add :
      (e : Entorno) (flags state file_node node_block : ℕ)
      → AllKept s (add_opened_file e s flags state file_node node_block)
  unfolding add_opened_file
  AllKept-add e flags state file_node node_block = search (AllKept-bind, AllKept-insert) depth 14

  pub AllKept-open : (e : Entorno) (request : PackageOpen) → AllKept s (action_open e s request)
  unfolding action_open
  AllKept-open e request = search (AllKept-bind, AllKept-if, AllKept-here, AllKept-add) depth 14

  pub AllKept-opendir :
      (e : Entorno) (node_block : ℕ) (request : PackageOpen)
      → AllKept s (action_opendir e node_block s request)
  unfolding action_opendir
  AllKept-opendir e node_block request =
      search (AllKept-bind, AllKept-if, AllKept-here, AllKept-add) depth 14

  AllKept-disk : (answer disco : List ℕ) → AllKept s (some (answer, record s { disco = disco }))
  AllKept-disk answer disco = AllKept-some s answer _ (Kept-same 1 refl refl)

  AllKept-written :
      (e : Entorno) (file_node : ℕ) (request : PackageWrite)
      → AllKept s (write_opened e s file_node request)
  unfolding write_opened
  AllKept-written e file_node request = search (AllKept-bind, AllKept-disk) depth 14

  pub AllKept-write : (e : Entorno) (request : PackageWrite) → AllKept s (action_write e s request)
  unfolding action_write
  AllKept-write e request =
      search (AllKept-bind, AllKept-if, AllKept-here, AllKept-written) depth 14
