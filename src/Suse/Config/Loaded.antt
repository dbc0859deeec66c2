-- ===== src/Suse/Config/Loaded.antt =====
-- What cargar_config makes of a configuration file.
use locomatch.Prelude.{
  ℕ, zero, suc, ◌<◌, ◌≡◌, ◌⊎◌, inl, inr, refl, ap, true, false, List, [], ◌∷◌, some, arith, length,
  get_elem?, ltb, ltb→lt, Bool-cases, subst,
}
use locomatch.Prelude.Int.{ℤ}
use locomatch.Suse.Create.{ConfigSemaforo}
use locomatch.Suse.Config.{
  Key, sem_ids, sem_init, sem_max, listen_port, metrics_timer, max_multiprog, alpha_sjf, ConfigFile,
  ConfigData, Load, loaded, exits, crashes, ◌>>>◌, semaforos_from, get_semaforos_from_config,
  need_property, cargar_config,
}

-- Semaphore `i` has the texts at this position of the three arrays.
pub record IsEntry (atoi : List ℕ → ℤ) (ids inits maxs : List (List ℕ)) (xs : List ConfigSemaforo)
    (i : ℕ) (id : List ℕ) : Type 0 where
  pub start : List ℕ
  pub top : List ℕ
  pub has_start : get_elem? inits i ≡ some start
  pub has_top : get_elem? maxs i ≡ some top
  pub entry : get_elem? xs i ≡ some (record { id = id; init = atoi start; max = atoi top })

module _ (atoi : List ℕ → ℤ) where
  pub record AreRead (ids inits maxs : List (List ℕ)) (xs : List ConfigSemaforo) : Type 0 where
    pub size : length xs ≡ length ids
    pub entries :
        (i : ℕ) (id : List ℕ) → get_elem? ids i ≡ some id → IsEntry atoi ids inits maxs xs i id

  entries_cons :
      (id a b : List ℕ) (ids inits maxs : List (List ℕ)) (xs : List ConfigSemaforo)
      → ((i : ℕ) (id' : List ℕ) → get_elem? ids i ≡ some id' → IsEntry atoi ids inits maxs xs i id')
      → (i : ℕ) (id' : List ℕ) → get_elem? (id ∷ ids) i ≡ some id'
      → IsEntry atoi
          (id ∷ ids)
          (a ∷ inits)
          (b ∷ maxs)
          (record { id = id; init = atoi a; max = atoi b } ∷ xs)
          i
          id'
  entries_cons id a b ids inits maxs xs h zero id' e = record {
    start = a;
    top = b;
    has_start = refl;
    has_top = refl;
    entry = let same : id ≡ id' = cc in rw same refl;
  }
  entries_cons id a b ids inits maxs xs h (suc i) id' e =
      let r = h i id' e in
      record {
        start = r.start;
        top = r.top;
        has_start = r.has_start;
        has_top = r.has_top;
        entry = r.entry;
      }

  -- The arrays are read, or one ends in front of the names.
  abbrev ArraysOutcome : List (List ℕ) → List (List ℕ) → List (List ℕ) → Type 0
  ArraysOutcome ids inits maxs =
      ((xs : List ConfigSemaforo) × (semaforos_from atoi ids inits maxs ≡ loaded xs)
        × AreRead ids inits maxs xs)
      ⊎ ((semaforos_from atoi ids inits maxs ≡ crashes)
          × ((length inits < length ids) ⊎ (length maxs < length ids)))

  semaforos_from_outcome : (ids inits maxs : List (List ℕ)) → ArraysOutcome ids inits maxs
  unfolding semaforos_from
  semaforos_from_outcome [] inits maxs =
      inl ([], refl, record { size = refl; entries = λ i id e. cc })
  semaforos_from_outcome (id ∷ ids) [] maxs = inr (refl, inl (omega arith))
  semaforos_from_outcome (id ∷ ids) (a ∷ inits) [] = inr (refl, inr (omega arith))
  semaforos_from_outcome (id ∷ ids) (a ∷ inits) (b ∷ maxs) =
      elim (semaforos_from_outcome ids inits maxs) [
        | inl (xs, e, r) ↦ inl (
          record { id = id; init = atoi a; max = atoi b } ∷ xs,
          rw e refl,
          record {
            size = ap suc r.size;
            entries = entries_cons id a b ids inits maxs xs r.entries;
          },
        )
        | inr (e, inl short) ↦ inr (rw e refl, inl (omega (arith, short)))
        | inr (e, inr short) ↦ inr (rw e refl, inr (omega (arith, short)))
      ]

-- How cargar_config ends, and why.
pub data Outcome {F : Type 0} (file : ConfigFile F) : Load (ConfigData F) → Type 0 where
  few_keys : file.keys_amount < 7 → Outcome file exits
  missing : (key : Key) → file.config_has_property key ≡ false → Outcome file exits
  short_array :
      (length (file.array_value sem_init) < length (file.array_value sem_ids))
        ⊎ (length (file.array_value sem_max) < length (file.array_value sem_ids))
      → Outcome file crashes
  configured :
      (config : ConfigData F)
      → ((key : Key) → file.config_has_property key ≡ true)
      → config.multiprog ≡ file.int_value max_multiprog
      → AreRead file.atoi
          (file.array_value sem_ids)
          (file.array_value sem_init)
          (file.array_value sem_max)
          config.semaforos
      → Outcome file (loaded config)

module _ {F : Type 0} (file : ConfigFile F) where
  -- A key that is asked for.
  need_property-step :
      {A : Type 0} (R : Load A → Type 0) (key : Key) (rest : Load A)
      → (file.config_has_property key ≡ false → R exits)
      → (file.config_has_property key ≡ true → R rest)
      → R (need_property file key >>> λ _. rest)
  unfolding need_property
  need_property-step R key rest absent there = elim (Bool-cases (file.config_has_property key)) [
    | inl e ↦ rw e (there e)
    | inr e ↦ rw e (absent e)
  ]

  all_keys :
      (file.config_has_property listen_port ≡ true)
      → (file.config_has_property metrics_timer ≡ true)
      → (file.config_has_property max_multiprog ≡ true)
      → (file.config_has_property sem_ids ≡ true)
      → (file.config_has_property sem_init ≡ true)
      → (file.config_has_property sem_max ≡ true)
      → (file.config_has_property alpha_sjf ≡ true)
      → (key : Key) → file.config_has_property key ≡ true
  all_keys a b c d e f g listen_port = a
  all_keys a b c d e f g metrics_timer = b
  all_keys a b c d e f g max_multiprog = c
  all_keys a b c d e f g sem_ids = d
  all_keys a b c d e f g sem_init = e
  all_keys a b c d e f g sem_max = f
  all_keys a b c d e f g alpha_sjf = g

  -- cargar_config ends the process only when the file has fewer than seven keys or misses one that
  -- it asks for, and crashes only when the array of starting values or of maxima is shorter than the
  -- one of names; otherwise no key is missing, and the configuration has the file's degree of
  -- multiprogramming and, position by position, semaphores with the names and numbers of the arrays.
  pub cargar_config-Outcome : Outcome file (cargar_config file)
  unfolding cargar_config get_semaforos_from_config
  cargar_config-Outcome = elim (Bool-cases (ltb file.keys_amount 7)) [
    | inl e ↦ rw e (few_keys (ltb→lt file.keys_amount 7 e))
    | inr e ↦ rw e (
        need_property-step R listen_port _ (missing listen_port) λ e₁.
          need_property-step R metrics_timer _ (missing metrics_timer) λ e₂.
            need_property-step R max_multiprog _ (missing max_multiprog) λ e₃.
              need_property-step R sem_ids _ (missing sem_ids) λ e₄.
                need_property-step R sem_init _ (missing sem_init) λ e₅.
                  need_property-step R sem_max _ (missing sem_max) λ e₆.
                    elim (semaforos_from_outcome file.atoi ids inits maxs) [
                      | inl (xs, e₇, r) ↦ rw e₇ (
                          need_property-step R alpha_sjf _ (missing alpha_sjf)
                            λ e₈. configured _ (all_keys e₁ e₂ e₃ e₄ e₅ e₆ e₈) refl r)
                      | inr (e₇, short) ↦ rw e₇ (short_array short)
                    ])
  ]
    where
      ids : List (List ℕ)
      ids = file.array_value sem_ids

      inits : List (List ℕ)
      inits = file.array_value sem_init

      maxs : List (List ℕ)
      maxs = file.array_value sem_max

      R : Load (ConfigData F) → Type 0
      R o = Outcome file o

-- What a configuration that was loaded has of its file.
pub record IsFrom {F : Type 0} (file : ConfigFile F) (config : ConfigData F) : Type 0 where
  pub multiprog : config.multiprog ≡ file.int_value max_multiprog
  pub read :
      AreRead file.atoi
        (file.array_value sem_ids)
        (file.array_value sem_init)
        (file.array_value sem_max)
        config.semaforos

Outcome-IsFrom :
    {F : Type 0} {file : ConfigFile F} {o : Load (ConfigData F)} (config : ConfigData F)
    → Outcome file o
    → o ≡ loaded config
    → IsFrom file config
Outcome-IsFrom config (few_keys h) e = cc
Outcome-IsFrom config (missing key h) e = cc
Outcome-IsFrom config (short_array h) e = cc
Outcome-IsFrom {file = file} config (configured c keys m r) e =
    let same : c ≡ config = cc in
    subst (λ (c' : _). IsFrom file c') same (record { multiprog = m; read = r })

pub loaded-IsFrom :
    {F : Type 0} (file : ConfigFile F) (config : ConfigData F)
    → cargar_config file ≡ loaded config
    → IsFrom file config
loaded-IsFrom file config e = Outcome-IsFrom config (cargar_config-Outcome file) e
