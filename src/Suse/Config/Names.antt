-- ===== src/Suse/Config/Names.antt =====
-- The semaphores of a configuration are found by their names.
use locomatch.Prelude.{
  ℕ, zero, suc, ◌+◌, ◌<◌, ◌≡◌, ◌≢◌, inl, inr, refl, ap, ◌∙◌, false, List, [], ◌∷◌, Option, some,
  arith, get_elem?, get_elem?-lt, get_elem?-some, Bool-cases, zero-add,
}
use locomatch.Prelude.Text.{strcmp, strcmp_refl, strcmp→eq}
use locomatch.Suse.State.{Semaforo}
use locomatch.Suse.Lookup.{get_semaforo_from, get_semaforo}
use locomatch.Suse.Create.{ConfigSemaforo, create_semaforo, init_semaforos}
use locomatch.Suse.Config.{
  sem_ids, sem_init, sem_max, ConfigFile, ConfigData, loaded, cargar_config,
}
use locomatch.Suse.Config.Loaded.{AreRead, loaded-IsFrom}

-- A semaphore of the configuration, as init_semaforos makes it.
get_elem?-init_semaforos :
    (cs : List ConfigSemaforo) (i : ℕ) (c : ConfigSemaforo)
    → get_elem? cs i ≡ some c
    → get_elem? (init_semaforos cs) i ≡ some (create_semaforo c)
unfolding init_semaforos
get_elem?-init_semaforos [] i c e = cc
get_elem?-init_semaforos (c' ∷ cs) zero c e = let same : c' ≡ c = cc in rw same refl
get_elem?-init_semaforos (c' ∷ cs) (suc i) c e = get_elem?-init_semaforos cs i c e

get_semaforo_from-first :
    (xs : List Semaforo) (n i : ℕ) (x : Semaforo)
    → get_elem? xs i ≡ some x
    → ((j : ℕ) (y : Semaforo) → j < i → get_elem? xs j ≡ some y → y.id ≢ x.id)
    → get_semaforo_from n xs x.id ≡ some (n + i)
unfolding get_semaforo_from
get_semaforo_from-first [] n i x e h = cc
get_semaforo_from-first (x' ∷ xs) n zero x e h =
    let same : x' ≡ x = cc in rw (same, strcmp_refl x.id) (ap (λ (k : ℕ). some k) (omega arith))
get_semaforo_from-first (x' ∷ xs) n (suc i) x e h = elim (Bool-cases (strcmp x'.id x.id)) [
  | inl same ↦ absurd (h 0 x' (omega arith) refl (strcmp→eq x'.id x.id same))
  | inr differ ↦
      rw
        (
          differ,
          get_semaforo_from-first xs (n + 1) i x e
              (λ j y less e'. h (suc j) y (omega (arith, less)) e'),
        )
        (ap (λ (k : ℕ). some k) (omega arith))
]

same_id : (o : Option Semaforo) (x y : Semaforo) → o ≡ some x → o ≡ some y → x.id ≡ y.id
same_id o x y e e' = let same : x ≡ y = cc in ap (λ (z : Semaforo). z.id) same

-- A configured name is found.
pub record IsFound {F : Type 0} (file : ConfigFile F) (xs : List Semaforo) (i : ℕ) (id : List ℕ)
    : Type 0 where
  pub start : List ℕ
  pub top : List ℕ
  pub has_start : get_elem? (file.array_value sem_init) i ≡ some start
  pub has_top : get_elem? (file.array_value sem_max) i ≡ some top
  pub position : get_semaforo xs id ≡ some i
  pub there :
      get_elem? xs i
      ≡ some (record {
        id = id;
        valor = file.atoi start;
        max_value = file.atoi top;
        blocked = [];
        sem_mutex = false;
      })

-- Every name of SEM_IDS that no earlier entry has is the name of a semaphore that get_semaforo
-- finds at the entry's position, and that starts with the number of SEM_INIT and the maximum of
-- SEM_MAX at this position and without blocked threads, if the configuration file was loaded.
pub get_semaforo-IsFound :
    {F : Type 0} (file : ConfigFile F) (config : ConfigData F) (i : ℕ) (id : List ℕ)
    → cargar_config file ≡ loaded config
    → get_elem? (file.array_value sem_ids) i ≡ some id
    → ((j : ℕ) → j < i → get_elem? (file.array_value sem_ids) j ≢ some id)
    → IsFound file (init_semaforos config.semaforos) i id
unfolding get_semaforo create_semaforo
get_semaforo-IsFound file config i id loads at first =
    let from = loaded-IsFrom file config loads in
    let entry = from.read.entries i id at in
    let there = get_elem?-init_semaforos config.semaforos i _ entry.entry in
    record {
      start = entry.start;
      top = entry.top;
      has_start = entry.has_start;
      has_top = entry.has_top;
      position =
          get_semaforo_from-first (init_semaforos config.semaforos) 0 i _ there (earlier from.read)
          ∙ ap (λ (k : ℕ). some k) (zero-add i);
      there = there;
    }
  where
    earlier :
        AreRead file.atoi
          (file.array_value sem_ids)
          (file.array_value sem_init)
          (file.array_value sem_max)
          config.semaforos
        → (j : ℕ) (y : Semaforo) → j < i
        → get_elem? (init_semaforos config.semaforos) j ≡ some y
        → y.id ≢ id
    earlier r j y less e same =
        let before = get_elem?-some (file.array_value sem_ids) i id at in
        let (name, here) =
          get_elem?-lt (file.array_value sem_ids) j (omega (arith, before, less)) in
        let entry = r.entries j name here in
        let made = get_elem?-init_semaforos config.semaforos j _ entry.entry in
        let is : name ≡ y.id = same_id _ _ y made e in
        first j less (here ∙ ap (λ (n : List ℕ). some n) (is ∙ same))
