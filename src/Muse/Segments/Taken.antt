-- ===== src/Muse/Segments/Taken.antt =====
-- The frame that setAFrame takes for a new page.
use locomatch.Prelude.{
  ℕ, zero, suc, ◌+◌, ◌≤◌, ◌<◌, ◌≡◌, ◌⊎◌, inl, inr, refl, ap, true, false, [], ◌∷◌, ◌++◌, none, some,
  Option, arith, get_elem?, get_elem?-lt, get_elem?-set_there, set-set, set, ltb, ltb→lt, ltb→le,
  subst, Bool-cases,
}
use locomatch.Prelude.Int.{pos, negsuc}
use locomatch.Muse.Frames.{
  Frame, Frames, update_frame, search_from, search_free_frame, any_free_frame,
}
use locomatch.Muse.Clock.Passes.{clock_modif}
use locomatch.Muse.Clock.Search.{At, IsWound, met}
use locomatch.Muse.Clock.Victim.{IsMarked, Victim, clock_modif-Victim}
use locomatch.Prelude.Maybe.{◌>>=◌}
use locomatch.Muse.Segments.{
  Page, Segment, SegmentTable, search_page_from_frame, take_frame, choose_frame, set_a_frame,
  set_new_page,
}
use locomatch.Muse.Segments.Searched.{
  IsStopped, IsUnknown, Searched, unknown, search_page_from_frame-Searched,
}

abbrev FreeAt : Frames → ℕ → Type 0
FreeAt m j = At m j (λ f. f.is_free ≡ true)

abbrev BusyAt : Frames → ℕ → Type 0
BusyAt m j = At m j (λ f. f.is_free ≡ false)

-- `k` is the first free frame from `i` on.
abbrev pub FirstFree : Frames → ℕ → ℕ → Type 0
FirstFree m i k = FreeAt m k × (i ≤ k) × ((j : ℕ) → i ≤ j → j < k → BusyAt m j)

-- What searchFreeFrame finds from `i` on.
abbrev pub Found : Frames → ℕ → ℕ → Type 0
Found m rounds i =
    ((k : ℕ) × FirstFree m i k × (search_from m rounds i ≡ some (pos k)))
    ⊎ (((j : ℕ) → i ≤ j → j < m.cant_frames → BusyAt m j)
        × (search_from m rounds i ≡ some (negsuc 0)))

from_next :
    (m : Frames) (i n : ℕ)
    → BusyAt m i
    → ((j : ℕ) → i + 1 ≤ j → j < n → BusyAt m j)
    → (j : ℕ) → i ≤ j
    → j < n
    → BusyAt m j
from_next m i n here later j h b = elim (Bool-cases (ltb i j)) [
  | inl above ↦ later j (omega (arith, ltb→lt i j above)) b
  | inr below ↦ let same : i ≡ j = omega (arith, h, ltb→le i j below) in subst (BusyAt m) same here
]

search_from-Found :
    (m : Frames) (rounds i : ℕ) → IsWound m → rounds + i ≡ m.cant_frames → Found m rounds i
unfolding search_from
search_from-Found m zero i w h = inr ((λ j a b. absurd (omega (arith, h, a, b))), refl)
search_from-Found m (suc rounds) i w h =
    let (f, at) = get_elem?-lt m.bitmap i (omega (arith, w.sized, h)) in
    elim (Bool-cases f.is_free) [
      | inl free ↦ inl (
        i,
        ((f, at, free), omega arith, (λ j a b. absurd (omega (arith, a, b)))),
        rw at (rw free),
      )
      | inr busy ↦ elim (search_from-Found m rounds (i + 1) w (omega (arith, h))) [
        | inl (k, (there, above, before), e) ↦ inl (
          k,
          (there, omega (arith, above), from_next m i k (f, at, busy) before),
          rw at (rw busy e),
        )
        | inr (all, e) ↦ inr (from_next m i m.cant_frames (f, at, busy) all, rw at (rw busy e))
      ]
    ]

any_free_frame-pos :
    (m : Frames) (k : ℕ) → search_free_frame m ≡ some (pos k) → any_free_frame m ≡ some true
unfolding any_free_frame
any_free_frame-pos m k e = rw e refl

any_free_frame-none :
    (m : Frames) → search_free_frame m ≡ some (negsuc 0) → any_free_frame m ≡ some false
unfolding any_free_frame
any_free_frame-none m e = rw e refl

abbrev pub taken_frame : Frame
taken_frame = record { is_free = false; modif = 1; used = 1 }

abbrev pub taking : Frames → ℕ → Frames
taking m n = record m { bitmap = set m.bitmap n taken_frame }

take_frame-at :
    (m : Frames) (n : ℕ) (f : Frame)
    → get_elem? m.bitmap n ≡ some f
    → take_frame m (pos n) ≡ some (taking m n)
unfolding take_frame update_frame
take_frame-at m n f at = rw at refl

take_frame-taking :
    (m : Frames) (n : ℕ) (f : Frame)
    → get_elem? m.bitmap n ≡ some f
    → take_frame (taking m n) (pos n) ≡ some (taking m n)
unfolding take_frame update_frame
take_frame-taking m n f at =
    rw (get_elem?-set_there m.bitmap n f taken_frame at)
      (ap (λ l. some (record m { bitmap = l })) (set-set m.bitmap n taken_frame taken_frame))

-- A new page at the end of the segment, in this frame.
abbrev pub with_page : ℕ → ℕ → Segment → Segment
with_page tamanio_pagina frame segment = record segment {
  tabla_paginas =
      segment.tabla_paginas
      ++ record { bit_presencia = true; n_frame = pos frame; n_swap = negsuc 0 } ∷ [];
  tam = segment.tam + tamanio_pagina;
}

module _ (segments : SegmentTable) where
  set_a_frame-free :
      (m : Frames) (k : ℕ)
      → FreeAt m k
      → search_free_frame m ≡ some (pos k)
      → set_a_frame segments m ≡ some (negsuc 0, taking m k)
  unfolding set_a_frame choose_frame
  set_a_frame-free m k (f, at, free) e =
      rw (any_free_frame-pos m k e) (rw e (rw (take_frame-at m k f at) refl))

  set_a_frame-full :
      (m table : Frames) (v : ℕ) (f : Frame)
      → search_free_frame m ≡ some (negsuc 0)
      → clock_modif m ≡ some (pos v, table)
      → get_elem? table.bitmap v ≡ some f
      → set_a_frame segments m
        ≡ (search_page_from_frame segments (pos v) >>= λ page. some (pos v, taking table v))
  unfolding set_a_frame choose_frame
  set_a_frame-full m table v f e c at =
      rw (any_free_frame-none m e) (rw c (rw (take_frame-at table v f at) refl))

  module _ (tamanio_pagina : ℕ) (m : Frames) (segment : Segment) where
    -- Where a frame is free, setAFrame marks the first one and returns -1, and setNewPage faults.
    pub record Lost : Type 0 where
      pub frame : ℕ
      pub first : FirstFree m 0 frame
      pub minus_one : set_a_frame segments m ≡ some (negsuc 0, taking m frame)
      pub fault : set_new_page segments tamanio_pagina m segment ≡ none

    -- Where none is, the clock chooses a victim and searchPageFromFrame looks for its page.
    pub record Full : Type 0 where
      pub full : (j : ℕ) → 0 ≤ j → j < m.cant_frames → BusyAt m j
      pub steps : ℕ
      pub table : Frames
      pub victim : Victim m table steps

    -- The search comes to a key that is no client's, and reads NULL.
    pub record Refused (f : Full) : Type 0 where
      pub round : ℕ
      pub stopped : IsStopped segments (pos (met m f.steps)) 0 round
      pub unknown : IsUnknown segments (pos (met m f.steps)) round
      pub fault : set_new_page segments tamanio_pagina m segment ≡ none

    -- The search ends, with a page or without, and the new page gets the victim, which is marked.
    pub record Replaced (f : Full) : Type 0 where
      pub page : Option Page
      pub searched : Searched segments (pos (met m f.steps)) 0 (some page)
      pub frame :
          set_a_frame segments m ≡ some (pos (met m f.steps), taking f.table (met m f.steps))
      pub added :
          set_new_page segments tamanio_pagina m segment
          ≡ some (with_page tamanio_pagina (met m f.steps) segment, taking f.table (met m f.steps))

    by_search :
        (f : Full) (frame : Frame) (r : Option (Option Page))
        → get_elem? f.table.bitmap (met m f.steps) ≡ some frame
        → set_a_frame segments m
          ≡ (r >>= λ page. some (pos (met m f.steps), taking f.table (met m f.steps)))
        → Searched segments (pos (met m f.steps)) 0 r
        → Refused f ⊎ Replaced f
    unfolding set_new_page
    by_search f frame none at one (unknown i stopped gone) =
        inl (record { round = i; stopped = stopped; unknown = gone; fault = rw one refl })
    by_search f frame (some page) at one s = inr (record {
      page = page;
      searched = s;
      frame = one;
      added = rw one (rw (take_frame-taking f.table (met m f.steps) frame at) refl);
    })

    -- Where a frame is free, setAFrame takes the first and still returns -1, and setNewPage reads
    -- NULL. Where none is, the clock chooses a frame and searchPageFromFrame goes through the keys
    -- that string_itoa gives without its argument, one for each client: at a key that is no client's
    -- it reads NULL, and where it comes to a page in the frame or to the end, setNewPage adds a page
    -- in the frame. The table of frames has the configured size, the pointer is in it and the
    -- modified bits are 0 or 1.
    pub set_new_page_outcome :
        IsWound m → IsMarked m → Lost ⊎ ((f : Full) × (Refused f ⊎ Replaced f))
    unfolding set_new_page search_free_frame take_frame
    set_new_page_outcome w marked = elim (search_from-Found m m.cant_frames 0 w (omega arith)) [
      | inl (k, first, e) ↦
          let one = set_a_frame-free m k first.0 e in
          inl (record { frame = k; first = first; minus_one = one; fault = rw one refl })
      | inr (all, e) ↦
          let (v, table, victim) = clock_modif-Victim m w marked in
          let (f, at) =
            get_elem?-lt table.bitmap (met m v)
              (omega (arith, victim.kept.sized, victim.same_size, victim.position)) in
          let f_full : Full = record { full = all; steps = v; table = table; victim = victim } in
          inr (
            f_full,
            by_search f_full f _ at (set_a_frame-full m table (met m v) f e victim.result at)
                (search_page_from_frame-Searched segments (pos (met m v))),
          )
    ]
