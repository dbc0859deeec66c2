-- ===== src/Muse/Tests.antt =====
-- The clock at a concrete table.
use locomatch.Prelude.{
  ℕ, zero, suc, ◌≡◌, ◌⊎◌, refl, Bool, true, false, List, [], ◌∷◌, ◌++◌, none, some, arith,
}
use locomatch.Muse.Segments.Creation.{create_segment, create_segment_crashes}
use locomatch.Prelude.{none}
use locomatch.Muse.Segments.{Segment, SegmentTable, search_segment_with_size_available}
use locomatch.Muse.Segments.Room.{AllFull, HasRoom, search_segment_first_fit}
use locomatch.Prelude.Int.{pos}
use locomatch.Muse.Segments.Taken.{Lost, Full, Refused, Replaced, set_new_page_outcome}
use locomatch.Muse.Frames.{Frame, Frames}
use locomatch.Prelude.Text.{strcmp}
use locomatch.Prelude.{if◌then◌else◌}
use locomatch.Muse.Clock.Victim.{IsMarked, Victim, clock_modif-Victim}

abbrev marco : ℕ → ℕ → Frame
marco u m = record { is_free = false; used = u; modif = m }

-- Three frames in use, the second of them unmodified, with the pointer at the last.
abbrev llena : Frames
llena = record {
  cant_frames = 3;
  bitmap = marco 1 1 ∷ marco 1 0 ∷ marco 1 1 ∷ [];
  clock_pointer = 2;
}

llena-IsMarked : IsMarked llena
llena-IsMarked zero f e = ground arith
llena-IsMarked (suc zero) f e = ground arith
llena-IsMarked (suc (suc zero)) f e = ground arith
llena-IsMarked (suc (suc (suc j))) f e = cc

clock_modif-Victim_example : (k : ℕ) × (m' : Frames) × Victim llena m' k
clock_modif-Victim_example =
    clock_modif-Victim llena (record { sized = refl; pointed = omega arith }) llena-IsMarked

abbrev vacio : Segment
vacio = record {
  n_segment = 0;
  pags_lib = 0;
  b_logica = 0;
  tam = 0;
  tabla_paginas = [];
  metadatas = [];
}

-- One client without segments, under the key "1"; string_itoa gives "0".
abbrev tabla : SegmentTable
tabla = record {
  dictionary_size = 1;
  dictionary_get = λ key. if strcmp key (b'1' ∷ []) then some [] else none;
  clave = λ i. b'0' ∷ [];
}

set_new_page_outcome_example :
    Lost tabla 4096 llena vacio
    ⊎ ((f : Full tabla 4096 llena vacio) × (Refused tabla 4096 llena vacio f
          ⊎ Replaced tabla 4096 llena vacio f))
set_new_page_outcome_example =
    set_new_page_outcome tabla 4096 llena vacio (record { sized = refl; pointed = omega arith })
      llena-IsMarked

-- The second segment has a free heap of 100 bytes.
abbrev con_heap : Bool → Segment
con_heap libre = record vacio {
  metadatas = record { dir = pos 0; size = pos 100; is_free = libre } ∷ [];
}

search_segment_first_fit_example :
    ((front : List Segment) × (segment : Segment) × (back : List Segment) × (con_heap false
          ∷ con_heap true
          ∷ []
        ≡ front ++ segment ∷ back)
      × AllFull (pos 60) front
      × HasRoom (pos 60) segment.metadatas
      × (search_segment_with_size_available (con_heap false ∷ con_heap true ∷ []) (pos 60)
          ≡ some segment))
    ⊎ (AllFull (pos 60) (con_heap false ∷ con_heap true ∷ [])
        × (search_segment_with_size_available (con_heap false ∷ con_heap true ∷ []) (pos 60)
            ≡ none))
search_segment_first_fit_example =
    search_segment_first_fit (pos 60) (con_heap false ∷ con_heap true ∷ [])

create_segment_crashes_example : create_segment tabla 4096 170 0 llena [] 100 ≡ none
create_segment_crashes_example = create_segment_crashes tabla 4096 170 0 llena [] 100
