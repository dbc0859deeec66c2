-- ===== src/Muse/Segments/Creation.antt =====
-- The creation of a segment in memoria/muse/segments.c: setFirstSegmentPage, setLastSegmentPage,
-- locateMetadataAndHeaplist, createSegment. `none` is a read through NULL.
use locomatch.Prelude.{
  ℕ, zero, suc, ◌+◌, ◌-◌, ◌*◌, ◌/◌, ◌≡◌, true, false, List, [], ◌∷◌, ◌++◌, Option, none, some,
  get_elem?, length, ltb, ◌==◌, set, if◌then◌else◌,
}
use locomatch.Prelude.Int.{pos, negsuc, pos_part}
use locomatch.Prelude.Maybe.{◌>>=◌, bind_none, bind-bind_none}
use locomatch.Muse.Frames.{Frames, update_frame}
use locomatch.Muse.Segments.{
  Page, Segment, SegmentTable, take_frame, set_a_frame, set_new_page, segment_size,
}

-- list_get at the last position, which is -1 in an empty list.
unfoldable pub last_of : {A : Type 0} → List A → Option A
last_of [] = none
last_of (x ∷ xs) = get_elem? (x ∷ xs) (length xs)

-- The heap that the function makes is only returned, and no caller keeps it; the frame of the page
-- is marked.
unfoldable pub locate_metadata_and_heaplist : Frames → Segment → ℕ → Option Frames
locate_metadata_and_heaplist m segment page = do
  prov_page ← (if page == 0 then none else get_elem? segment.tabla_paginas (page - 1))
  elim prov_page.n_frame [
    | pos n ↦ update_frame m n (λ f. record f { modif = 1; used = 1 })
    | negsuc n ↦ none
  ]

module _ (table : SegmentTable) (tamanio_pagina : ℕ) where
  -- The metadata is never split.
  unfoldable pub set_first_segment_page : Frames → Segment → Option (Segment × Frames)
  unfolding locate_metadata_and_heaplist
  set_first_segment_page m segment = do
    (frame, m') ← set_a_frame table m
    taken ← take_frame m' frame
    let first_page : Page = record { bit_presencia = true; n_frame = frame; n_swap = negsuc 0 }
    let with_page = record segment { tabla_paginas = segment.tabla_paginas ++ first_page ∷ [] }
    marked ← locate_metadata_and_heaplist taken with_page 1
    some (record with_page { tam = with_page.tam + tamanio_pagina }, marked)

  unfoldable pub set_last_segment_page : Frames → Segment → Option (Segment × Frames)
  unfolding locate_metadata_and_heaplist last_of
  set_last_segment_page m segment = do
    page ← last_of segment.tabla_paginas
    marked ← locate_metadata_and_heaplist m segment (length segment.tabla_paginas)
    some (record segment { tam = segment.tam + tamanio_pagina }, marked)

  -- `while(pagesNeeded > 0)`: the pages, and the size that is left to them.
  unfoldable pub add_pages : ℕ → ℕ → Frames → Segment → Option (Segment × Frames)
  unfolding set_last_segment_page
  add_pages zero allocated_size m segment = some (segment, m)
  add_pages (suc pages_needed) allocated_size m segment =
      let further : Option (Segment × Frames) = do
        (new_segment, m') ← set_new_page table tamanio_pagina m segment
        add_pages pages_needed (allocated_size - tamanio_pagina) m' new_segment
      in let last : Option (Segment × Frames) = do
        (new_segment, m') ← set_last_segment_page m segment
        add_pages pages_needed 0 m' new_segment
        in if ltb tamanio_pagina allocated_size then further else last

  -- Where a new segment starts, behind the last one.
  unfoldable pub logical_base : ℕ → List Segment → Option ℕ
  logical_base tamanio_mem [] = some tamanio_mem
  logical_base tamanio_mem (first ∷ others) = do
    size ← segment_size (first ∷ others) (length others)
    some (size + 1 + tamanio_mem)

  -- `basura` is the size that malloc left in the new segment; a heapMetadata has 8 bytes. The
  -- rounding of the quotient, which is an int already, changes nothing.
  unfoldable pub create_segment :
      ℕ → ℕ → Frames → List Segment → ℕ → Option (Segment × List Segment × Frames)
  unfolding set_first_segment_page add_pages last_of
  create_segment basura tamanio_mem m segments tamanio = do
    b_logica ← logical_base tamanio_mem segments
    let empty : Segment = record {
      n_segment = length segments;
      pags_lib = 0;
      b_logica = b_logica;
      tam = basura;
      tabla_paginas = [];
      metadatas = [];
    }
    let allocated_size = tamanio + 2 * 8
    let pages_needed = allocated_size / tamanio_pagina
    (with_first, m') ← set_first_segment_page m empty
    last_heap ← last_of with_first.metadatas
    let left =
        if last_heap.is_free then allocated_size - pos_part last_heap.size else allocated_size
    let used = record last_heap { size = pos tamanio; is_free = false }
    let filled = record with_first {
      metadatas = set with_first.metadatas (length with_first.metadatas - 1) used;
    }
    (new_segment, m'') ← add_pages pages_needed left m' filled
    some (new_segment, segments ++ new_segment ∷ [], m'')

  -- createSegment reads NULL on every call: no heap is added to the new segment, and the last one is
  -- asked for.
  pub create_segment_crashes :
      (basura tamanio_mem : ℕ) (m : Frames) (segments : List Segment) (tamanio : ℕ)
      → create_segment basura tamanio_mem m segments tamanio ≡ none
  unfolding create_segment
  create_segment_crashes basura tamanio_mem m segments tamanio =
      search (bind_none, bind-bind_none) depth 8
