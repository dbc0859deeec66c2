-- ===== src/Muse/Segments.antt =====
-- Pages and segments of memoria/muse/segments.c: searchPageFromFrame, setAFrame, setNewPage,
-- segmentSize, -- searchSegmentWithSizeAvailable.
pub mod Searched
pub mod Taken
pub mod Room
pub mod Creation
use locomatch.Prelude.{
  ℕ, zero, suc, ◌+◌, Bool, true, false, List, [], ◌∷◌, ◌++◌, Option, none, some, get_elem?, leb,
  ◌&&◌, if◌then◌else◌,
}
use locomatch.Prelude.Int.{ℤ, pos, negsuc, leb_ℤ}
use locomatch.Prelude.Maybe.{◌>>=◌}
use locomatch.Muse.Frames.{Frame, Frames, update_frame, search_free_frame, any_free_frame}
use locomatch.Muse.Clock.Passes.{clock_modif}

-- page_t, without its value, which nothing sets.
pub record Page : Type 0 where
  pub bit_presencia : Bool
  pub n_frame : ℤ
  pub n_swap : ℤ

-- heapList
pub record HeapList : Type 0 where
  pub dir : ℤ
  pub size : ℤ
  pub is_free : Bool

-- segment_t
pub record Segment : Type 0 where
  pub n_segment : ℕ
  pub pags_lib : ℕ
  pub b_logica : ℕ
  pub tam : ℕ
  pub tabla_paginas : List Page
  pub metadatas : List HeapList

-- `modif = 1; used = 1; isFree = false` through the pointer that list_get gives; NULL at -1.
unfoldable pub take_frame : Frames → ℤ → Option Frames
unfolding update_frame
take_frame m (pos n) = update_frame m n (λ f. record { is_free = false; modif = 1; used = 1 })
take_frame m (negsuc n) = none

-- The frame that setAFrame takes, and whether a page is to be swapped for it.
unfoldable pub choose_frame : Frames → Option (ℤ × Bool × Frames)
choose_frame m = do
  free ← any_free_frame m
  let found : Option (ℤ × Bool × Frames) = do frame ← search_free_frame m; some (frame, false, m)
  let victim : Option (ℤ × Bool × Frames) = do (frame, m') ← clock_modif m; some (frame, true, m')
  if free then found else victim

-- SEGMENT_TABLE, as the dictionary of the commons library shows it: NULL for a key that is not there.
-- searchPageFromFrame calls string_itoa without its argument; `clave i` is the text that it gives in
-- the round `i`, whatever it is.
pub record SegmentTable : Type 0 where
  pub dictionary_size : ℕ
  pub dictionary_get : List ℕ → Option (List Segment)
  pub clave : ℕ → List ℕ

unfoldable pub search_pages : ℤ → List Page → Option Page
search_pages n_frame [] = none
search_pages n_frame (page ∷ pages) =
    let rest = search_pages n_frame pages in
    if leb_ℤ page.n_frame n_frame && leb_ℤ n_frame page.n_frame then some page else rest

unfoldable pub search_segments : ℤ → List Segment → Option Page
unfolding search_pages
search_segments n_frame [] = none
search_segments n_frame (segment ∷ segments) = elim (search_pages n_frame segment.tabla_paginas) [
  | some page ↦ some page
  | none ↦ search_segments n_frame segments
]

-- The page that was found is returned.
abbrev pub or_next : Option Page → Option (Option Page) → Option (Option Page)
or_next (some page) rest = some (some page)
or_next none rest = rest

-- The rounds left, and the index; the page or NULL, or `none` where list_size reads NULL.
unfoldable pub search_clients : SegmentTable → ℤ → ℕ → ℕ → Option (Option Page)
search_clients table n_frame zero i = some none
search_clients table n_frame (suc rounds) i = do
  segments ← table.dictionary_get (table.clave i)
  let rest = search_clients table n_frame rounds (i + 1)
  or_next (search_segments n_frame segments) rest

unfoldable pub search_page_from_frame : SegmentTable → ℤ → Option (Option Page)
search_page_from_frame table n_frame = search_clients table n_frame table.dictionary_size 0

-- swapPage only returns 1, which is not used.
unfoldable pub set_a_frame : SegmentTable → Frames → Option (ℤ × Frames)
unfolding choose_frame
set_a_frame table m = do
  (frame, swap_needed, m') ← choose_frame m
  taken ← take_frame m' frame
  let swapped : Option (ℤ × Frames) = do
    page_to_swap ← search_page_from_frame table frame
    some (frame, taken)
  (if swap_needed then swapped else some (negsuc 0, taken))

unfoldable pub set_new_page : SegmentTable → ℕ → Frames → Segment → Option (Segment × Frames)
set_new_page table tamanio_pagina m segment = do
  (frame, m') ← set_a_frame table m
  taken ← take_frame m' frame
  let page : Page = record { bit_presencia = true; n_frame = frame; n_swap = negsuc 0 }
  some (
    record segment {
      tabla_paginas = segment.tabla_paginas ++ page ∷ [];
      tam = segment.tam + tamanio_pagina;
    },
    taken,
  )

-- The segments of a client; NULL where the index is beyond them.
unfoldable pub segment_size : List Segment → ℕ → Option ℕ
segment_size segments n = do segment ← get_elem? segments n; some segment.tam

-- The inner loop: whether a heap of the segment is free and large enough.
unfoldable pub has_room : List HeapList → ℤ → Bool
has_room [] tam = false
has_room (heap ∷ heaps) tam =
    if heap.is_free && leb_ℤ tam heap.size then true else has_room heaps tam

unfoldable pub search_segment_with_size_available : List Segment → ℤ → Option Segment
unfolding has_room
search_segment_with_size_available [] tam = none
search_segment_with_size_available (segment ∷ segments) tam =
    let rest = search_segment_with_size_available segments tam in
    if has_room segment.metadatas tam then some segment else rest
