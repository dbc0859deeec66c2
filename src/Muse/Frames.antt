-- ===== src/Muse/Frames.antt =====
-- The frame table of memoria/muse/segments.c: createBitmapFrames, isFrameFree, fillFrame,
-- freeFrame, searchFreeFrame, anyFreeFrame, framePos. `none` is a read through the NULL that
-- list_get gives outside the list.
use locomatch.Prelude.{
  ℕ, zero, suc, ◌+◌, ◌*◌, Bool, true, false, List, Option, some, get_elem?, set, replicate, ◌==◌,
  if◌then◌else◌,
}
use locomatch.Prelude.Int.{ℤ, pos, negsuc}
use locomatch.Prelude.Maybe.{◌>>=◌}

-- frame_t
pub record Frame : Type 0 where
  pub is_free : Bool
  pub modif : ℕ
  pub used : ℕ

-- The globals cant_frames, bitmapFrames and clockPointer.
pub record Frames : Type 0 where
  pub cant_frames : ℕ
  pub bitmap : List Frame
  pub clock_pointer : ℕ

abbrev pub new_frame : Frame
new_frame = record { is_free = true; modif = 0; used = 0 }

unfoldable pub create_bitmap_frames : Frames → Frames
create_bitmap_frames m = record m { bitmap = replicate m.cant_frames new_frame }

unfoldable pub is_frame_free : Frames → ℕ → Option Bool
is_frame_free m n = do frame ← get_elem? m.bitmap n; some frame.is_free

-- A write through the pointer that list_get gives.
unfoldable pub update_frame : Frames → ℕ → (Frame → Frame) → Option Frames
update_frame m n f = do
  frame ← get_elem? m.bitmap n
  some (record m { bitmap = set m.bitmap n (f frame) })

unfoldable pub fill_frame : Frames → ℕ → Option Frames
unfolding update_frame
fill_frame m n = update_frame m n (λ f. record f { used = 1; is_free = false })

unfoldable pub free_frame : Frames → ℕ → Option Frames
unfolding update_frame
free_frame m n = update_frame m n (λ f. record f { used = 0; is_free = true })

-- The loop of searchFreeFrame: the rounds left, and the index.
unfoldable pub search_from : Frames → ℕ → ℕ → Option ℤ
search_from m zero i = some (negsuc 0)
search_from m (suc rounds) i = do
  frame ← get_elem? m.bitmap i
  let next = search_from m rounds (i + 1)
  if frame.is_free then some (pos i) else next

unfoldable pub search_free_frame : Frames → Option ℤ
search_free_frame m = search_from m m.cant_frames 0

-- The test `freeFrame == -1`.
abbrev pub is_minus_one : ℤ → Bool
is_minus_one (pos n) = false
is_minus_one (negsuc n) = n == 0

unfoldable pub any_free_frame : Frames → Option Bool
any_free_frame m = do free ← search_free_frame m; some (if is_minus_one free then false else true)

-- The offset of a frame in MAIN_MEMORY.
unfoldable pub frame_pos : ℕ → ℕ → ℕ
frame_pos tamanio_pagina frame = tamanio_pagina * frame
