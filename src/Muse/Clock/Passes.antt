-- ===== src/Muse/Clock/Passes.antt =====
-- The four passes of clockModif.
use locomatch.Prelude.{
  ℕ, zero, suc, Bool, Option, none, some, get_elem?, set, ◌==◌, ◌&&◌, if◌then◌else◌,
}
use locomatch.Prelude.Int.{ℤ, pos, negsuc}
use locomatch.Prelude.Maybe.{◌>>=◌}
use locomatch.Muse.Frames.{Frame, Frames}
use locomatch.Muse.Clock.Ring.{next}

unfoldable pub increase_clock_pointer : Frames → Frames
increase_clock_pointer m = record m { clock_pointer = next m.cant_frames m.clock_pointer }

-- U = 0 and M = 0.
abbrev pub clean : Frame → Bool
clean f = f.used == 0 && f.modif == 0

-- U = 0 and M = 1.
abbrev pub dirty : Frame → Bool
dirty f = f.used == 0 && f.modif == 1

-- A pass that looks for the first frame with these bits: the rounds left.
unfoldable pub search_pass : (Frame → Bool) → ℕ → Frames → Option (Option ℕ × Frames)
search_pass test zero m = some (none, m)
search_pass test (suc rounds) m = do
  frame ← get_elem? m.bitmap m.clock_pointer
  let rest = search_pass test rounds (increase_clock_pointer m)
  if test frame then some (some m.clock_pointer, increase_clock_pointer m) else rest

-- `frame->used = 0` for the frame under the pointer.
unfoldable pub clear_used : Frame → Frames → Frames
clear_used frame m = record m { bitmap = set m.bitmap m.clock_pointer (record frame { used = 0 }) }

-- The second pass, which clears the use bits on its way.
unfoldable pub clear_pass : ℕ → Frames → Option (Option ℕ × Frames)
clear_pass zero m = some (none, m)
clear_pass (suc rounds) m = do
  frame ← get_elem? m.bitmap m.clock_pointer
  let rest = clear_pass rounds (increase_clock_pointer (clear_used frame m))
  if dirty frame then some (some m.clock_pointer, increase_clock_pointer m) else rest

-- `return result` out of a pass, or the code behind it.
abbrev pub or_then : Option ℕ × Frames → (Frames → Option (ℤ × Frames)) → Option (ℤ × Frames)
or_then (some result, m) rest = some (pos result, m)
or_then (none, m) rest = rest m

unfoldable pub clock_modif : Frames → Option (ℤ × Frames)
clock_modif m = do
  first ← search_pass clean m.cant_frames m
  or_then first λ m₁. do
    second ← clear_pass m₁.cant_frames m₁
    or_then second λ m₂. do
      third ← search_pass clean m₂.cant_frames m₂
      or_then third λ m₃. do
        fourth ← search_pass dirty m₃.cant_frames m₃
        or_then fourth λ m₄. some (negsuc 0, m₄)
