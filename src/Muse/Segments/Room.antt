-- ===== src/Muse/Segments/Room.antt =====
-- searchSegmentWithSizeAvailable gives the first segment with room.
use locomatch.Prelude.{
  ◌≡◌, ◌⊎◌, inl, inr, refl, ap, true, false, List, [], ◌∷◌, ◌++◌, none, some, Bool-cases,
}
use locomatch.Prelude.Int.{ℤ, leb_ℤ}
use locomatch.Muse.Segments.{HeapList, Segment, has_room, search_segment_with_size_available}

module _ (tam : ℤ) where
  -- A free heap of at least this size is among them.
  pub data HasRoom : List HeapList → Type 0 where
    here :
        {heap : HeapList} {heaps : List HeapList}
        → heap.is_free ≡ true
        → leb_ℤ tam heap.size ≡ true
        → HasRoom (heap ∷ heaps)
    there : {heap : HeapList} {heaps : List HeapList} → HasRoom heaps → HasRoom (heap ∷ heaps)

  -- Every heap is in use or too small.
  abbrev pub AllTaken : List HeapList → Type 0
  AllTaken [] = Unit {0}
  AllTaken (heap ∷ heaps) =
      ((heap.is_free ≡ false) ⊎ (leb_ℤ tam heap.size ≡ false)) × AllTaken heaps

  abbrev Cases : List HeapList → Type 0
  Cases heaps =
      (HasRoom heaps × (has_room heaps tam ≡ true))
      ⊎ (AllTaken heaps × (has_room heaps tam ≡ false))

  has_room-Cases : (heaps : List HeapList) → Cases heaps
  unfolding has_room
  has_room-Cases [] = inr (tt, refl)
  has_room-Cases (heap ∷ heaps) = elim (Bool-cases heap.is_free) [
    | inr used ↦ later (inl used) (rw (has_room, used) refl) (has_room-Cases heaps)
    | inl free ↦ elim (Bool-cases (leb_ℤ tam heap.size)) [
      | inl large ↦ inl (here free large, rw (has_room, free, large) refl)
      | inr small ↦ later (inr small) (rw (has_room, free, small) refl) (has_room-Cases heaps)
    ]
  ]
    where
      later :
          ((heap.is_free ≡ false) ⊎ (leb_ℤ tam heap.size ≡ false))
          → has_room (heap ∷ heaps) tam ≡ has_room heaps tam
          → Cases heaps
          → Cases (heap ∷ heaps)
      later why e (inl (found, yes')) = inl (there found, rw e yes')
      later why e (inr (all, no')) = inr ((why, all), rw e no')

  abbrev pub AllFull : List Segment → Type 0
  AllFull [] = Unit {0}
  AllFull (segment ∷ segments) = AllTaken segment.metadatas × AllFull segments

  -- searchSegmentWithSizeAvailable gives a segment that has a free heap of at least the size, such
  -- that every heap of each segment in front of it is in use or too small, or NULL when that holds
  -- of every segment.
  pub search_segment_first_fit :
      (segments : List Segment)
      → ((front : List Segment) × (segment : Segment) × (back : List Segment) × (segments
            ≡ front ++ segment ∷ back)
          × AllFull front
          × HasRoom segment.metadatas
          × (search_segment_with_size_available segments tam ≡ some segment))
        ⊎ (AllFull segments × (search_segment_with_size_available segments tam ≡ none))
  unfolding search_segment_with_size_available
  search_segment_first_fit [] = inr (tt, refl)
  search_segment_first_fit (segment ∷ segments) = elim (has_room-Cases segment.metadatas) [
    | inl (found, yes') ↦
        inl (
          [],
          segment,
          segments,
          refl,
          tt,
          found,
          rw (search_segment_with_size_available, yes') refl,
        )
    | inr (all, no') ↦ elim (search_segment_first_fit segments) [
      | inl (front, chosen, back, e, full, found, r) ↦ inl (
        segment ∷ front,
        chosen,
        back,
        ap (λ (l : List Segment). segment ∷ l) e,
        (all, full),
        found,
        rw (search_segment_with_size_available, no') r,
      )
      | inr (full, r) ↦ inr ((all, full), rw (search_segment_with_size_available, no') r)
    ]
  ]
