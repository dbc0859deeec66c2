-- ===== src/Muse/Segments/Searched.antt =====
-- What searchPageFromFrame comes to, by the clients that its keys lead to.
use locomatch.Prelude.{
  ℕ, zero, suc, ◌+◌, ◌≤◌, ◌<◌, ◌≡◌, inl, inr, refl, List, Option, none, some, arith, Bool-cases,
  Option-cases, ltb, ltb→lt, ltb→le, subst,
}
use locomatch.Prelude.Int.{ℤ}
use locomatch.Muse.Segments.{
  Page, Segment, SegmentTable, search_segments, or_next, search_clients, search_page_from_frame,
}

module _ (table : SegmentTable) (n_frame : ℤ) where
  -- The key of the round leads to a client without a page in the frame.
  pub record IsPassed (i : ℕ) : Type 0 where
    pub segments : List Segment
    pub there : table.dictionary_get (table.clave i) ≡ some segments
    pub without : search_segments n_frame segments ≡ none

  -- The search stops in a round: every round in front of it is passed.
  pub record IsStopped (from i : ℕ) : Type 0 where
    pub reached : from ≤ i
    pub inside : i < table.dictionary_size
    pub passed : (j : ℕ) → from ≤ j → j < i → IsPassed j

  -- Its key is no client's.
  abbrev pub IsUnknown : ℕ → Type 0
  IsUnknown i = table.dictionary_get (table.clave i) ≡ none

  -- It finds a page of the client's.
  abbrev pub HasPage : ℕ → Page → Type 0
  HasPage i page =
      (segments : List Segment) × (table.dictionary_get (table.clave i) ≡ some segments)
      × (search_segments n_frame segments ≡ some page)

  -- The search gives a page, or NULL at the end, or reads NULL at an unknown key.
  pub data Searched (from : ℕ) : Option (Option Page) → Type 0 where
    page_found :
        (i : ℕ) (page : Page) → IsStopped from i → HasPage i page → Searched from (some (some page))
    nowhere :
        ((j : ℕ) → from ≤ j → j < table.dictionary_size → IsPassed j) → Searched from (some none)
    unknown : (i : ℕ) → IsStopped from i → IsUnknown i → Searched from none

  widen :
      (i k : ℕ)
      → IsPassed i
      → ((j : ℕ) → i + 1 ≤ j → j < k → IsPassed j)
      → (j : ℕ) → i ≤ j
      → j < k
      → IsPassed j
  widen i k here later j h b = elim (Bool-cases (ltb i j)) [
    | inl above ↦ later j (omega (arith, ltb→lt i j above)) b
    | inr below ↦ let same : i ≡ j = omega (arith, h, ltb→le i j below) in subst IsPassed same here
  ]

  IsStopped-widen : (i k : ℕ) → IsPassed i → IsStopped (i + 1) k → IsStopped i k
  IsStopped-widen i k here s = record {
    reached = omega (arith, s.reached);
    inside = s.inside;
    passed = widen i k here s.passed;
  }

  Searched-widen :
      (i : ℕ) (r : Option (Option Page)) → IsPassed i → Searched (i + 1) r → Searched i r
  Searched-widen i _ here (page_found k page s h) = page_found k page (IsStopped-widen i k here s) h
  Searched-widen i _ here (nowhere all) = nowhere (widen i table.dictionary_size here all)
  Searched-widen i _ here (unknown k s h) = unknown k (IsStopped-widen i k here s) h

  IsStopped-here : (i : ℕ) → i < table.dictionary_size → IsStopped i i
  IsStopped-here i h = record {
    reached = omega arith;
    inside = h;
    passed = λ j a b. absurd (omega (arith, a, b));
  }

  -- A round at a client's key, by what is found among its pages.
  by_page :
      (i : ℕ) (segments : List Segment) (page : Option Page) (r : Option (Option Page))
      → search_segments n_frame segments ≡ page
      → table.dictionary_get (table.clave i) ≡ some segments
      → i < table.dictionary_size
      → Searched (i + 1) r
      → Searched i (or_next page r)
  by_page i segments (some page) r has there h later =
      page_found i page (IsStopped-here i h) (segments, there, has)
  by_page i segments none r without there h later =
      Searched-widen i r (record { segments = segments; there = there; without = without }) later

  search_clients-Searched :
      (rounds i : ℕ)
      → rounds + i ≡ table.dictionary_size
      → Searched i (search_clients table n_frame rounds i)
  unfolding search_clients
  search_clients-Searched zero i h = nowhere (λ j a b. absurd (omega (arith, h, a, b)))
  search_clients-Searched (suc rounds) i h =
      elim (Option-cases (table.dictionary_get (table.clave i))) [
        | inl gone ↦ rw gone (unknown i (IsStopped-here i (omega (arith, h))) gone)
        | inr (segments, there) ↦ rw there (
            by_page i segments (search_segments n_frame segments) _ refl there (omega (arith, h))
              (search_clients-Searched rounds (i + 1) (omega (arith, h))))
      ]

  pub search_page_from_frame-Searched : Searched 0 (search_page_from_frame table n_frame)
  unfolding search_page_from_frame
  search_page_from_frame-Searched = search_clients-Searched table.dictionary_size 0 (omega arith)
