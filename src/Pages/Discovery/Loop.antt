-- ===== src/Pages/Discovery/Loop.antt =====
-- `fetchAllTracks`: the loop over the pages of the catalog, and that it ends with all of them.
use mc_service.Prelude.{
  ℕ, zero, suc, ◌+◌, ◌≤◌, ◌≡◌, Option, none, some, List, [], ◌++◌, Bool, length, leb, if◌then◌else◌,
}
use mc_service.Prelude.Int.{ℤ, pos, negsuc}
use mc_service.Session.State.{Failure, Result, ok, raise, World, M}
use mc_service.Catalog.Types.{Track, PaginatedResponse}

-- What the page shows of the loop: the tracks so far, and their total.
pub record Progress : Type 0 where
  pub tracks_loaded : ℕ
  pub tracks_total : Option ℤ

-- `Math.max(total_pages || 1, page)`, for a page from 1 on.
unfoldable pub last_page : ℤ → ℕ → ℕ
last_page (pos n) page = if leb page n then n else page
last_page (negsuc n) page = page

abbrev Outcome : Type 0
Outcome = Result (List Track) × Progress × World

abbrev pub before : List Track → Result (List Track) → Result (List Track)
before tracks (ok others) = ok (tracks ++ others)
before tracks (raise e) = raise e

-- `fetch` is the call for one page, and `shows` whether progress is shown: the page is not gone.
module _ (fetch : ℕ → M (PaginatedResponse Track)) (shows : Bool) where
  abbrev noted : ℕ → ℤ → Progress → Progress
  noted loaded total progress =
      if shows then record { tracks_loaded = loaded; tracks_total = some total } else progress

  -- Behind the reply for a page; `rest` is the next turn of the loop.
  abbrev pub page_fetched :
      ℕ
      → List Track
      → Progress
      → (List Track → Progress → World → Option Outcome)
      → Result (PaginatedResponse Track) × World
      → Option Outcome
  page_fetched page tracks progress rest (raise e, w) = some (raise e, progress, w)
  page_fetched page tracks progress rest (ok r, w) =
      let all_tracks = tracks ++ r.items in
      let shown = noted (length all_tracks) r.total progress in
      if leb (page + 1) (last_page r.total_pages page)
      then rest all_tracks shown w
      else some (ok all_tracks, shown, w)

  -- The loop from a page on; `none` is the want of fuel.
  unfoldable pub fetch_pages : ℕ → ℕ → List Track → Progress → World → Option Outcome
  unfolding last_page
  fetch_pages zero page tracks progress w = none
  fetch_pages (suc fuel) page tracks progress w =
      let rest = fetch_pages fuel (page + 1) in
      page_fetched page tracks progress rest (fetch page w)

  -- The pages, one by one: they end behind the first page that is the last by its own reply, or with
  -- the first failure.
  pub data Pages : ℕ → World → Result (List Track) → World → Type 0 where
    failed :
        (page : ℕ) (w v : World) (e : Failure)
        → fetch page w ≡ (raise e, v)
        → Pages page w (raise e) v
    last :
        (page : ℕ) (w v : World) (r : PaginatedResponse Track)
        → fetch page w ≡ (ok r, v)
        → last_page r.total_pages page ≤ page
        → Pages page w (ok r.items) v
    more :
        (page : ℕ) (w v u : World) (r : PaginatedResponse Track) (result : Result (List Track))
        → fetch page w ≡ (ok r, v)
        → page + 1 ≤ last_page r.total_pages page
        → Pages (page + 1) v result u
        → Pages page w (before r.items result) u

  -- No reply tells of more pages than these.
  abbrev pub AreAtMost : ℕ → Type 0
  AreAtMost n =
      (page : ℕ) (w v : World) (r : PaginatedResponse Track)
      → fetch page w ≡ (ok r, v)
      → last_page r.total_pages 0 ≤ n

  -- The loop has ended with the tracks of all pages from one on.
  pub record IsDone (page : ℕ) (w : World) (tracks : List Track) (o : Option Outcome) : Type 0 where
    pub result : Result (List Track)
    pub progress : Progress
    pub world : World
    pub ended : o ≡ some (before tracks result, progress, world)
    pub pages : Pages page w result world

  -- `fetchAllTracks` from the first page, with an empty list.
  unfoldable pub fetch_all_tracks : ℕ → Progress → World → Option Outcome
  fetch_all_tracks fuel progress w = fetch_pages fuel 1 [] progress w
