-- ===== src/Tests/Pages.antt =====
-- The pages of the player at small servers.
use mc_service.Prelude.{
  ℕ, ◌≡◌, refl, String, none, some, [], ◌∷◌, true, false, if◌then◌else◌, str_eq,
}
use mc_service.Prelude.Int.{pos}
use mc_service.Json.{str, obj, field, end}
use mc_service.Platform.{Platform}
use mc_service.Session.State.{Result, ok, raise, World, Server, M}
use mc_service.Session.Auth.{initial}
use mc_service.Session.Client.{api_delete, request, send, fetch, finish}
use mc_service.Catalog.Types.{Track, PaginatedResponse}
use mc_service.Pages.Profile.Legal.{IsShowable, fetch_legal_docs, fetch_legal_docs-IsShowable}
use mc_service.Pages.Profile.Defs.{delete_account}
use mc_service.Pages.Profile.State.{ProfilePage, opened, told, error}
use mc_service.Pages.Profile.Deletion.{delete_account-no_body}
use mc_service.Pages.Discovery.Loop.{Progress, last_page, fetch_pages, fetch_all_tracks}
use mc_service.Pages.Home.Popular.{local_ranking}
use mc_service.Pages.Home.Counts.{IsRanking, local_ranking-IsRanking}

abbrev browser : Platform
browser = record {
  has_window = true;
  accepts = λ _ _ _. true;
  parse = λ _. none;
  stringify = λ _. "";
  atob = λ _. none;
  to_number = λ _. none;
}

abbrev signed_in : World
signed_in = initial (some "t") []

-- A server that has no settings but documents under the second path, takes no password, and answers
-- a deletion with 204.
abbrev server : Server
server [] = none
server (req ∷ _) =
    if str_eq req.path "/settings/public/legal"
    then some (record { status = 200; content = some (obj (field "tos" (str " Be kind. ") end)) })
    else if str_eq req.method "DELETE"
    then some (record { status = 204; content = none })
    else some (record { status = 404; content = none })

fetch_legal_docs-IsShowable_example : IsShowable (fetch_legal_docs browser server signed_in)
fetch_legal_docs-IsShowable_example = fetch_legal_docs-IsShowable browser server signed_in

abbrev page : ProfilePage
page = record (opened signed_in) {
  password_form = record { current_password = "a"; new_password = "b"; confirm_password = "b" };
}

abbrev deleted : World
deleted = (api_delete browser server "/users/me" signed_in).1

delete_account-no_body_example : delete_account browser server (some "DELETE") page signed_in ≡ (
  record page {
    account_status = told error "Delete account endpoint is not available on this server yet.";
  },
  deleted,
)
unfolding api_delete request send fetch finish initial opened
delete_account-no_body_example =
    delete_account-no_body browser server page signed_in deleted refl refl

abbrev track : String → Track
track id = record {
  id = id;
  title = id;
  artist_id = "";
  artist_name = "";
  album_id = "";
  album_title = "";
  duration_secs = pos 0;
  track_number = pos 0;
  disc_number = pos 0;
  genre = "";
  year = pos 0;
  artwork_url = "";
  created_at = "";
  metadata_json = "";
  manually_edited = false;
}

-- Pages of one track each, three of them.
abbrev pages : ℕ → M (PaginatedResponse Track)
pages n w = (
  ok (record {
    items = track "x" ∷ [];
    total = pos 3;
    page = pos n;
    page_size = pos 1;
    total_pages = pos 3;
  }),
  w,
)

abbrev pages_of : Result (PaginatedResponse Track) × World → ℕ
pages_of (ok r, w) = last_page r.total_pages 0
pages_of (raise e, w) = 0

abbrev no_progress : Progress
no_progress = record { tracks_loaded = 0; tracks_total = none }

three_loaded :
    fetch_all_tracks pages true 4 no_progress signed_in
    ≡ some (
      ok (track "x" ∷ track "x" ∷ track "x" ∷ []),
      record { tracks_loaded = 3; tracks_total = some (pos 3) },
      signed_in,
    )
unfolding fetch_all_tracks fetch_pages last_page
three_loaded = refl

local_ranking-IsRanking_example :
    IsRanking
      ("a" ∷ "b" ∷ [])
      ("b" ∷ "c" ∷ "a" ∷ "b" ∷ [])
      (local_ranking ("a" ∷ "b" ∷ []) ("b" ∷ "c" ∷ "a" ∷ "b" ∷ []))
local_ranking-IsRanking_example =
    local_ranking-IsRanking ("a" ∷ "b" ∷ []) ("b" ∷ "c" ∷ "a" ∷ "b" ∷ [])
