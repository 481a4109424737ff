-- ===== src/Lib.antt =====
-- The web player of the music service: models of its stores, of the API client that they share, of
-- the catalog, playlist and service calls over it, and of the pages of the player and of its
-- administration, with the properties that make them correct.
--
-- Parts, and the files that model them. Paths of the program are from the repository's root.
--
--   Player      web/apps/player/src/stores/player.ts: queue, transport, history and its stored copy
--   PlayerBar   web/apps/player/src/components/layout/PlayerBar.tsx: audio element, stream loading, mute
--   Session     web/packages/shared/src/api/client.ts, api/auth.ts, stores/auth.ts: requests with one
--               refresh, the end of a session, sign-in, restore
--   Catalog     web/packages/shared/src/api/catalog.ts: tracks, albums, artists with their names
--   Playlists   web/packages/shared/src/api/playlists.ts
--   Services    web/packages/shared/src/api/ingestion.ts, stream.ts, settings.ts, admin.ts
--   Library     web/apps/player/src/lib/library.ts: the playlist of favorites, recently added tracks
--   Curation    web/apps/player/src/lib/curation.ts: the curated playlists of the home page
--   Clock       web/apps/player/src/lib/format.ts: clock texts, by their code points
--   Artwork     web/apps/player/src/lib/artwork.ts: the gradient that stands in for a cover
--   QuickAdd    web/apps/player/src/hooks/useLibraryQuickAdd.ts: saves at a click, as a step relation
--   Notifications  web/apps/player/src/stores/notifications.ts
--   Pages       web/apps/player/src/pages; the dialog, menu and sidebar of src/components: Profile, Home,
--               Discovery, Artist, PlaylistDetail, LibraryList, PlaylistList, AddToPlaylist, Sidebar,
--               TrackActions, Entry (sign-in, registration, and the guard of src/App.tsx);
--               Attempts and Cards hold what pages share
--   Admin       web/apps/admin/src/pages: Login (with the guards of src/App.tsx), Users, Settings,
--               SystemConfig, Scan, Metadata
--   Ui          web/apps/player/src/stores/ui.ts: accent theme, locale, density
--   Json, Platform, Sorting, Prelude  what the language and the browser provide
--
-- How they interact. Catalog, Playlists, Services and the sign-in of Session call `request` of
-- Session.Client; a 401 there ends the session through the handler that the auth store sets.
-- Library calls Playlists, QuickAdd stands around Library, and PlayerBar drives Player and is
-- driven by it. A page of Pages or Admin is a record of what React keeps for it; its handlers and
-- effects go from the page and the session's world to the next ones.
--
-- Names are those of the source in snake case: `pushRecentlyPlayed` is push_recently_played. A
-- method of a store is a function from the store's state to the next one; the state holds the
-- browser's storage where the method writes it. A call that may fail is a function of the monad M
-- of Session.State, which hands on the session's world and ends with a value or an exception. The
-- server is a function from the log of all requests so far to a reply, or none where the network
-- fails, and is a parameter everywhere, as the browser is (Platform: JSON codec, atob, the quota
-- of localStorage, whether there is a window). `Date.parse` and `localeCompare` are parameters
-- too. The two halves of an asynchronous function around its `await` are two functions where other
-- code may run in between (QuickAdd, PlayerBar, Admin.Users; Session.Flight for requests that
-- share one refresh, where a reply arrives with its body); elsewhere an asynchronous function runs
-- without another one in between, and the calls that Promise.all starts run in the order of the
-- array.
--
-- Numbers. Seconds and the volume are whole thousandths; numbers of replies are whole;
-- `Math.random()` is a numerator over 2^53. The cast of a parsed reply to a TypeScript type is a
-- parameter (Views, CatalogViews, ServiceViews), since nothing checks it. `trim` knows the white
-- space of the language; `toLowerCase` is the ASCII one where a name is compared with a fixed one,
-- which is exact, and a parameter in searches. Whether a page is left while a load runs
-- (`cancelled`) and the answers of `confirm` and `prompt` are arguments. The hash of Artwork wraps
-- to 32 bits. Numbers are whole and exact: the program's doubles are so up to 2^53, and the text
-- of a number is exact up to there; the models print 21 digits at most, since longer texts get an
-- exponent. Fuel is used in one place, the loop over the pages of the catalog
-- (Pages.Discovery.Loop), whose length the server decides: one more than the number of pages that
-- its replies tell of is enough. `request` repeats itself once, which is two functions, and all
-- else is recursion on lists.
--
-- Not modelled: the markup of the pages and components, dates and times in the locale, the style
-- properties that a theme is turned into, the pages of the administration that only show, and the
-- services behind the API (in Rust), whose code is not called but over the network.
pub mod Prelude
pub mod Json
pub mod Platform
pub mod Sorting
pub mod Playlists
pub mod Library
pub mod Notifications
pub mod Artwork
pub mod Catalog
pub mod Clock
pub mod Admin
pub mod Pages
pub mod Curation
pub mod QuickAdd
pub mod Services
pub mod Ui
pub mod Player
pub mod PlayerBar
pub mod Session
mod Tests
