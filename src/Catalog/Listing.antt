-- ===== src/Catalog/Listing.antt =====
-- `listTracks` and `listAlbums`: a page comes whole, with the best names that are known.
use mc_service.Prelude.{
  ℕ, ◌+◌, ◌*◌, ◌≤◌, String, ◌≡◌, ◌∙◌, refl, subst, Option, none, some, List, [], ◌∷◌, Bool, arith,
  length, All, map, if_holds,
}
use mc_service.Json.{Json}
use mc_service.Platform.{Platform}
use mc_service.Session.State.{ok, World, Server, M, ◌>>=◌}
use mc_service.Session.Outcome.{EndsIn, return-EndsIn, bind-EndsIn, EndsIn-weaken}
use mc_service.Catalog.Types.{ApiTrack, ApiAlbum, ApiArtist, TrackMetadata, Track, CatalogViews}
use mc_service.Catalog.Lookup.{
  no_metadata, get_entry, artist_path, album_path, fetch_artists_by_id, fetch_albums_by_id,
}
use mc_service.Catalog.Operations.{
  resolve_tracks, missing_ids, fetch_some, lacks_artist, lacks_album, complete_tracks,
}
use mc_service.Catalog.Fetching.{Sought, done, fetch_by_id-EndsIn}
use mc_service.Catalog.Names.{
  IsNamed, named_track, named_track-IsNamed, resolve_track-named_track, IsEntry, get_entry-IsEntry,
  LacksArtist, LacksAlbum, Decides, artist-Decides, album-Decides,
}

-- The metadata are no null.
abbrev pub IsReadable : Option TrackMetadata → Type 0
IsReadable metadata = (m : TrackMetadata) × (metadata ≡ some m)

abbrev pub known : Option TrackMetadata → TrackMetadata
known none = no_metadata
known (some m) = m

abbrev AllReadable : List (ApiTrack × Option TrackMetadata) → Type 0
AllReadable = All (λ p. IsReadable p.1)

-- Track by track, in order, with the names that the maps and the metadata give.
abbrev pub AreNamedBy :
    List (String × ApiArtist)
    → List (String × ApiAlbum)
    → List (ApiTrack × Option TrackMetadata)
    → List Track
    → Type 0
AreNamedBy artists albums [] [] = Unit {0}
AreNamedBy artists albums [] (t ∷ ts) = ⊥
AreNamedBy artists albums (p ∷ ps) [] = ⊥
AreNamedBy artists albums (p ∷ ps) (t ∷ ts) =
    ((artist : Option ApiArtist) × (album : Option ApiAlbum) × IsEntry p.0.artist_id artists artist
      × IsEntry p.0.album_id albums album
      × IsNamed p.0 (known p.1) artist album t)
    × AreNamedBy artists albums ps ts

abbrev named_tracks :
    List (String × ApiArtist)
    → List (String × ApiAlbum)
    → List (ApiTrack × Option TrackMetadata)
    → List Track
named_tracks artists albums = map (λ p.
    named_track p.0 (known p.1) (get_entry p.0.artist_id artists) (get_entry p.0.album_id albums))

named_tracks-AreNamedBy :
    (artists : List (String × ApiArtist)) (albums : List (String × ApiAlbum))
    (ps : List (ApiTrack × Option TrackMetadata))
    → AreNamedBy artists albums ps (named_tracks artists albums ps)
named_tracks-AreNamedBy artists albums [] = tt
named_tracks-AreNamedBy artists albums ((track, metadata) ∷ ps) =
    let artist = get_entry track.artist_id artists in
    let album = get_entry track.album_id albums in
    (
      (
        artist,
        album,
        get_entry-IsEntry track.artist_id artists,
        get_entry-IsEntry track.album_id albums,
        named_track-IsNamed track (known metadata) artist album,
      ),
      named_tracks-AreNamedBy artists albums ps,
    )

resolve_tracks-named_tracks :
    (artists : List (String × ApiArtist)) (albums : List (String × ApiAlbum))
    (ps : List (ApiTrack × Option TrackMetadata)) (w : World)
    → AllReadable ps
    → resolve_tracks artists albums ps w ≡ (ok (named_tracks artists albums ps), w)
unfolding resolve_tracks
resolve_tracks-named_tracks artists albums [] w h = refl
resolve_tracks-named_tracks artists albums ((track, metadata) ∷ ps) w ((m, e), h) = rw (
  e,
  resolve_track-named_track track m (get_entry track.artist_id artists)
      (get_entry track.album_id albums) w,
  resolve_tracks-named_tracks artists albums ps w h,
)

-- The ids of the tracks, in order, whose metadata lack something.
pub data AreWanted (P : TrackMetadata → Type 0) (id_of : ApiTrack → String)
    : List (ApiTrack × Option TrackMetadata) → List String → Type 0 where
  no_more : AreWanted P id_of [] []
  wanted :
      (track : ApiTrack) (m : TrackMetadata) (ps : List (ApiTrack × Option TrackMetadata))
      (ids : List String)
      → P m
      → AreWanted P id_of ps ids
      → AreWanted P id_of ((track, some m) ∷ ps) (id_of track ∷ ids)
  unwanted :
      (track : ApiTrack) (m : TrackMetadata) (ps : List (ApiTrack × Option TrackMetadata))
      (ids : List String)
      → ¬ P m
      → AreWanted P id_of ps ids
      → AreWanted P id_of ((track, some m) ∷ ps) ids

abbrev IsList :
    (TrackMetadata → Type 0)
    → (ApiTrack → String)
    → List (ApiTrack × Option TrackMetadata)
    → World
    → List String
    → World
    → Type 0
IsList P id_of ps w ids w' = AreWanted P id_of ps ids × (length ids ≤ length ps) × (w' ≡ w)

missing_ids-EndsIn :
    (test : TrackMetadata → Bool) (P : TrackMetadata → Type 0) (id_of : ApiTrack → String)
    (ps : List (ApiTrack × Option TrackMetadata)) (w : World)
    → Decides test P
    → AllReadable ps
    → EndsIn (IsList P id_of ps w) 0 w (missing_ids test id_of ps w)
unfolding missing_ids
missing_ids-EndsIn test P id_of [] w d h = return-EndsIn _ [] w (no_more, omega arith, refl)
missing_ids-EndsIn test P id_of ((track, none) ∷ ps) w d ((m, e), h) = absurd (no_metadata_of m e)
  where
    no_metadata_of : (m : TrackMetadata) → ◌≡◌ {A = Option TrackMetadata} none (some m) → ⊥
    no_metadata_of m e = cc
missing_ids-EndsIn test P id_of ((track, some metadata) ∷ ps) w d (m, h) =
    bind-EndsIn (IsList P id_of ps w) (IsList P id_of ((track, some metadata) ∷ ps) w) 0 0 w _ _
      (missing_ids-EndsIn test P id_of ps w d h)
      (λ ids w' (are, le, same). return-EndsIn _ _ w' (
        if_holds (λ is. IsList P id_of ((track, some metadata) ∷ ps) w is w') (test metadata) _ _
          (λ yes. (wanted track metadata ps ids (d.holds metadata yes) are, omega arith, same))
          (λ no. (unwanted track metadata ps ids (d.fails metadata no) are, omega arith, same))))

module _ (views : CatalogViews) (browser : Platform) (server : Server) where
  abbrev pub AreArtists : List String → World → List (String × ApiArtist) → World → Type 0
  AreArtists = Sought browser server views.artist artist_path

  abbrev pub AreAlbums : List String → World → List (String × ApiAlbum) → World → Type 0
  AreAlbums = Sought browser server views.album album_path

  pub artists-EndsIn :
      (ids : List String) (w : World)
      → EndsIn
          (AreArtists ids w)
          (3 * length ids)
          w
          (fetch_artists_by_id browser server views ids w)
  unfolding fetch_artists_by_id
  artists-EndsIn ids w = fetch_by_id-EndsIn browser server views.artist artist_path ids w

  albums-EndsIn :
      (ids : List String) (w : World)
      → EndsIn (AreAlbums ids w) (3 * length ids) w (fetch_albums_by_id browser server views ids w)
  unfolding fetch_albums_by_id
  albums-EndsIn ids w = fetch_by_id-EndsIn browser server views.album album_path ids w

  nothing-Sought :
      {A : Type 0} (view : Json → A) (path_of : String → String) (w : World)
      → Sought browser server view path_of [] w [] w
  nothing-Sought view path_of w = record {
    us = [];
    once = record { distinct = tt; filled = tt; given = tt; all_there = tt };
    fetched = done w;
  }

  fetch_some-EndsIn :
      {A : Type 0} (view : Json → A) (path_of : String → String)
      (fetch : List String → M (List (String × A))) (n : ℕ) (ids : List String) (w : World)
      → length ids ≤ n
      → EndsIn (Sought browser server view path_of ids w) (3 * length ids) w (fetch ids w)
      → EndsIn (Sought browser server view path_of ids w) (3 * n) w (fetch_some fetch ids w)
  fetch_some-EndsIn view path_of fetch n [] w le h =
      EndsIn-weaken _ _ 0 _ w _ (λ a w' x. x) (omega arith)
        (return-EndsIn (Sought browser server view path_of [] w) [] w
          (nothing-Sought view path_of w))
  fetch_some-EndsIn view path_of fetch n (id ∷ ids) w le h =
      EndsIn-weaken _ _ (3 * length (id ∷ ids)) _ w _ (λ a w' x. x) (omega arith) h

  -- The artists of the tracks without an artist in their metadata are looked up, then the albums of
  -- those without the name or the artwork of one; the tracks have the names of what was found.
  pub record AreNamed (ps : List (ApiTrack × Option TrackMetadata)) (w : World) (ts : List Track)
      (w' : World) : Type 0 where
    pub artist_ids : List String
    pub album_ids : List String
    pub wanted_artists : AreWanted LacksArtist (λ t. t.artist_id) ps artist_ids
    pub wanted_albums : AreWanted LacksAlbum (λ t. t.album_id) ps album_ids
    pub artists : List (String × ApiArtist)
    pub albums : List (String × ApiAlbum)
    pub between : World
    pub are_artists : AreArtists artist_ids w artists between
    pub are_albums : AreAlbums album_ids between albums w'
    pub named : AreNamedBy artists albums ps ts

  pub complete_tracks-EndsIn :
      (ps : List (ApiTrack × Option TrackMetadata)) (w : World)
      → AllReadable ps
      → EndsIn (AreNamed ps w) (6 * length ps) w (complete_tracks views browser server ps w)
  unfolding complete_tracks
  complete_tracks-EndsIn ps w h =
      EndsIn-weaken _ _ (0 + (0 + (3 * length ps + (3 * length ps + 0)))) _ w _ (λ a w' x. x)
        (omega arith)
        (bind-EndsIn (IsList LacksArtist (λ t. t.artist_id) ps w) (AreNamed ps w) 0 _ w _ _
          (missing_ids-EndsIn lacks_artist LacksArtist (λ t. t.artist_id) ps w artist-Decides h)
          (λ cs w1 (cs_are, le1, same1).
            bind-EndsIn (IsList LacksAlbum (λ t. t.album_id) ps w1) (AreNamed ps w) 0 _ w1 _ _
              (missing_ids-EndsIn lacks_album LacksAlbum (λ t. t.album_id) ps w1 album-Decides h)
              (λ bs w2 (bs_are, le2, same2).
                bind-EndsIn (AreArtists cs w2) (AreNamed ps w) (3 * length ps) _ w2 _
                  (λ artists. fetch_some (fetch_albums_by_id browser server views) bs >>= λ albums.
                    resolve_tracks artists albums ps)
                  (fetch_some-EndsIn views.artist artist_path
                    (fetch_artists_by_id browser server views) (length ps) cs w2 le1
                    (artists-EndsIn cs w2))
                  (λ artists w3 a.
                    bind-EndsIn (AreAlbums bs w3) (AreNamed ps w) (3 * length ps) 0 w3 _
                      (λ albums. resolve_tracks artists albums ps)
                      (fetch_some-EndsIn views.album album_path
                        (fetch_albums_by_id browser server views) (length ps) bs w3 le2
                        (albums-EndsIn bs w3))
                      (λ albums w4 b. rw (resolve_tracks-named_tracks artists albums ps w4 h) (
                        return-EndsIn (AreNamed ps w) _ w4 (record {
                          artist_ids = cs;
                          album_ids = bs;
                          wanted_artists = cs_are;
                          wanted_albums = bs_are;
                          artists = artists;
                          albums = albums;
                          between = w3;
                          are_artists = subst (λ v. AreArtists cs v artists w3) (same2 ∙ same1) a;
                          are_albums = b;
                          named = named_tracks-AreNamedBy artists albums ps;
                        })))))))
