-- ===== src/Catalog/Detail.antt =====
-- `getTrack`, `updateTrack` and the albums' pair: one object with the names that are known of it.
use mc_service.Prelude.{String, ◌≡◌, Option, some}
use mc_service.Json.{Json}
use mc_service.Platform.{Platform}
use mc_service.Session.State.{ok, World, Server, ◌>>=◌}
use mc_service.Session.Client.{api_patch}
use mc_service.Session.Outcome.{EndsIn, return-EndsIn, bind-EndsIn}
use mc_service.Catalog.Types.{ApiTrack, ApiAlbum, ApiArtist, TrackMetadata, Track, CatalogViews}
use mc_service.Catalog.Lookup.{parse_metadata, lookup, artist_path, album_path, track_path}
use mc_service.Catalog.Operations.{resolve_track, complete_track, update_track, reply_of}
use mc_service.Catalog.Fetching.{LookedUp, lookup-EndsIn}
use mc_service.Catalog.Names.{IsNamed, named_track-IsNamed, resolve_track-named_track}

module _ (views : CatalogViews) (browser : Platform) (server : Server) where
  -- The artist of the track is looked up, then its album, in a run from `w` to `w'`; the track has
  -- their names as far as they were found, and those of its metadata.
  pub record IsNamedTrack (track : ApiTrack) (m : TrackMetadata) (w : World) (t : Track)
      (w' : World) : Type 0 where
    pub artist : Option ApiArtist
    pub album : Option ApiAlbum
    pub between : World
    pub found_artist :
        LookedUp browser server views.artist artist_path track.artist_id w artist between
    pub found_album : LookedUp browser server views.album album_path track.album_id between album w'
    pub named : IsNamed track m artist album t

  complete_track-EndsIn :
      (track : ApiTrack) (m : TrackMetadata) (w : World)
      → parse_metadata views browser track.metadata_json ≡ some m
      → EndsIn (IsNamedTrack track m w) 6 w (complete_track views browser server track w)
  unfolding complete_track
  complete_track-EndsIn track m w e = rw e (
      bind-EndsIn (LookedUp browser server views.artist artist_path track.artist_id w)
        (IsNamedTrack track m w) 3 3 w _
        (λ artist. lookup browser server views.album album_path track.album_id >>= λ album.
          resolve_track track (some m) artist album)
        (lookup-EndsIn browser server views.artist artist_path track.artist_id w)
        (λ artist w1 a.
          bind-EndsIn (LookedUp browser server views.album album_path track.album_id w1)
            (IsNamedTrack track m w) 3 0 w1 _ (λ album. resolve_track track (some m) artist album)
            (lookup-EndsIn browser server views.album album_path track.album_id w1)
            (λ album w2 b. rw (resolve_track-named_track track m artist album w2) (
              return-EndsIn (IsNamedTrack track m w) _ w2 (record {
                artist = artist;
                album = album;
                between = w1;
                found_artist = a;
                found_album = b;
                named = named_track-IsNamed track m artist album;
              })))))

  -- Once the server has replied with a track, `updateTrack` ends with it, whatever the server answers to
  -- the lookups, and after six more calls at most. It looks up the artist and then the album, each
  -- where its id is not empty, and the names are those that the calls end with, else those of the
  -- metadata, else fixed ones: where the metadata are not the JSON value null.
  pub update_track-EndsIn :
      (id : String) (body : Json) (json : Json) (m : TrackMetadata) (w w' : World)
      → api_patch browser server (track_path id) (some body) w ≡ (ok (some json), w')
      → parse_metadata views browser (views.track json).metadata_json ≡ some m
      → EndsIn
          (IsNamedTrack (views.track json) m w')
          6
          w'
          (update_track views browser server id body w)
  unfolding update_track reply_of
  update_track-EndsIn id body json m w w' e parsed =
      rw e (complete_track-EndsIn (views.track json) m w' parsed)
