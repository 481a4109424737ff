-- ===== src/Catalog/Names.antt =====
-- The names of a track: from the objects that are looked up, its metadata, or fixed ones; and the
-- lookups that its metadata ask for.
use mc_service.Prelude.{
  ℕ, String, ◌≡◌, ◌≢◌, ◌⊎◌, refl, sym, ap, ◌∙◌, Option, none, some, List, [], ◌∷◌, Bool, true,
  false, arith, Has, All, Bool-cases, inl, inr, str_eq, eq_iff, codes, trim,
}
use mathlib.Core.Bool.{false≢true}
use mc_service.Session.State.{ok, World}
use mc_service.Catalog.Types.{ApiTrack, ApiAlbum, ApiArtist, TrackMetadata, Track}
use mc_service.Catalog.Lookup.{or_else, map_track, get_entry}
use mc_service.Catalog.Operations.{
  unknown_artist, unknown_album, artist_name_of, title_of, artwork_of, resolve, resolve_track,
  is_blank, lacks_artist, lacks_album,
}

-- The first text that is there, or else the last one.
abbrev pub first_of : List (Option String) → String → String
first_of [] d = d
first_of (none ∷ os) d = first_of os d
first_of (some s ∷ os) d = s

-- A member of an object that may be missing.
abbrev pub member : {A : Type 0} → (A → String) → Option A → Option String
member f none = none
member f (some a) = some (f a)

-- The track with the names that are known of it: that of the object looked up, else that of its
-- metadata, else a fixed one.
pub record IsNamed (track : ApiTrack) (m : TrackMetadata) (artist : Option ApiArtist)
    (album : Option ApiAlbum) (t : Track) : Type 0 where
  pub id : t.id ≡ track.id
  pub title : t.title ≡ track.title
  pub artist_name :
      t.artist_name ≡ first_of (member (λ a. a.name) artist ∷ m.artist ∷ []) "Unknown Artist"
  pub album_title :
      t.album_title ≡ first_of (member (λ a. a.title) album ∷ m.album ∷ []) "Unknown Album"
  pub artwork_url :
      t.artwork_url ≡ first_of (member (λ a. a.artwork_url) album ∷ m.artwork_url ∷ []) ""
  pub others : t ≡ map_track track t.artist_name t.album_title t.artwork_url

abbrev pub named_track : ApiTrack → TrackMetadata → Option ApiArtist → Option ApiAlbum → Track
named_track track m artist album =
    map_track track (or_else (artist_name_of artist) (or_else m.artist unknown_artist))
      (or_else (title_of album) (or_else m.album unknown_album))
      (or_else (artwork_of album) (or_else m.artwork_url ""))

chosen : (o p : Option String) (d : String) → or_else o (or_else p d) ≡ first_of (o ∷ p ∷ []) d
chosen none none d = refl
chosen none (some s) d = refl
chosen (some s) p d = refl

artist_member : (o : Option ApiArtist) → artist_name_of o ≡ member (λ a. a.name) o
artist_member none = refl
artist_member (some a) = refl

title_member : (o : Option ApiAlbum) → title_of o ≡ member (λ a. a.title) o
title_member none = refl
title_member (some a) = refl

artwork_member : (o : Option ApiAlbum) → artwork_of o ≡ member (λ a. a.artwork_url) o
artwork_member none = refl
artwork_member (some a) = refl

pub named_track-IsNamed :
    (track : ApiTrack) (m : TrackMetadata) (artist : Option ApiArtist) (album : Option ApiAlbum)
    → IsNamed track m artist album (named_track track m artist album)
unfolding map_track
named_track-IsNamed track m artist album = record {
  id = refl;
  title = refl;
  artist_name =
      chosen (artist_name_of artist) m.artist unknown_artist
      ∙ ap (λ o. first_of (o ∷ m.artist ∷ []) unknown_artist) (artist_member artist);
  album_title =
      chosen (title_of album) m.album unknown_album
      ∙ ap (λ o. first_of (o ∷ m.album ∷ []) unknown_album) (title_member album);
  artwork_url =
      chosen (artwork_of album) m.artwork_url ""
      ∙ ap (λ o. first_of (o ∷ m.artwork_url ∷ []) "") (artwork_member album);
  others = refl;
}

resolve_known :
    (found : Option String) (member : TrackMetadata → Option String) (m : TrackMetadata)
    (other : String) (w : World)
    → resolve found member (some m) other w ≡ (ok (or_else found (or_else (member m) other)), w)
unfolding resolve
resolve_known none member m other w = refl
resolve_known (some s) member m other w = refl

pub resolve_track-named_track :
    (track : ApiTrack) (m : TrackMetadata) (artist : Option ApiArtist) (album : Option ApiAlbum)
    (w : World)
    → resolve_track track (some m) artist album w ≡ (ok (named_track track m artist album), w)
unfolding resolve_track
resolve_track-named_track track m artist album w = rw (
  resolve_known (artist_name_of artist) (λ m. m.artist) m unknown_artist w,
  resolve_known (title_of album) (λ m. m.album) m unknown_album w,
  resolve_known (artwork_of album) (λ m. m.artwork_url) m "" w,
)

-- What a map holds of an id.
abbrev pub IsEntry : {A : Type 0} → String → List (String × A) → Option A → Type 0
IsEntry id es none = All (λ e. e.0 ≢ id) es
IsEntry id es (some a) = Has (id, a) es

pub get_entry-IsEntry :
    {A : Type 0} (id : String) (es : List (String × A)) → IsEntry id es (get_entry id es)
unfolding get_entry
get_entry-IsEntry id [] = tt
get_entry-IsEntry id ((key, a) ∷ es) = elim (Bool-cases (str_eq key id)) [
  | inl same ↦ rw same (inl (ap (λ k. (k, a)) ((eq_iff key id).0 same)))
  | inr other ↦ rw other (
      IsEntry-cons id key a es (get_entry id es) (λ e. ground (arith, e, eq_iff key id))
        (get_entry-IsEntry id es))
]
  where
    IsEntry-cons :
        {A : Type 0} (id key : String) (a : A) (es : List (String × A)) (o : Option A)
        → key ≢ id
        → IsEntry id es o
        → IsEntry id ((key, a) ∷ es) o
    IsEntry-cons id key a es none n h = (n, h)
    IsEntry-cons id key a es (some b) n h = inr h

-- A text that is missing or has nothing but white space.
abbrev pub IsBlank : Option String → Type 0
IsBlank o = (o ≡ none) ⊎ ((s : String) × (o ≡ some s) × (trim (codes s) ≡ []))

abbrev pub LacksArtist : TrackMetadata → Type 0
LacksArtist m = IsBlank m.artist

abbrev pub LacksAlbum : TrackMetadata → Type 0
LacksAlbum m = IsBlank m.album ⊎ IsBlank m.artwork_url

-- A test decides a property.
pub record Decides {A : Type 0} (test : A → Bool) (P : A → Type 0) : Type 0 where
  pub holds : (a : A) → test a ≡ true → P a
  pub fails : (a : A) → test a ≡ false → P a → ⊥

abbrev is_empty : List ℕ → Bool
is_empty [] = true
is_empty (_ ∷ _) = false

is_empty_iff : (cs : List ℕ) → is_empty cs ≡ true → cs ≡ []
is_empty_iff [] h = refl
is_empty_iff (c ∷ cs) h = absurd (false≢true h)

filled :
    (s s' : String)
    → some s ≡ some s'
    → is_empty (trim (codes s)) ≡ false
    → trim (codes s') ≡ []
    → ⊥
filled s s' e h k = false≢true (sym h ∙ ap is_empty (ap (λ o. trim (codes (or_else o ""))) e ∙ k))

is_blank-empty : (s : String) → is_blank (some s) ≡ is_empty (trim (codes s))
unfolding is_blank
is_blank-empty s = on_empty (trim (codes s))
  where
    on_empty : (cs : List ℕ) → ◌≡◌ {A = Bool} (elim cs [ [] ↦ true | _ ∷ _ ↦ false ]) (is_empty cs)
    on_empty [] = refl
    on_empty (c ∷ cs) = refl

is_blank-holds : (o : Option String) → is_blank o ≡ true → IsBlank o
is_blank-holds none h = inl refl
is_blank-holds (some s) h =
    inr (s, refl, is_empty_iff (trim (codes s)) (sym (is_blank-empty s) ∙ h))

is_blank-fails : (o : Option String) → is_blank o ≡ false → IsBlank o → ⊥
unfolding is_blank
is_blank-fails none h b = false≢true (sym h)
is_blank-fails (some s) h (inl e) = cc
is_blank-fails (some s) h (inr (s', e, k)) = filled s s' e (sym (is_blank-empty s) ∙ h) k

pub artist-Decides : Decides lacks_artist LacksArtist
artist-Decides = record {
  holds = λ m. is_blank-holds m.artist;
  fails = λ m. is_blank-fails m.artist;
}

pub album-Decides : Decides lacks_album LacksAlbum
album-Decides = record { holds = λ m h. one_blank m h; fails = λ m h b. no_blank m h b }
  where
    one_blank : (m : TrackMetadata) → lacks_album m ≡ true → LacksAlbum m
    one_blank m h = elim (Bool-cases (is_blank m.album)) [
      | inl e ↦ inl (is_blank-holds m.album e)
      | inr e ↦ inr (is_blank-holds m.artwork_url (ground arith))
    ]

    no_blank : (m : TrackMetadata) → lacks_album m ≡ false → LacksAlbum m → ⊥
    no_blank m h (inl b) = is_blank-fails m.album (ground arith) b
    no_blank m h (inr b) = is_blank-fails m.artwork_url (ground arith) b
