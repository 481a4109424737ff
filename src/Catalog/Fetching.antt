-- ===== src/Catalog/Fetching.antt =====
-- Lookups never fail, call the server three times at most for each id, and give what it replies.
use mc_service.Prelude.{
  ◌+◌, ◌*◌, ◌≤◌, String, ◌≡◌, ◌≢◌, ◌⊎◌, refl, Option, none, some, List, [], ◌∷◌, true, arith,
  length, All, Has, IsDistinct, str_eq, Bool-cases, inl, inr, eq_iff,
}
use mc_service.Json.{Json}
use mc_service.Platform.{Platform}
use mc_service.Session.State.{Result, Failure, ok, raise, World, Server, bind, handle, return}
use mc_service.Session.Client.{api_get}
use mc_service.Session.Bounds.{request-length}
use mc_service.Session.Outcome.{EndsIn, return-EndsIn, bind-EndsIn, EndsIn-weaken}
use mc_service.Catalog.Lookup.{
  get_or_null, lookup, fetch_each, fetch_by_id, as_view, add_entry, unique_ids,
}
use mc_service.Catalog.Unique.{unique_from-length, unique_ids-IsDistinct}

-- `us` are the ids of the list that are not empty, each once.
pub record AreOnce (ids us : List String) : Type 0 where
  pub distinct : IsDistinct us
  pub filled : All (λ id. id ≢ "") us
  pub given : All (λ id. Has id ids) us
  pub all_there : All (λ id. (id ≡ "") ⊎ Has id us) ids

unique_ids-AreOnce : (ids : List String) → AreOnce ids (unique_ids ids)
unique_ids-AreOnce ids =
    let (distinct, filled, _, given, all_there) = unique_ids-IsDistinct ids in
    record { distinct = distinct; filled = filled; given = given; all_there = all_there }

-- No JSON value.
abbrev IsMiss : Result (Option Json) → Type 0
IsMiss r = (r ≡ ok none) ⊎ ((x : Failure) × (r ≡ raise x))

module _ (browser : Platform) (server : Server) where
  -- What the call at the path gives, from the world `w`: the view of the JSON value that is replied,
  -- or `none` where the call ends without one. The last world is that behind the call.
  pub data Looked {A : Type 0} (view : Json → A) (path : String) (w : World)
      : Option A → World → Type 0 where
    found :
        (j : Json) (w' : World)
        → api_get browser server path [] w ≡ (ok (some j), w')
        → Looked view path w (some (view j)) w'
    missed :
        (r : Result (Option Json)) (w' : World)
        → api_get browser server path [] w ≡ (r, w')
        → IsMiss r
        → Looked view path w none w'

  caught-EndsIn :
      {A : Type 0} (view : Json → A) (path : String) (w : World) (r : Result (Option Json) × World)
      → api_get browser server path [] w ≡ r
      → length r.1.sent ≤ length w.sent + 3
      → EndsIn
          (Looked view path w)
          3
          w
          (handle (bind r (λ res. return (as_view view res))) (λ _. return none))
  caught-EndsIn view path w (ok none, w') e le = record {
    value = none;
    ended = refl;
    holds = missed (ok none) w' e (inl refl);
    calls = le;
  }
  caught-EndsIn view path w (ok (some j), w') e le = record {
    value = some (view j);
    ended = refl;
    holds = found j w' e;
    calls = le;
  }
  caught-EndsIn view path w (raise x, w') e le = record {
    value = none;
    ended = refl;
    holds = missed (raise x) w' e (inr (x, refl));
    calls = le;
  }

  get_or_null-EndsIn :
      {A : Type 0} (view : Json → A) (path : String) (w : World)
      → EndsIn (Looked view path w) 3 w (get_or_null browser server view path w)
  unfolding get_or_null api_get
  get_or_null-EndsIn view path w =
      caught-EndsIn view path w _ refl (request-length browser server path _ true w)

  -- A lookup by an id: none is made for the empty one.
  pub data LookedUp {A : Type 0} (view : Json → A) (path_of : String → String) (id : String)
      (w : World) (o : Option A) (w' : World) : Type 0 where
    skipped : id ≡ "" → o ≡ none → w' ≡ w → LookedUp view path_of id w o w'
    looked : id ≢ "" → Looked view (path_of id) w o w' → LookedUp view path_of id w o w'

  pub lookup-EndsIn :
      {A : Type 0} (view : Json → A) (path_of : String → String) (id : String) (w : World)
      → EndsIn (LookedUp view path_of id w) 3 w (lookup browser server view path_of id w)
  unfolding lookup
  lookup-EndsIn view path_of id w = elim (Bool-cases (str_eq id "")) [
    | inl empty ↦ rw empty (
        EndsIn-weaken _ _ 0 3 w _ (λ a w' h. h) (omega arith)
          (return-EndsIn (LookedUp view path_of id w) none w
            (skipped ((eq_iff id "").0 empty) refl refl)))
    | inr there ↦ rw there (
        EndsIn-weaken (Looked view (path_of id) w) (LookedUp view path_of id w) 3 3 w _
          (λ a w' h. looked (λ e. ground (arith, e, there, eq_iff id "")) h) (omega arith)
          (get_or_null-EndsIn view (path_of id) w))
  ]

  -- The lookups of the ids, one after another, and the map of what was found.
  pub data Fetched {A : Type 0} (view : Json → A) (path_of : String → String)
      : List String → World → List (String × A) → World → Type 0 where
    done : (w : World) → Fetched view path_of [] w [] w
    entered :
        (id : String) (ids : List String) (w w' w'' : World) (a : A) (es : List (String × A))
        → Looked view (path_of id) w (some a) w'
        → Fetched view path_of ids w' es w''
        → Fetched view path_of (id ∷ ids) w ((id, a) ∷ es) w''
    passed :
        (id : String) (ids : List String) (w w' w'' : World) (es : List (String × A))
        → Looked view (path_of id) w none w'
        → Fetched view path_of ids w' es w''
        → Fetched view path_of (id ∷ ids) w es w''

  Fetched-add_entry :
      {A : Type 0} (view : Json → A) (path_of : String → String) (id : String) (ids : List String)
      (w w' w'' : World) (o : Option A) (es : List (String × A))
      → Looked view (path_of id) w o w'
      → Fetched view path_of ids w' es w''
      → Fetched view path_of (id ∷ ids) w (add_entry id o es) w''
  Fetched-add_entry view path_of id ids w w' w'' none es h hs = passed id ids w w' w'' es h hs
  Fetched-add_entry view path_of id ids w w' w'' (some a) es h hs =
      entered id ids w w' w'' a es h hs

  fetch_each-EndsIn :
      {A : Type 0} (view : Json → A) (path_of : String → String) (ids : List String) (w : World)
      → EndsIn
          (Fetched view path_of ids w)
          (3 * length ids)
          w
          (fetch_each browser server view path_of ids w)
  unfolding fetch_each
  fetch_each-EndsIn view path_of [] w = return-EndsIn (Fetched view path_of [] w) [] w (done w)
  fetch_each-EndsIn view path_of (id ∷ ids) w =
      EndsIn-weaken _ _ (3 + (3 * length ids + 0)) _ w _ (λ a w' h. h) (omega arith)
        (bind-EndsIn (Looked view (path_of id) w) (Fetched view path_of (id ∷ ids) w) 3
          (3 * length ids + 0) w _ _ (get_or_null-EndsIn view (path_of id) w)
          (λ o w' h.
            bind-EndsIn (Fetched view path_of ids w') (Fetched view path_of (id ∷ ids) w)
              (3 * length ids) 0 w' _ _ (fetch_each-EndsIn view path_of ids w')
              (λ es w'' hs.
                return-EndsIn (Fetched view path_of (id ∷ ids) w) _ w''
                  (Fetched-add_entry view path_of id ids w w' w'' o es h hs))))

  -- One lookup for each of the ids.
  pub record Sought {A : Type 0} (view : Json → A) (path_of : String → String) (ids : List String)
      (w : World) (es : List (String × A)) (w' : World) : Type 0 where
    pub us : List String
    pub once : AreOnce ids us
    pub fetched : Fetched view path_of us w es w'

  pub fetch_by_id-EndsIn :
      {A : Type 0} (view : Json → A) (path_of : String → String) (ids : List String) (w : World)
      → EndsIn
          (Sought view path_of ids w)
          (3 * length ids)
          w
          (fetch_by_id browser server view path_of ids w)
  unfolding fetch_by_id
  fetch_by_id-EndsIn view path_of ids w =
      EndsIn-weaken (Fetched view path_of (unique_ids ids) w) (Sought view path_of ids w)
        (3 * length (unique_ids ids)) _ w _
        (λ es w' h. record { us = unique_ids ids; once = unique_ids-AreOnce ids; fetched = h })
        (omega (arith, unique_from-length [] ids))
        (fetch_each-EndsIn view path_of (unique_ids ids) w)
