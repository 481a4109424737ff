-- ===== src/Session/State.antt =====
-- The state that client.ts and auth.ts share, and their effects. An asynchronous function is a step
-- from a world to a result and a world, run without another one in between; an exception keeps the
-- world that it was raised in. The requests sent are a log, the latest first.
use mc_service.Prelude.{ℕ, String, Option, none, List, Bool, false, if◌then◌else◌}
use mc_service.Json.{Json}
use mc_service.Platform.{Storage, Platform, set_item, remove_item}

-- `bearer` is the token of the `Authorization` header, `is_json` whether the content type is set.
pub record Request : Type 0 where
  pub method : String
  pub path : String
  pub query : List (String × String)
  pub content : Option Json
  pub bearer : Option String
  pub is_json : Bool

-- A reply of the server; `content` is what `res.json()` gives, `none` if that throws.
pub record Response : Type 0 where
  pub status : ℕ
  pub content : Option Json

-- `ApiError`, or any other exception (network, JSON, storage quota).
pub data Failure : Type 0 where
  api_error : ℕ → Option Json → Failure
  thrown : Failure

pub data Result {ℓ} (A : Type ℓ) : Type ℓ where
  ok : A → Result A
  raise : Failure → Result A

-- `accessToken` and `unauthorizedHandler` of client.ts (the only handler is that of auth.ts), the
-- browser's storage, the fields of the auth store, and the log. `user` is `none` for null.
pub record World : Type 0 where
  pub access_token : Option String
  pub has_handler : Bool
  pub storage : Storage
  pub user : Option Json
  pub is_authenticated : Bool
  pub is_loading : Bool
  pub sent : List Request

-- The server and the network: the answer to the latest request of a log; `none` if `fetch` throws.
abbrev pub Server : Type 0
Server = List Request → Option Response

abbrev pub M : Type 0 → Type 0
M A = World → Result A × World

abbrev pub bind {ℓ} : {A : Type ℓ} {B : Type 0} → Result A × World → (A → M B) → Result B × World
bind (ok a, w) f = f a w
bind (raise e, w) f = (raise e, w)

infixl 5 ◌>>=◌ ◌>>◌
abbrev pub ◌>>=◌ : {A B : Type 0} → M A → (A → M B) → M B
◌>>=◌ m f w = bind (m w) f

abbrev pub ◌>>◌ : {B : Type 0} → M (Unit {0}) → M B → M B
◌>>◌ m k w = bind (m w) (λ _. k)

abbrev pub return : {A : Type 0} → A → M A
return a w = (ok a, w)

abbrev pub modify : (World → World) → M (Unit {0})
modify f w = (ok tt, f w)

abbrev pub throw : {A : Type 0} → Failure → M A
throw e w = (raise e, w)

-- `try { m } catch { handler }`
abbrev pub handle {ℓ} :
    {A : Type ℓ} → Result A × World → (Failure → World → Result A × World) → Result A × World
handle (ok a, w) h = (ok a, w)
handle (raise e, w) h = h e w

abbrev pub catch : {A : Type 0} → M A → (Failure → M A) → M A
catch m h w = handle (m w) h

abbrev pub access_token_key : String
access_token_key = "access_token"

abbrev pub refresh_token_key : String
refresh_token_key = "refresh_token"

abbrev pub user_key : String
user_key = "user"

-- `setAccessToken`
abbrev pub set_access_token : Option String → World → World
set_access_token token w = record w { access_token = token }

module _ (browser : Platform) where
  -- `localStorage.setItem`, which may throw
  unfoldable pub store : String → String → M (Unit {0})
  store key value w =
      if browser.accepts w.storage key value
      then (ok tt, record w { storage = set_item key value w.storage })
      else (raise thrown, w)

  -- `clearStoredSession`, of both files
  unfoldable pub clear_stored_session : World → World
  clear_stored_session w =
      if browser.has_window
      then record w {
        storage =
            remove_item user_key
              (remove_item refresh_token_key (remove_item access_token_key w.storage));
      }
      else w

  -- `clearAuthState` of auth.ts, which is also the unauthorized handler
  unfoldable pub clear_auth_state : World → World
  unfolding clear_stored_session
  clear_auth_state w = record (clear_stored_session (set_access_token none w)) {
    user = none;
    is_authenticated = false;
    is_loading = false;
  }
