-- ===== src/Session/Stored.antt =====
-- The tokens and the user in the storage: what it holds of them, and where it does not take them.
use mc_service.Prelude.{
  String, ◌≡◌, ◌⊎◌, refl, ap, subst, inl, inr, Option, none, some, false, arith, Bool-cases, eq_iff,
  if_holds, str_eq,
}
use mc_service.Json.{Json}
use mc_service.Platform.{Platform, Storage, get_item, set_item}
use mc_service.Session.State.{
  Result, Failure, ok, raise, World, M, store, return, bind, refresh_token_key, access_token_key,
  user_key,
}
use mc_service.Session.Client.{
  AuthResponse, persist_auth_response, if_nonempty, stored_refresh_token, text_of, if_truthy,
}

-- Null and the empty text count as nothing.
abbrev pub IsMissing : Option String → Type 0
IsMissing o = (o ≡ none) ⊎ (o ≡ some "")

-- The storage that the page has holds no refresh token, or an empty one.
pub data HasNoToken (browser : Platform) (storage : Storage) : Type 0 where
  no_window : browser.has_window ≡ false → HasNoToken browser storage
  no_item : get_item refresh_token_key storage ≡ none → HasNoToken browser storage
  empty_item : get_item refresh_token_key storage ≡ some "" → HasNoToken browser storage

-- The storage does not take a session: one of the writes of the access token, the refresh token and
-- the user, in this order, is not accepted.
pub data IsUnstored (browser : Platform) (auth : AuthResponse) (storage : Storage) : Type 0 where
  no_access :
      browser.accepts storage access_token_key (text_of auth.access_token) ≡ false
      → IsUnstored browser auth storage
  no_refresh :
      browser.accepts
          (set_item access_token_key (text_of auth.access_token) storage)
          refresh_token_key
          (text_of auth.refresh_token)
        ≡ false
      → IsUnstored browser auth storage
  no_user :
      (text : String)
      → browser.accepts
          (set_item refresh_token_key
            (text_of auth.refresh_token)
            (set_item access_token_key (text_of auth.access_token) storage))
          user_key
          text
        ≡ false
      → IsUnstored browser auth storage

pub ok-ne-raise : (x : Failure) → ◌≡◌ {A = Result (Unit {0})} (ok tt) (raise x) → ⊥
ok-ne-raise x e = cc

pub nonempty_none : (o : Option String) → if_nonempty o ≡ none → IsMissing o
nonempty_none none e = inl refl
nonempty_none (some s) e = elim (Bool-cases (str_eq s "")) [
  | inl same ↦ inr (ap some ((eq_iff s "").0 same))
  | inr other ↦ absurd (some_no_text s (rw other at e))
]
  where
    some_no_text : (s : String) → ◌≡◌ {A = Option String} (some s) none → ⊥
    some_no_text s e = cc

no_text_some : (s : String) → ◌≡◌ {A = Option String} none (some s) → ⊥
no_text_some s e = cc

pub nonempty_some :
    (o : Option String) (token : String) → if_nonempty o ≡ some token → o ≡ some token
nonempty_some none token e = cc
nonempty_some (some s) token e = elim (Bool-cases (str_eq s "")) [
  | inl same ↦ absurd (no_text_some token (rw same at e))
  | inr other ↦ rw other at e
]

module _ (browser : Platform) where
  store_fails :
      (key value : String) (w : World) (x : Failure)
      → (store browser key value w).0 ≡ raise x
      → browser.accepts w.storage key value ≡ false
  unfolding store
  store_fails key value w x e = ground arith

  -- Where a write and what follows it fail, the write is not accepted or what follows it fails.
  pub stored_fails :
      {B : Type 0} (U : Type 0) (key value : String) (w : World) (x : Failure) (f : Unit {0} → M B)
      → (browser.accepts w.storage key value ≡ false → U)
      → ((f tt (record w { storage = set_item key value w.storage })).0 ≡ raise x → U)
      → (bind (store browser key value w) f).0 ≡ raise x
      → U
  unfolding store
  stored_fails U key value w x f h k =
      if_holds {A = Result (Unit {0}) × World} (λ r. (bind r f).0 ≡ raise x → U)
        (browser.accepts w.storage key value) _ _ (λ _ e. k e) (λ full _. h full)

  user_fails :
      (auth : AuthResponse) (storage : Storage) (o : Option Json) (w : World) (x : Failure)
      → w.storage
        ≡ set_item refresh_token_key
            (text_of auth.refresh_token)
            (set_item access_token_key (text_of auth.access_token) storage)
      → (◌≡◌ {A = Result (Unit {0})}
          ((elim o as (λ _. M (Unit {0})) [
            | none ↦ return tt
            | some user ↦ store browser user_key (browser.stringify user)
          ])
            w).0
          (raise x))
      → IsUnstored browser auth storage
  user_fails auth storage none w x s e = absurd (ok-ne-raise x e)
  user_fails auth storage (some user) w x s e = no_user (browser.stringify user) (
      subst (λ t. browser.accepts t user_key (browser.stringify user) ≡ false) s
        (store_fails user_key (browser.stringify user) w x e))

  pub persist_fails :
      (auth : AuthResponse) (w : World) (x : Failure)
      → (persist_auth_response browser auth w).0 ≡ raise x
      → IsUnstored browser auth w.storage
  unfolding persist_auth_response
  persist_fails auth w x =
      if_holds (λ (m : M (Unit {0})). (m w).0 ≡ raise x → IsUnstored browser auth w.storage)
        browser.has_window _ _
        (λ _. stored_fails _ access_token_key (text_of auth.access_token) w x _ no_access (
          stored_fails _ refresh_token_key (text_of auth.refresh_token) _ x _ no_refresh
            (user_fails auth w.storage (if_truthy auth.user) _ x refl)))
        (λ _ e. absurd (ok-ne-raise x e))

  pub no_token :
      (w : World)
      → if_nonempty (stored_refresh_token browser w) ≡ none
      → HasNoToken browser w.storage
  no_token w e = elim (Bool-cases browser.has_window) [
    | inr off ↦ no_window off
    | inl on ↦ elim (nonempty_none (stored_refresh_token browser w) e) [
      | inl missing ↦ no_item (rw on at missing)
      | inr empty ↦ empty_item (rw on at empty)
    ]
  ]

  pub has_token :
      (w : World) (token : String)
      → if_nonempty (stored_refresh_token browser w) ≡ some token
      → get_item refresh_token_key w.storage ≡ some token
  has_token w token e = elim (Bool-cases browser.has_window) [
    | inl on ↦ rw on at (nonempty_some (stored_refresh_token browser w) token e)
    | inr off ↦ absurd (no_text_some token (rw off at e))
  ]
