-- ===== src/Session/Fit.antt =====
-- Whether the storage holds a session that a page takes up.
use mc_service.Prelude.{
  ℕ, String, ◌≡◌, inl, inr, Option, none, some, true, false, Option-cases, Bool-cases,
}
use mc_service.Json.{Json}
use mc_service.Platform.{Platform, get_item}
use mc_service.Session.State.{World, access_token_key, user_key}
use mc_service.Session.Client.{if_nonempty}
use mc_service.Session.Token.{is_jwt_expired}
use mc_service.Session.Auth.{stored_user}
use mc_service.Session.Stored.{IsMissing, nonempty_none, nonempty_some}

-- The storage holds a session that can be taken up: a token that has not expired, and a user whose
-- text is read.
pub record IsFit (browser : Platform) (now_ms : ℕ) (w : World) (token : String) (user : Json)
    : Type 0 where
  pub text : String
  pub token_there : get_item access_token_key w.storage ≡ some token
  pub user_there : get_item user_key w.storage ≡ some text
  pub fresh : is_jwt_expired browser now_ms token ≡ false
  pub read : browser.parse text ≡ some user

-- The storage holds none.
pub data IsUnfit (browser : Platform) (now_ms : ℕ) (w : World) : Type 0 where
  without_token : IsMissing (get_item access_token_key w.storage) → IsUnfit browser now_ms w
  without_user : IsMissing (get_item user_key w.storage) → IsUnfit browser now_ms w
  expired :
      (token : String)
      → get_item access_token_key w.storage ≡ some token
      → is_jwt_expired browser now_ms token ≡ true
      → IsUnfit browser now_ms w
  unread :
      (text : String)
      → get_item user_key w.storage ≡ some text
      → browser.parse text ≡ none
      → IsUnfit browser now_ms w

-- What `stored_user` gives of a storage.
abbrev pub Stored : Platform → ℕ → World → Option (String × Json) → Type 0
Stored browser now_ms w none = IsUnfit browser now_ms w
Stored browser now_ms w (some (token, user)) = IsFit browser now_ms w token user

pub stored_user-Stored :
    (browser : Platform) (now_ms : ℕ) (w : World)
    → Stored browser now_ms w (stored_user browser now_ms w)
unfolding stored_user
stored_user-Stored browser now_ms w =
    elim (Option-cases (if_nonempty (get_item access_token_key w.storage))) [
      | inl e ↦ rw (e, stored_user) (without_token (nonempty_none _ e))
      | inr (token, e) ↦ elim (Option-cases (if_nonempty (get_item user_key w.storage))) [
        | inl f ↦ rw (e, stored_user) (rw f (without_user (nonempty_none _ f)))
        | inr (text, f) ↦ elim (Bool-cases (is_jwt_expired browser now_ms token)) [
          | inl old ↦
              rw (e, stored_user) (rw (f, old) (expired token (nonempty_some _ token e) old))
          | inr young ↦ elim (Option-cases (browser.parse text)) [
            | inl p ↦
                rw (e, stored_user) (rw (f, young, p) (unread text (nonempty_some _ text f) p))
            | inr (user, p) ↦
                rw (e, stored_user)
                  (rw (f, young, p)
                    (record {
                      text = text;
                      token_there = nonempty_some _ token e;
                      user_there = nonempty_some _ text f;
                      fresh = young;
                      read = p;
                    }))
          ]
        ]
      ]
    ]
