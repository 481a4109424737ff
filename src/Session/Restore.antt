-- ===== src/Session/Restore.antt =====
-- `restoreSession`: a stored session is taken up, renewed or ended.
use mc_service.Prelude.{
  ℕ, String, ◌≡◌, refl, inl, inr, Option, none, some, true, false, arith, ◌∙◌, ap, Option-cases,
  subst, eq_iff, ◌≢◌,
}
use mc_service.Json.{Json}
use mc_service.Platform.{Platform, get_item}
use mc_service.Platform.Laws.{get_item-set_item}
use mc_service.Session.State.{
  Result, ok, raise, World, Server, handle, clear_auth_state, access_token_key, user_key,
  refresh_token_key, set_access_token,
}
use mc_service.Session.Client.{AuthResponse, refresh_body, auth_refresh_path, if_nonempty, text_of}
use mc_service.Session.Token.{is_jwt_expired}
use mc_service.Session.Ending.{IsEnded, clear_auth_state-IsEnded}
use mc_service.Session.SignIn.{IsSignedIn, Outcome, adopt-Outcome}
use mc_service.Session.Entry.{IsAccepted}
use mc_service.Session.Renewal.{IsDenied, Renewed, renewed, denied, renewal-Renewed}
use mc_service.Session.Auth.{
  initial, adopt, restore_by_refresh, stored_user, restore_session, user_text, set_signed_in,
}
use mc_service.Session.Stored.{IsMissing, nonempty_none, nonempty_some}
use mc_service.Session.Fit.{IsFit, IsUnfit, Stored, stored_user-Stored}

module _ (browser : Platform) (window : browser.has_window ≡ true) (server : Server) where
  -- The ends of `restoreSession`; it throws nothing.
  pub data IsRestored (now_ms : ℕ) (w : World) (r : Result (Unit {0}) × World) : Type 0 where
    taken_up :
        (token : String) (user : Json)
        → IsFit browser now_ms w token user
        → r ≡ (
          ok tt,
          record w { access_token = some token; user = some user; is_authenticated = true },
        )
        → IsRestored now_ms w r
    renewed_by :
        (token : String) (auth : AuthResponse)
        → IsUnfit browser now_ms w
        → get_item refresh_token_key w.storage ≡ some token
        → r.0 ≡ ok tt
        → IsAccepted browser server auth_refresh_path (refresh_body token) w auth
        → IsSignedIn browser auth w r.1
        → IsRestored now_ms w r
    ended :
        IsUnfit browser now_ms w
        → IsMissing (get_item refresh_token_key w.storage)
        → r.0 ≡ ok tt
        → IsEnded r.1
        → IsRestored now_ms w r
    denied_by :
        (token : String)
        → IsUnfit browser now_ms w
        → get_item refresh_token_key w.storage ≡ some token
        → IsDenied browser server token w
        → r.0 ≡ ok tt
        → IsEnded r.1
        → IsRestored now_ms w r

  handled-IsRestored :
      (now_ms : ℕ) (w : World) (token : String) (r : Result (Unit {0}) × World)
      → IsUnfit browser now_ms w
      → get_item refresh_token_key w.storage ≡ some token
      → Renewed browser server token w r
      → IsRestored now_ms w (handle r (λ _ w'. (ok tt, clear_auth_state browser w')))
  handled-IsRestored now_ms w token (ok _, w') unfit e (renewed auth _ a s) =
      renewed_by token auth unfit e refl a s
  handled-IsRestored now_ms w token (ok _, w') unfit e (denied x v f _) = cc
  handled-IsRestored now_ms w token (raise _, w') unfit e (renewed _ f _ _) = cc
  handled-IsRestored now_ms w token (raise _, w') unfit e (denied x v f d) =
      denied_by token unfit e d refl (clear_auth_state-IsEnded browser window w')

  refresh-IsRestored :
      (now_ms : ℕ) (w : World) (token : Option String)
      → IsUnfit browser now_ms w
      → if_nonempty (get_item refresh_token_key w.storage) ≡ token
      → IsRestored now_ms w (restore_by_refresh browser server token w)
  unfolding restore_by_refresh
  refresh-IsRestored now_ms w none unfit e =
      ended unfit (nonempty_none _ e) refl (clear_auth_state-IsEnded browser window w)
  refresh-IsRestored now_ms w (some token) unfit e =
      handled-IsRestored now_ms w token _ unfit (nonempty_some _ token e)
        (renewal-Renewed browser server token w)

  -- `restoreSession` never throws, and it ends in one of four ways. The storage holds a token that has
  -- not expired and a user, and they are taken up; or it does not, but a refresh token, and either the
  -- server accepts its refresh, and the session of the reply, as far as it has one, is in the store
  -- and in storage, or the refresh is denied, and nobody is signed in, in memory and in storage; or it
  -- holds no refresh token either, and nobody is signed in: in a browser with a window.
  pub restore_session-outcome :
      (now_ms : ℕ) (w : World) → IsRestored now_ms w (restore_session browser server now_ms w)
  unfolding restore_session
  restore_session-outcome now_ms w = elim (Option-cases (stored_user browser now_ms w)) [
    | inl e ↦
        rw (e, restore_session)
          (refresh-IsRestored now_ms w (if_nonempty (get_item refresh_token_key w.storage))
            (subst (Stored browser now_ms w) e (stored_user-Stored browser now_ms w)) refl)
    | inr ((token, user), e) ↦
        rw (e, restore_session)
          (taken_up token user
            (subst (Stored browser now_ms w) e (stored_user-Stored browser now_ms w)) refl)
  ]

module _ (browser : Platform) (server : Server) where
  stored_user_lem :
      (now_ms : ℕ) (w : World) (token text : String) (user : Json)
      → get_item access_token_key w.storage ≡ some token
      → get_item user_key w.storage ≡ some text
      → token ≢ ""
      → text ≢ ""
      → is_jwt_expired browser now_ms token ≡ false
      → browser.parse text ≡ some user
      → stored_user browser now_ms w ≡ some (token, user)
  unfolding stored_user
  stored_user_lem now_ms w token text user a b c d e f =
      ground (arith, eq_iff token "", eq_iff text "")

  stored_items :
      (auth : AuthResponse) (r : Result (Unit {0}) × World) (w : World)
      → r.0 ≡ ok tt
      → Outcome browser auth w r
      → (get_item access_token_key r.1.storage ≡ some (text_of auth.access_token))
        × (get_item user_key r.1.storage ≡ some (user_text browser auth.user))
  stored_items auth r w done (inl (_, s)) =
      (rw s.stored (simp get_item-set_item), rw s.stored (simp get_item-set_item))
  stored_items auth r w done (inr (e, s)) = cc

  -- A session that was stored in full is taken up by the page that is loaded next, with the same
  -- user and token and without any request: where the token is not empty and has not expired, and
  -- the codec reads the user back.
  pub restore_session-adopt :
      (auth : AuthResponse) (w : World) (now_ms : ℕ) (token : String) (user : Json)
      → (adopt browser auth w).0 ≡ ok tt
      → auth.access_token ≡ some token
      → auth.user ≡ some user
      → token ≢ ""
      → is_jwt_expired browser now_ms token ≡ false
      → browser.stringify user ≢ ""
      → browser.parse (browser.stringify user) ≡ some user
      → restore_session browser server now_ms (initial none (adopt browser auth w).1.storage) ≡ (
        ok tt,
        set_signed_in
            (some user)
            (set_access_token (some token) (initial none (adopt browser auth w).1.storage)),
      )
  unfolding restore_session initial
  restore_session-adopt auth w now_ms token user done t u filled fresh text read =
      let (a, b) = stored_items auth (adopt browser auth w) w done (adopt-Outcome browser auth w) in
      rw (
        stored_user_lem now_ms (initial none (adopt browser auth w).1.storage) token
            (browser.stringify user) user (a ∙ ap (λ x. some (text_of x)) t)
            (b ∙ ap (λ x. some (user_text browser x)) u) filled text fresh read,
        restore_session,
      )
