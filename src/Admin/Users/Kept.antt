-- ===== src/Admin/Users/Kept.antt =====
-- The invariant of the users page.
use mc_service.Prelude.{
  ℕ, ◌+◌, String, ◌≡◌, refl, inl, inr, Option, none, some, ◌++◌, Bool, true, false, not, ltb, arith,
  if_holds, Bool-cases, trimmed, units,
}
use mathlib.Core.Bool.{true≢false}
use mc_service.Json.{Json}
use mc_service.Admin.Users.Defs.{UserRow, loading, UsersPage, same_object}
use mc_service.Admin.Users.Operations.{
  settle, selected_user, begin_load, begin_save, begin_create, begin_reset, begin_delete,
  lacks_account, save_of, reset_of, delete_of,
}
use mc_service.Admin.Users.Reach.{
  Step, input, select, refresh, save, create, reset, delete, answer, Reach, start, next, one,
  IsGuarded, edit-IsGuarded, filled-IsGuarded,
}
use mc_service.Admin.Users.Guards.{remaining, finish-IsGuarded}

started : (b : Bool) (n : ℕ) → b ≡ false → n ≡ one b → 1 + n ≡ 1
started true n e h = absurd (true≢false e)
started false n e h = omega (arith, h)

module _ (fold : String → String) (shown : Json → String) where
  settle-IsGuarded : (p : UsersPage) → IsGuarded p → IsGuarded (settle fold p)
  unfolding settle
  settle-IsGuarded p h = elim (Bool-cases (same_object p.shown (selected_user fold p))) [
    | inl e ↦ rw e h
    | inr e ↦ rw e (filled-IsGuarded (selected_user fold p) p h)
  ]

  load-IsGuarded : (p : UsersPage) → IsGuarded p → IsGuarded (begin_load loading p)
  unfolding begin_load
  load-IsGuarded p h = record {
    saved = omega (arith, h.saved);
    created = omega (arith, h.created);
    reset = omega (arith, h.reset);
    deleted = omega (arith, h.deleted);
    loaded = omega arith;
    allowed = (tt, h.allowed);
    chosen = h.chosen;
  }

  save-IsGuarded : (row : Option UserRow) (p : UsersPage) → IsGuarded p → IsGuarded (save_of row p)
  save-IsGuarded none p h = h
  save-IsGuarded (some row) p h =
      if_holds IsGuarded p.saving_user _ _ (λ e. h)
        (λ e. record {
          saved = started _ _ e h.saved;
          created = omega (arith, h.created);
          reset = omega (arith, h.reset);
          deleted = omega (arith, h.deleted);
          loaded = omega (arith, h.loaded);
          allowed = (tt, h.allowed);
          chosen = h.chosen;
        })

  create-IsGuarded : (p : UsersPage) → IsGuarded p → IsGuarded (begin_create p)
  unfolding begin_create
  create-IsGuarded p h =
      if_holds IsGuarded p.creating_user _ _ (λ e. h)
        (λ e.
          if_holds IsGuarded (lacks_account p) _ _ (λ _. h)
            (λ _. record {
              saved = omega (arith, h.saved);
              created = started _ _ e h.created;
              reset = omega (arith, h.reset);
              deleted = omega (arith, h.deleted);
              loaded = omega (arith, h.loaded);
              allowed = (tt, h.allowed);
              chosen = h.chosen;
            }))

  reset-IsGuarded :
      (row : Option UserRow) (p : UsersPage) → IsGuarded p → IsGuarded (reset_of row p)
  reset-IsGuarded none p h = h
  reset-IsGuarded (some row) p h =
      if_holds IsGuarded p.resetting_password _ _ (λ e. h)
        (λ e.
          if_holds IsGuarded (ltb (units (trimmed p.new_password)) 8) _ _ (λ _. h)
            (λ _. record {
              saved = omega (arith, h.saved);
              created = omega (arith, h.created);
              reset = started _ _ e h.reset;
              deleted = omega (arith, h.deleted);
              loaded = omega (arith, h.loaded);
              allowed = (tt, h.allowed);
              chosen = h.chosen;
            }))

  delete-IsGuarded :
      (confirmed : Bool) (row : Option UserRow) (p : UsersPage)
      → IsGuarded p
      → IsGuarded (delete_of confirmed row p)
  delete-IsGuarded confirmed none p h = h
  delete-IsGuarded confirmed (some row) p h =
      if_holds IsGuarded p.deleting_user _ _ (λ e. h)
        (λ e.
          if_holds IsGuarded row.account.is_main_admin _ _ (λ _. h)
            (λ other.
              if_holds IsGuarded (not confirmed) _ _ (λ _. h)
                (λ _. record {
                  saved = omega (arith, h.saved);
                  created = omega (arith, h.created);
                  reset = omega (arith, h.reset);
                  deleted = started _ _ e h.deleted;
                  loaded = omega (arith, h.loaded);
                  allowed = (other, h.allowed);
                  chosen = h.chosen;
                })))

  Step-IsGuarded : {p q : UsersPage} → Step fold shown p q → IsGuarded p → IsGuarded q
  unfolding begin_save begin_reset begin_delete
  Step-IsGuarded (input e p) h = settle-IsGuarded _ (edit-IsGuarded e p h)
  Step-IsGuarded (select row p here) h = settle-IsGuarded _ (record {
    saved = h.saved;
    created = h.created;
    reset = h.reset;
    deleted = h.deleted;
    loaded = h.loaded;
    allowed = h.allowed;
    chosen = inr here;
  })
  Step-IsGuarded (refresh p) h = settle-IsGuarded _ (load-IsGuarded p h)
  Step-IsGuarded (save p) h = settle-IsGuarded _ (save-IsGuarded (selected_user fold p) p h)
  Step-IsGuarded (create p) h = settle-IsGuarded _ (create-IsGuarded p h)
  Step-IsGuarded (reset p) h = settle-IsGuarded _ (reset-IsGuarded (selected_user fold p) p h)
  Step-IsGuarded (delete confirmed p) h =
      settle-IsGuarded _ (delete-IsGuarded confirmed (selected_user fold p) p h)
  Step-IsGuarded (answer before job after res p e) h =
      settle-IsGuarded _
        (finish-IsGuarded fold shown p job (before ++ after) res (remaining p before job after e h))

  -- However inputs, clicks and answers interleave on the users page: of each kind of call (save,
  -- create, reset, delete with the load behind it) there is one at most, and its flag is set just
  -- while it runs; the page says that it loads only while a load runs; a call that deletes is not for
  -- an account that is the main administrator; and the selected id is empty or that of a user in the list.
  pub Reach-IsGuarded : {p : UsersPage} → Reach fold shown p → IsGuarded p
  Reach-IsGuarded start = record {
    saved = refl;
    created = refl;
    reset = refl;
    deleted = refl;
    loaded = omega arith;
    allowed = (tt, tt);
    chosen = inl refl;
  }
  Reach-IsGuarded (next r step) = Step-IsGuarded step (Reach-IsGuarded r)
