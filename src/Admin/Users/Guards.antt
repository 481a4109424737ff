-- ===== src/Admin/Users/Guards.antt =====
-- Every handler of the users page keeps the flags, the list and the calls in order.
use mc_service.Prelude.{
  ℕ, ◌+◌, ◌≤◌, String, ◌≡◌, refl, ◌∙◌, ◌⊎◌, inl, inr, List, [], ◌∷◌, ◌++◌, map, Bool, true, false,
  not, ◌&&◌, arith, All, Has, if_holds, Bool-cases, eq_iff, subst, sym, ap, str_eq,
}
use mathlib.Core.Bool.{false≢true}
use mc_service.Json.{Json}
use mc_service.Session.State.{Result, ok, raise}
use mc_service.Library.Defs.{any}
use mc_service.Admin.Users.Defs.{
  UserRow, Job, loading, reloading, saving, creating, resetting, deleting, UsersPage, has_id,
  numbered,
}
use mc_service.Admin.Users.Operations.{
  begin_load, finish_load, finish_save, finish_create, finish_reset, finish_delete, finish_reload,
  kept_or_first, replaced,
}
use mc_service.Admin.Users.Reach.{
  Answer, finish, saves, creates, resets, deletes, loads, sum, one, IsAllowed, AreGuarded,
  IsGuarded, sum-remove, All-remove,
}

-- The page without one of its calls.
pub record AreRest (p : UsersPage) (job : Job) (rest : List Job) : Type 0 where
  pub saved : saves job + sum saves rest ≡ one p.saving_user
  pub created : creates job + sum creates rest ≡ one p.creating_user
  pub reset : resets job + sum resets rest ≡ one p.resetting_password
  pub deleted : deletes job + sum deletes rest ≡ one p.deleting_user
  pub loaded : one p.loading_users ≤ loads job + sum loads rest
  pub allowed : All IsAllowed rest
  pub chosen : (p.selected_user_id ≡ "") ⊎ Has p.selected_user_id (map (λ r. r.account.id) p.users)

pub remaining :
    (p : UsersPage) (before : List Job) (job : Job) (after : List Job)
    → p.jobs ≡ before ++ (job ∷ after)
    → IsGuarded p
    → AreRest p job (before ++ after)
remaining p before job after e h = record {
  saved = omega (arith, h.saved, ap (sum saves) e, sum-remove saves before job after);
  created = omega (arith, h.created, ap (sum creates) e, sum-remove creates before job after);
  reset = omega (arith, h.reset, ap (sum resets) e, sum-remove resets before job after);
  deleted = omega (arith, h.deleted, ap (sum deletes) e, sum-remove deletes before job after);
  loaded = omega (arith, h.loaded, ap (sum loads) e, sum-remove loads before job after);
  allowed = All-remove IsAllowed before job after (subst (All IsAllowed) e h.allowed);
  chosen = h.chosen;
}

and_right : (a b : Bool) → (a && b) ≡ true → b ≡ true
and_right true b h = h
and_right false b h = absurd (false≢true h)

one_zero : (b : Bool) (n : ℕ) → 1 + n ≡ one b → n ≡ 0
one_zero true n h = omega arith
one_zero false n h = omega arith

-- The id that a load selects is one of the list.
any-Has :
    (id : String) (rows : List UserRow)
    → any (has_id id) rows ≡ true
    → Has id (map (λ r. r.account.id) rows)
any-Has id [] h = absurd (false≢true h)
any-Has id (row ∷ rows) h = elim (Bool-cases (str_eq row.account.id id)) [
  | inl e ↦ inl ((eq_iff row.account.id id).0 e)
  | inr e ↦ inr (any-Has id rows (ground arith))
]

-- An answer of the same id takes the place of an account.
replaced-Has :
    (id : String) (new : UserRow) (rows : List UserRow)
    → Has id (map (λ r. r.account.id) rows)
    → Has id (map (λ r. r.account.id) (map (replaced new) rows))
replaced-Has id new [] h = elim h [ ]
replaced-Has id new (row ∷ rows) (inr h) = inr (replaced-Has id new rows h)
replaced-Has id new (row ∷ rows) (inl h) = inl (
    if_holds (λ r. r.account.id ≡ id) (str_eq row.account.id new.account.id) new row
      (λ e. sym ((eq_iff row.account.id new.account.id).0 e) ∙ h) (λ e. h))

last-Has :
    (rows : List UserRow) (row : UserRow)
    → Has row.account.id (map (λ r. r.account.id) (rows ++ (row ∷ [])))
last-Has [] row = inl refl
last-Has (r ∷ rows) row = inr (last-Has rows row)

module _ (fold : String → String) (shown : Json → String) where
  kept-Has :
      (current : String) (rows : List UserRow)
      → (kept_or_first current rows ≡ "")
        ⊎ Has (kept_or_first current rows) (map (λ r. r.account.id) rows)
  kept-Has current [] = inl refl
  kept-Has current (row ∷ rows) =
      if_holds (λ id. (id ≡ "") ⊎ Has id (map (λ r. r.account.id) (row ∷ rows)))
        (not (str_eq current "") && any (has_id current) (row ∷ rows)) current row.account.id
        (λ e. inr (any-Has current (row ∷ rows) (and_right _ _ e))) (λ e. inr (inl refl))

  -- Behind a load the list is new, and an id is selected that is in it.
  loaded_rows :
      (p : UsersPage) (job : Job) (rest : List Job) (rows : List UserRow) (id : String)
      (deletes_now : Bool)
      → AreRest p job rest
      → saves job ≡ 0
      → creates job ≡ 0
      → resets job ≡ 0
      → sum deletes rest ≡ one deletes_now
      → (id ≡ "") ⊎ Has id (map (λ r. r.account.id) rows)
      → AreGuarded rows id false p.saving_user p.creating_user p.resetting_password deletes_now rest
  loaded_rows p job rest rows id deletes_now h s c r d chosen = record {
    saved = omega (arith, h.saved);
    created = omega (arith, h.created);
    reset = omega (arith, h.reset);
    deleted = d;
    loaded = omega arith;
    allowed = h.allowed;
    chosen = chosen;
  }

  pub finish-IsGuarded :
      (p : UsersPage) (job : Job) (rest : List Job) (res : Result (Answer job))
      → AreRest p job rest
      → IsGuarded (finish fold shown job res rest p)
  unfolding finish_reload finish_load finish_save finish_create finish_reset finish_delete
      begin_load
  finish-IsGuarded p loading rest (ok accounts) h =
      loaded_rows p loading rest _ _ p.deleting_user h refl refl refl (omega (arith, h.deleted))
        (kept-Has p.selected_user_id (numbered p.objects accounts))
  finish-IsGuarded p loading rest (raise x) h =
      loaded_rows p loading rest _ _ p.deleting_user h refl refl refl (omega (arith, h.deleted))
        (inl refl)
  finish-IsGuarded p reloading rest (ok accounts) h =
      loaded_rows p reloading rest _ _ false h refl refl refl (one_zero p.deleting_user _ h.deleted)
        (kept-Has p.selected_user_id (numbered p.objects accounts))
  finish-IsGuarded p reloading rest (raise x) h =
      loaded_rows p reloading rest _ _ false h refl refl refl (one_zero p.deleting_user _ h.deleted)
        (inl refl)
  finish-IsGuarded p (saving id update) rest (ok a) h = record {
    saved = one_zero p.saving_user _ h.saved;
    created = omega (arith, h.created);
    reset = omega (arith, h.reset);
    deleted = omega (arith, h.deleted);
    loaded = omega (arith, h.loaded);
    allowed = h.allowed;
    chosen = elim h.chosen [ inl e ↦ inl e | inr e ↦ inr (replaced-Has _ _ p.users e) ];
  }
  finish-IsGuarded p (saving id update) rest (raise x) h = record {
    saved = one_zero p.saving_user _ h.saved;
    created = omega (arith, h.created);
    reset = omega (arith, h.reset);
    deleted = omega (arith, h.deleted);
    loaded = omega (arith, h.loaded);
    allowed = h.allowed;
    chosen = h.chosen;
  }
  finish-IsGuarded p (creating account) rest (ok a) h = record {
    saved = omega (arith, h.saved);
    created = one_zero p.creating_user _ h.created;
    reset = omega (arith, h.reset);
    deleted = omega (arith, h.deleted);
    loaded = omega (arith, h.loaded);
    allowed = h.allowed;
    chosen = inr (last-Has p.users _);
  }
  finish-IsGuarded p (creating account) rest (raise x) h = record {
    saved = omega (arith, h.saved);
    created = one_zero p.creating_user _ h.created;
    reset = omega (arith, h.reset);
    deleted = omega (arith, h.deleted);
    loaded = omega (arith, h.loaded);
    allowed = h.allowed;
    chosen = h.chosen;
  }
  finish-IsGuarded p (resetting id password) rest (ok res) h = record {
    saved = omega (arith, h.saved);
    created = omega (arith, h.created);
    reset = one_zero p.resetting_password _ h.reset;
    deleted = omega (arith, h.deleted);
    loaded = omega (arith, h.loaded);
    allowed = h.allowed;
    chosen = h.chosen;
  }
  finish-IsGuarded p (resetting id password) rest (raise x) h = record {
    saved = omega (arith, h.saved);
    created = omega (arith, h.created);
    reset = one_zero p.resetting_password _ h.reset;
    deleted = omega (arith, h.deleted);
    loaded = omega (arith, h.loaded);
    allowed = h.allowed;
    chosen = h.chosen;
  }
  finish-IsGuarded p (deleting account) rest (ok res) h = record {
    saved = omega (arith, h.saved);
    created = omega (arith, h.created);
    reset = omega (arith, h.reset);
    deleted = omega (arith, h.deleted);
    loaded = omega arith;
    allowed = (tt, h.allowed);
    chosen = h.chosen;
  }
  finish-IsGuarded p (deleting account) rest (raise x) h = record {
    saved = omega (arith, h.saved);
    created = omega (arith, h.created);
    reset = omega (arith, h.reset);
    deleted = one_zero p.deleting_user _ h.deleted;
    loaded = omega (arith, h.loaded);
    allowed = h.allowed;
    chosen = h.chosen;
  }
