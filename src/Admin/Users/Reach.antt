-- ===== src/Admin/Users/Reach.antt =====
-- Inputs, clicks and answers on the users page in any order, and what they keep.
use mc_service.Prelude.{
  ℕ, ◌+◌, ◌≤◌, String, ◌≡◌, refl, ◌⊎◌, Option, none, some, List, [], ◌∷◌, ◌++◌, map, Bool, true,
  false, arith, All, Has,
}
use mc_service.Json.{Json}
use mc_service.Session.State.{Result}
use mc_service.Services.Types.{AdminUserAccount, AdminActionResponse}
use mc_service.Admin.Users.Defs.{
  UserRow, Job, loading, reloading, saving, creating, resetting, deleting, UsersPage, opened, Edit,
  edit, set_search, set_role_filter, set_status_filter, set_editing_username, set_editing_email,
  set_new_password, set_editing_role, set_editing_is_active, set_create_username, set_create_email,
  set_create_password, set_create_role, set_create_is_active, fill_form,
}
use mc_service.Admin.Users.Operations.{
  settle, begin_load, finish_load, begin_save, finish_save, begin_create, finish_create,
  begin_reset, finish_reset, begin_delete, finish_delete, finish_reload,
}

-- What the server answers to a call.
abbrev pub Answer : Job → Type 0
Answer loading = List AdminUserAccount
Answer reloading = List AdminUserAccount
Answer (saving id update) = AdminUserAccount
Answer (creating account) = AdminUserAccount
Answer (resetting id password) = AdminActionResponse
Answer (deleting account) = AdminActionResponse

module _ (fold : String → String) (shown : Json → String) where
  abbrev pub finish : (job : Job) → Result (Answer job) → List Job → UsersPage → UsersPage
  finish loading res = finish_load shown res
  finish reloading res = finish_reload shown res
  finish (saving id update) res = finish_save shown res
  finish (creating account) res = finish_create shown res
  finish (resetting id password) res = finish_reset shown res
  finish (deleting account) res = finish_delete shown res

  -- An input, a click on a row or on a button, or the answer to a call; then the effect.
  pub data Step : UsersPage → UsersPage → Type 0 where
    input : (e : Edit) (p : UsersPage) → Step p (settle fold (edit e p))
    select :
        (row : UserRow) (p : UsersPage)
        → Has row.account.id (map (λ r. r.account.id) p.users)
        → Step p (settle fold (record p { selected_user_id = row.account.id }))
    refresh : (p : UsersPage) → Step p (settle fold (begin_load loading p))
    save : (p : UsersPage) → Step p (settle fold (begin_save fold p))
    create : (p : UsersPage) → Step p (settle fold (begin_create p))
    reset : (p : UsersPage) → Step p (settle fold (begin_reset fold p))
    delete :
        (confirmed : Bool) (p : UsersPage) → Step p (settle fold (begin_delete fold confirmed p))
    answer :
        (before : List Job) (job : Job) (after : List Job) (res : Result (Answer job))
        (p : UsersPage)
        → p.jobs ≡ before ++ (job ∷ after)
        → Step p (settle fold (finish job res (before ++ after) p))

  pub data Reach : UsersPage → Type 0 where
    start : Reach opened
    next : {p q : UsersPage} → Reach p → Step p q → Reach q

-- The kinds of call.
abbrev pub saves : Job → ℕ
saves (saving id update) = 1
saves _ = 0

abbrev pub creates : Job → ℕ
creates (creating account) = 1
creates _ = 0

abbrev pub resets : Job → ℕ
resets (resetting id password) = 1
resets _ = 0

abbrev pub deletes : Job → ℕ
deletes (deleting account) = 1
deletes reloading = 1
deletes _ = 0

abbrev pub loads : Job → ℕ
loads loading = 1
loads reloading = 1
loads _ = 0

abbrev pub sum : (Job → ℕ) → List Job → ℕ
sum f [] = 0
sum f (j ∷ js) = f j + sum f js

abbrev pub one : Bool → ℕ
one true = 1
one false = 0

-- A call that deletes is not for the main administrator.
abbrev pub IsAllowed : Job → Type 0
IsAllowed (deleting account) = account.is_main_admin ≡ false
IsAllowed _ = Unit {0}

pub record AreGuarded (users : List UserRow) (selected : String)
    (loads_now saves_now creates_now resets_now deletes_now : Bool) (jobs : List Job) : Type 0 where
  pub saved : sum saves jobs ≡ one saves_now
  pub created : sum creates jobs ≡ one creates_now
  pub reset : sum resets jobs ≡ one resets_now
  pub deleted : sum deletes jobs ≡ one deletes_now
  pub loaded : one loads_now ≤ sum loads jobs
  pub allowed : All IsAllowed jobs
  pub chosen : (selected ≡ "") ⊎ Has selected (map (λ r. r.account.id) users)

-- The flags tell which calls run, no two of a kind, the main administrator is not deleted, and the
-- selected id is one of the list.
abbrev pub IsGuarded : UsersPage → Type 0
IsGuarded p =
    AreGuarded p.users p.selected_user_id p.loading_users p.saving_user p.creating_user
      p.resetting_password p.deleting_user p.jobs

pub edit-IsGuarded : (e : Edit) (p : UsersPage) → IsGuarded p → IsGuarded (edit e p)
edit-IsGuarded (set_search q) p h = h
edit-IsGuarded (set_role_filter f) p h = h
edit-IsGuarded (set_status_filter f) p h = h
edit-IsGuarded (set_editing_username t) p h = h
edit-IsGuarded (set_editing_email t) p h = h
edit-IsGuarded (set_new_password t) p h = h
edit-IsGuarded (set_editing_role r) p h = h
edit-IsGuarded (set_editing_is_active b) p h = h
edit-IsGuarded (set_create_username t) p h = h
edit-IsGuarded (set_create_email t) p h = h
edit-IsGuarded (set_create_password t) p h = h
edit-IsGuarded (set_create_role r) p h = h
edit-IsGuarded (set_create_is_active b) p h = h

pub filled-IsGuarded :
    (row : Option UserRow) (p : UsersPage) → IsGuarded p → IsGuarded (fill_form row p)
filled-IsGuarded none p h = h
filled-IsGuarded (some row) p h = h

pub sum-remove :
    (f : Job → ℕ) (before : List Job) (job : Job) (after : List Job)
    → sum f (before ++ (job ∷ after)) ≡ f job + sum f (before ++ after)
sum-remove f [] job after = refl
sum-remove f (b ∷ before) job after = omega (arith, sum-remove f before job after)

pub All-remove :
    (P : Job → Type 0) (before : List Job) (job : Job) (after : List Job)
    → All P (before ++ (job ∷ after))
    → All P (before ++ after)
All-remove P [] job after h = h.1
All-remove P (b ∷ before) job after h = (h.0, All-remove P before job after h.1)
