-- ===== src/Ui/Stored.antt =====
-- What the storage says of the preferences, and the theme and density that it leads to.
use mc_service.Prelude.{
  String, ◌≡◌, refl, ap, sym, ◌∙◌, Option, Option-cases, Bool-cases, inl, inr, none, some, ◌⊎◌, ◌≢◌,
  All, Has, List, [], ◌∷◌, false, arith, str_eq, eq_iff,
}
use mc_service.Platform.{Storage, get_item}
use mc_service.Ui.Store.{
  AccentTheme, UiDensity, comfortable, balanced, compact, UiWorld, accent_themes, density_options,
  or_theme, default_theme, get_accent_theme, find_theme, get_density, find_density, density_id,
  or_text, default_accent_id, default_locale, accent_storage_key, locale_storage_key,
  density_storage_key,
}

-- What a stored text says of a theme or a density: none that there is.
abbrev IsUnknownTheme : Option String → Type 0
IsUnknownTheme o = (o ≡ none) ⊎ ((id : String) × (o ≡ some id) × All (λ t. t.id ≢ id) accent_themes)

abbrev IsUnknownDensity : Option String → Type 0
IsUnknownDensity o =
    (o ≡ none) ⊎ ((s : String) × (o ≡ some s) × All (λ d. density_id d ≢ s) density_options)

-- The page shows what the storage holds, or else the default.
pub record IsStored (storage : Storage) (w : UiWorld) : Type 0 where
  pub theme :
      ((t : AccentTheme) × (get_item accent_storage_key storage ≡ some t.id)
        × Has t accent_themes
        × (w.document.theme ≡ some t)
        × (w.ui.accent_theme_id ≡ t.id))
      ⊎ (IsUnknownTheme (get_item accent_storage_key storage)
          × (w.document.theme ≡ some default_theme)
          × (w.ui.accent_theme_id ≡ "glacier"))
  pub locale :
      ((l : String) × (get_item locale_storage_key storage ≡ some l) × (w.ui.locale ≡ l))
      ⊎ ((get_item locale_storage_key storage ≡ none) × (w.ui.locale ≡ "en"))
  pub density :
      ((d : UiDensity) × (get_item density_storage_key storage ≡ some (density_id d))
        × (w.document.density ≡ some d)
        × (w.ui.density ≡ d))
      ⊎ (IsUnknownDensity (get_item density_storage_key storage)
          × (w.document.density ≡ some balanced)
          × (w.ui.density ≡ balanced))

some_theme : (u t : AccentTheme) → ◌≡◌ {A = Option AccentTheme} (some u) (some t) → u ≡ t
some_theme u t e = cc

some_no_theme : (u : AccentTheme) → ◌≡◌ {A = Option AccentTheme} (some u) none → ⊥
some_no_theme u e = cc

differs : (a b : String) → str_eq a b ≡ false → a ≢ b
differs a b h e = ground (arith, eq_iff a b)

find_theme-id :
    (id : String) (ts : List AccentTheme) (t : AccentTheme) → find_theme id ts ≡ some t → t.id ≡ id
unfolding find_theme
find_theme-id id [] t e = cc
find_theme-id id (u ∷ ts) t e = elim (Bool-cases (str_eq u.id id)) [
  | inl same ↦ ap (λ x. x.id) (sym (some_theme u t (rw same at e))) ∙ (eq_iff u.id id).0 same
  | inr other ↦ find_theme-id id ts t (rw other at e)
]

pub default_found : or_theme (find_theme "glacier" accent_themes) default_theme ≡ default_theme
unfolding find_theme
default_found = refl

found_again :
    (id : String) (t : AccentTheme)
    → find_theme id accent_themes ≡ some t
    → or_theme (find_theme t.id accent_themes) default_theme ≡ t
found_again id t e =
    ap (λ x. or_theme (find_theme x accent_themes) default_theme)
      (find_theme-id id accent_themes t e)
    ∙ ap (λ o. or_theme o default_theme) e

-- The theme found by the id of a theme that was found is the same one.
pub theme_again : (id : String) → get_accent_theme (get_accent_theme id).id ≡ get_accent_theme id
unfolding get_accent_theme
theme_again id = elim (Option-cases (find_theme id accent_themes)) [
  | inl e ↦ rw e default_found
  | inr (t, e) ↦ rw e (found_again id t e)
]

find_theme-Has :
    (id : String) (ts : List AccentTheme) (t : AccentTheme) → find_theme id ts ≡ some t → Has t ts
unfolding find_theme
find_theme-Has id [] t e = cc
find_theme-Has id (u ∷ ts) t e = elim (Bool-cases (str_eq u.id id)) [
  | inl same ↦ inl (some_theme u t (rw same at e))
  | inr other ↦ inr (find_theme-Has id ts t (rw other at e))
]

find_theme-none :
    (id : String) (ts : List AccentTheme) → find_theme id ts ≡ none → All (λ t. t.id ≢ id) ts
unfolding find_theme
find_theme-none id [] e = tt
find_theme-none id (u ∷ ts) e = elim (Bool-cases (str_eq u.id id)) [
  | inl same ↦ absurd (some_no_theme u (rw same at e))
  | inr other ↦ ((λ h. ground (arith, h, eq_iff u.id id)), find_theme-none id ts (rw other at e))
]

pub theme_cases :
    (o : Option String)
    → ((t : AccentTheme) × (o ≡ some t.id)
        × Has t accent_themes
        × (get_accent_theme (or_text o default_accent_id) ≡ t))
      ⊎ (IsUnknownTheme o × (get_accent_theme (or_text o default_accent_id) ≡ default_theme))
unfolding get_accent_theme
theme_cases none = inr (inl refl, default_found)
theme_cases (some id) = elim (Option-cases (find_theme id accent_themes)) [
  | inl e ↦
      inr (inr (id, refl, find_theme-none id accent_themes e), ap (λ o. or_theme o default_theme) e)
  | inr (t, e) ↦ inl (
    t,
    ap some (sym (find_theme-id id accent_themes t e)),
    find_theme-Has id accent_themes t e,
    ap (λ o. or_theme o default_theme) e,
  )
]

pub density_cases :
    (o : Option String)
    → ((d : UiDensity) × (o ≡ some (density_id d)) × (get_density o ≡ d))
      ⊎ (IsUnknownDensity o × (get_density o ≡ balanced))
unfolding get_density find_density
density_cases none = inr (inl refl, refl)
density_cases (some s) = elim (Bool-cases (str_eq "comfortable" s)) [
  | inl e ↦ rw e (inl (comfortable, ap some (sym ((eq_iff "comfortable" s).0 e)), refl))
  | inr a ↦ elim (Bool-cases (str_eq "balanced" s)) [
    | inl e ↦ rw (a, e) (inl (balanced, ap some (sym ((eq_iff "balanced" s).0 e)), refl))
    | inr b ↦ elim (Bool-cases (str_eq "compact" s)) [
      | inl e ↦ rw (a, b, e) (inl (compact, ap some (sym ((eq_iff "compact" s).0 e)), refl))
      | inr c ↦
          rw (a, b, c)
            (inr (inr (s, refl, (differs _ s a, (differs _ s b, (differs _ s c, tt)))), refl))
    ]
  ]
]

pub locale_cases :
    (o : Option String)
    → ((l : String) × (o ≡ some l) × (or_text o default_locale ≡ l))
      ⊎ ((o ≡ none) × (or_text o default_locale ≡ "en"))
locale_cases none = inr (refl, refl)
locale_cases (some l) = inl (l, refl, refl)
