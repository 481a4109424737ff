-- ===== src/Pages/Home/Held.antt =====
-- The map of counts holds how often each favorite occurs in the history.
use mc_service.Prelude.{
  ℕ, ◌+◌, ◌≡◌, ◌≢◌, refl, sym, subst, ◌∙◌, ap, String, List, [], ◌∷◌, Bool, true, false, map, arith,
  All, All-mono, IsDistinct, if_holds, if_off, Bool-cases, inl, inr, eq_iff, if◌then◌else◌, str_eq,
}
use mc_service.Catalog.Lookup.{includes}
use mc_service.Pages.Home.Popular.{PopularFavoriteEntry, bump, local_counts}

abbrev one_if : Bool → ℕ
one_if true = 1
one_if false = 0

-- How often an id occurs.
abbrev pub occurrences : String → List String → ℕ
occurrences id [] = 0
occurrences id (x ∷ xs) = one_if (str_eq x id) + occurrences id xs

-- The count of an id in the map; 0 if it is not a key.
abbrev pub plays : String → List PopularFavoriteEntry → ℕ
plays id [] = 0
plays id (e ∷ es) = if str_eq e.track_id id then e.play_count else plays id es

abbrev pub keys : List PopularFavoriteEntry → List String
keys = map (λ e. e.track_id)

-- The map holds `f`: one entry for an id at most, and none only where `f` is 0.
pub record Holds (f : String → ℕ) (counts : List PopularFavoriteEntry) : Type 0 where
  pub distinct : IsDistinct (keys counts)
  pub entries : All (λ e. e.play_count ≡ f e.track_id) counts
  pub absent : (id : String) → plays id counts ≡ f id

abbrev plus_one : (String → ℕ) → String → String → ℕ
plus_one f x id = f id + one_if (str_eq x id)

differs : (a b : String) → str_eq a b ≡ false → a ≢ b
differs a b h e = ground (arith, eq_iff a b)

same_or : (a b : String) → str_eq a b ≡ str_eq b a
same_or a b = ground (arith, eq_iff a b, eq_iff b a)

plus_one_same : (f : String → ℕ) (x k : String) → str_eq k x ≡ true → plus_one f x k ≡ f k + 1
plus_one_same f x k h = ap (λ b. f k + one_if b) (same_or x k ∙ h)

plus_one_other : (f : String → ℕ) (x k : String) → str_eq k x ≡ false → plus_one f x k ≡ f k
plus_one_other f x k h = ap (λ b. f k + one_if b) (same_or x k ∙ h) ∙ omega arith

plays-bump :
    (x id : String) (counts : List PopularFavoriteEntry)
    → plays id (bump x counts) ≡ plays id counts + one_if (str_eq x id)
unfolding bump
plays-bump x id [] = ground arith
plays-bump x id (e ∷ es) =
    ground (arith, plays-bump x id es, eq_iff e.track_id x, eq_iff e.track_id id, eq_iff x id)

keys-bump :
    (x y : String) (counts : List PopularFavoriteEntry)
    → x ≢ y
    → All (λ k. k ≢ y) (keys counts)
    → All (λ k. k ≢ y) (keys (bump x counts))
unfolding bump
keys-bump x y [] n h = (n, tt)
keys-bump x y (e ∷ es) n h =
    if_holds (λ c. All (λ k. k ≢ y) (keys c)) (str_eq e.track_id x) _ _ (λ _. h)
      (λ _. (h.0, keys-bump x y es n h.1))

bump-IsDistinct :
    (x : String) (counts : List PopularFavoriteEntry)
    → IsDistinct (keys counts)
    → IsDistinct (keys (bump x counts))
unfolding bump
bump-IsDistinct x [] h = (tt, tt)
bump-IsDistinct x (e ∷ es) h =
    if_holds (λ c. IsDistinct (keys c)) (str_eq e.track_id x) _ _ (λ _. h)
      (λ n. (keys-bump x e.track_id es (λ k. differs _ _ n (sym k)) h.0, bump-IsDistinct x es h.1))

-- Keys that are not `x` keep their counts.
others_kept :
    (f : String → ℕ) (x : String) (es : List PopularFavoriteEntry)
    → All (λ k. k ≢ x) (keys es)
    → All (λ e. e.play_count ≡ f e.track_id) es
    → All (λ e. e.play_count ≡ plus_one f x e.track_id) es
others_kept f x [] n h = tt
others_kept f x (e ∷ es) n h =
    let other : str_eq x e.track_id ≡ false = ground (arith, n.0, eq_iff x e.track_id) in
    ((h.0 ∙ rw other (omega arith)), others_kept f x es n.1 h.1)

bump-entries :
    (f : String → ℕ) (x : String) (counts : List PopularFavoriteEntry)
    → IsDistinct (keys counts)
    → All (λ e. e.play_count ≡ f e.track_id) counts
    → plays x counts ≡ f x
    → All (λ e. e.play_count ≡ plus_one f x e.track_id) (bump x counts)
unfolding bump
bump-entries f x [] d h p = (rw ((eq_iff x x).1 refl) (omega (arith, p)), tt)
bump-entries f x (e ∷ es) d h p =
    if_holds (All (λ e. e.play_count ≡ plus_one f x e.track_id)) (str_eq e.track_id x) _ _
      (λ same. (
        omega (arith, h.0, plus_one_same f x e.track_id same),
        others_kept f x es
            (subst (λ y. All (λ k. k ≢ y) (keys es)) ((eq_iff e.track_id x).0 same) d.0) h.1,
      ))
      (λ other. (
        omega (arith, h.0, plus_one_other f x e.track_id other),
        bump-entries f x es d.1 h.1
            (sym (if_off (str_eq e.track_id x) e.play_count (plays x es) other) ∙ p),
      ))

bump-Holds :
    (f : String → ℕ) (x : String) (counts : List PopularFavoriteEntry)
    → Holds f counts
    → Holds (plus_one f x) (bump x counts)
bump-Holds f x counts h = record {
  distinct = bump-IsDistinct x counts h.distinct;
  entries = bump-entries f x counts h.distinct h.entries (h.absent x);
  absent = λ id. plays-bump x id counts ∙ ap (λ n. n + one_if (str_eq x id)) (h.absent id);
}

-- How often a favorite occurs; no other id counts.
abbrev pub favorite_plays : List String → List String → String → ℕ
favorite_plays favorites history id = if includes id favorites then occurrences id history else 0

counted :
    (favorites : List String) (x : String) (ids : List String) (id : String) (n : ℕ)
    → includes x favorites ≡ true
    → n + one_if (str_eq x id) + favorite_plays favorites ids id
      ≡ n + favorite_plays favorites (x ∷ ids) id
counted favorites x ids id n known = elim (Bool-cases (str_eq x id)) [
  | inl e ↦
      let here : includes id favorites ≡ true = rw (sym ((eq_iff x id).0 e)) known in
      rw (e, here) (omega arith)
  | inr e ↦ rw e (ground arith)
]

skipped :
    (favorites : List String) (x : String) (ids : List String) (id : String) (n : ℕ)
    → includes x favorites ≡ false
    → n + favorite_plays favorites ids id ≡ n + favorite_plays favorites (x ∷ ids) id
skipped favorites x ids id n other = elim (Bool-cases (str_eq x id)) [
  | inl e ↦
      let away : includes id favorites ≡ false = rw (sym ((eq_iff x id).0 e)) other in
      rw (e, away) refl
  | inr e ↦ rw e (ground arith)
]

pub Holds_same :
    (f g : String → ℕ) (counts : List PopularFavoriteEntry)
    → ((id : String) → f id ≡ g id)
    → Holds f counts
    → Holds g counts
Holds_same f g counts e h = record {
  distinct = h.distinct;
  entries = All-mono _ _ counts (λ x p. p ∙ e x.track_id) h.entries;
  absent = λ id. h.absent id ∙ e id;
}

-- The loop from a map that holds `f`.
pub counts-Holds :
    (favorites ids : List String) (f : String → ℕ) (counts : List PopularFavoriteEntry)
    → Holds f counts
    → Holds (λ id. f id + favorite_plays favorites ids id) (local_counts favorites ids counts)
unfolding local_counts
counts-Holds favorites [] f counts h = Holds_same f _ counts (λ id. ground arith) h
counts-Holds favorites (x ∷ ids) f counts h =
    if_holds
      (λ c.
        Holds (λ id. f id + favorite_plays favorites (x ∷ ids) id) (local_counts favorites ids c))
      (includes x favorites) _ _
      (λ known.
        Holds_same (λ id. plus_one f x id + favorite_plays favorites ids id) _ _
          (λ id. counted favorites x ids id (f id) known)
          (counts-Holds favorites ids (plus_one f x) (bump x counts) (bump-Holds f x counts h)))
      (λ other.
        Holds_same (λ id. f id + favorite_plays favorites ids id) _ _
          (λ id. skipped favorites x ids id (f id) other) (counts-Holds favorites ids f counts h))
