-- ===== src/Pages/Profile/Legal.antt =====
-- The legal documents: `parseLegalDocs` and `fetchLegalDocs`.
use mc_service.Prelude.{
  ◌≡◌, ◌≢◌, ◌⊎◌, inl, inr, String, Option, List, [], ◌∷◌, Bool, true, false, not, ◌||◌, arith,
  Bool-cases, if_holds, eq_iff, if◌then◌else◌, str_eq,
}
use mathlib.Core.Bool.{false≢true}
use mc_service.Json.{Json}
use mc_service.Platform.{Platform}
use mc_service.Session.State.{Server, Result, ok, raise, World, M}
use mc_service.Session.Client.{api_get}
use mc_service.Pages.Attempts.{is_unauthorized_error, first_member, read_maybe_string}

pub record LegalDocuments : Type 0 where
  pub privacy_policy : String
  pub terms_of_service : String

-- A payload that is not an object has none of the members.
unfoldable pub parse_legal_docs : Option Json → LegalDocuments
parse_legal_docs payload = record {
  privacy_policy =
      read_maybe_string
        (first_member ("privacy_policy" ∷ "privacyPolicy" ∷ "privacy" ∷ "policy" ∷ []) payload);
  terms_of_service =
      read_maybe_string
        (first_member ("terms_of_service" ∷ "termsOfService" ∷ "tos" ∷ "terms" ∷ []) payload);
}

abbrev pub unconfigured : LegalDocuments
unconfigured = record {
  privacy_policy =
      "Privacy policy is not configured yet. Ask an administrator to publish it in the admin panel.";
  terms_of_service =
      "Terms of service are not configured yet. Ask an administrator to publish them in the admin panel.";
}

abbrev pub has_text : LegalDocuments → Bool
has_text docs = not (str_eq docs.privacy_policy "") || not (str_eq docs.terms_of_service "")

-- Behind the reply of an endpoint; `others` are the endpoints that are left. A failure that is not
-- "unauthorized" goes on to them, whatever its status.
abbrev pub tried : M LegalDocuments → Result (Option Json) × World → Result LegalDocuments × World
tried others (ok payload, w) =
    if has_text (parse_legal_docs payload) then (ok (parse_legal_docs payload), w) else others w
tried others (raise e, w) = if is_unauthorized_error e then (raise e, w) else others w

abbrev pub endpoints : List String
endpoints =
    "/settings/legal" ∷ "/settings/public/legal" ∷ "/public/legal" ∷ "/settings/documents" ∷ []

module _ (browser : Platform) (server : Server) where
  unfoldable pub fetch_from : List String → M LegalDocuments
  fetch_from [] w = (ok unconfigured, w)
  fetch_from (endpoint ∷ rest) w =
      let others = fetch_from rest in tried others (api_get browser server endpoint [] w)

  unfoldable pub fetch_legal_docs : M LegalDocuments
  unfolding fetch_from
  fetch_legal_docs = fetch_from endpoints

-- There is something to show, or the session is over.
abbrev pub IsShowable : Result LegalDocuments × World → Type 0
IsShowable (ok docs, w) = (docs.privacy_policy ≢ "") ⊎ (docs.terms_of_service ≢ "")
IsShowable (raise e, w) = is_unauthorized_error e ≡ true

has_text-IsShowable :
    (docs : LegalDocuments)
    → has_text docs ≡ true
    → (docs.privacy_policy ≢ "") ⊎ (docs.terms_of_service ≢ "")
has_text-IsShowable docs h = elim (Bool-cases (str_eq docs.privacy_policy "")) [
  | inl e ↦ inr (differs docs.terms_of_service (ground arith))
  | inr e ↦ inl (differs docs.privacy_policy e)
]
  where
    differs : (s : String) → str_eq s "" ≡ false → s ≢ ""
    differs s h e = ground (arith, eq_iff s "")

tried-IsShowable :
    (others : M LegalDocuments) (r : Result (Option Json) × World)
    → ((w : World) → IsShowable (others w))
    → IsShowable (tried others r)
tried-IsShowable others (ok payload, w) h =
    if_holds IsShowable (has_text (parse_legal_docs payload)) _ _
      (has_text-IsShowable (parse_legal_docs payload)) (λ _. h w)
tried-IsShowable others (raise e, w) h =
    if_holds IsShowable (is_unauthorized_error e) _ _ (λ e. e) (λ _. h w)

module _ (browser : Platform) (server : Server) where
  fetch_from-IsShowable :
      (paths : List String) (w : World) → IsShowable (fetch_from browser server paths w)
  unfolding fetch_from
  fetch_from-IsShowable [] w = inl (λ e. false≢true ((eq_iff unconfigured.privacy_policy "").1 e))
  fetch_from-IsShowable (path ∷ paths) w =
      tried-IsShowable (fetch_from browser server paths) (api_get browser server path [] w)
        (fetch_from-IsShowable paths)

  -- Whatever the endpoints answer, `fetchLegalDocs` returns documents of which one has a text, or
  -- throws the failure "unauthorized".
  pub fetch_legal_docs-IsShowable : (w : World) → IsShowable (fetch_legal_docs browser server w)
  unfolding fetch_legal_docs
  fetch_legal_docs-IsShowable w = fetch_from-IsShowable endpoints w
