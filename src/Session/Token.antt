-- ===== src/Session/Token.antt =====
-- auth.ts, lines 21 to 46: the expiry of a JSON web token. A text is taken apart by its code points.
use mc_service.Prelude.{
  ℕ, ◌+◌, ◌-◌, ◌*◌, ◌/◌, String, Option, none, some, List, [], ◌∷◌, ◌++◌, Bool, true, false, not,
  if◌then◌else◌, ◌==◌, length, replicate, map, codes,
}
use mc_service.Prelude.Int.{ℤ, pos, ltb_ℤ}
use mc_service.Json.{Json, get}
use mc_service.Platform.{Platform}
use mc_service.Session.Client.{if_truthy}

-- `text.split(".")`
unfoldable pub split_dot : List ℕ → List ℕ → List (List ℕ)
split_dot part [] = part ∷ []
split_dot part (c ∷ rest) = elim (c == b'.') [
  | true ↦ part ∷ split_dot [] rest
  | false ↦ split_dot (part ++ c ∷ []) rest
]

-- `.replace(/-/g, "+").replace(/_/g, "/")`, at one character
abbrev pub from_url : ℕ → ℕ
from_url c = if c == b'-' then b'+' else if c == b'_' then b'/' else c

-- `base64.padEnd(Math.ceil(base64.length / 4) * 4, "=")`
unfoldable pub pad : List ℕ → List ℕ
pad base64 = let size = length base64 in base64 ++ replicate ((size + 3) / 4 * 4 - size) b'='

module _ (browser : Platform) where
  decode_parts : List (List ℕ) → Option Json
  decode_parts (header ∷ payload ∷ signature ∷ []) =
      elim (browser.atob (pad (map from_url payload))) [
        | none ↦ none
        | some decoded ↦ browser.parse decoded
      ]
  decode_parts _ = none

  -- `decodeJwtPayload`; `none` is null
  unfoldable pub decode_jwt_payload : String → Option Json
  unfolding decode_parts split_dot pad
  decode_jwt_payload token = decode_parts (split_dot [] (codes token))

  -- `exp <= now`, at a value that counts as true
  abbrev pub is_past : Json → ℤ → Bool
  is_past exp now = elim (browser.to_number exp) [ none ↦ false | some n ↦ not (ltb_ℤ now n) ]

  -- `isJwtExpired`, at the time `Date.now()` in milliseconds
  unfoldable pub is_jwt_expired : ℕ → String → Bool
  unfolding get
  is_jwt_expired now_ms token = elim (decode_jwt_payload token) [
    | none ↦ true
    | some payload ↦ elim (if_truthy (get "exp" payload)) [
      | none ↦ true
      | some exp ↦ is_past exp (pos (now_ms / 1000))
    ]
  ]
