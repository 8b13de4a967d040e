-- ===== src/Access/ApiKey.antt =====
-- app/deps.py: `require_api_key`, for requests of a shop's own site. `decrypt` is an argument, with
-- `none` for a CryptoError.
use skladbase.Prelude.{
  ℕ, zero, suc, ◌≡◌, refl, ◌∙◌, inl, inr, String, Bool, true, false, ◌&&◌, Option, none, some, List,
  [], ◌∷◌, has_text, is_text, keep, if◌then◌else◌, Bool-cases,
}
use skladbase.Prelude.Tables.{select_one}
use skladbase.Prelude.Texts.{codes, same_codes}
use skladbase.Models.{Shop, http_error, unauthorized, server_error}
use skladbase.Session.{Result, ok, err}
use skladbase.Checkout.Webhooks.{Verdict, compare_digest, is_ascii}

abbrev pub api_key_prefix_len : ℕ
api_key_prefix_len = 8

-- `text[:n]`
unfoldable pub first_chars : ℕ → String → String
first_chars zero text = String.[]
first_chars (suc n) String.[] = String.[]
first_chars (suc n) (String.◌∷◌ c text) = String.◌∷◌ c (first_chars n text)

abbrev pub has_prefix : String → Shop → Bool
has_prefix prefix shop = is_text shop.api_key_prefix prefix

module _ (decrypt : String → Option String) where
  abbrev pub stored_key : Option String → Option String
  stored_key none = none
  stored_key (some encrypted) = if has_text (some encrypted) then decrypt encrypted else none

  abbrev pub by_verdict : Shop → Verdict → Result Shop → Result Shop
  by_verdict shop Verdict.genuine rest = ok shop
  by_verdict shop Verdict.forged rest = rest
  by_verdict shop Verdict.unreadable rest = rest
  by_verdict shop Verdict.crashed rest = err server_error

  abbrev pub compared : String → Shop → Option String → Result Shop → Result Shop
  compared key shop none rest = rest
  compared key shop (some expected) rest =
      by_verdict shop (compare_digest (codes expected) (codes key)) rest

  -- the loop over the candidates
  unfoldable pub try_shops : String → List Shop → Result Shop
  unfolding compare_digest
  try_shops key [] = err (http_error unauthorized)
  try_shops key (shop ∷ shops) =
      compared key shop (stored_key shop.api_key_encrypted) (try_shops key shops)

  unfoldable pub require_api_key : Option String → List Shop → Result Shop
  unfolding try_shops first_chars
  require_api_key none shops = err (http_error unauthorized)
  require_api_key (some key) shops =
      if has_text (some key)
      then try_shops key (keep (has_prefix (first_chars api_key_prefix_len key)) shops)
      else err (http_error unauthorized)

  -- A shop whose stored key is the given one, text for text.
  abbrev pub is_key : String → Option String → Bool
  is_key key none = false
  is_key key (some expected) = same_codes (codes expected) (codes key)

  abbrev pub has_key : String → Shop → Bool
  has_key key shop =
      has_prefix (first_chars api_key_prefix_len key) shop
      && is_key key (stored_key shop.api_key_encrypted)

  abbrev pub or_unauthorized : Option Shop → Result Shop
  or_unauthorized none = err (http_error unauthorized)
  or_unauthorized (some shop) = ok shop

  verdict_lem :
      (key : String) (shop : Shop) (o : Option String) (rest : Result Shop)
      → is_ascii (codes key) ≡ true
      → compared key shop o rest ≡ (if is_key key o then ok shop else rest)
  unfolding compare_digest
  verdict_lem key shop none rest a = refl
  verdict_lem key shop (some expected) rest a =
      elim (Bool-cases (same_codes (codes expected) (codes key))) [
        | inl t ↦ rw (a, t) refl
        | inr f ↦ rw (a, f) refl
      ]

  try_shops-select_one :
      (key : String) (shops : List Shop)
      → is_ascii (codes key) ≡ true
      → try_shops key (keep (has_prefix (first_chars api_key_prefix_len key)) shops)
        ≡ or_unauthorized (select_one (has_key key) shops)
  unfolding try_shops select_one
  try_shops-select_one key [] a = refl
  try_shops-select_one key (shop ∷ shops) a =
      elim (Bool-cases (has_prefix (first_chars api_key_prefix_len key) shop)) [
        | inr other ↦ rw other (try_shops-select_one key shops a)
        | inl hit ↦ elim (Bool-cases (is_key key (stored_key shop.api_key_encrypted))) [
          | inl t ↦
              rw hit (verdict_lem key shop (stored_key shop.api_key_encrypted) _ a ∙ rw t refl)
          | inr f ↦
              rw (hit, f)
                (verdict_lem key shop (stored_key shop.api_key_encrypted) _ a
                  ∙ rw f (try_shops-select_one key shops a))
        ]
      ]

  -- A key of ASCII characters that is not empty opens exactly the first shop that has its prefix and
  -- whose stored key decrypts to it; another shop with the same prefix, a missing key or one that
  -- does not decrypt neither opens nor stands in the way.
  pub require_api_key-select_one :
      (key : String) (shops : List Shop)
      → has_text (some key) ≡ true
      → is_ascii (codes key) ≡ true
      → require_api_key (some key) shops ≡ or_unauthorized (select_one (has_key key) shops)
  unfolding require_api_key
  require_api_key-select_one key shops filled a = rw filled (try_shops-select_one key shops a)
