-- ===== src/Core/Secrets/Scrubber.antt =====
-- The secrets that a scrubber looks for (`SecretScrubber`, `variants`, `forms` of
-- packages/core/src/secrets.ts). How the platform writes a text (as JSON, HTML, in an address, in
-- its normal forms) and how a header value is parsed are parameters: functions of the language, or
-- patterns over texts.
pub mod Hides
use trawler.Base.{
  ℕ, Bool, true, false, Option, none, some, List, [], ◌∷◌, ◌++◌, ltb, leb, ◌==◌, not, ◌&&◌, ◌||◌,
  if◌then◌else◌, any, filter, length, ◌>>=◌,
}

-- `MIN_SECRET_LENGTH`
abbrev pub min_secret_length : ℕ
min_secret_length = 8

abbrev pub same_text : List ℕ → List ℕ → Bool
same_text [] [] = true
same_text [] (d ∷ ds) = false
same_text (c ∷ cs) [] = false
same_text (c ∷ cs) (d ∷ ds) = c == d && same_text cs ds

abbrev pub has_text : List ℕ → List (List ℕ) → Bool
has_text t = any (same_text t)

-- `[...new Set(texts)]`, after those that are seen.
unfoldable pub unique_after : List (List ℕ) → List (List ℕ) → List (List ℕ)
unique_after seen [] = []
unique_after seen (t ∷ texts) =
    let new = t ∷ unique_after (t ∷ seen) texts in
    let old = unique_after seen texts in if has_text t seen then old else new

abbrev pub unique : List (List ℕ) → List (List ℕ)
unique = unique_after []

pub record Scrubber : Type 0 where
  pub needles : List (List ℕ)
  pub browser_needles : List (List ℕ)

-- What the platform makes of a text.
pub record Writing : Type 0 where
  pub well_formed : List ℕ → List ℕ
  pub as_shown : List ℕ → List ℕ
  pub collapsed : List ℕ → List ℕ
  pub nfc : List ℕ → List ℕ
  pub nfd : List ℕ → List ℕ
  pub encodings : List ℕ → List (List ℕ)

pub record HttpCredentials : Type 0 where
  pub password : List ℕ
  pub basic : List ℕ

-- The secrets of a project: passwords of accounts, and header values with the parts of them that
-- are credentials.
pub record ProjectSecrets : Type 0 where
  pub passwords : List (List ℕ)
  pub http_credentials : Option HttpCredentials
  pub secret_headers : List (List ℕ × List (List ℕ))

abbrev pub is_long : List ℕ → Bool
is_long t = leb min_secret_length (length t)

abbrev not_empty : List ℕ → Bool
not_empty t = ltb 0 (length t)

abbrev pub each_form {ℓ} : {A : Type ℓ} → (A → List (List ℕ)) → List A → List (List ℕ)
each_form f [] = []
each_form f (x ∷ xs) = f x ++ each_form f xs

-- A header's value is added whatever its length; its parts only if they are long.
abbrev pub header_secrets : List (List ℕ × List (List ℕ)) → List (List ℕ)
header_secrets = each_form (λ h. h.0 ∷ filter is_long h.1)

abbrev pub http_secrets : Option HttpCredentials → List (List ℕ)
http_secrets none = []
http_secrets (some c) = filter is_long (c.password ∷ c.basic ∷ [])

-- What `forProject` adds, in order.
unfoldable pub secrets_of : ProjectSecrets → List (List ℕ)
secrets_of p =
    filter is_long p.passwords
    ++ (http_secrets p.http_credentials ++ header_secrets p.secret_headers)

module _ (w : Writing) where
  unfoldable pub forms : List ℕ → List (List ℕ)
  forms t = t ∷ w.encodings t

  -- A text itself and in both normal forms.
  abbrev pub all_forms : List ℕ → List (List ℕ)
  all_forms t = forms t ++ (forms (w.nfc t) ++ forms (w.nfd t))

  abbrev extra : List ℕ → List (List ℕ)
  extra secret =
      filter (λ t. not (same_text t secret) && is_long t)
        (unique (w.as_shown secret ∷ w.collapsed secret ∷ []))

  unfoldable pub variants : List ℕ → List (List ℕ)
  unfolding forms unique_after
  variants secret = each_form all_forms (unique (secret ∷ w.well_formed secret ∷ extra secret))

  -- `none` is the exception `RangeError`.
  unfoldable pub add : List ℕ → Bool → Scrubber → Option Scrubber
  unfolding variants unique_after
  add secret reaches_browser s =
      let found = filter not_empty (variants secret) in
      if not (is_long secret)
      then none
      else some (record {
        needles = unique (s.needles ++ found);
        browser_needles =
            if reaches_browser then unique (s.browser_needles ++ found) else s.browser_needles;
      })

  unfoldable pub add_each : List (List ℕ) → Scrubber → Option Scrubber
  unfolding add
  add_each [] s = some s
  add_each (t ∷ secrets) s = do s' ← add t true s; add_each secrets s'

  unfoldable pub for_project : ProjectSecrets → Option Scrubber
  unfolding add_each secrets_of
  for_project p = add_each (secrets_of p) (record { needles = []; browser_needles = [] })
