-- ===== src/Core/Secrets/Scrubber/Hides.antt =====
-- A scrubber hides every secret that it was given.
use mathlib.Core.Path.{subst}
use trawler.Base.{
  ℕ, ◌≤◌, ◌<◌, ◌≡◌, ◌∙◌, sym, refl, arith, Bool, true, false, Option, none, some, >>=-eq-some, List,
  [], ◌∷◌, ◌++◌, ◌⊎◌, inl, inr, not, if◌then◌else◌, Bool-cases, any, any-append, filter, length,
  All-append,
}
use trawler.Core.Secrets.{scrub_pieces}
use trawler.Core.Secrets.Masked.{shows}
use trawler.Core.Secrets.Search.{all_matches}
use trawler.Core.Secrets.Search.Occurrences.{Covered, or-left, or-right, true-or}
use trawler.Core.Secrets.Search.Everywhere.{AreNeedles, CoveredByAny, scrub_pieces-all_matches}
use trawler.Core.Secrets.Scrubber.{
  Scrubber, HttpCredentials, http_secrets, header_secrets, Writing, ProjectSecrets, same_text,
  has_text, unique_after, unique, is_long, not_empty, variants, add, add_each, secrets_of,
  for_project,
}

same_text_refl : (t : List ℕ) → same_text t t ≡ true
same_text_refl [] = refl
same_text_refl (c ∷ cs) = ground (arith, same_text_refl cs)

same_text-eq : (t u : List ℕ) → same_text t u ≡ true → t ≡ u
same_text-eq [] [] h = refl
same_text-eq [] (d ∷ ds) h = cc
same_text-eq (c ∷ cs) [] h = cc
same_text-eq (c ∷ cs) (d ∷ ds) h = ground (arith, same_text-eq cs ds)

-- A text that is neither seen nor missing stays.
has_text-unique_after :
    (t : List ℕ) (seen texts : List (List ℕ))
    → has_text t seen ≡ false
    → has_text t texts ≡ true
    → has_text t (unique_after seen texts) ≡ true
unfolding unique_after
has_text-unique_after t seen [] new h = h
has_text-unique_after t seen (u ∷ texts) new h = elim (Bool-cases (same_text t u)) [
  | inl same ↦
      let e = same_text-eq t u same in
      let fresh : has_text u seen ≡ false = subst (λ v. has_text v seen ≡ false) e new in
      rw fresh (or-left (has_text t (unique_after (u ∷ seen) texts)) same)
  | inr other ↦ elim (Bool-cases (has_text u seen)) [
    | inl old ↦ rw old (has_text-unique_after t seen texts new (rw other at h))
    | inr first ↦ rw first (
        or-right (same_text t u)
          (has_text-unique_after t (u ∷ seen) texts (ground arith) (rw other at h)))
  ]
]

AreNeedles-unique_after :
    (seen texts : List (List ℕ)) → AreNeedles texts → AreNeedles (unique_after seen texts)
unfolding unique_after
AreNeedles-unique_after seen [] are = tt
AreNeedles-unique_after seen (t ∷ texts) (pos, are) = elim (Bool-cases (has_text t seen)) [
  | inl old ↦ rw old (AreNeedles-unique_after seen texts are)
  | inr new ↦ rw new (pos, AreNeedles-unique_after (t ∷ seen) texts are)
]

AreNeedles-filter : (texts : List (List ℕ)) → AreNeedles (filter not_empty texts)
AreNeedles-filter [] = tt
AreNeedles-filter (t ∷ texts) = elim (Bool-cases (not_empty t)) [
  | inl some_left ↦ rw some_left (ground arith, AreNeedles-filter texts)
  | inr empty ↦ rw empty (AreNeedles-filter texts)
]

has_text-filter :
    (p : List ℕ → Bool) (t : List ℕ) (texts : List (List ℕ))
    → p t ≡ true
    → has_text t texts ≡ true
    → has_text t (filter p texts) ≡ true
has_text-filter p t [] h m = m
has_text-filter p t (u ∷ texts) h m = elim (Bool-cases (same_text t u)) [
  | inl same ↦
      let e : p u ≡ true = subst (λ v. p v ≡ true) (same_text-eq t u same) h in
      rw e (or-left (has_text t (filter p texts)) same)
  | inr other ↦ elim (Bool-cases (p u)) [
    | inl kept ↦ rw kept (or-right (same_text t u) (has_text-filter p t texts h (rw other at m)))
    | inr left_out ↦ rw left_out (has_text-filter p t texts h (rw other at m))
  ]
]

has_text-append :
    (t : List ℕ) (xs ys : List (List ℕ))
    → (has_text t xs ≡ true) ⊎ (has_text t ys ≡ true)
    → has_text t (xs ++ ys) ≡ true
has_text-append t xs ys (inl h) = any-append (same_text t) xs ys ∙ or-left (has_text t ys) h
has_text-append t xs ys (inr h) = any-append (same_text t) xs ys ∙ or-right (has_text t xs) h

-- What adding the secrets does to a scrubber.
record Grew (secrets : List (List ℕ)) (s s' : Scrubber) : Type 0 where
  keeps : (t : List ℕ) → has_text t s.needles ≡ true → has_text t s'.needles ≡ true
  are : AreNeedles s.needles → AreNeedles s'.needles
  has : (t : List ℕ) → has_text t secrets ≡ true → has_text t s'.needles ≡ true

some_if :
    (b : Bool) (r s : Scrubber) → (if b then none else some r) ≡ some s → (b ≡ false) × (r ≡ s)
some_if true r s h = cc
some_if false r s h = (refl, ground arith)

module _ (w : Writing) where
  has_text-variants : (secret : List ℕ) → has_text secret (variants w secret) ≡ true
  unfolding variants
  has_text-variants secret = rw (same_text_refl secret) refl

  has_needle :
      (secret : List ℕ) (needles : List (List ℕ))
      → is_long secret ≡ true
      → has_text secret (unique (needles ++ filter not_empty (variants w secret))) ≡ true
  has_needle secret needles long =
      has_text-unique_after secret [] (needles ++ filter not_empty (variants w secret)) refl (
        has_text-append secret needles (filter not_empty (variants w secret)) (
          inr (
            has_text-filter not_empty secret (variants w secret) (ground arith)
              (has_text-variants secret))))

  add-Grew :
      (secret : List ℕ) (s s' : Scrubber) → add w secret true s ≡ some s' → Grew (secret ∷ []) s s'
  unfolding add
  add-Grew secret s s' e =
      let found = filter not_empty (variants w secret) in
      let (long, same) =
        some_if (not (is_long secret))
          (record {
            needles = unique (s.needles ++ found);
            browser_needles = unique (s.browser_needles ++ found);
          })
          s' e in
      subst (λ r. Grew (secret ∷ []) s r) same
        (record {
          keeps = λ t h.
              has_text-unique_after t [] (s.needles ++ found) refl
                (has_text-append t s.needles found (inl h));
          are = λ h. AreNeedles-unique_after [] (s.needles ++ found) (
              All-append (λ (n : List ℕ). 0 < length n) s.needles found h
                (AreNeedles-filter (variants w secret)));
          has = λ t h.
              subst (λ u. has_text u (unique (s.needles ++ found)) ≡ true)
                (sym (same_text-eq t secret (ground (arith, h))))
                (has_needle secret s.needles (ground arith));
        })

  add_each-Grew :
      (secrets : List (List ℕ)) (s s' : Scrubber)
      → add_each w secrets s ≡ some s'
      → Grew secrets s s'
  unfolding add_each
  add_each-Grew [] s s' e =
      subst (λ r. Grew [] s r) {x = s} (ground arith)
        (record { keeps = λ t h. h; are = λ h. h; has = λ t h. cc })
  add_each-Grew (t ∷ secrets) s s' e =
      let (r, added, rest) = >>=-eq-some (add w t true s) (λ q. add_each w secrets q) e in
      let first = add-Grew t s r added in
      let later = add_each-Grew secrets r s' rest in
      record {
        keeps = λ u h. later.keeps u (first.keeps u h);
        are = λ h. later.are (first.are h);
        has = λ u h. elim (true-or (same_text u t) (has_text u secrets) h) [
          | inl here ↦ later.keeps u (first.has u (or-left (has_text u []) here))
          | inr there ↦ later.has u there
        ];
      }

CoveredByAny-has_text :
    (text : List ℕ) (p : ℕ) (t : List ℕ) (needles : List (List ℕ))
    → has_text t needles ≡ true
    → Covered text t p
    → CoveredByAny text p needles
CoveredByAny-has_text text p t [] h c = cc
CoveredByAny-has_text text p t (n ∷ needles) h c =
    elim (true-or (same_text t n) (has_text t needles) h) [
      | inl here ↦ inl (subst (λ u. Covered text u p) (same_text-eq t n here) c)
      | inr there ↦ inr (CoveredByAny-has_text text p t needles there c)
    ]

false_unless : (b : Bool) → (b ≡ true → 1 ≤ 0) → b ≡ false
false_unless true h = absurd (omega (arith, h refl))
false_unless false h = refl

-- Every secret that a project gives, short ones included: passwords, and values of headers with
-- the parts of them that are credentials.
abbrev pub given_by_http : Option HttpCredentials → List (List ℕ)
given_by_http none = []
given_by_http (some c) = c.password ∷ c.basic ∷ []

abbrev pub given_by_headers : List (List ℕ × List (List ℕ)) → List (List ℕ)
given_by_headers [] = []
given_by_headers (h ∷ headers) = (h.0 ∷ h.1) ++ given_by_headers headers

abbrev pub given_secrets : ProjectSecrets → List (List ℕ)
given_secrets p =
    p.passwords ++ (given_by_http p.http_credentials ++ given_by_headers p.secret_headers)

has_text-either :
    (t : List ℕ) (xs ys : List (List ℕ))
    → has_text t (xs ++ ys) ≡ true
    → (has_text t xs ≡ true) ⊎ (has_text t ys ≡ true)
has_text-either t xs ys h =
    true-or (has_text t xs) (has_text t ys) (sym (any-append (same_text t) xs ys) ∙ h)

-- Where a long text in `xs` is one of `xs'`, and one in `ys` is one of `ys'`.
has_text-both :
    (t : List ℕ) (xs xs' ys ys' : List (List ℕ))
    → (has_text t xs ≡ true → has_text t xs' ≡ true)
    → (has_text t ys ≡ true → has_text t ys' ≡ true)
    → has_text t (xs ++ ys) ≡ true
    → has_text t (xs' ++ ys') ≡ true
has_text-both t xs xs' ys ys' f g h = elim (has_text-either t xs ys h) [
  | inl left ↦ has_text-append t xs' ys' (inl (f left))
  | inr right ↦ has_text-append t xs' ys' (inr (g right))
]

has_text-http :
    (t : List ℕ) (http : Option HttpCredentials)
    → is_long t ≡ true
    → has_text t (given_by_http http) ≡ true
    → has_text t (http_secrets http) ≡ true
has_text-http t none long h = h
has_text-http t (some c) long h = has_text-filter is_long t (c.password ∷ c.basic ∷ []) long h

has_text-headers :
    (t : List ℕ) (headers : List (List ℕ × List (List ℕ)))
    → is_long t ≡ true
    → has_text t (given_by_headers headers) ≡ true
    → has_text t (header_secrets headers) ≡ true
has_text-headers t [] long h = h
has_text-headers t ((value, parts) ∷ headers) long h =
    has_text-both t (value ∷ parts) (value ∷ filter is_long parts) (given_by_headers headers)
      (header_secrets headers)
      (has_text-both t (value ∷ []) (value ∷ []) parts (filter is_long parts) (λ k. k)
        (has_text-filter is_long t parts long))
      (has_text-headers t headers long) h

has_text-secrets_of :
    (project : ProjectSecrets) (t : List ℕ)
    → is_long t ≡ true
    → has_text t (given_secrets project) ≡ true
    → has_text t (secrets_of project) ≡ true
unfolding secrets_of
has_text-secrets_of project t long =
    has_text-both t project.passwords (filter is_long project.passwords)
      (given_by_http project.http_credentials ++ given_by_headers project.secret_headers)
      (http_secrets project.http_credentials ++ header_secrets project.secret_headers)
      (has_text-filter is_long t project.passwords long)
      (has_text-both t (given_by_http project.http_credentials)
        (http_secrets project.http_credentials) (given_by_headers project.secret_headers)
        (header_secrets project.secret_headers) (has_text-http t project.http_credentials long)
        (has_text-headers t project.secret_headers long))

-- However the platform writes texts: where a project has a scrubber, it leaves in no text any
-- character of an occurrence of a secret of at least eight characters that the project gives, as
-- the password of an account, the password or the encoded credentials of HTTP, the value of a
-- header, or a part of such a value.
pub for_project-hides :
    (w : Writing) (project : ProjectSecrets) (scrubber : Scrubber) (text secret : List ℕ) (p : ℕ)
    → for_project w project ≡ some scrubber
    → has_text secret (given_secrets project) ≡ true
    → 8 ≤ length secret
    → Covered text secret p
    → any (shows p) (scrub_pieces (all_matches text scrubber.needles)) ≡ false
unfolding for_project
for_project-hides w project scrubber text secret p e given long c =
    let m = has_text-secrets_of project secret (ground arith) given in
    let g =
      add_each-Grew w (secrets_of project) (record { needles = []; browser_needles = [] }) scrubber
        e in
    let shown = scrub_pieces-all_matches text scrubber.needles p (g.are tt) in
    false_unless (any (shows p) (scrub_pieces (all_matches text scrubber.needles)))
      (λ h. shown.0 h (CoveredByAny-has_text text p secret scrubber.needles (g.has secret m) c))
