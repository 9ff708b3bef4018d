-- ===== src/Core/Tests/Secrets.antt =====
-- A text in which one secret overlaps itself and another stands once.
use trawler.Base.{
  ℕ, ◌≤◌, ◌≡◌, ◌-◌, ◌+◌, List, [], ◌∷◌, true, any, drop, length, arith, ◌↔◌, refl, none, some, map,
  false,
}
use trawler.Core.Secrets.{scrub_pieces, scrub_text}
use trawler.Core.Secrets.Masked.{covers, shows}
use trawler.Core.Secrets.Search.{
  matches, all_matches, kmp_matches, native_matches, borders, char_at,
}
use trawler.Core.Secrets.Scrubber.{Scrubber, Writing, ProjectSecrets, for_project}
use trawler.Core.Secrets.Scrubber.Hides.{for_project-hides}
use trawler.Core.Secrets.Search.Occurrences.{Covered, stands_at-Occurs}
use trawler.Core.Secrets.Search.Everywhere.{
  CoveredByAny, kmp_matches-native_matches, matches-Covered, scrub_pieces-all_matches,
}

-- "xabababy!cd"
abbrev shown_text : List ℕ
shown_text = 120 ∷ 97 ∷ 98 ∷ 97 ∷ 98 ∷ 97 ∷ 98 ∷ 121 ∷ 33 ∷ 99 ∷ 100 ∷ []

-- "abab"
abbrev secret : List ℕ
secret = 97 ∷ 98 ∷ 97 ∷ 98 ∷ []

-- "cd"
abbrev other_secret : List ℕ
other_secret = 99 ∷ 100 ∷ []

scrubbed :
    scrub_text (42 ∷ []) (all_matches shown_text (secret ∷ other_secret ∷ [])) shown_text
    ≡ 120 ∷ 42 ∷ 121 ∷ 33 ∷ 42 ∷ []
unfolding scrub_text all_matches
scrubbed = refl

kmp_matches-native_matches_example :
    any (covers 6) (kmp_matches shown_text secret (borders secret))
    ≡ any (covers 6) (
        native_matches shown_text secret
          (drop (char_at (borders secret) (length secret - 1)) secret))
kmp_matches-native_matches_example = kmp_matches-native_matches shown_text secret 6 (omega arith)

matches-Covered_example :
    (any (covers 6) (matches shown_text secret) ≡ true) ↔ Covered shown_text secret 6
matches-Covered_example = matches-Covered shown_text secret 6 (omega arith)

scrub_pieces-all_matches_example :
    (any (shows 9) (scrub_pieces (all_matches shown_text (secret ∷ other_secret ∷ []))) ≡ true)
    ↔ (CoveredByAny shown_text 9 (secret ∷ other_secret ∷ []) → 1 ≤ 0)
scrub_pieces-all_matches_example =
    scrub_pieces-all_matches shown_text (secret ∷ other_secret ∷ []) 9
      (omega arith, (omega arith, tt))

-- A platform that writes a text as it is, or with the next characters.
abbrev plain : Writing
plain = record {
  well_formed = λ t. t;
  as_shown = λ t. t;
  collapsed = λ t. t;
  nfc = λ t. t;
  nfd = λ t. t;
  encodings = λ t. map (λ c. c + 1) t ∷ [];
}

abbrev password : List ℕ
password = 97 ∷ 98 ∷ 97 ∷ 98 ∷ 97 ∷ 98 ∷ 97 ∷ 99 ∷ []

abbrev project : ProjectSecrets
project = record {
  passwords = (97 ∷ []) ∷ password ∷ [];
  http_credentials = none;
  secret_headers = [];
}

abbrev login_text : List ℕ
login_text = 120 ∷ 97 ∷ 98 ∷ 97 ∷ 98 ∷ 97 ∷ 98 ∷ 97 ∷ 99 ∷ 33 ∷ []

abbrev scrubber : Scrubber
scrubber = record {
  needles = password ∷ map (λ c. c + 1) password ∷ [];
  browser_needles = password ∷ map (λ c. c + 1) password ∷ [];
}

project_accepted : for_project plain project ≡ some scrubber
unfolding for_project
project_accepted = refl

for_project-hides_example :
    any (shows 4) (scrub_pieces (all_matches login_text scrubber.needles)) ≡ false
for_project-hides_example =
    for_project-hides plain project scrubber login_text password 4 project_accepted refl
      (omega arith)
      (1, stands_at-Occurs login_text password 1 (omega arith) refl, omega arith, omega arith)
