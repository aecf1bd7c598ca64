-- ===== src/Examples/Directories.antt =====
-- The cached and the Google directory, over the fake one and over a fixed page.
use theatre.Prelude.{
  ℕ, ◌+◌, ◌<◌, ◌≤◌, ◌≡◌, refl, String, none, some, List, [], ◌∷◌, ok, Result, lookup, All, arith,
}
use theatre.Directory.{Directory, Cached, members_of, Page, google_members_of}
use theatre.Directory.Cache.{Request, run, members_of-run, members_of_stale, fetched, to_list}
use theatre.Directory.Google.{last, google_members_of-Chain}

abbrev groups : List (String × List String)
groups = ("infra", "alice" ∷ "bob" ∷ []) ∷ []

abbrev fake : Directory ℕ
fake group w = (ok (elim (lookup group groups) [ none ↦ [] | some members ↦ members ]), w + 1)

abbrev cold : Cached ℕ
cold = record { cache = []; upstream = 0 }

abbrev requests : List Request
requests =
    record { now = 20; stored_at = 20; group = "infra" }
    ∷ record { now = 40; stored_at = 41; group = "none" }
    ∷ []

in_time : (missing : lookup "infra" cold.cache ≡ none) × (All (λ r. r.now < 12 + 60) requests)
unfolding lookup
in_time = (refl, (omega arith, (omega arith, tt)))

answers : (fake "infra" 0).0 ≡ ok ("alice" ∷ "bob" ∷ [])
unfolding lookup
answers = refl

members_of-run_example :
    let later = run fake 60 requests (members_of fake 60 10 12 "infra" cold).1 in
    members_of fake 60 71 71 "infra" later ≡ (ok ("alice" ∷ "bob" ∷ []), later)
members_of-run_example =
    members_of-run fake 60 10 12 71 71 "infra" cold ("alice" ∷ "bob" ∷ []) requests in_time.0
      answers in_time.1 (omega arith)

abbrev old : Cached ℕ
old = record { cache = ("infra", record { members = []; cached_at = 1 }) ∷ []; upstream = 0 }

outdated : All (λ entry. entry.cached_at + 60 ≤ 100) (to_list (lookup "infra" old.cache))
unfolding lookup
outdated = (omega arith, tt)

members_of_stale_example :
    let answer = fake "infra" 0 in
    let after = members_of fake 60 100 101 "infra" old in
    (after.0 ≡ answer.0)
    × (after.1.upstream ≡ answer.1)
    × (lookup "infra" after.1.cache ≡ fetched 101 answer.0)
members_of_stale_example = members_of_stale fake 60 100 101 "infra" old outdated

abbrev page : Page
page = record { emails = "alice" ∷ []; next_page_token = "" }

abbrev one_page : String → ℕ → String → ℕ → Result Page × ℕ
one_page group size token w = (ok page, w)

google_members_of-Chain_example : google_members_of one_page "infra" 0 ≡ (ok ("alice" ∷ []), 0)
google_members_of-Chain_example =
    google_members_of-Chain one_page "infra" 1 ("alice" ∷ []) 0 0 (last page refl refl)
      (omega arith)

read_once : google_members_of one_page "infra" 0 ≡ (ok ("alice" ∷ []), 0)
read_once =
    google_members_of-Chain one_page "infra" 1 ("alice" ∷ []) 0 0 (last page refl refl)
      (omega arith)
