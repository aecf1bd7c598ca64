-- ===== src/Directory/Google.antt =====
-- google_directory.go: which pages one lookup reads, and how many members it can return.
use theatre.Prelude.{
  ℕ, zero, suc, ◌+◌, ◌*◌, ◌≤◌, ◌≡◌, refl, ◌≢◌, ap, String, ◌==◌, List, [], ◌++◌, ok, Result, arith,
  length, length-append, if◌then◌else◌, Bool-cases, inl, inr, ==_of_eq, ==_of_ne, sym, ◌∙◌,
}
use theatre.Prelude.Exec.{Exec, pure, ◌>>=◌, >>=-eq-ok}
use theatre.Directory.{Page, pages_from, google_members_of, google_per_page, google_max_pages}
use mathlib.Core.List.{append_assoc}

ok-injective :
    {W A : Type 0} {a b : A} {w w' : W} → ◌≡◌ {A = Result A × W} (ok a, w) (ok b, w') → a ≡ b
ok-injective e = cc

module _ {W : Type 0} (list : String → ℕ → String → W → Result Page × W) where
  -- `Chain n group token w members w'`: from `token` the API has `n` more pages for the group, the
  -- last with no next token, and they hold `members`.
  pub data Chain (group : String) : ℕ → String → W → List String → W → Type 0 where
    last :
        {token : String} {w w' : W} (resp : Page)
        → list group google_per_page token w ≡ (ok resp, w')
        → resp.next_page_token ≡ ""
        → Chain group 1 token w resp.emails w'
    more :
        {n : ℕ} {token : String} {w w' w'' : W} {members : List String} (resp : Page)
        → list group google_per_page token w ≡ (ok resp, w')
        → resp.next_page_token ≢ ""
        → Chain group n resp.next_page_token w' members w''
        → Chain group (suc n) token w (resp.emails ++ members) w''

  -- What is left to do once a page was read.
  abbrev after_page : String → ℕ → List String → Page → Exec W (List String)
  after_page group k found resp =
      if resp.next_page_token == ""
      then pure (found ++ resp.emails)
      else pages_from list group k resp.next_page_token (found ++ resp.emails)

  pages_from-suc :
      (group : String) (k : ℕ) (token : String) (found : List String) (w : W)
      → pages_from list group (suc k) token found w
        ≡ (list group google_per_page token >>= after_page group k found) w
  unfolding pages_from
  pages_from-suc group k token found w = refl

  pages_from-Chain :
      (group : String) (k n : ℕ) (token : String) (found members : List String) (w w' : W)
      → Chain group n token w members w'
      → n ≤ k
      → pages_from list group k token found w ≡ (ok (found ++ members), w')
  pages_from-Chain group zero n token found members w w' (last resp e stop) h = absurd (omega arith)
  pages_from-Chain group zero n token found members w w' (more resp e go c) h = absurd (omega arith)
  pages_from-Chain group (suc k) n token found members w w' (last resp e stop) h =
      rw (pages_from-suc group k token found w, e, ==_of_eq stop) refl
  pages_from-Chain group (suc k) n token found members w w'
        (more {n = m} {w' = v} {members = ms} resp e go c) h =
      rw (pages_from-suc group k token found w, e, ==_of_ne go, ← append_assoc found resp.emails ms)
        (pages_from-Chain group k m resp.next_page_token (found ++ resp.emails) ms v w' c
          (omega arith))

  -- A group whose members fill at most ten pages is read whole, in the order of the pages.
  pub google_members_of-Chain :
      (group : String) (n : ℕ) (members : List String) (w w' : W)
      → Chain group n "" w members w'
      → n ≤ google_max_pages
      → google_members_of list group w ≡ (ok members, w')
  unfolding google_members_of
  google_members_of-Chain group n members w w' c h =
      pages_from-Chain group google_max_pages n "" [] members w w' c h

  module _
      (capped : (group token : String) (w w' : W) (resp : Page)
        → list group google_per_page token w ≡ (ok resp, w')
        → length resp.emails ≤ google_per_page) where
    after_page_bound :
        (group : String) (k : ℕ) (found members : List String) (resp : Page) (w w' : W)
        → ((token : String) (more : List String)
            → pages_from list group k token more w ≡ (ok members, w')
            → length members ≤ length more + k * google_per_page)
        → length resp.emails ≤ google_per_page
        → after_page group k found resp w ≡ (ok members, w')
        → length members ≤ length found + suc k * google_per_page
    after_page_bound group k found members resp w w' ih few e =
        elim (Bool-cases (resp.next_page_token == "")) [
          | inl stop ↦
              let same : found ++ resp.emails ≡ members = ok-injective (rw stop at e) in
              omega (arith, length-append found resp.emails, ap length same)
          | inr go ↦ omega (
            arith,
            length-append found resp.emails,
            ih resp.next_page_token (found ++ resp.emails) (rw go at e),
          )
        ]

    pages_from_bound :
        (group : String) (k : ℕ) (token : String) (found members : List String) (w w' : W)
        → pages_from list group k token found w ≡ (ok members, w')
        → length members ≤ length found + k * google_per_page
    pages_from_bound group zero token found members w w' e =
        unfold pages_from in omega (arith, ap length (ok-injective e))
    pages_from_bound group (suc k) token found members w w' e =
        let (resp, r, e') =
          >>=-eq-ok (list group google_per_page token) (after_page group k found) w
            (sym (pages_from-suc group k token found w) ∙ e) in
        after_page_bound group k found members resp (list group google_per_page token w).1 w'
          (λ t f. pages_from_bound group k t f members (list group google_per_page token w).1 w')
          (capped group token w (list group google_per_page token w).1 resp
            (ap (λ a. (a, (list group google_per_page token w).1)) r))
          e'

    -- However large the group, a lookup that succeeds returns at most ten pages of members.
    pub google_members_of_bound :
        (group : String) (members : List String) (w w' : W)
        → google_members_of list group w ≡ (ok members, w')
        → length members ≤ google_max_pages * google_per_page
    unfolding google_members_of
    google_members_of_bound group members w w' e =
        omega (arith, pages_from_bound group google_max_pages "" [] members w w' e)
