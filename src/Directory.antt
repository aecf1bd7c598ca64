-- ===== src/Directory.antt =====
-- internal/controller/rbac: directory.go, cached_directory.go, fake_directory.go and
-- google_directory.go. A directory is an action on the state `W` of the world behind it.
pub mod Cache
pub mod Google
use theatre.Prelude.{
  ℕ, zero, suc, ◌+◌, String, ◌==◌, List, [], ◌++◌, Option, none, some, Result, ok, err, ltb, lookup,
  insert, remove, if◌then◌else◌,
}
use theatre.Prelude.Exec.{Exec, pure, ◌>>=◌}

-- `Directory`
abbrev pub Directory : Type 0 → Type 0
Directory W = String → Exec W (List String)

-- `DirectoryProvider`, a map from the kind of a subject.
abbrev pub DirectoryProvider : Type 0 → Type 0
DirectoryProvider W = List (String × Directory W)

unfoldable pub register :
    {W : Type 0} → DirectoryProvider W → String → Directory W → DirectoryProvider W
register p kind directory = insert kind directory p

unfoldable pub get : {W : Type 0} → DirectoryProvider W → String → Option (Directory W)
get p kind = lookup kind p

-- `fakeDirectory.MembersOf`: an unknown group has no members.
abbrev or_empty : Option (List String) → List String
or_empty none = []
or_empty (some members) = members

unfoldable pub fake_members_of : {W : Type 0} → List (String × List String) → Directory W
fake_members_of groups group = pure (or_empty (lookup group groups))

pub record CacheEntry : Type 0 where
  pub members : List String
  pub cached_at : ℕ

-- The state that `cachedDirectory` keeps, beside that of the directory that it wraps.
pub record Cached (W : Type 0) : Type 0 where
  pub cache : List (String × CacheEntry)
  pub upstream : W

module _ {W : Type 0} (directory : Directory W) (ttl : ℕ) where
  -- The call of the wrapped directory; only a success is stored, at the time `stored_at` of a second
  -- reading of the clock.
  store :
      ℕ
      → String
      → List (String × CacheEntry)
      → Result (List String) × W
      → Result (List String) × Cached W
  store stored_at group cache (ok members, w) = (
    ok members,
    record {
      cache = insert group (record { members = members; cached_at = stored_at }) cache;
      upstream = w;
    },
  )
  store stored_at group cache (err e, w) = (err e, record { cache = cache; upstream = w })

  -- `cachedDirectory.MembersOf`, with the two readings of the clock. `now - cachedAt < ttl` is
  -- written without the subtraction.
  look_up : ℕ → ℕ → String → Option CacheEntry → Exec (Cached W) (List String)
  unfolding store
  look_up now stored_at group none d = store stored_at group d.cache (directory group d.upstream)
  look_up now stored_at group (some entry) d =
      if ltb now (entry.cached_at + ttl)
      then (ok entry.members, d)
      else store stored_at group (remove group d.cache) (directory group d.upstream)

  pub members_of : ℕ → ℕ → String → Exec (Cached W) (List String)
  unfolding look_up
  members_of now stored_at group d = look_up now stored_at group (lookup group d.cache) d

-- One answer of the Google API.
pub record Page : Type 0 where
  pub emails : List String
  pub next_page_token : String

abbrev pub google_per_page : ℕ
google_per_page = 200

abbrev pub google_max_pages : ℕ
google_max_pages = 10

-- `call.Do()` for a group, a page size and a page token ("" asks for the first page).
module _ {W : Type 0} (list : String → ℕ → String → Exec W Page) where
  -- The loop over `remainingPages`.
  pub pages_from : String → ℕ → String → List String → Exec W (List String)
  pages_from group zero token members = pure members
  pages_from group (suc remaining) token members = do
    resp ← list group google_per_page token
    let found = members ++ resp.emails
    let more = pages_from group remaining resp.next_page_token found
    if resp.next_page_token == "" then pure found else more

  -- `googleDirectory.MembersOf`
  pub google_members_of : Directory W
  unfolding pages_from
  google_members_of group = pages_from group google_max_pages "" []
