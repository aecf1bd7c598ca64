-- ===== src/Directory/Cache.antt =====
-- cached_directory.go: how often the wrapped directory is asked, and with what answers.
use theatre.Prelude.{
  ℕ, ◌+◌, ◌<◌, ◌≤◌, ◌≡◌, refl, String, List, [], ◌∷◌, Option, none, some, ok, err, Result, arith,
  eq_iff, lookup, remove, lookup-insert, lookup-remove, All, ltb, false, String-discrete, ap, ◌∙◌,
  ◌≢◌,
}
use theatre.Directory.{Directory, CacheEntry, Cached, store, look_up, members_of}

-- A call with its two clock readings.
pub record Request : Type 0 where
  pub now : ℕ
  pub stored_at : ℕ
  pub group : String

abbrev pub to_list : Option CacheEntry → List CacheEntry
to_list none = []
to_list (some entry) = entry ∷ []

-- The entry that an answer leaves behind.
abbrev pub fetched : ℕ → Result (List String) → Option CacheEntry
fetched stored_at (ok members) = some (record { members = members; cached_at = stored_at })
fetched stored_at (err e) = none

not_ltb : (a b : ℕ) → b ≤ a → ltb a b ≡ false
not_ltb a b h = ground arith

module _ {W : Type 0} (directory : Directory W) (ttl : ℕ) where
  -- A fresh entry is returned and nothing else happens.
  pub members_of_fresh :
      (now stored_at : ℕ) (group : String) (d : Cached W) (entry : CacheEntry)
      → lookup group d.cache ≡ some entry
      → now < entry.cached_at + ttl
      → members_of directory ttl now stored_at group d ≡ (ok entry.members, d)
  unfolding members_of
  members_of_fresh now stored_at group d entry e h = rw e (ground arith)

  store_other :
      (stored_at : ℕ) (g group : String) (cache : List (String × CacheEntry))
      (answer : Result (List String) × W)
      → g ≢ group
      → lookup group (store directory ttl stored_at g cache answer).1.cache ≡ lookup group cache
  unfolding store
  store_other stored_at g group cache (ok members, w) ne = ground (
    arith,
    eq_iff g group,
    lookup-insert g group (record { members = members; cached_at = stored_at }) cache,
  )
  store_other stored_at g group cache (err e, w) ne = refl

  look_up_other :
      (now stored_at : ℕ) (g group : String) (found : Option CacheEntry) (d : Cached W)
      → g ≢ group
      → lookup group (look_up directory ttl now stored_at g found d).1.cache ≡ lookup group d.cache
  unfolding look_up
  look_up_other now stored_at g group none d ne =
      store_other stored_at g group d.cache (directory g d.upstream) ne
  look_up_other now stored_at g group (some entry) d ne = ground (
    arith,
    eq_iff g group,
    lookup-remove g group d.cache,
    store_other stored_at g group (remove g d.cache) (directory g d.upstream) ne,
  )

  members_of_other :
      (now stored_at : ℕ) (g group : String) (d : Cached W)
      → g ≢ group
      → lookup group (members_of directory ttl now stored_at g d).1.cache ≡ lookup group d.cache
  unfolding members_of
  members_of_other now stored_at g group d ne =
      look_up_other now stored_at g group (lookup g d.cache) d ne

  -- A call for any group leaves a fresh entry of another group, or of this one, where it is.
  members_of_keeps :
      (r : Request) (group : String) (d : Cached W) (entry : CacheEntry)
      → lookup group d.cache ≡ some entry
      → r.now < entry.cached_at + ttl
      → lookup group (members_of directory ttl r.now r.stored_at r.group d).1.cache ≡ some entry
  members_of_keeps r group d entry e h = elim (String-discrete r.group group) [
    | yes same ↦
        rw
          (members_of_fresh r.now r.stored_at r.group d entry (ap (λ g. lookup g d.cache) same ∙ e)
            h)
          e
    | no ne ↦ members_of_other r.now r.stored_at r.group group d ne ∙ e
  ]

  -- The calls of a controller, one after the other.
  pub run : List Request → Cached W → Cached W
  run [] d = d
  run (r ∷ rs) d = run rs (members_of directory ttl r.now r.stored_at r.group d).1

  run_keeps :
      (rs : List Request) (group : String) (d : Cached W) (entry : CacheEntry)
      → lookup group d.cache ≡ some entry
      → All (λ r. r.now < entry.cached_at + ttl) rs
      → lookup group (run rs d).cache ≡ some entry
  unfolding run
  run_keeps [] group d entry e h = e
  run_keeps (r ∷ rs) group d entry e (h, hs) =
      run_keeps rs group (members_of directory ttl r.now r.stored_at r.group d).1 entry
        (members_of_keeps r group d entry e h) hs

  members_of_stores :
      (now stored_at : ℕ) (group : String) (d : Cached W) (members : List String)
      → lookup group d.cache ≡ none
      → (directory group d.upstream).0 ≡ ok members
      → lookup group (members_of directory ttl now stored_at group d).1.cache
        ≡ some (record { members = members; cached_at = stored_at })
  unfolding members_of look_up store
  members_of_stores now stored_at group d members e h = ground (
    arith,
    eq_iff group group,
    lookup-insert group group (record { members = members; cached_at = stored_at }) d.cache,
  )

  -- Once a group was fetched, then whatever calls for any groups follow before the TTL has run out,
  -- a further call for the group before that time answers the same members and neither asks the
  -- wrapped directory nor changes the cache.
  pub members_of-run :
      (now stored_at now' stored_at' : ℕ) (group : String) (d : Cached W) (members : List String)
      (rs : List Request)
      → lookup group d.cache ≡ none
      → (directory group d.upstream).0 ≡ ok members
      → All (λ r. r.now < stored_at + ttl) rs
      → now' < stored_at + ttl
      → let later = run rs (members_of directory ttl now stored_at group d).1 in
        members_of directory ttl now' stored_at' group later ≡ (ok members, later)
  members_of-run now stored_at now' stored_at' group d members rs e h hs h' =
      let entry : CacheEntry = record { members = members; cached_at = stored_at } in
      let first = (members_of directory ttl now stored_at group d).1 in
      members_of_fresh now' stored_at' group (run rs first) entry
        (run_keeps rs group first entry (members_of_stores now stored_at group d members e h) hs) h'

  -- What a call for the group comes to when the cache has nothing for it.
  abbrev Passes : ℕ → String → Result (List String) × W → Result (List String) × Cached W → Type 0
  Passes stored_at group answer after =
      (after.0 ≡ answer.0)
      × (after.1.upstream ≡ answer.1)
      × (lookup group after.1.cache ≡ fetched stored_at answer.0)

  store-Passes :
      (stored_at : ℕ) (group : String) (w : W) (cache : List (String × CacheEntry))
      (answer : Result (List String) × W)
      → lookup group cache ≡ none
      → Passes stored_at group answer (store directory ttl stored_at group cache answer)
  unfolding store
  store-Passes stored_at group w cache (ok members, w') e = (
    refl,
    refl,
    ground (
      arith,
      eq_iff group group,
      lookup-insert group group (record { members = members; cached_at = stored_at }) cache,
    ),
  )
  store-Passes stored_at group w cache (err x, w') e = (refl, refl, e)

  look_up_stale :
      (now stored_at : ℕ) (group : String) (found : Option CacheEntry) (d : Cached W)
      → lookup group d.cache ≡ found
      → All (λ entry. entry.cached_at + ttl ≤ now) (to_list found)
      → Passes stored_at group
          (directory group d.upstream)
          (look_up directory ttl now stored_at group found d)
  unfolding look_up
  look_up_stale now stored_at group none d e h =
      store-Passes stored_at group d.upstream d.cache (directory group d.upstream) e
  look_up_stale now stored_at group (some entry) d e (h, _) =
      rw (not_ltb now (entry.cached_at + ttl) h) (
        store-Passes stored_at group d.upstream (remove group d.cache) (directory group d.upstream)
          (ground (arith, eq_iff group group, lookup-remove group group d.cache)))

  -- An expired or missing entry is never served: the answer is what the wrapped directory says, and
  -- afterwards the group's entry is that answer stamped with the second clock reading, or none if
  -- the answer was an error.
  pub members_of_stale :
      (now stored_at : ℕ) (group : String) (d : Cached W)
      → All (λ entry. entry.cached_at + ttl ≤ now) (to_list (lookup group d.cache))
      → let answer = directory group d.upstream in
        let after = members_of directory ttl now stored_at group d in
        (after.0 ≡ answer.0)
        × (after.1.upstream ≡ answer.1)
        × (lookup group after.1.cache ≡ fetched stored_at answer.0)
  unfolding members_of
  members_of_stale now stored_at group d h =
      look_up_stale now stored_at group (lookup group d.cache) d refl h
