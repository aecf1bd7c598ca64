-- ===== src/Secrets/Planning.antt =====
-- cmd/theatre-secrets/main.go: what the loop over the environment makes of each variable.
use theatre.Prelude.{
  ◌≡◌, refl, subst, String, ◌==◌, eq_iff, Bool, true, false, Option, none, some, [], ◌∷◌, ok, arith,
  if◌then◌else◌, lookup, lookup-insert,
}
use theatre.Prelude.Results.{>>=-eq-ok}
use theatre.Secrets.{
  Environment, VaultFile, Reference, plain, secret, secret_file, empty_file, classify, Plan,
  empty_plan, add_entry, plan_of,
}

-- What each map of the plan should hold under the name of a variable.
abbrev pub plain_value : Option String → Option String
plain_value none = none
plain_value (some value) = elim (classify value) [ plain ↦ some value | _ ↦ none ]

abbrev pub vault_value : Option String → Option String
vault_value none = none
vault_value (some value) = elim (classify value) [ secret vault_key ↦ some vault_key | _ ↦ none ]

abbrev pub file_value : Option String → Option VaultFile
file_value none = none
file_value (some value) = elim (classify value) [
  | secret_file vault_key path ↦ some (record { filesystem_path = path; vault_key = vault_key })
  | _ ↦ none
]

-- The keys of Vault that a reference asks for.
abbrev pub asks : Reference → String → Bool
asks plain key = false
asks (secret vault_key) key = vault_key == key
asks (secret_file vault_key path) key = vault_key == key
asks empty_file key = false

abbrev pub is_asked : Environment → String → Bool
is_asked [] key = false
is_asked ((_, value) ∷ env) key = if asks (classify value) key then true else is_asked env key

-- A Go map: no name has two entries.
abbrev pub IsMap : Environment → Type 0
IsMap [] = Unit
IsMap ((key, value) ∷ env) = (lookup key env ≡ none) × IsMap env

-- A plan that says of each variable what its value asks for, and fetches each key that is asked for
-- and no other.
pub record IsPlanOf (env : Environment) (p : Plan) : Type 0 where
  pub plains : (x : String) → lookup x p.env_plain ≡ plain_value (lookup x env)
  pub vaults : (x : String) → lookup x p.env_from_vault ≡ vault_value (lookup x env)
  pub files : (x : String) → lookup x p.vault_files ≡ file_value (lookup x env)
  pub keys :
      (key : String) → lookup key p.keys_to_fetch ≡ (if is_asked env key then some true else none)

ok-injective : {p q : Plan} → ok p ≡ ok q → p ≡ q
ok-injective h = cc h

add_entry-IsPlanOf :
    (key value : String) (env : Environment) (r : Reference) (p q : Plan)
    → classify value ≡ r
    → lookup key env ≡ none
    → IsPlanOf env p
    → add_entry key value r p ≡ ok q
    → IsPlanOf ((key, value) ∷ env) q
unfolding add_entry lookup
add_entry-IsPlanOf key value env plain p q e new plan h =
    subst (IsPlanOf ((key, value) ∷ env)) (ok-injective h) (record {
      plains = λ x. ground (
        arith,
        e,
        new,
        eq_iff key x,
        lookup-insert key x value p.env_plain,
        plan.plains x,
        plan.plains key,
      );
      vaults = λ x. ground (arith, e, new, eq_iff key x, plan.vaults x, plan.vaults key);
      files = λ x. ground (arith, e, new, eq_iff key x, plan.files x, plan.files key);
      keys = λ asked. ground (arith, e, plan.keys asked);
    })
add_entry-IsPlanOf key value env (secret vault_key) p q e new plan h =
    subst (IsPlanOf ((key, value) ∷ env)) (ok-injective h) (record {
      plains = λ x. ground (arith, e, new, eq_iff key x, plan.plains x, plan.plains key);
      vaults = λ x. ground (
        arith,
        e,
        new,
        eq_iff key x,
        lookup-insert key x vault_key p.env_from_vault,
        plan.vaults x,
        plan.vaults key,
      );
      files = λ x. ground (arith, e, new, eq_iff key x, plan.files x, plan.files key);
      keys = λ asked.
          ground (arith, e, lookup-insert vault_key asked true p.keys_to_fetch, plan.keys asked);
    })
add_entry-IsPlanOf key value env (secret_file vault_key path) p q e new plan h =
    subst (IsPlanOf ((key, value) ∷ env)) (ok-injective h) (record {
      plains = λ x. ground (arith, e, new, eq_iff key x, plan.plains x, plan.plains key);
      vaults = λ x. ground (arith, e, new, eq_iff key x, plan.vaults x, plan.vaults key);
      files = λ x. ground (
        arith,
        e,
        new,
        eq_iff key x,
        lookup-insert key x (record { filesystem_path = path; vault_key = vault_key })
            p.vault_files,
        plan.files x,
        plan.files key,
      );
      keys = λ asked.
          ground (arith, e, lookup-insert vault_key asked true p.keys_to_fetch, plan.keys asked);
    })
add_entry-IsPlanOf key value env empty_file p q e new plan h = cc

empty-IsPlanOf : IsPlanOf [] empty_plan
unfolding lookup
empty-IsPlanOf = record {
  plains = λ x. refl;
  vaults = λ x. refl;
  files = λ x. refl;
  keys = λ key. refl;
}

-- When the loop over the environment succeeds, each variable is in the map that its value asks for
-- and in no other, with the value, the key or the file that its value says, and the keys to fetch
-- are those that some variable asks for.
pub plan_of-IsPlanOf :
    (env : Environment) (p : Plan) → IsMap env → plan_of env ≡ ok p → IsPlanOf env p
unfolding plan_of
plan_of-IsPlanOf [] p unique h = subst (IsPlanOf []) (cc h) empty-IsPlanOf
plan_of-IsPlanOf ((key, value) ∷ env) p (new, unique) h =
    let (before, done, added) = >>=-eq-ok (plan_of env) (add_entry key value (classify value)) h in
    add_entry-IsPlanOf key value env (classify value) before p refl new
      (plan_of-IsPlanOf env before unique done) added
