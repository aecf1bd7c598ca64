-- ===== src/Secrets/Fetching.antt =====
-- cmd/theatre-secrets/main.go: reading the keys from Vault, and what the environment then is.
use theatre.Prelude.{
  ◌≡◌, ◌≢◌, refl, ap, ◌∙◌, sym, String, ◌==◌, eq_iff, ◌<>◌, Bool, true, not, ◌||◌, none, some, List,
  [], ◌∷◌, Result, ok, err, arith, if◌then◌else◌, insert, lookup, lookup-insert, Bool-cases, inl,
  inr,
}
use theatre.Prelude.Results.{message, panic, wrapped, ◌>>=◌, >>=-eq-ok, wrapped-eq-ok}
use theatre.Prelude.Texts.{contains}
use theatre.Secrets.{Environment, set_env, set_plain, set_from_vault, entry_of}

-- What Vault answers for a path: no secret, or one whose data holds a text or not.
pub data Answer : Type 0 where
  nothing : Answer
  other_data : Answer
  data_text : String → Answer

-- The value of a secret; the type assertions panic on another shape.
unfoldable pub value_of : String → Answer → Result String
value_of path nothing = err (message ("no secret data found at Vault KV path: " <> path))
value_of path other_data = err (panic "interface conversion")
value_of path (data_text value) = ok value

-- `read` is Vault, and `full_path` is `path.Join` with the prefix.
module _ (read : String → Result Answer) (full_path : String → String) where
  unfoldable pub fetch : List (String × Bool) → Result Environment
  unfolding value_of
  fetch [] = ok []
  fetch ((key, _) ∷ keys) = do
    secret_env ← fetch keys
    answer ← wrapped "failed to retrieve secret value from Vault" (read (full_path key))
    value ← value_of (full_path key) answer
    ok (insert key value secret_env)

  value_of-ok :
      (path value : String) (a : Answer) → value_of path a ≡ ok value → a ≡ data_text value
  unfolding value_of
  value_of-ok path value nothing h = cc
  value_of-ok path value other_data h = cc
  value_of-ok path value (data_text v) h = ap data_text (cc h)

  -- When every read succeeds, each key that was to be fetched has the text that Vault holds for it.
  pub fetch-lookup :
      (keys : List (String × Bool)) (secret_env : Environment) (key : String)
      → fetch keys ≡ ok secret_env
      → lookup key keys ≢ none
      → (value : String) × (read (full_path key) ≡ ok (data_text value))
        × (lookup key secret_env ≡ some value)
  unfolding fetch lookup
  fetch-lookup [] secret_env key h there = absurd (there refl)
  fetch-lookup ((first, b) ∷ keys) secret_env key h there =
      let store : Environment → String → Result Environment =
        λ before value. ok (insert first value before) in
      let ask : Environment → Answer → Result Environment =
        λ before a. ◌>>=◌ (value_of (full_path first) a) (store before) in
      let reading = wrapped "failed to retrieve secret value from Vault" (read (full_path first)) in
      let (before, fetched, h1) = >>=-eq-ok (fetch keys) (λ e. ◌>>=◌ reading (ask e)) h in
      let (a, answered, h2) = >>=-eq-ok reading (ask before) h1 in
      let (value, valued, h3) = >>=-eq-ok (value_of (full_path first) a) (store before) h2 in
      let final : insert first value before ≡ secret_env = cc h3 in
      elim (Bool-cases (first == key)) [
        | inl e ↦
            let same = (eq_iff first key).0 e in
            (
              value,
              ap (λ x. read (full_path x)) (sym same)
                  ∙ wrapped-eq-ok "failed to retrieve secret value from Vault"
                      (read (full_path first)) answered
                  ∙ ap ok (value_of-ok (full_path first) value a valued),
              ap (lookup key) (sym final) ∙ lookup-insert first key value before ∙ rw e refl,
            )
        | inr e ↦
            let (v, r, l) = fetch-lookup keys before key fetched (λ n. there (rw e n)) in
            (v, r, ap (lookup key) (sym final) ∙ lookup-insert first key value before ∙ rw e l)
      ]

-- The names that `os.Setenv` takes.
abbrev pub is_name : String → Bool
is_name key = not (key == "" || contains key "=")

pub lookup-set_env :
    (key value x : String) (env : Environment)
    → is_name x ≡ true
    → lookup x (set_env key value env) ≡ (if key == x then some value else lookup x env)
unfolding set_env
lookup-set_env key value x env h = elim (Bool-cases (key == x)) [
  | inl e ↦
      let same = (eq_iff key x).0 e in
      ground (arith, lookup-insert key x value env, h, ap (λ y. is_name y) same)
  | inr e ↦ ground (arith, lookup-insert key x value env)
]

pub lookup-set_plain :
    (env_plain env : Environment) (x : String)
    → is_name x ≡ true
    → lookup x (set_plain env_plain env)
      ≡ elim (lookup x env_plain) [ none ↦ lookup x env | some value ↦ some value ]
unfolding set_plain lookup
lookup-set_plain [] env x h = refl
lookup-set_plain ((key, value) ∷ env_plain) env x h = ground (
  arith,
  lookup-set_env key value x (set_plain env_plain env) h,
  lookup-set_plain env_plain env x h,
)

pub lookup-set_from_vault :
    (secret_env env_from_vault env : Environment) (x : String)
    → is_name x ≡ true
    → lookup x (set_from_vault secret_env env_from_vault env) ≡ elim (lookup x env_from_vault) [
      | none ↦ lookup x env
      | some vault_key ↦ some (entry_of secret_env vault_key)
    ]
unfolding set_from_vault lookup
lookup-set_from_vault secret_env [] env x h = refl
lookup-set_from_vault secret_env ((key, vault_key) ∷ env_from_vault) env x h = ground (
  arith,
  lookup-set_env key (entry_of secret_env vault_key) x
      (set_from_vault secret_env env_from_vault env) h,
  lookup-set_from_vault secret_env env_from_vault env x h,
)
