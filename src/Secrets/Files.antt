-- ===== src/Secrets/Files.antt =====
-- cmd/theatre-secrets/main.go: the variables of the files that were written.
use theatre.Prelude.{
  ◌≡◌, refl, ap, ◌∙◌, sym, String, ◌==◌, ◌<>◌, true, false, Option, none, some, List, [], ◌∷◌, ok,
  lookup, Bool-cases, inl, inr,
}
use theatre.Prelude.Exec.{Exec, pure, wrapping, ◌>>=◌, >>=-eq-ok}
use theatre.Secrets.{Environment, VaultFile, set_env, entry_of}
use theatre.Secrets.Fetching.{is_name, lookup-set_env}
use theatre.Secrets.Running.{System, path_of, write_files}

-- What the variable of a file holds: the path that was asked for, or one that was made.
abbrev pub IsPathOf : VaultFile → Option String → Type 0
IsPathOf file held =
    (path : String) × (held ≡ some path)
    × ((file.filesystem_path == "") ≡ false → path ≡ file.filesystem_path)

-- What a variable holds after the files were written.
abbrev Holds : Option VaultFile → Option String → Option String → Type 0
Holds none before after = after ≡ before
Holds (some file) before after = IsPathOf file after

module _ {S Http : Type 0} (k : System S Http) where
  path_of-own :
      (key path : String) (file : VaultFile) (s : S)
      → (path_of k key file s).0 ≡ ok path
      → (file.filesystem_path == "") ≡ false
      → path ≡ file.filesystem_path
  unfolding path_of
  path_of-own key path file s h own = cc (rw own at h)

  -- When the files were written, a variable of a file holds its path, which is the one of its
  -- reference if that has one, and every other variable is left as it was.
  pub write_files-Holds :
      (secret_env : Environment) (files : List (String × VaultFile)) (env after : Environment)
      (s s' : S) (x : String)
      → is_name x ≡ true
      → write_files k secret_env files env s ≡ (ok after, s')
      → Holds (lookup x files) (lookup x env) (lookup x after)
  unfolding write_files lookup
  write_files-Holds secret_env [] env after s s' x name h =
      let same : env ≡ after = cc h in ap (lookup x) (sym same)
  write_files-Holds secret_env ((key, file) ∷ files) env after s s' x name h =
      let last : Environment → String → Exec S Environment =
        λ between path. pure (set_env key path between) in
      let write : String → Exec S (Unit {0}) = λ path.
        wrapping ("failed to write file with key " <> (key <> (" to path " <> path)))
          (k.write_file path (entry_of secret_env file.vault_key)) in
      let make : String → Exec S (Unit {0}) = λ path.
        wrapping "failed to ensure path structure is available" (k.mkdir_all (k.dir path)) in
      let after_make : Environment → String → Exec S Environment =
        λ between path. ◌>>=◌ (write path) (λ _. last between path) in
      let after_path : Environment → String → Exec S Environment =
        λ between path. ◌>>=◌ (make path) (λ _. after_make between path) in
      let (between, e1, h1) =
        >>=-eq-ok (write_files k secret_env files env)
          (λ between. ◌>>=◌ (path_of k key file) (after_path between)) s h in
      let s1 = (write_files k secret_env files env s).1 in
      let (path, e2, h2) = >>=-eq-ok (path_of k key file) (after_path between) s1 h1 in
      let s2 = (path_of k key file s1).1 in
      let (_, _, h3) = >>=-eq-ok (make path) (λ _. after_make between path) s2 h2 in
      let s3 = (make path s2).1 in
      let (_, _, h4) = >>=-eq-ok (write path) (λ _. last between path) s3 h3 in
      let final : set_env key path between ≡ after = cc h4 in
      let rest = write_files-Holds secret_env files env between s s1 x name (cc e1) in
      elim (Bool-cases (key == x)) [
        | inl e ↦ rw e (
          path,
          ap (lookup x) (sym final) ∙ lookup-set_env key path x between name ∙ rw e refl,
          path_of-own key path file s1 e2,
        )
        | inr e ↦
            let kept : lookup x after ≡ lookup x between =
              ap (lookup x) (sym final) ∙ lookup-set_env key path x between name ∙ rw e refl in
            rw (e, kept) rest
      ]
