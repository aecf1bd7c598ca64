-- ===== src/Secrets/Referring.antt =====
-- cmd/theatre-secrets/main.go: the references that a value can be, and the form they are written in.
use Prim.Native.String.append.{nil as append_nil, cons as append_cons}
use theatre.Prelude.{
  ◌≡◌, ◌≢◌, refl, ap, ◌∙◌, String, ◌==◌, ◌<>◌, ==_of_ne, false, none, some, arith, if◌then◌else◌,
  ok,
}
use theatre.Prelude.Texts.{
  has_prefix, trim_prefix, strip_prefix, contains, strip_prefix-append, strip_prefix-append_none,
  clash,
}
use theatre.Vault.Annotation.{trim_space, cut_colon}
use theatre.Secrets.{
  Reference, secret, secret_file, classify, file_reference, cut_equals, name_value,
}

-- What follows the prefix of a reference to a file.
abbrev pub file_text : String → String → String
file_text vault_key path = if path == "" then vault_key else vault_key <> (":" <> path)

no_colon-cut_colon : (s : String) → contains s ":" ≡ false → cut_colon s ≡ (s, none)
unfolding cut_colon contains has_prefix strip_prefix
no_colon-cut_colon String.[] h = refl
no_colon-cut_colon (String.◌∷◌ c s) h = ground (arith, no_colon-cut_colon s)

cut_colon-append :
    (s path : String) → contains s ":" ≡ false → cut_colon (s <> (":" <> path)) ≡ (s, some path)
unfolding cut_colon contains has_prefix strip_prefix
cut_colon-append String.[] path h =
    ap cut_colon (append_nil (":" <> path) ∙ append_cons ":" "" path)
    ∙ ap (λ t. ("", some t)) (append_nil path)
cut_colon-append (String.◌∷◌ c s) path h =
    ap cut_colon (append_cons c s (":" <> path)) ∙ ground (arith, cut_colon-append s path)

-- The reference `vault:` and a key.
classify-vault : (key : String) → classify ("vault:" <> key) ≡ secret key
unfolding classify has_prefix trim_prefix
classify-vault key = rw (strip_prefix-append "vault:" key) refl

classify-vault_file :
    (text : String) → classify ("vault-file:" <> text) ≡ file_reference (trim_space text)
unfolding classify has_prefix trim_prefix
classify-vault_file text =
    rw
      (
        strip_prefix-append_none "vault:" "vault-file:" text (unfold clash in refl),
        strip_prefix-append "vault-file:" text,
      )
      refl

-- A reference and the text that it is written in. A file's key has no colon, and the text after
-- the prefix is not empty and has no space at its ends.
pub data IsWritten : Reference → String → Type 0 where
  vault : (key : String) → IsWritten (secret key) ("vault:" <> key)
  key_only :
      (key : String)
      → contains key ":" ≡ false
      → key ≢ ""
      → trim_space key ≡ key
      → IsWritten (secret_file key "") ("vault-file:" <> key)
  key_and_path :
      (key path : String)
      → contains key ":" ≡ false
      → key <> (":" <> path) ≢ ""
      → trim_space (key <> (":" <> path)) ≡ key <> (":" <> path)
      → IsWritten (secret_file key path) ("vault-file:" <> (key <> (":" <> path)))

-- A reference that is written as the program documents it is read back: a key of Vault, a file with
-- its key alone, or a file with its key and its path.
pub classify-IsWritten : {r : Reference} {text : String} → IsWritten r text → classify text ≡ r
unfolding file_reference
classify-IsWritten (vault key) = classify-vault key
classify-IsWritten (key_only key colon filled trimmed) =
    classify-vault_file key ∙ rw (trimmed, ==_of_ne filled, no_colon-cut_colon key colon) refl
classify-IsWritten (key_and_path key path colon filled trimmed) =
    classify-vault_file (key <> (":" <> path))
    ∙ rw (trimmed, ==_of_ne filled, cut_colon-append key path colon) refl

split_name :
    (s value : String) → contains s "=" ≡ false → cut_equals (s <> ("=" <> value)) ≡ (s, some value)
unfolding cut_equals contains has_prefix strip_prefix
split_name String.[] value h =
    ap cut_equals (append_nil ("=" <> value) ∙ append_cons "=" "" value)
    ∙ ap (λ t. ("", some t)) (append_nil value)
split_name (String.◌∷◌ c s) value h =
    ap cut_equals (append_cons c s ("=" <> value)) ∙ ground (arith, split_name s value)

-- A variable as `os.Environ` writes it is read back, if its name has no equals sign.
pub cut_equals-append :
    (name value : String)
    → contains name "=" ≡ false
    → name_value (cut_equals (name <> ("=" <> value))) ≡ ok (name, value)
unfolding name_value
cut_equals-append name value h = rw (split_name name value h) refl
