-- ===== src/Secrets/Resulting.antt =====
-- cmd/theatre-secrets/main.go: the environment that the command is started in.
use theatre.Secrets.{Environment, Plan, set_plain, set_from_vault}

-- The variables of an environment after the plan's were set in it.
abbrev pub resulting : Plan → Environment → Environment → Environment
resulting p secret_env before =
    set_from_vault secret_env p.env_from_vault (set_plain p.env_plain before)
