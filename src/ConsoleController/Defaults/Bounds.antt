-- ===== src/ConsoleController/Defaults/Bounds.antt =====
-- console_controller.go: the bounds of the timeout, and the lifetimes that are always set.
use theatre.Prelude.{ℕ, ◌≤◌, ◌<◌, ◌≡◌, refl, ◌↔◌, ◌⊎◌, Option, some, none, arith}
use theatre.Console.{Console}
use theatre.Console.Template.{ConsoleTemplate}
use theatre.ConsoleController.Defaults.{set_console_timeout, set_console_ttls, pick_ttl}

-- The timeout is within the template's maximum exactly when the console asked for one or the
-- template's default is within the maximum.
pub set_console_timeout-le_iff :
    (csl : Console) (tpl : ConsoleTemplate)
    → ((set_console_timeout csl tpl).spec.timeout_seconds ≤ tpl.spec.max_timeout_seconds) ↔ (
        (0 < csl.spec.timeout_seconds)
        ⊎ (tpl.spec.default_timeout_seconds ≤ tpl.spec.max_timeout_seconds))
unfolding set_console_timeout
set_console_timeout-le_iff csl tpl = (λ h. ground arith, λ h. ground arith)

-- A timeout that the console asks for within the maximum is kept.
pub set_console_timeout_keeps :
    (csl : Console) (tpl : ConsoleTemplate)
    → 0 < csl.spec.timeout_seconds
    → csl.spec.timeout_seconds ≤ tpl.spec.max_timeout_seconds
    → set_console_timeout csl tpl ≡ csl
unfolding set_console_timeout
set_console_timeout_keeps csl tpl h k = ground arith

pick_ttl-some :
    (own template : Option ℕ) (fallback : ℕ) → (t : ℕ) × (pick_ttl own template fallback ≡ some t)
unfolding pick_ttl
pick_ttl-some (some t) template fallback = (t, refl)
pick_ttl-some none (some t) fallback = (t, refl)
pick_ttl-some none none fallback = (fallback, refl)

-- Both lifetimes are set.
pub set_console_ttls-some :
    (csl : Console) (tpl : ConsoleTemplate)
    → (before after : ℕ) × ((set_console_ttls csl tpl).spec.ttl_seconds_before_running
        ≡ some before)
      × ((set_console_ttls csl tpl).spec.ttl_seconds_after_finished ≡ some after)
unfolding set_console_ttls
set_console_ttls-some csl tpl =
    let (before, p) =
      pick_ttl-some csl.spec.ttl_seconds_before_running tpl.spec.default_ttl_seconds_before_running
        3600 in
    let (after, q) =
      pick_ttl-some csl.spec.ttl_seconds_after_finished tpl.spec.default_ttl_seconds_after_finished
        86400 in
    (before, after, p, q)

pick_ttl_idem :
    (own template template' : Option ℕ) (fallback : ℕ)
    → pick_ttl (pick_ttl own template fallback) template' fallback ≡ pick_ttl own template fallback
unfolding pick_ttl
pick_ttl_idem (some t) template template' fallback = refl
pick_ttl_idem none (some t) template' fallback = refl
pick_ttl_idem none none template' fallback = refl

-- Once set, the lifetimes stay as they are, also when the template changes.
pub set_console_ttls_idem :
    (csl : Console) (tpl tpl' : ConsoleTemplate)
    → set_console_ttls (set_console_ttls csl tpl) tpl' ≡ set_console_ttls csl tpl
unfolding set_console_ttls
set_console_ttls_idem csl tpl tpl' =
    rw
      (
        pick_ttl_idem csl.spec.ttl_seconds_before_running
            tpl.spec.default_ttl_seconds_before_running tpl'.spec.default_ttl_seconds_before_running
            3600,
        pick_ttl_idem csl.spec.ttl_seconds_after_finished
            tpl.spec.default_ttl_seconds_after_finished tpl'.spec.default_ttl_seconds_after_finished
            86400,
      )
      refl
