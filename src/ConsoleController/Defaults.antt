-- ===== src/ConsoleController/Defaults.antt =====
-- console_controller.go: what the reconciler fills in from the template before it goes on.
pub mod Bounds
use theatre.Prelude.{
  ℕ, Bool, true, false, String, Option, none, some, List, [], ◌∷◌, Result, ok, ltb, if◌then◌else◌,
}
use theatre.Console.{Console}
use theatre.Console.Template.{ConsoleTemplate, get_default_command_with_args}

abbrev pub default_ttl_before_running : ℕ
default_ttl_before_running = 3600

abbrev pub default_ttl_after_finished : ℕ
default_ttl_after_finished = 86400

-- One of the two ladders of `setConsoleTTLs`: the console's own, the template's, the constant.
pick_ttl : Option ℕ → Option ℕ → ℕ → Option ℕ
pick_ttl (some own) template fallback = some own
pick_ttl none (some template) fallback = some template
pick_ttl none none fallback = some fallback

-- `setConsoleTTLs`
unfoldable pub set_console_ttls : Console → ConsoleTemplate → Console
unfolding pick_ttl
set_console_ttls csl tpl = record csl {
  spec = record csl.spec {
    ttl_seconds_before_running =
        pick_ttl csl.spec.ttl_seconds_before_running tpl.spec.default_ttl_seconds_before_running
          default_ttl_before_running;
    ttl_seconds_after_finished =
        pick_ttl csl.spec.ttl_seconds_after_finished tpl.spec.default_ttl_seconds_after_finished
          default_ttl_after_finished;
  };
}

-- The switch of `setConsoleTimeout`.
timeout_for : ℕ → ℕ → ℕ → ℕ
timeout_for asked default max =
    if ltb asked 1 then default else if ltb max asked then max else asked

-- `setConsoleTimeout`
unfoldable pub set_console_timeout : Console → ConsoleTemplate → Console
unfolding timeout_for
set_console_timeout csl tpl = record csl {
  spec = record csl.spec {
    timeout_seconds =
        timeout_for csl.spec.timeout_seconds tpl.spec.default_timeout_seconds
          tpl.spec.max_timeout_seconds;
  };
}

-- `getCommand`
pick_command : List String → ConsoleTemplate → Result (List String)
pick_command [] tpl = get_default_command_with_args tpl
pick_command (c ∷ cs) tpl = ok (c ∷ cs)

unfoldable pub get_command : Console → ConsoleTemplate → Result (List String)
unfolding pick_command
get_command csl tpl = pick_command csl.spec.command tpl
