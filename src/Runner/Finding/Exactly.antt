-- ===== src/Runner/Finding/Exactly.antt =====
-- runner.go: a console is found by its name exactly when it is the only one of that name.
use theatre.Prelude.{
  ◌≡◌, refl, ap, ◌∙◌, sym, ◌↔◌, String, ◌==◌, eq_iff, Bool, true, false, ◌||◌, ◌&&◌, none, List, [],
  ◌∷◌, ◌++◌, ok, arith, any, Bool-cases, inl, inr,
}
use theatre.Console.{Console}
use theatre.Runner.{Api}
use theatre.Runner.Finding.{
  named, only_console, owned_by, find_console_by_name, list_consoles_by_labels_and_user,
  with_selector,
}

abbrev has_name : String → Console → Bool
has_name name c = c.metadata.name == name

-- The only console of a name in a list.
pub record IsOnly (name : String) (csls : List Console) (c : Console) : Type 0 where
  pub before : List Console
  pub after : List Console
  pub split : csls ≡ before ++ c ∷ after
  pub is_named : c.metadata.name ≡ name
  pub none_before : any (has_name name) before ≡ false
  pub none_after : any (has_name name) after ≡ false

named-nil :
    (name : String) (csls : List Console) → named name csls ≡ [] → any (has_name name) csls ≡ false
unfolding named
named-nil name [] h = refl
named-nil name (x ∷ csls) h = elim (Bool-cases (has_name name x)) [
  | inl e ↦ absurd (ground (arith, h))
  | inr e ↦ ground (arith, h, named-nil name csls)
]

named-none :
    (name : String) (csls : List Console) → any (has_name name) csls ≡ false → named name csls ≡ []
unfolding named
named-none name [] h = refl
named-none name (x ∷ csls) h = ground (arith, named-none name csls)

named-append :
    (name : String) (xs ys : List Console) → named name (xs ++ ys) ≡ named name xs ++ named name ys
unfolding named
named-append name [] ys = refl
named-append name (x ∷ xs) ys = ground (arith, named-append name xs ys)

named-IsOnly :
    (name : String) (csls : List Console) (c : Console)
    → named name csls ≡ c ∷ []
    → IsOnly name csls c
unfolding named
named-IsOnly name [] c h = cc
named-IsOnly name (x ∷ csls) c h = elim (Bool-cases (has_name name x)) [
  | inl e ↦
      let eq : x ∷ named name csls ≡ c ∷ [] = ground (arith, h) in
      let same : x ≡ c = cc eq in
      let rest : named name csls ≡ [] = cc eq in
      record {
        before = [];
        after = csls;
        split = cc same;
        is_named = ap (λ d. d.metadata.name) (sym same) ∙ (eq_iff x.metadata.name name).0 e;
        none_before = refl;
        none_after = named-nil name csls rest;
      }
  | inr e ↦
      let only = named-IsOnly name csls c (ground (arith, h)) in
      record {
        before = x ∷ only.before;
        after = only.after;
        split = ap (λ l. x ∷ l) only.split;
        is_named = only.is_named;
        none_before = ground (arith, only.none_before);
        none_after = only.none_after;
      }
]

IsOnly-named :
    (name : String) (csls : List Console) (c : Console)
    → IsOnly name csls c
    → named name csls ≡ c ∷ []
IsOnly-named name csls c only =
    let own : has_name name c ≡ true = (eq_iff c.metadata.name name).1 only.is_named in
    let rest : named name only.after ≡ [] = named-none name only.after only.none_after in
    let mine : named name (c ∷ only.after) ≡ c ∷ [] = unfold named in ground (arith, rest) in
    ap (named name) only.split
    ∙ named-append name only.before (c ∷ only.after)
    ∙ cc (named-none name only.before only.none_before, mine)

only_console_iff :
    (name : String) (csls : List Console) (c : Console)
    → (only_console name csls ≡ ok c) ↔ (csls ≡ c ∷ [])
unfolding only_console
only_console_iff name [] c = (λ h. cc h, λ h. cc h)
only_console_iff name (d ∷ []) c = (λ h. cc h, λ h. cc h)
only_console_iff name (d ∷ e ∷ csls) c = (λ h. cc h, λ h. cc h)

-- When the consoles of a namespace can be listed, FindConsoleByName answers a console exactly when
-- it is the only one in the list with that name.
pub find_console_by_name_iff :
    {S Raw : Type 0} (k : Api S Raw) (namespace name : String) (s : S) (csls : List Console)
    (c : Console)
    → k.list_consoles namespace [] s ≡ (csls, none)
    → (find_console_by_name k namespace name s ≡ ok c) ↔ IsOnly name csls c
unfolding find_console_by_name
find_console_by_name_iff k namespace name s csls c found = rw found (
  λ h. named-IsOnly name csls c ((only_console_iff name (named name csls) c).0 h),
  λ only. (only_console_iff name (named name csls) c).1 (IsOnly-named name csls c only),
)

any-owned_by :
    (username : String) (p : Console → Bool) (csls : List Console)
    → any p (owned_by username csls)
      ≡ any (λ c. (username == "" || c.spec.user == username) && p c) csls
unfolding owned_by
any-owned_by username p [] = refl
any-owned_by username p (x ∷ csls) = ground (arith, any-owned_by username p csls)

-- Whatever a caller looks for among the consoles that are listed for a user and a valid selector,
-- it is there exactly when the API lists such a console that is the user's, or the user is empty;
-- and the error is the API's.
pub list_consoles_by_labels_and_user-any :
    {S Raw : Type 0} (k : Api S Raw) (namespace username selector : String) (s : S)
    (selector_set : List (String × String)) (p : Console → Bool)
    → k.selector_labels selector ≡ ok selector_set
    → (any p (list_consoles_by_labels_and_user k namespace username selector s).0
        ≡ any
            (λ c. (username == "" || c.spec.user == username) && p c)
            (k.list_consoles namespace selector_set s).0)
      × ((list_consoles_by_labels_and_user k namespace username selector s).1
          ≡ (k.list_consoles namespace selector_set s).1)
unfolding list_consoles_by_labels_and_user with_selector
list_consoles_by_labels_and_user-any k namespace username selector s selector_set p valid =
    rw valid (any-owned_by username p (k.list_consoles namespace selector_set s).0, refl)
