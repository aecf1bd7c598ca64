-- ===== src/Console/Template/Matching.antt =====
-- helpers.go: one rule matches a command exactly when the patterns of the comment on
-- `GetAuthorisationRuleForCommand` say so.
use theatre.Prelude.{
  ◌≡◌, ◌≢◌, refl, ◌↔◌, sym, ◌∙◌, String, ◌==◌, ==_of_eq, ==_of_ne, eq_iff, true, false, some, List,
  [], ◌∷◌, length, arith, if◌then◌else◌, inl, inr, String-discrete, subst, Bool-cases,
}
use mathlib.Core.List.{tail}
use theatre.Console.Template.{
  Verdict, matches, differs, out_of_range, match_from, last_matcher, fits, match_rule,
}

-- `*` stands for one element, a final `**` for any number of elements, and any other text for
-- itself.
pub data Matches : List String → List String → Type 0 where
  end : Matches [] []
  rest : {m : String} {command : List String} → m ≡ "**" → Matches (m ∷ []) command
  one : {m c : String} {ms cs : List String} → m ≡ "*" → Matches ms cs → Matches (m ∷ ms) (c ∷ cs)
  exact :
      {m c : String} {ms cs : List String}
      → m ≢ "*"
      → m ≢ "**"
      → c ≡ m
      → Matches ms cs
      → Matches (m ∷ ms) (c ∷ cs)

-- What validation leaves: at least one matcher, and `**` at the end only.
abbrev pub IsPattern : List String → Type 0
IsPattern [] = ⊥
IsPattern (m ∷ []) = Unit
IsPattern (m ∷ n ∷ ms) = (m ≢ "**") × IsPattern (n ∷ ms)

star_ne_stars : ◌≢◌ {A = String} "*" "**"
star_ne_stars = ground (arith, eq_iff "*" "**")

-- The number of elements that the matchers ask for.
abbrev AcceptsLength : List String → List String → String → Type 0
AcceptsLength matchers command last = fits matchers command last ≡ true

-- How the loop's verdict relates to the relation.
record IsVerdict (matchers command : List String) (v : Verdict) : Type 0 where
  sound : v ≡ matches → Matches matchers command
  complete : Matches matchers command → v ≡ matches
  in_range : v ≢ out_of_range

match_from-one :
    (m : String) (ms command : List String)
    → m ≡ "*"
    → match_from (m ∷ ms) command ≡ match_from ms (tail command)
unfolding match_from
match_from-one m ms command e = rw (==_of_eq e) refl

match_from-rest :
    (m : String) (ms command : List String) → m ≡ "**" → match_from (m ∷ ms) command ≡ matches
unfolding match_from
match_from-rest m ms command e =
    rw (==_of_ne (λ (h : m ≡ "*"). star_ne_stars (sym h ∙ e)), ==_of_eq e) refl

match_from-exact :
    (m c : String) (ms cs : List String)
    → m ≢ "*"
    → m ≢ "**"
    → match_from (m ∷ ms) (c ∷ cs) ≡ (if c == m then match_from ms cs else differs)
unfolding match_from
match_from-exact m c ms cs h k = rw (==_of_ne h, ==_of_ne k) refl

fits-cons :
    (m n c : String) (ms cs : List String) (last : String)
    → fits (m ∷ n ∷ ms) (c ∷ cs) last ≡ fits (n ∷ ms) cs last
unfolding fits
fits-cons m n c ms cs last = ground arith

fits-nil : (m n : String) (ms : List String) (last : String) → fits (m ∷ n ∷ ms) [] last ≡ false
unfolding fits
fits-nil m n ms last = ground arith

fits_of_eq_length :
    (matchers command : List String) (last : String)
    → length matchers ≡ length command
    → AcceptsLength matchers command last
unfolding fits
fits_of_eq_length matchers command last h = ground arith

fits_of_stars :
    (m : String) (command : List String) (last : String)
    → last ≡ "**"
    → AcceptsLength (m ∷ []) command last
unfolding fits
fits_of_stars m command last h = ground (arith, eq_iff last "**")

fits_single :
    (m : String) (command : List String)
    → AcceptsLength (m ∷ []) command m
    → m ≢ "**"
    → (c : String) × (command ≡ c ∷ [])
unfolding fits
fits_single m [] h ne = absurd (ne ((eq_iff m "**").0 (ground arith)))
fits_single m (c ∷ []) h ne = (c, refl)
fits_single m (c ∷ d ∷ cs) h ne = absurd (ne ((eq_iff m "**").0 (ground arith)))

-- A pattern wants the length that the test asks for.
Matches-AcceptsLength :
    (matchers command : List String) (last : String)
    → Matches matchers command
    → IsPattern matchers
    → last_matcher matchers ≡ some last
    → AcceptsLength matchers command last
unfolding last_matcher
Matches-AcceptsLength [] command last x p e = absurd p
Matches-AcceptsLength (m ∷ []) command last (rest h) p e =
    fits_of_stars m command last (sym (cc e) ∙ h)
Matches-AcceptsLength (m ∷ []) (c ∷ cs) last (one h end) p e =
    fits_of_eq_length (m ∷ []) (c ∷ []) last refl
Matches-AcceptsLength (m ∷ []) (c ∷ cs) last (exact h k s end) p e =
    fits_of_eq_length (m ∷ []) (c ∷ []) last refl
Matches-AcceptsLength (m ∷ n ∷ ms) [] last x p e = elim x [ ]
Matches-AcceptsLength (m ∷ n ∷ ms) (c ∷ cs) last (one h x) (_, p) e =
    fits-cons m n c ms cs last ∙ Matches-AcceptsLength (n ∷ ms) cs last x p e
Matches-AcceptsLength (m ∷ n ∷ ms) (c ∷ cs) last (exact h k s x) (_, p) e =
    fits-cons m n c ms cs last ∙ Matches-AcceptsLength (n ∷ ms) cs last x p e

-- What a match says of the first element, when the first matcher is not `**`.
Matches-tail :
    {m c : String} {ms cs : List String} → m ≢ "**" → Matches (m ∷ ms) (c ∷ cs) → Matches ms cs
Matches-tail k (rest h) = absurd (k h)
Matches-tail k (one h x) = x
Matches-tail k (exact h l s x) = x

Matches-head :
    {m c : String} {ms cs : List String} → m ≢ "*" → m ≢ "**" → Matches (m ∷ ms) (c ∷ cs) → c ≡ m
Matches-head h k (rest g) = absurd (k g)
Matches-head h k (one g x) = absurd (h g)
Matches-head h k (exact g l s x) = s

IsVerdict-one :
    (m c : String) (ms cs : List String)
    → m ≡ "*"
    → IsVerdict ms cs (match_from ms cs)
    → IsVerdict (m ∷ ms) (c ∷ cs) (match_from (m ∷ ms) (c ∷ cs))
IsVerdict-one m c ms cs e v = rw (match_from-one m ms (c ∷ cs) e) (record {
  sound = λ h. one e (v.sound h);
  complete = λ x. v.complete (Matches-tail (λ h. star_ne_stars (sym e ∙ h)) x);
  in_range = v.in_range;
})

IsVerdict-exact :
    (m c : String) (ms cs : List String)
    → m ≢ "*"
    → m ≢ "**"
    → IsVerdict ms cs (match_from ms cs)
    → IsVerdict (m ∷ ms) (c ∷ cs) (match_from (m ∷ ms) (c ∷ cs))
IsVerdict-exact m c ms cs h k v = elim (String-discrete c m) [
  | yes e ↦
      rw (match_from-exact m c ms cs h k, ==_of_eq e)
        (record {
          sound = λ g. exact h k e (v.sound g);
          complete = λ x. v.complete (Matches-tail k x);
          in_range = v.in_range;
        })
  | no ne ↦
      rw (match_from-exact m c ms cs h k, ==_of_ne ne)
        (record {
          sound = λ g. cc;
          complete = λ x. absurd (ne (Matches-head h k x));
          in_range = λ g. cc;
        })
]

IsVerdict-cons :
    (m c : String) (ms cs : List String)
    → m ≢ "**"
    → IsVerdict ms cs (match_from ms cs)
    → IsVerdict (m ∷ ms) (c ∷ cs) (match_from (m ∷ ms) (c ∷ cs))
IsVerdict-cons m c ms cs k v = elim (String-discrete m "*") [
  | yes e ↦ IsVerdict-one m c ms cs e v
  | no h ↦ IsVerdict-exact m c ms cs h k v
]

IsVerdict-end : IsVerdict [] [] (match_from [] [])
unfolding match_from
IsVerdict-end = record { sound = λ h. end; complete = λ x. refl; in_range = λ h. cc }

match_from-IsVerdict :
    (matchers command : List String) (last : String)
    → IsPattern matchers
    → last_matcher matchers ≡ some last
    → AcceptsLength matchers command last
    → IsVerdict matchers command (match_from matchers command)
unfolding last_matcher
match_from-IsVerdict [] command last p e f = absurd p
match_from-IsVerdict (m ∷ []) command last p e f = elim (String-discrete m "**") [
  | yes h ↦
      rw (match_from-rest m [] command h)
        (record { sound = λ g. rest h; complete = λ x. refl; in_range = λ g. cc })
  | no k ↦
      let (c, only) = fits_single m command (subst (AcceptsLength (m ∷ []) command) (cc e) f) k in
      rw only (IsVerdict-cons m c [] [] k IsVerdict-end)
]
match_from-IsVerdict (m ∷ n ∷ ms) [] last p e f = cc (fits-nil m n ms last)
match_from-IsVerdict (m ∷ n ∷ ms) (c ∷ cs) last (k, p) e f =
    IsVerdict-cons m c (n ∷ ms) cs k
      (match_from-IsVerdict (n ∷ ms) cs last p e (sym (fits-cons m n c ms cs last) ∙ f))

last_of_IsPattern :
    (matchers : List String)
    → IsPattern matchers
    → (last : String) × (last_matcher matchers ≡ some last)
unfolding last_matcher
last_of_IsPattern [] p = absurd p
last_of_IsPattern (m ∷ []) p = (m, refl)
last_of_IsPattern (m ∷ n ∷ ms) (_, p) = last_of_IsPattern (n ∷ ms) p

-- A rule whose matchers form a pattern accepts a command exactly when the pattern matches it, and
-- no index is ever out of range.
pub match_rule-Matches :
    (matchers command : List String)
    → IsPattern matchers
    → ((match_rule matchers command ≡ matches) ↔ Matches matchers command)
      × (match_rule matchers command ≢ out_of_range)
unfolding match_rule
match_rule-Matches matchers command p =
    let (last, e) = last_of_IsPattern matchers p in
    rw (e, match_rule)
      (elim (Bool-cases (fits matchers command last)) [
        | inl f ↦
            let v = match_from-IsVerdict matchers command last p e f in
            rw f ((v.sound, v.complete), v.in_range)
        | inr f ↦
            rw f
              ((λ h. cc, λ x. cc (f, Matches-AcceptsLength matchers command last x p e)), λ h. cc)
      ])
