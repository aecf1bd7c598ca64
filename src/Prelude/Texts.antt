-- ===== src/Prelude/Texts.antt =====
-- Texts as lists of characters: prefixes, parts and joining, as the package strings has them.
use Prim.Native.Char.{Char, code}
use Prim.Native.String.{String, ◌++◌ as ◌<>◌}
use Prim.Native.String.append.{nil as append_nil, cons as append_cons}
use mathlib.Core.Path.{◌≡◌, ap, ◌∙◌, sym}
use mathlib.Core.Bool.{Bool, true, false, ◌&&◌, ◌||◌}
use mathlib.Core.Option.{Option, none, some}
use mathlib.Core.List.{List, [], ◌∷◌}
use native.Mathlib.Omega.{arith}
use theatre.Prelude.Tests.{leb, if◌then◌else◌}

abbrev pub same_char : Char → Char → Bool
same_char a b = leb (code a) (code b) && leb (code b) (code a)

-- The rest of a text after a prefix, if it starts with it.
unfoldable pub strip_prefix : String → String → Option String
strip_prefix String.[] s = some s
strip_prefix (String.◌∷◌ c p) String.[] = none
strip_prefix (String.◌∷◌ c p) (String.◌∷◌ d s) =
    let rest = strip_prefix p s in if same_char c d then rest else none

abbrev has_value : Option String → Bool
has_value none = false
has_value (some _) = true

-- `strings.HasPrefix(s, prefix)`
unfoldable pub has_prefix : String → String → Bool
unfolding strip_prefix
has_prefix s prefix = has_value (strip_prefix prefix s)

or_whole : String → Option String → String
or_whole s none = s
or_whole s (some rest) = rest

-- `strings.TrimPrefix(s, prefix)`
unfoldable pub trim_prefix : String → String → String
unfolding strip_prefix or_whole
trim_prefix s prefix = or_whole s (strip_prefix prefix s)

-- `strings.Contains(s, part)`
unfoldable pub contains : String → String → Bool
unfolding has_prefix
contains String.[] part = has_prefix "" part
contains (String.◌∷◌ c s) part = has_prefix (String.◌∷◌ c s) part || contains s part

-- `strings.Join(parts, separator)`
unfoldable pub join : List String → String → String
join [] separator = ""
join (s ∷ []) separator = s
join (s ∷ t ∷ rest) separator = s <> (separator <> join (t ∷ rest) separator)

-- A text with a prefix in front has that prefix, and the rest comes back.
pub strip_prefix-append : (p s : String) → strip_prefix p (p <> s) ≡ some s
unfolding strip_prefix
strip_prefix-append String.[] s = ap some (append_nil s)
strip_prefix-append (String.◌∷◌ c p) s =
    ap (strip_prefix (String.◌∷◌ c p)) (append_cons c p s) ∙ ground (arith, strip_prefix-append p s)

-- Two texts that differ at a character that both have.
unfoldable pub clash : String → String → Bool
clash (String.◌∷◌ c p) (String.◌∷◌ d q) =
    let rest = clash p q in if same_char c d then rest else true
clash String.[] q = false
clash (String.◌∷◌ c p) String.[] = false

-- A prefix that clashes with the start of a text is none.
pub strip_prefix-append_none : (p q s : String) → clash p q ≡ true → strip_prefix p (q <> s) ≡ none
unfolding strip_prefix clash
strip_prefix-append_none String.[] q s h = cc
strip_prefix-append_none (String.◌∷◌ c p) String.[] s h = cc
strip_prefix-append_none (String.◌∷◌ c p) (String.◌∷◌ d q) s h =
    ap (strip_prefix (String.◌∷◌ c p)) (append_cons d q s)
    ∙ ground (arith, h, strip_prefix-append_none p q s)

grow : Char → String × Option String → String × Option String
grow c (before, after) = (String.◌∷◌ c before, after)

-- A text before and after the first occurrence of a character.
unfoldable pub cut_at : Char → String → String × Option String
unfolding grow
cut_at mark String.[] = ("", none)
cut_at mark (String.◌∷◌ c s) =
    let rest = cut_at mark s in if same_char mark c then ("", some s) else grow c rest

same_char_refl : (c : Char) → same_char c c ≡ true
same_char_refl c = ground arith

-- The character is not in the text.
unfoldable pub lacks : Char → String → Bool
lacks mark String.[] = true
lacks mark (String.◌∷◌ c s) = let rest = lacks mark s in if same_char mark c then false else rest

cut_at-append :
    (mark : Char) (s t : String)
    → lacks mark s ≡ true
    → cut_at mark (s <> String.◌∷◌ mark t) ≡ (s, some t)
unfolding cut_at lacks
cut_at-append mark String.[] t h =
    ap (cut_at mark) (append_nil (String.◌∷◌ mark t)) ∙ ground (arith, same_char_refl mark)
cut_at-append mark (String.◌∷◌ c s) t h =
    ap (cut_at mark) (append_cons c s (String.◌∷◌ mark t))
    ∙ ground (arith, h, cut_at-append mark s t)

-- Two texts with a separator are equal only if their parts are, when the first parts lack it.
pub separated-injective :
    (mark : Char) (s s' t t' : String)
    → lacks mark s ≡ true
    → lacks mark s' ≡ true
    → s <> String.◌∷◌ mark t ≡ s' <> String.◌∷◌ mark t'
    → (s ≡ s') × (t ≡ t')
separated-injective mark s s' t t' h h' e =
    let both : (s, some t) ≡ (s', some t') =
      sym (cut_at-append mark s t h) ∙ ap (cut_at mark) e ∙ cut_at-append mark s' t' h' in
    (ap (λ p. p.0) both, cc (ap (λ p. p.1) both))
