-- ===== src/Common/Texts.antt =====
-- Texts as the program treats them: truthiness, and the prefix test of `startsWith`.
use Prim.Native.Char.{code}
use Prim.Native.String
use Prim.Native.String.{String}
use mathlib.Core.Path.{◌≡◌, sym, ap₂, ◌∙◌}
use mathlib.Core.Bool.{Bool, false, not}
use mathlib.Core.Logic.{inl, inr}
use mathlib.Core.Option.{Option, none, some}
use native.Mathlib.Omega.{arith}
use text.Mathlib.Text.{◌==◌}
use text.Mathlib.TextEquality.{Char-path, eq_iff}
use text.Mathlib.TextLemmas.{nil-append, cons-append}
use coachman.Common.Tests.{eqb, if◌then◌else◌, Bool-cases}

-- a text is falsy exactly when it is empty
abbrev pub truthy : String → Bool
truthy s = not (s == "")

-- an optional text: falsy when absent or empty
abbrev pub present : Option String → Bool
present none = false
present (some s) = truthy s

-- `a || b`
abbrev pub or_text : String → String → String
or_text a b = if truthy a then a else b

abbrev pub or_opt : Option String → Option String → Option String
or_opt a b = if present a then a else b

-- What is left of `s` behind the prefix `p`, or `none` if `s` does not start with `p`.
unfoldable pub strip : String → String → Option String
strip String.[] s = some s
strip (String.◌∷◌ c p) String.[] = none
strip (String.◌∷◌ c p) (String.◌∷◌ d s) = if eqb (code c) (code d) then strip p s else none

-- The prefix and what is left of it are the text.
pub strip_sound : (p s : String) {r : String} → strip p s ≡ some r → s ≡ String.◌++◌ p r
unfolding strip
strip_sound String.[] s {r} h = let e : s ≡ r = cc in e ∙ sym (nil-append r)
strip_sound (String.◌∷◌ c p) String.[] h = cc
strip_sound (String.◌∷◌ c p) (String.◌∷◌ d s) {r} h = elim (Bool-cases (eqb (code c) (code d))) [
  | inl same ↦
      let e : strip p s ≡ some r = ground arith in
      sym (
        cons-append c p r ∙ ap₂ String.◌∷◌ (Char-path c d (ground arith)) (sym (strip_sound p s e)))
  | inr other ↦ absurd (ground arith)
]

pub strip-append : (p s : String) → strip p (String.◌++◌ p s) ≡ some s
unfolding strip
strip-append String.[] s = rw nil-append
strip-append (String.◌∷◌ c p) s = rw cons-append (ground (arith, strip-append p s))

pub differ_comm : (a b : String) → (a == b) ≡ false → (b == a) ≡ false
differ_comm a b n = ground (arith, eq_iff a b, eq_iff b a)
