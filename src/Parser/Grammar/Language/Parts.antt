-- ===== src/Parser/Grammar/Language/Parts.antt =====
-- What a byte adds to the texts and the names behind it.
use mathlib.Core.Path.{subst}
use redshell.Base.{ℕ, ◌≡◌, refl, [], ◌∷◌, Bytes, arith, ap}
use redshell.Parser.Chart.{
  Action, State, Class, nul, blank, ampersand, semicolon, less, greater, bar, plain, name_move,
  classify,
}
use redshell.Parser.Grammar.Language.{TextThen, NameThen, Language}
use redshell.Parser.Grammar.{IsBlank, IsPlain, InText}

pub ampersand-byte : (c : ℕ) → classify c ≡ ampersand → c ≡ b'&'
unfolding classify
ampersand-byte c h = ground arith

pub semicolon-byte : (c : ℕ) → classify c ≡ semicolon → c ≡ b';'
unfolding classify
semicolon-byte c h = ground arith

pub less-byte : (c : ℕ) → classify c ≡ less → c ≡ b'<'
unfolding classify
less-byte c h = ground arith

pub greater-byte : (c : ℕ) → classify c ≡ greater → c ≡ b'>'
unfolding classify
greater-byte c h = ground arith

pub bar-byte : (c : ℕ) → classify c ≡ bar → c ≡ b'|'
unfolding classify
bar-byte c h = ground arith

pub nul-byte : (c : ℕ) → classify c ≡ nul → c ≡ 0
unfolding classify
nul-byte c h = ground arith

module _ (P : Bytes → Type 0) where
  pub text-cons : (c : ℕ) (xs : Bytes) → InText c → TextThen P xs → TextThen P (c ∷ xs)
  text-cons c xs is (text, (ys, (all, (p, e)))) =
      (c ∷ text, (ys, ((is, all), (p, ap (λ t. c ∷ t) e))))

  pub text-nil : (xs : Bytes) → P xs → TextThen P xs
  text-nil xs p = ([], (xs, (tt, (p, refl))))

  pub name-plain : (c : ℕ) (xs : Bytes) → IsPlain c → TextThen P xs → NameThen P (c ∷ xs)
  name-plain c xs is (text, (ys, (all, (p, e)))) =
      (record { gap = []; text = c ∷ text }, (ys, ((tt, (is, all)), (p, ap (λ t. c ∷ t) e))))

  pub name-blank : (c : ℕ) (xs : Bytes) → IsBlank c → NameThen P xs → NameThen P (c ∷ xs)
  name-blank c xs is (name, (ys, (named, (p, e)))) =
      (record name { gap = c ∷ name.gap }, (ys, (((is, named.0), named.1), (p, ap (λ t. c ∷ t) e))))

  -- the moves of the states before a name
  pub name-step :
      (here inside : State) (act : Action) (k : Class) (c : ℕ) (xs : Bytes)
      → classify c ≡ k
      → Language here ≡ NameThen P
      → Language inside ≡ TextThen P
      → Language (name_move here inside act k).to xs
      → NameThen P (c ∷ xs)
  unfolding name_move
  name-step here inside act blank c xs is before within l =
      name-blank c xs is (subst (λ L. L xs) before l)
  name-step here inside act plain c xs is before within l =
      name-plain c xs is (subst (λ L. L xs) within l)
  name-step here inside act _ c xs is before within l = absurd l

-- a separator and the commands behind it
