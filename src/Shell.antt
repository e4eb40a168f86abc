-- ===== src/Shell.antt =====
-- `parseInput` with `expandAlias` over the aliases, as the program links them.
use redshell.Alias.Laws.{cleared}
use redshell.Alias.Table.{HashTable, Lawful}
use redshell.Alias.Weight.{total, keys, sum_over}
use redshell.Alias.{Alias}
use redshell.Base.{
  ℕ, ◌+◌, ◌≤◌, ◌<◌, ◌≡◌, refl, Option, none, some, List, [], ◌∷◌, Bytes, arith, length, All, Run,
  fault, out_of_bounds, ap, ◌∙◌, sym,
}
use redshell.Helper.Aliases.Ends.{Same, Released, expand_alias-Outcome}
use redshell.Helper.Aliases.Fits.{free_length, expand_alias-fits}
use redshell.Helper.Aliases.Outcomes.{
  Outcome, overflow, returns, Outcome-map, Returns, returned, Outcome-Returns,
}
use redshell.Helper.Aliases.{expand_alias}
use redshell.Helper.Words.{WordExp}
use redshell.Parser.Buffer.{buf_size}
use redshell.Parser.Lookup.{CharType}
use redshell.Parser.Machine.{Expander, Params, parse_input}
use redshell.Parser.Outline.Rounds.{IsChar}
use redshell.Parser.Safe.{Safe, left_array, safe, parse_input-Safe}

pub Outcome-Safe :
    {O A : Type 0} {P : A → Type 0} (run : Run A)
    → (run ≡ fault out_of_bounds → O)
    → Outcome P run
    → Safe O P run
Outcome-Safe run because overflow = left_array (because refl)
Outcome-Safe run because (returns a p) = safe a p

Returns-Safe : {A : Type 0} {P : A → Type 0} {run : Run A} → Returns P run → Safe ⊥ P run
Returns-Safe (returned a p) = safe a p

-- the bytes of an alias's value
abbrev pub full_length : Option Alias → ℕ
full_length none = 0
full_length (some a) = length a.value

free-full : (o o' : Option Alias) → cleared o ≡ cleared o' → free_length o ≤ full_length o'
free-full o o' same =
    let lengths : full_length o ≡ full_length o' =
      sym (full-cleared o) ∙ ap full_length same ∙ full-cleared o' in
    omega (arith, lengths, shorter o)
  where
    full-cleared : (o : Option Alias) → full_length (cleared o) ≡ full_length o
    full-cleared none = refl
    full-cleared (some a) = refl

    shorter : (o : Option Alias) → free_length o ≤ full_length o
    shorter none = omega arith
    shorter (some a) = ground arith

pub cleared_idem : (o : Option Alias) → cleared (cleared o) ≡ cleared o
cleared_idem none = refl
cleared_idem (some a) = refl

sum_over_mono :
    (f g : Bytes → ℕ)
    → ((k : Bytes) → f k ≤ g k)
    → (ks : List Bytes) → sum_over f ks ≤ sum_over g ks
unfolding sum_over
sum_over_mono f g h [] = omega arith
sum_over_mono f g h (k ∷ ks) = omega (arith, h k, sum_over_mono f g h ks)

abbrev pub linked : HashTable Alias → WordExp → Expander
linked h wordexp = record { Aliases = h.Table; expand_alias = expand_alias h; wordexp = wordexp }

module _ (h : HashTable Alias) (laws : Lawful h) (wordexp : WordExp) where
  open h use {Table, lookup, entries}

  Released-Same : (t t' t'' : Table) → Same h laws t t' → Released h laws t' t'' → Same h laws t t''
  Released-Same t t' t'' same released =
      (released.0 ∙ same.0, λ j. ap cleared (released.1 j) ∙ cleared_idem (lookup t' j) ∙ same.1 j)

  total-Same :
      (t t' : Table) → Same h laws t t' → total h laws free_length t' ≤ total h laws full_length t
  total-Same t t' same = rw (same.0) (
      sum_over_mono (λ k. free_length (lookup t' k)) (λ k. full_length (lookup t k))
        (λ k. free-full (lookup t' k) (lookup t k) (same.1 k)) (keys (entries t)))

  -- with the values of the aliases, the expansion of a text that the parser's array holds overflows
  abbrev pub Overflowing : Table → Type 0
  Overflowing t =
      (t' : Table) × Same h laws t t'
      × (text : Bytes) × (length text ≤ buf_size)
      × (expand_alias h t' text ≡ fault out_of_bounds)

  -- Where the line and the values of all aliases have fewer than BUFSIZE bytes together, the parser
  -- returns, with the keys and the values that the aliases had.
  pub parse_input-linked-Returns :
      (c : CharType) (junk : Params) (t : Table) (line : Bytes)
      → All IsChar line
      → total h laws full_length t + length line < buf_size
      → Safe ⊥ (λ p. Same h laws t p.aliases) (parse_input (linked h wordexp) c junk t line)
  parse_input-linked-Returns c junk t line chars small =
      parse_input-Safe (linked h wordexp) ⊥ (Same h laws t) (length line + 1)
        (λ t' s same short _. Returns-Safe (
          Outcome-Returns
            (Outcome-map (λ r released. Released-Same t t' r.1 same released)
              (expand_alias-Outcome h laws t' s))
            (expand_alias-fits h laws t' s (omega (arith, total-Same t t' same)))))
        c junk t line chars (refl, λ j. refl) (omega arith)
