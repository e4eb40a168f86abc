-- ===== src/Parser/Grammar/Language/Steps.antt =====
-- One byte before what a state accepts.
use mathlib.Core.List.{append_assoc}
use redshell.Base.{ℕ, ◌≡◌, refl, ◌≢◌, inl, inr, true, none, some, [], ◌∷◌, ◌++◌, Bytes, All, ap}
use redshell.Parser.Buffer.Holds.{NonZero}
use redshell.Parser.Chart.{
  append_in, append_out, State, start, in_command, after_bg, after_separator, before_command,
  before_in, in_in, before_second_out, in_second_out, before_out, in_out, before_second_in,
  in_second_in, blank_line, Class, nul, blank, ampersand, semicolon, less, greater, bar, plain,
  next, end_move, name_move, classify,
}
use redshell.Parser.Grammar.Language.{
  accepts, More, AreMore, render_more, GapMore, AmpersandMore, TextThen, SecondThen, FilesThen,
  Commands, Language,
}
use redshell.Parser.Grammar.Language.Parts.{
  ampersand-byte, semicolon-byte, less-byte, greater-byte, bar-byte, nul-byte, text-cons, text-nil,
  name-step,
}
use redshell.Parser.Grammar.{
  Redirections, no_file, from_file, to_file, from_to, to_from, Separator, by_pipe, by_seq, IsBlank,
  IsPlain, AreFiles, render_files, render_separator,
}

more-separator :
    (s : Separator) (xs : Bytes)
    → Commands xs
    → (more : More) × (AreMore more × (render_separator s ∷ xs ≡ render_more more))
unfolding render_more
more-separator s xs (c, (more, (is, (are, e)))) =
    ((s, c) ∷ more, ((is, are), ap (λ t. render_separator s ∷ t) e))

gap-more : (xs : Bytes) → (more : More) × (AreMore more × (xs ≡ render_more more)) → GapMore xs
gap-more xs (more, (are, e)) = ([], (more, (tt, (are, e))))

ampersand-more :
    (xs : Bytes) → (more : More) × (AreMore more × (xs ≡ render_more more)) → AmpersandMore xs
ampersand-more xs (more, (are, e)) = (none, (more, (tt, (are, e))))

no-more : (more : More) × (AreMore more × ([] ≡ render_more more))
unfolding render_more
no-more = ([], (tt, refl))

ampersand-gap : (xs : Bytes) → GapMore xs → AmpersandMore (b'&' ∷ xs)
ampersand-gap xs (gap, (more, (blank_gap, (are, e)))) =
    (some gap, (more, (blank_gap, (are, ap (λ t. b'&' ∷ t) e))))

-- the moves that end a command or its redirections
end-step :
    (k : Class) (c : ℕ) (xs : Bytes)
    → classify c ≡ k
    → Language (end_move k).to xs
    → AmpersandMore (c ∷ xs)
unfolding end_move
end-step semicolon c xs is l =
    rw (semicolon-byte c is) (ampersand-more _ (more-separator by_seq xs l))
end-step bar c xs is l = rw (bar-byte c is) (ampersand-more _ (more-separator by_pipe xs l))
end-step ampersand c xs is l = rw (ampersand-byte c is) (ampersand-gap xs l)
end-step nul c xs is l = absurd l
end-step _ c xs is l = absurd l

after_bg-step :
    (k : Class) (c : ℕ) (xs : Bytes)
    → classify c ≡ k
    → Language (next after_bg k).to xs
    → GapMore (c ∷ xs)
unfolding next end_move
after_bg-step blank c xs is (gap, (more, (blank_gap, (are, e)))) =
    (c ∷ gap, (more, ((is, blank_gap), (are, ap (λ t. c ∷ t) e))))
after_bg-step semicolon c xs is l =
    rw (semicolon-byte c is) (gap-more _ (more-separator by_seq xs l))
after_bg-step bar c xs is l = rw (bar-byte c is) (gap-more _ (more-separator by_pipe xs l))
after_bg-step _ c xs is l = absurd l

-- redirections as the tree has them
files-Redirections :
    (ys : Bytes)
    → FilesThen AmpersandMore ys
    → (files : Redirections) × ((zs : Bytes) × (AreFiles files
          × (AmpersandMore zs × (ys ≡ render_files files ++ zs))))
files-Redirections ys (inl tail) = (no_file, (ys, (tt, (tail, refl))))
files-Redirections ys (inr (inl (zs, (e, (n, (ws, (named, (inl tail, e')))))))) =
    (from_file n, (ws, (named, (tail, simp (e, e')))))
files-Redirections ys
      (inr (
        inl
          (zs, (e, (n, (ws, (named, (inr (vs, (e'', (m, (us, (named', (tail, e3)))))), e')))))))) =
    (from_to n m, (us, ((named, named'), (tail, simp (e, e', e'', e3, append_assoc)))))
files-Redirections ys (inr (inr (zs, (e, (n, (ws, (named, (inl tail, e')))))))) =
    (to_file n, (ws, (named, (tail, simp (e, e')))))
files-Redirections ys
      (inr (
        inr
          (zs, (e, (n, (ws, (named, (inr (vs, (e'', (m, (us, (named', (tail, e3)))))), e')))))))) =
    (to_from n m, (us, ((named, named'), (tail, simp (e, e', e'', e3, append_assoc)))))

Commands-plain :
    (c : ℕ) (xs : Bytes) → IsPlain c → TextThen (FilesThen AmpersandMore) xs → Commands (c ∷ xs)
Commands-plain c xs is (text, (ys, (all, (tail, e)))) =
    let (files, (zs, (are, ((amp, (more, (is_amp, (are_more, e'')))), e')))) =
      files-Redirections ys tail in
    (
      record { lead = []; text = c ∷ text; files = files; ampersand = amp },
      (
        more,
        (
          record { lead = tt; text = (is, all); files = are; ampersand = is_amp },
          (are_more, simp (e, e', e'', append_assoc)),
        ),
      ),
    )

Commands-blank : (c : ℕ) (xs : Bytes) → IsBlank c → Commands xs → Commands (c ∷ xs)
Commands-blank c xs is (first, (more, (is_first, (are, e)))) = (
  record first { lead = c ∷ first.lead },
  (
    more,
    (
      record {
        lead = (is, is_first.lead);
        text = is_first.text;
        files = is_first.files;
        ampersand = is_first.ampersand;
      },
      (are, ap (λ t. c ∷ t) e),
    ),
  ),
)

step :
    (s : State) (k : Class) (c : ℕ) (xs : Bytes)
    → classify c ≡ k
    → k ≢ nul
    → Language (next s k).to xs
    → Language s (c ∷ xs)
unfolding next end_move name_move
step start blank c xs is live (inl gap) = inl (is, gap)
step start blank c xs is live (inr commands) = inr (Commands-blank c xs is commands)
step start plain c xs is live l = inr (Commands-plain c xs is l)
step blank_line blank c xs is live (inl gap) = inl (is, gap)
step blank_line blank c xs is live (inr commands) = inr (Commands-blank c xs is commands)
step blank_line plain c xs is live l = inr (Commands-plain c xs is l)
step in_command blank c xs is live l = text-cons _ c xs (inl is) l
step in_command plain c xs is live l = text-cons _ c xs (inr is) l
step in_command less c xs is live l =
    text-nil (FilesThen AmpersandMore) (c ∷ xs)
      (inr (inl (xs, (ap (λ b. b ∷ xs) (less-byte c is), l))))
step in_command greater c xs is live l =
    text-nil (FilesThen AmpersandMore) (c ∷ xs)
      (inr (inr (xs, (ap (λ b. b ∷ xs) (greater-byte c is), l))))
step in_command k c xs is live l =
    text-nil (FilesThen AmpersandMore) (c ∷ xs) (inl (end-step k c xs is l))
step after_bg k c xs is live l = after_bg-step k c xs is l
step after_separator blank c xs is live l = Commands-blank c xs is l
step after_separator plain c xs is live l = Commands-plain c xs is l
step before_command blank c xs is live l = Commands-blank c xs is l
step before_command plain c xs is live l = Commands-plain c xs is l
step before_in k c xs is live l =
    name-step (SecondThen b'>' AmpersandMore) before_in in_in append_in k c xs is refl refl l
step before_out k c xs is live l =
    name-step (SecondThen b'<' AmpersandMore) before_out in_out append_out k c xs is refl refl l
step before_second_out k c xs is live l =
    name-step AmpersandMore before_second_out in_second_out append_out k c xs is refl refl l
step before_second_in k c xs is live l =
    name-step AmpersandMore before_second_in in_second_in append_in k c xs is refl refl l
step in_in blank c xs is live l = text-cons _ c xs (inl is) l
step in_in plain c xs is live l = text-cons _ c xs (inr is) l
step in_in greater c xs is live l =
    text-nil (SecondThen b'>' AmpersandMore) (c ∷ xs)
      (inr (xs, (ap (λ b. b ∷ xs) (greater-byte c is), l)))
step in_in k c xs is live l =
    text-nil (SecondThen b'>' AmpersandMore) (c ∷ xs) (inl (end-step k c xs is l))
step in_out blank c xs is live l = text-cons _ c xs (inl is) l
step in_out plain c xs is live l = text-cons _ c xs (inr is) l
step in_out less c xs is live l =
    text-nil (SecondThen b'<' AmpersandMore) (c ∷ xs)
      (inr (xs, (ap (λ b. b ∷ xs) (less-byte c is), l)))
step in_out k c xs is live l =
    text-nil (SecondThen b'<' AmpersandMore) (c ∷ xs) (inl (end-step k c xs is l))
step in_second_out blank c xs is live l = text-cons _ c xs (inl is) l
step in_second_out plain c xs is live l = text-cons _ c xs (inr is) l
step in_second_out k c xs is live l = text-nil AmpersandMore (c ∷ xs) (end-step k c xs is l)
step in_second_in blank c xs is live l = text-cons _ c xs (inl is) l
step in_second_in plain c xs is live l = text-cons _ c xs (inr is) l
step in_second_in k c xs is live l = text-nil AmpersandMore (c ∷ xs) (end-step k c xs is l)
step s k c xs is live l = absurd l

nil-accepted : (s : State) → accepts s [] ≡ true → Language s []
unfolding accepts next end_move name_move
nil-accepted start h = inl tt
nil-accepted blank_line h = inl tt
nil-accepted in_command h = text-nil (FilesThen AmpersandMore) [] (inl (ampersand-more [] no-more))
nil-accepted after_bg h = gap-more [] no-more
nil-accepted in_in h = text-nil (SecondThen b'>' AmpersandMore) [] (inl (ampersand-more [] no-more))
nil-accepted in_out h =
    text-nil (SecondThen b'<' AmpersandMore) [] (inl (ampersand-more [] no-more))
nil-accepted in_second_in h = text-nil AmpersandMore [] (ampersand-more [] no-more)
nil-accepted in_second_out h = text-nil AmpersandMore [] (ampersand-more [] no-more)
nil-accepted _ h = absurd (cc)

-- what the chart accepts from a state on is in the state's language
pub accepts-Language :
    (s : State) (xs : Bytes) → All NonZero xs → accepts s xs ≡ true → Language s xs
unfolding accepts
accepts-Language s [] live h = nil-accepted s h
accepts-Language s (c ∷ xs) live h =
    step s (classify c) c xs refl (λ e. live.0 (nul-byte c e))
      (accepts-Language (next s (classify c)).to xs live.1 h)
