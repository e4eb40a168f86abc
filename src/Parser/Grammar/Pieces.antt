-- ===== src/Parser/Grammar/Pieces.antt =====
-- The chart over one complex: its text, its redirections and its `&`.
use mathlib.Core.List.{append_assoc}
use redshell.Base.{ℕ, ◌≡◌, refl, false, Option, none, some, [], ◌∷◌, ◌++◌, Bytes}
use redshell.Command.{Connection}
use redshell.Parser.Chart.{
  Action, append, append_in, append_out, bg, term, pipe, seq, State, in_command, after_bg,
  after_separator, before_in, in_in, before_second_out, in_second_out, before_out, in_out,
  before_second_in, in_second_in, final, blank, plain, nul, semicolon, bar, next, classify, move,
  is_error,
}
use redshell.Parser.Grammar.Sweep.{
  Reaches, reaches, then-Reaches, quiet_byte, gap-Reaches, Collects, first-Reaches,
}
use redshell.Parser.Grammar.{
  Name, Redirections, no_file, from_file, to_file, from_to, to_from, IsName, AreFiles, render_name,
  render_files, kept, input_of, output_of,
}
use redshell.Parser.Machine.{Expander, Parsed}
use redshell.Parser.Outline.{Draft, act, follow}

abbrev pub draft : Bytes → Bytes → Bytes → Connection → Draft
draft buffer stdin stdout mask = record {
  buffer = buffer;
  stdin = stdin;
  stdout = stdout;
  mask = mask;
}

-- the state behind the redirections
abbrev pub files_state : Redirections → State
files_state no_file = in_command
files_state (from_file _) = in_in
files_state (to_file _) = in_out
files_state (from_to _ _) = in_second_out
files_state (to_from _ _) = in_second_in

abbrev pub tail_state : Redirections → Option Bytes → State
tail_state files none = files_state files
tail_state files (some _) = after_bg

-- what the chart does at the end of a complex
pub record Ends (s : State) : Type 0 where
  pub nul : next s nul ≡ move final (term ∷ [])
  pub semicolon : next s semicolon ≡ move after_separator (seq ∷ [])
  pub bar : next s bar ≡ move after_separator (pipe ∷ [])

pub tail_state-Ends : (files : Redirections) (amp : Option Bytes) → Ends (tail_state files amp)
unfolding next
tail_state-Ends files (some gap) = record { nul = refl; semicolon = refl; bar = refl }
tail_state-Ends no_file none = record { nul = refl; semicolon = refl; bar = refl }
tail_state-Ends (from_file n) none = record { nul = refl; semicolon = refl; bar = refl }
tail_state-Ends (to_file n) none = record { nul = refl; semicolon = refl; bar = refl }
tail_state-Ends (from_to n m) none = record { nul = refl; semicolon = refl; bar = refl }
tail_state-Ends (to_from n m) none = record { nul = refl; semicolon = refl; bar = refl }

pub files_state-ampersand :
    (files : Redirections) → next (files_state files) (classify b'&') ≡ move after_bg (bg ∷ [])
unfolding next classify
files_state-ampersand no_file = refl
files_state-ampersand (from_file n) = refl
files_state-ampersand (to_file n) = refl
files_state-ampersand (from_to n m) = refl
files_state-ampersand (to_from n m) = refl

module _ (e : Expander) where
  open e use {Aliases}

  module _ (buffer : Bytes) (mask : Connection) where
    pub command-Collects : Collects e in_command append (λ text. draft text [] [] mask)
    unfolding next act
    command-Collects = record {
      blank_step = refl;
      plain_step = refl;
      live = refl;
      acts = λ c text p. refl;
    }

    in_in-Collects : Collects e in_in append_in (λ text. draft buffer text [] mask)
    unfolding next act
    in_in-Collects = record {
      blank_step = refl;
      plain_step = refl;
      live = refl;
      acts = λ c text p. refl;
    }

    in_out-Collects : Collects e in_out append_out (λ text. draft buffer [] text mask)
    unfolding next act
    in_out-Collects = record {
      blank_step = refl;
      plain_step = refl;
      live = refl;
      acts = λ c text p. refl;
    }

    in_second_out-Collects :
        (input : Bytes) → Collects e in_second_out append_out (λ text. draft buffer input text mask)
    unfolding next act
    in_second_out-Collects input = record {
      blank_step = refl;
      plain_step = refl;
      live = refl;
      acts = λ c text p. refl;
    }

    in_second_in-Collects :
        (output : Bytes) → Collects e in_second_in append_in (λ text. draft buffer text output mask)
    unfolding next act
    in_second_in-Collects output = record {
      blank_step = refl;
      plain_step = refl;
      live = refl;
      acts = λ c text p. refl;
    }

  -- a redirection: its sign, the gap and the name
  file-Reaches :
      (s here inside : State) {a : Action} {put : Bytes → Draft} (sign : ℕ)
      → Collects e inside a put
      → next s (classify sign) ≡ move here []
      → next here blank ≡ move here []
      → next here plain ≡ move inside (a ∷ [])
      → is_error here ≡ false
      → (n : Name) (rest : Bytes) → IsName n
      → (p : Parsed Aliases) (before : Option ℕ)
      → Reaches e
          (follow e s before (sign ∷ (render_name n ++ rest)) (put []) p)
          inside
          rest
          (put (kept n.text))
          p
  file-Reaches s here inside {put = put} sign collects signed gap first live n rest h p before =
      rw (append_assoc n.gap n.text rest) (
        then-Reaches e
          (quiet_byte e s here sign (n.gap ++ (n.text ++ rest)) (put []) p signed live before)
          (λ b.
            then-Reaches e (gap-Reaches e here gap live n.gap (n.text ++ rest) h.0 (put []) p b)
              (first-Reaches e collects here first n.text rest h.1 p)))

  pub files-Reaches :
      (files : Redirections) (rest buffer : Bytes) (mask : Connection)
      → AreFiles files
      → (p : Parsed Aliases) (before : Option ℕ)
      → Reaches e
          (follow e in_command before (render_files files ++ rest) (draft buffer [] [] mask) p)
          (files_state files)
          rest
          (draft buffer (kept (input_of files)) (kept (output_of files)) mask)
          p
  unfolding next classify
  files-Reaches no_file rest buffer mask h p before = reaches before refl
  files-Reaches (from_file n) rest buffer mask h p before =
      file-Reaches in_command before_in in_in b'<' (in_in-Collects buffer mask) refl refl refl refl
        n rest h p before
  files-Reaches (to_file n) rest buffer mask h p before =
      file-Reaches in_command before_out in_out b'>' (in_out-Collects buffer mask) refl refl refl
        refl n rest h p before
  files-Reaches (from_to n m) rest buffer mask h p before =
      rw (append_assoc (render_name n) (b'>' ∷ render_name m) rest) (
        then-Reaches e
          (file-Reaches in_command before_in in_in b'<' (in_in-Collects buffer mask) refl refl refl
            refl n (b'>' ∷ (render_name m ++ rest)) h.0 p before)
          (file-Reaches in_in before_second_out in_second_out b'>'
            (in_second_out-Collects buffer mask (kept n.text)) refl refl refl refl m rest h.1 p))
  files-Reaches (to_from n m) rest buffer mask h p before =
      rw (append_assoc (render_name n) (b'<' ∷ render_name m) rest) (
        then-Reaches e
          (file-Reaches in_command before_out in_out b'>' (in_out-Collects buffer mask) refl refl
            refl refl n (b'<' ∷ (render_name m ++ rest)) h.0 p before)
          (file-Reaches in_out before_second_in in_second_in b'<'
            (in_second_in-Collects buffer mask (kept n.text)) refl refl refl refl m rest h.1 p))
