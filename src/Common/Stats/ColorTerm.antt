-- ===== src/Common/Stats/ColorTerm.antt =====
-- common/stats/color_term.cpp and color_term.h: when the output is colored, and the codes for it.
use Prim.Native.String.{String}
use text.Mathlib.Text as Text
use shm_sync.Prelude.{
  ℕ, ◌≡◌, Bool, true, false, ◌&&◌, if◌then◌else◌, Option, none, some, List, [], ◌∷◌, refl,
}
use shm_sync.Common.Stats.Stream.{chars}

-- `ESC`, written `\033` in the source.
abbrev escape : List ℕ → List ℕ
escape rest = 0x1b ∷ rest

abbrev pub c_reset : List ℕ
c_reset = escape (chars "[0m")

abbrev pub c_bold_green : List ℕ
c_bold_green = escape (b'[' ∷ b'1' ∷ b'm' ∷ escape (chars "[32m"))

abbrev pub c_bold_blue : List ℕ
c_bold_blue = escape (b'[' ∷ b'1' ∷ b'm' ∷ escape (chars "[34m"))

-- The objects that the address of a stream is compared with.
pub data Ostream : Type 0 where
  cout : Ostream
  cerr : Ostream
  clog : Ostream
  other : Ostream

-- `isTerminalStream`; `isatty` answers for standard output (1) and standard error (2).
pub is_terminal_stream : (ℕ → Bool) → Ostream → Bool
is_terminal_stream isatty cout = isatty 1
is_terminal_stream isatty cerr = isatty 2
is_terminal_stream isatty clog = isatty 2
is_terminal_stream isatty other = false

abbrev pub terms : List String
terms =
    "xterm" ∷ "xterm-256" ∷ "xterm-256color" ∷ "vt100" ∷ "color" ∷ "ansi" ∷ "cygwin" ∷ "linux" ∷ []

-- The loop over the names of terminals.
abbrev pub any_term : String → List String → Bool
any_term env_p [] = false
any_term env_p (term ∷ rest) = if Text.◌==◌ env_p term then true else any_term env_p rest

-- `supportsColor`; the argument is the environment's `TERM`.
pub supports_color : Option String → Bool
supports_color none = false
supports_color (some env_p) = any_term env_p terms

-- The color of a stream in `dump_details_of_run` and `dumpData`.
abbrev pub uses_color : (ℕ → Bool) → Option String → Ostream → Bool
uses_color isatty term os = is_terminal_stream isatty os && supports_color term

-- A file gets no color, whatever the terminal.
pub file_plain : (isatty : ℕ → Bool) (term : Option String) → uses_color isatty term other ≡ false
unfolding is_terminal_stream
file_plain isatty term = refl
