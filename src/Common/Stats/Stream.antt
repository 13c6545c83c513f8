-- ===== src/Common/Stats/Stream.antt =====
-- `std::ostream` as common/stats/stats.cpp uses it: texts, numbers and the manipulators between
-- them. A text is the list of its characters' codes.
pub mod Lengths
use Prim.Native.Char.{code}
use Prim.Native.String.{String}
use shm_sync.Prelude.{
  ℕ, zero, suc, ◌+◌, ◌-◌, ◌/◌, ◌%◌, ltb, Bool, true, false, if◌then◌else◌, List, [], ◌∷◌, ◌++◌,
  length, replicate,
}

-- The characters of a literal.
abbrev pub chars : String → List ℕ
chars String.[] = []
chars (String.◌∷◌ c rest) = code c ∷ chars rest

-- What is sent to a stream by `<<`: a text, an integer, a number that is not whole, the end of a
-- line, or a manipulator; `precision` is the call of that method.
pub data Item (D : Type 0) : Type 0 where
  str : List ℕ → Item D
  num : ℕ → Item D
  dbl : D → Item D
  endl : Item D
  left : Item D
  right : Item D
  setw : ℕ → Item D
  scientific : Item D
  precision : ℕ → Item D

-- The format of a stream; `width` holds for the next text or number only.
pub record Format : Type 0 where
  pub is_left : Bool
  pub is_scientific : Bool
  pub digits : ℕ
  pub width : ℕ

-- A stream that has just been opened.
abbrev pub opened : Format
opened = record { is_left = false; is_scientific = false; digits = 6; width = 0 }

-- An integer in decimal; the first number is enough for the count of its digits.
unfoldable pub decimal_from : ℕ → ℕ → List ℕ
decimal_from zero n = (b'0' + n) ∷ []
decimal_from (suc fuel) n =
    let tens = decimal_from fuel (n / 10) in
    if ltb n 10 then (b'0' + n) ∷ [] else tens ++ ((b'0' + n % 10) ∷ [])

abbrev pub decimal : ℕ → List ℕ
decimal n = decimal_from n n

-- Blanks on the left or the right up to the width.
abbrev pub padded : Bool → ℕ → List ℕ → List ℕ
padded is_left width text =
    let blanks = replicate (width - length text) b' ' in
    if is_left then text ++ blanks else blanks ++ text

-- `show` gives the text of a `double`, in scientific notation or not, to a precision.
module _ {D : Type 0} (show : Bool → ℕ → D → List ℕ) where
  -- A text or a number resets the width.
  abbrev written : Format → List ℕ → List ℕ × Format
  written f text = (padded f.is_left f.width text, record f { width = 0 })

  abbrev pub step : Item D → Format → List ℕ × Format
  step (str text) f = written f text
  step (num n) f = written f (decimal n)
  step (dbl d) f = written f (show f.is_scientific f.digits d)
  step endl f = (b'\n' ∷ [], f)
  step left f = ([], record f { is_left = true })
  step right f = ([], record f { is_left = false })
  step (setw w) f = ([], record f { width = w })
  step scientific f = ([], record f { is_scientific = true })
  step (precision p) f = ([], record f { digits = p })

  -- The text that the items add to a stream, and its format behind them.
  unfoldable pub emit : List (Item D) → Format → List ℕ × Format
  emit [] f = ([], f)
  emit (i ∷ items) f = let (text, g) = step i f in let (more, h) = emit items g in (text ++ more, h)
