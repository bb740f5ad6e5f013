-- ===== src/Cli/Root.antt =====
-- cli/cmd/root.go: a command's outcome, and the exit code of the process. The parsing of arguments is
-- cobra's: a command gets the values of its flags.
use rate_cap.Prelude.{ℕ, String, List, [], ◌∷◌, Option, none, some, ◌≡◌, refl}
use rate_cap.Limiter.{Error}

-- What a command has written, and the error that it returns.
pub record Outcome : Type 0 where
  pub out : List String
  pub err : Option Error

abbrev pub failing : Error → Outcome
failing e = record { out = []; err = some e }

-- A writer takes a text, or fails on it.
abbrev pub Writer : Type 0
Writer = String → Option Error

-- Writes of one text after the other, up to the first that fails.
unfoldable pub write_all : Writer → List String → Outcome
write_all w [] = record { out = []; err = none }
write_all w (line ∷ lines) =
    let rest = write_all w lines in
    elim (w line) [ none ↦ record rest { out = line ∷ rest.out } | some e ↦ failing e ]

-- One text that is written.
pub write_all-one :
    (w : Writer) (line : String)
    → w line ≡ none
    → write_all w (line ∷ []) ≡ record { out = line ∷ []; err = none }
unfolding write_all
write_all-one w line e = rw (e, write_all) refl

-- `Run`: the code, what is on the standard output, and what is on the standard error.
unfoldable pub run : Outcome → ℕ × List String × List String
run o = elim o.err [ none ↦ (0, o.out, []) | some e ↦ (1, o.out, (e ∷ [])) ]
