-- ===== src/Python/Files.antt =====
-- An append to a file of JSON lines as `open("ab")`, `write`, `flush` and `os.fsync` do it: where one of
-- them raises, the file can hold nothing of the row, a part of it, or all of it.
use sharpearena.Prelude.{String, List, [], ◌∷◌}
use sharpearena.Python.Json.{Json}

pub data Line (F : Type 0) : Type 0 where
  row : Json F → Line F
  torn : String → Line F

pub data Outcome : Type 0 where
  written unwritten unsynced : Outcome
  cut : String → Outcome

-- The lines that an append adds.
abbrev pub added : {F : Type 0} → Json F → Outcome → List (Line F)
added j written = row j ∷ []
added j unwritten = []
added j unsynced = row j ∷ []
added j (cut text) = torn text ∷ []
