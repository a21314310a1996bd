-- ===== src/Logger/Levels.antt =====
-- The names of the severities in fluid/logger.go.
use fluidfs.Prelude.{ℕ, ◌≤◌, ◌≡◌, refl, ap, ◌∙◌, map, arith}
use fluidfs.Logger.{
  LogLevel, level_debug, level_info, level_warn, level_error, level_fatal, level_string,
  switch_level, trim_blanks, level_from_string,
}

-- What is used of the upper case of a rune: that of a capital is the capital.
abbrev pub KeepsCapitals : (ℕ → ℕ) → Type 0
KeepsCapitals upper = (c : ℕ) → b'A' ≤ c → c ≤ b'Z' → upper c ≡ c

module _ (upper : ℕ → ℕ) (keeps : KeepsCapitals upper) where
  map_upper : (l : LogLevel) → map upper (level_string l) ≡ level_string l
  map_upper level_debug =
      rw
        (
          keeps b'D' (omega arith) (omega arith),
          keeps b'E' (omega arith) (omega arith),
          keeps b'B' (omega arith) (omega arith),
          keeps b'U' (omega arith) (omega arith),
          keeps b'G' (omega arith) (omega arith),
        )
        refl
  map_upper level_info =
      rw
        (
          keeps b'I' (omega arith) (omega arith),
          keeps b'N' (omega arith) (omega arith),
          keeps b'F' (omega arith) (omega arith),
          keeps b'O' (omega arith) (omega arith),
        )
        refl
  map_upper level_warn =
      rw
        (
          keeps b'W' (omega arith) (omega arith),
          keeps b'A' (omega arith) (omega arith),
          keeps b'R' (omega arith) (omega arith),
          keeps b'N' (omega arith) (omega arith),
        )
        refl
  map_upper level_error =
      rw
        (
          keeps b'E' (omega arith) (omega arith),
          keeps b'R' (omega arith) (omega arith),
          keeps b'O' (omega arith) (omega arith),
        )
        refl
  map_upper level_fatal =
      rw
        (
          keeps b'F' (omega arith) (omega arith),
          keeps b'A' (omega arith) (omega arith),
          keeps b'T' (omega arith) (omega arith),
          keeps b'L' (omega arith) (omega arith),
        )
        refl

  switch_level-level_string : (l : LogLevel) → switch_level (trim_blanks (level_string l)) ≡ l
  switch_level-level_string level_debug = refl
  switch_level-level_string level_info = refl
  switch_level-level_string level_warn = refl
  switch_level-level_string level_error = refl
  switch_level-level_string level_fatal = refl

  -- `LevelFromString` of a severity's name is the severity.
  pub level_from_string-level_string : (l : LogLevel) → level_from_string upper (level_string l) ≡ l
  unfolding level_from_string
  level_from_string-level_string l =
      ap (λ s. switch_level (trim_blanks s)) (map_upper l) ∙ switch_level-level_string l
