-- ===== src/Logger/Filter.antt =====
-- What a logger of fluid/logger.go writes of a sequence of messages.
use fluidfs.Prelude.{
  ◌≤◌, ◌≡◌, refl, sym, ap, ap₂, ◌∙◌, inl, inr, Bool, true, false, List, [], ◌∷◌, ◌++◌, append-nil,
  append_assoc, leb, if◌then◌else◌, Bool-cases, arith,
}
use fluidfs.Prelude.Text.{Text}
use fluidfs.Logger.{
  LogLevel, level_debug, level_info, level_warn, level_error, level_fatal, severity, Logger, log,
  log_line, is_fatal,
}

-- A message: its severity, the time and the text.
abbrev pub Message : Type 0
Message = LogLevel × Text × Text

-- After the process has exited there are no more calls.
abbrev pub then_log : Logger × Bool → (Logger → Logger × Bool) → Logger × Bool
then_log (logger, true) rest = (logger, true)
then_log (logger, false) rest = rest logger

-- The calls of `Log` in order.
abbrev pub log_all : List Message → Logger → Logger × Bool
log_all [] logger = (logger, false)
log_all ((level, time, message) ∷ ms) logger = then_log (log level time message logger) (log_all ms)

-- The messages up to the first fatal one, and this.
abbrev pub until_fatal : List Message → List Message
until_fatal [] = []
until_fatal (m ∷ ms) = m ∷ (if is_fatal m.0 then [] else until_fatal ms)

-- The lines of the messages that are severe enough.
abbrev pub lines_above : LogLevel → List Message → List Text
lines_above level [] = []
lines_above level (m ∷ ms) =
    if leb (severity level) (severity m.0)
    then log_line m.0 m.1 m.2 ∷ lines_above level ms
    else lines_above level ms

abbrev pub any_fatal : List Message → Bool
any_fatal [] = false
any_fatal (m ∷ ms) = if is_fatal m.0 then true else any_fatal ms

severity_small : (l : LogLevel) → severity l ≤ 5
severity_small level_debug = omega arith
severity_small level_info = omega arith
severity_small level_warn = omega arith
severity_small level_error = omega arith
severity_small level_fatal = omega arith

-- A message as one call of `Log` takes it: written if it is severe enough, and a fatal one always is.
log_lem :
    (level : LogLevel) (time message : Text) (logger : Logger)
    → log level time message logger ≡ (
      record logger {
        output = logger.output ++ lines_above logger.level ((level, time, message) ∷ []);
      },
      is_fatal level,
    )
unfolding log
log_lem level time message logger =
    elim (Bool-cases (leb (severity logger.level) (severity level))) [
      | inl severe ↦ rw (log, severe) refl
      | inr mild ↦
          rw (log, mild)
            (ap₂ (λ ls fatal. (record logger { output = ls }, fatal))
              (sym (append-nil logger.output)) (mild_not_fatal level mild))
    ]
  where
    mild_not_fatal :
        (l : LogLevel) → leb (severity logger.level) (severity l) ≡ false → false ≡ is_fatal l
    mild_not_fatal level_debug h = refl
    mild_not_fatal level_info h = refl
    mild_not_fatal level_warn h = refl
    mild_not_fatal level_error h = refl
    mild_not_fatal level_fatal h = absurd (ground (arith, severity_small logger.level))

-- A logger's output after a sequence of messages.
abbrev pub logged : List Message → Logger → Logger × Bool
logged ms logger = (
  record logger { output = logger.output ++ lines_above logger.level (until_fatal ms) },
  any_fatal ms,
)

lines_above-cons :
    (level : LogLevel) (m : Message) (ms : List Message)
    → lines_above level (m ∷ ms) ≡ lines_above level (m ∷ []) ++ lines_above level ms
lines_above-cons level m ms = ground arith

-- After calls of `Log` in order, the output of a logger has in addition exactly the lines of the
-- messages that are at least as severe as its level, in their order, up to the first fatal message,
-- which is always written. The process exits just where there is a fatal message.
pub log_all-logged : (ms : List Message) (logger : Logger) → log_all ms logger ≡ logged ms logger
log_all-logged [] logger =
    ap (λ ls. (record logger { output = ls }, false)) (sym (append-nil logger.output))
log_all-logged ((level, time, message) ∷ ms) logger =
    let m : Message = (level, time, message) in
    let next = record logger { output = logger.output ++ lines_above logger.level (m ∷ []) } in
    ap (λ r. then_log r (log_all ms)) (log_lem level time message logger)
    ∙ elim (Bool-cases (is_fatal level)) [
      | inl fatal ↦ rw fatal refl
      | inr goes_on ↦ rw goes_on (
          log_all-logged ms next
          ∙ ap (λ ls. (record logger { output = ls }, any_fatal ms))
              (append_assoc logger.output (lines_above logger.level (m ∷ []))
                  (lines_above logger.level (until_fatal ms))
                ∙ ap (λ ls. logger.output ++ ls)
                    (sym (lines_above-cons logger.level m (until_fatal ms)))))
    ]
