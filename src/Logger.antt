-- ===== src/Logger.antt =====
-- pkg/logger/logger.go: a logger that puts lines into a channel, by their level.
use Prim.Native.String.{◌++◌}
use zeronet.Prelude.{ℕ, String, List, [], ◌∷◌, Bool, false, true, if◌then◌else◌, ltb, leb, length}
use zeronet.Go.{Outcome, done, blocks, panics, closed_channel}

-- Package fmt, and the colours of fatih/color.
pub data Colour : Type 0 where
  yellow red green : Colour

pub record Formats : Type 0 where
  pub sprint : List String → String
  pub sprintln : List String → String
  pub sprintf : String → List String → String
  pub color_sprintf : Colour → String → List String → String

abbrev pub log_buffer : ℕ
log_buffer = 10

-- `iota` counts from the start of the block, in which `LogBuffer` comes first.
abbrev pub log_level_none : ℕ
log_level_none = 1

abbrev pub log_level_info : ℕ
log_level_info = 2

abbrev pub log_level_warn : ℕ
log_level_warn = 3

abbrev pub log_level_error : ℕ
log_level_error = 4

abbrev pub log_level_debug : ℕ
log_level_debug = 5

-- `logs` are the lines that wait in the channel.
pub record Logger : Type 0 where
  pub logs : List String
  pub closed : Bool
  pub prefix : String
  pub log_level : ℕ

unfoldable pub new : Logger
new = record { logs = []; closed = false; prefix = ""; log_level = 0 }

-- A level out of range is changed in the parameter, and not stored. A negative one is out of range like 0.
unfoldable pub set_log_level : ℕ → Logger → Logger
set_log_level level l =
    if ltb level log_level_none
    then l
    else if ltb log_level_debug level
    then l
    else record l { log_level = level }

unfoldable pub set_prefix : String → Logger → Logger
set_prefix prefix l = record l { prefix = prefix }

unfoldable pub close_logs : Logger → Outcome Logger
close_logs l = if l.closed then panics closed_channel else done (record l { closed = true })

abbrev enqueue : String → List String → List String
enqueue s [] = s ∷ []
enqueue s (x ∷ xs) = x ∷ enqueue s xs

-- A send waits while the channel is full.
abbrev pub send_line : String → Logger → Outcome Logger
send_line s l =
    if l.closed
    then panics closed_channel
    else if ltb (length l.logs) log_buffer
    then done (record l { logs = enqueue s l.logs })
    else blocks

-- A level that admits lines of another.
abbrev pub at_level : ℕ → (Logger → Outcome Logger) → Logger → Outcome Logger
at_level level f l = if leb level l.log_level then f l else done l

module _ (F : Formats) where
  unfoldable pub printf : String → List String → Logger → Outcome Logger
  printf format v l = send_line (F.sprintf format v) l

  unfoldable pub println : List String → Logger → Outcome Logger
  println s l = send_line (F.sprintln s) l

  unfoldable pub print : List String → Logger → Outcome Logger
  print v l = send_line (F.sprint v) l

  unfoldable pub info : List String → Logger → Outcome Logger
  info v l = at_level log_level_info (print (F.sprintf "INFO: %s" v ∷ [])) l

  unfoldable pub infof : String → List String → Logger → Outcome Logger
  infof format v l = at_level log_level_info (printf ("INFO: " ++ format) v) l

  unfoldable pub warn : List String → Logger → Outcome Logger
  warn v l = at_level log_level_warn (print (F.color_sprintf yellow "WARN: %s" v ∷ [])) l

  unfoldable pub warnf : String → List String → Logger → Outcome Logger
  warnf format v l =
      at_level log_level_warn (printf (F.color_sprintf yellow ("WARN: " ++ format) v) []) l

  unfoldable pub error : List String → Logger → Outcome Logger
  error v l = at_level log_level_error (print (F.color_sprintf red "ERROR: %s" v ∷ [])) l

  unfoldable pub errorf : String → List String → Logger → Outcome Logger
  errorf format v l =
      at_level log_level_error (printf (F.color_sprintf red ("ERROR: " ++ format) v) []) l

  unfoldable pub debug : List String → Logger → Outcome Logger
  debug v l = at_level log_level_debug (print (F.color_sprintf green "DEBUG: %s" v ∷ [])) l

  unfoldable pub debugf : String → List String → Logger → Outcome Logger
  debugf format v l =
      at_level log_level_debug (printf (F.color_sprintf green ("ERROR: " ++ format) v) []) l
