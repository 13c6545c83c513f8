-- ===== src/Common/Stats/Log.antt =====
-- common/stats/log.cpp: status messages on `std::cerr`, and the calls of the mutex around them.
use shm_sync.Prelude.{ℕ, List, [], ◌∷◌, ◌++◌}
use shm_sync.Common.Stats.Stream.{chars, decimal}

pub data LogEvent : Type 0 where
  lock : LogEvent
  write : List ℕ → LogEvent
  flush : LogEvent
  unlock : LogEvent

abbrev line_end : List ℕ
line_end = b'\n' ∷ []

-- `logStatus(file, line, msg)`.
pub log_status : List ℕ → ℕ → List ℕ → List LogEvent
log_status file line msg =
    lock
    ∷ write (
        chars "STATUS: "
        ++ msg
        ++ chars ", file "
        ++ file
        ++ chars ", line # "
        ++ decimal line
        ++ line_end)
    ∷ flush
    ∷ unlock
    ∷ []

-- `logStatus(file, line, msg, err)`.
pub log_status_error : List ℕ → ℕ → List ℕ → ℕ → List LogEvent
log_status_error file line msg err =
    log_status file line (msg ++ chars ", error: " ++ decimal err ++ line_end)

pub log_sample_status : List ℕ → (s tid exec run : ℕ) → List ℕ → ℕ → List LogEvent
log_sample_status str s tid exec run file line = log_status file line (
    str
    ++ chars " "
    ++ decimal tid
    ++ chars ", sample: "
    ++ decimal s
    ++ chars ", exec: "
    ++ decimal exec
    ++ chars ", run: "
    ++ decimal run)

pub log_simple : List ℕ → ℕ → List ℕ → List ℕ → ℕ → List LogEvent
log_simple str tid str1 file line =
    log_status file line (str ++ chars " " ++ decimal tid ++ chars " " ++ str1)
