-- ===== src/Driver/Log/Laws.antt =====
-- When a log line is written, and how large the files become.
use nyan_real_vdd.Base.{ℕ, ◌+◌, ◌<◌, ◌≡◌, Bool, true, false, arith, leb, ltb, Bool-cases, inl, inr}
use nyan_real_vdd.Driver.Log.{
  LogFiles, LogEnv, Logged, aborted, logged, max_log_bytes, formatted, write_line, nyan_vdd_log,
}

abbrev pub has_aborted : Logged → Bool
has_aborted aborted = true
has_aborted (logged f) = false

-- A message of up to 500 characters is logged; a longer one, for which the buffer is full before the
-- line's end is appended, ends the program.
pub nyan_vdd_log_aborts_iff :
    (env : LogEnv) (n : ℕ) (f : LogFiles) → has_aborted (nyan_vdd_log env n f) ≡ leb 501 n
unfolding nyan_vdd_log
nyan_vdd_log_aborts_iff env n f = ground arith

-- The sizes between two lines.
pub record Bounded (f : LogFiles) : Type 0 where
  pub log : f.log < max_log_bytes + 535
  pub old : f.old < max_log_bytes + 535

abbrev pub BoundedAfter : Logged → Type 0
BoundedAfter aborted = Unit
BoundedAfter (logged f) = Bounded f

write_line-Bounded :
    (env : LogEnv) (chars : ℕ) (f : LogFiles)
    → chars < 512
    → env.size_known ≡ true
    → env.moves ≡ true
    → Bounded f
    → Bounded (write_line env chars f)
unfolding write_line
write_line-Bounded env chars f lt known moves v = record {
  log = ground (arith, v.log, v.old);
  old = ground (arith, v.log, v.old);
}

-- While the size of the log can be read and the rename succeeds, each line keeps both files below
-- the limit plus one line of 535 bytes: a line is appended to a file that is just below the limit.
pub nyan_vdd_log-Bounded :
    (env : LogEnv) (n : ℕ) (f : LogFiles)
    → env.size_known ≡ true
    → env.moves ≡ true
    → Bounded f
    → BoundedAfter (nyan_vdd_log env n f)
unfolding nyan_vdd_log
nyan_vdd_log-Bounded env n f known moves v = elim (Bool-cases (ltb (formatted n + 1) 512)) [
  | inl fits ↦ simp fits (write_line-Bounded env (formatted n + 1) f (ground arith) known moves v)
  | inr full ↦ simp full tt
]
