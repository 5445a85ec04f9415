-- ===== src/Lock.antt =====
-- The re-entrant lock (jlock.c). The mutex and the condition variable are those of pthreads: the mutex
-- is the thread that holds it, and `none` is a wait for it. A thread's id is not 0.
pub mod Exclusion
pub mod Waiting
use mathlib.Core.Option
use cs_562_jvm.Base.{ℕ, suc, zero, Option, none, ◌+◌, if◌then◌else◌, some, ◌==◌, ◌^◌, ◌%◌, ◌-◌}

pub record Lock : Type 0 where
  pub owner : ℕ
  pub acquired_count : ℕ
  pub mutex : Option ℕ

unfoldable pub jlock_init : Lock
jlock_init = record { owner = 0; acquired_count = 0; mutex = none }

-- pthread_mutex_lock
abbrev pub mutex_lock : ℕ → Lock → Option Lock
mutex_lock thread l = elim l.mutex [
  | none ↦ some (record l { mutex = some thread })
  | some _ ↦ none
]

unfoldable pub jlock_lock : ℕ → Lock → Option Lock
jlock_lock thread l =
    if l.owner == thread
    then some (record l { acquired_count = (l.acquired_count + 1) % 2 ^ 32 })
    else Option.map (λ (k : Lock). record k { owner = thread; acquired_count = 1 })
        (mutex_lock thread l)

-- `--jlock->acquiredCount`
abbrev pub one_less : ℕ → ℕ
one_less n = (n + (2 ^ 32 - 1)) % 2 ^ 32

unfoldable pub jlock_unlock : ℕ → Lock → Lock
jlock_unlock thread l =
    if l.owner == thread
    then (if one_less l.acquired_count == 0
        then record { owner = 0; acquired_count = 0; mutex = none }
        else record l { acquired_count = one_less l.acquired_count })
    else l

-- jlock_wait up to the wait: pthread_cond_wait gives the mutex back.
unfoldable pub jlock_wait_begin : Lock → Lock
jlock_wait_begin l = record l { mutex = none }

-- jlock_wait after the wait: pthread_cond_wait takes the mutex again.
unfoldable pub jlock_wait_end : ℕ → Lock → Option Lock
jlock_wait_end thread l = mutex_lock thread l
