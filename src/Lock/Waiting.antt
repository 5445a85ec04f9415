-- ===== src/Lock/Waiting.antt =====
-- What jlock_wait leaves of the lock.
use cs_562_jvm.Frame.{option_bind}
use cs_562_jvm.Base.{◌≢◌, ◌≡◌, some, none, arith}
use cs_562_jvm.Lock.{Lock, jlock_lock, jlock_unlock, jlock_wait_begin, jlock_wait_end, ℕ}
use cs_562_jvm.Lock.Exclusion.{held}

-- A thread that holds the lock waits in jlock_wait; meanwhile another thread locks and unlocks it. The
-- waiting thread then gets the mutex back, but the lock has no owner: jlock_unlock by this thread
-- changes nothing, and every jlock_lock, by this thread or any other, waits.
pub jlock_wait_loses :
    (waiter other c : ℕ)
    → waiter ≢ 0
    → other ≢ 0
    → waiter ≢ other
    → (l : Lock) × (option_bind
          (jlock_lock other (jlock_wait_begin (held waiter c)))
          (λ taken. jlock_wait_end waiter (jlock_unlock other taken))
        ≡ some l)
      × (jlock_unlock waiter l ≡ l)
      × ((thread : ℕ) → thread ≢ 0 → jlock_lock thread l ≡ none)
unfolding jlock_lock jlock_unlock jlock_wait_begin jlock_wait_end
jlock_wait_loses waiter other c h k ne =
    let l : Lock = record { owner = 0; acquired_count = 0; mutex = some waiter } in
    (l, ground arith, ground arith, λ thread nt. ground arith)
