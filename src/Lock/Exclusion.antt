-- ===== src/Lock/Exclusion.antt =====
-- Mutual exclusion and re-entrancy.
use cs_562_jvm.Frame.{option_bind}
use cs_562_jvm.Base.{
  ◌≡◌, ℕ, if◌then◌else◌, ◌≢◌, ◌==◌, none, some, arith, Option, suc, ◌+◌, refl, ◌<◌, zero, ◌^◌, ◌≤◌,
  ◌-◌, ap, ◌∙◌,
}
use cs_562_jvm.Lock.{Lock, jlock_init, jlock_lock, jlock_unlock}

-- the locks that calls of jlock_lock and jlock_unlock lead to, by any threads in any order
pub data Reached : Lock → Type 0 where
  created : Reached jlock_init
  locked :
      (thread : ℕ) (l l' : Lock)
      → Reached l
      → thread ≢ 0
      → jlock_lock thread l ≡ some l'
      → Reached l'
  unlocked : (thread : ℕ) (l : Lock) → Reached l → thread ≢ 0 → Reached (jlock_unlock thread l)

-- the mutex is held by the owner, and by nobody if there is none
abbrev pub Agrees : Lock → Type 0
Agrees l = l.mutex ≡ (if l.owner == 0 then none else some l.owner)

jlock_lock-Agrees :
    (thread : ℕ) (l l' : Lock) → Agrees l → thread ≢ 0 → jlock_lock thread l ≡ some l' → Agrees l'
unfolding jlock_lock
jlock_lock-Agrees thread l l' a ne e = ground arith

jlock_unlock-Agrees : (thread : ℕ) (l : Lock) → Agrees l → Agrees (jlock_unlock thread l)
unfolding jlock_unlock
jlock_unlock-Agrees thread l a = ground arith

Reached-Agrees : {l : Lock} → Reached l → Agrees l
unfolding jlock_init
Reached-Agrees created = refl
Reached-Agrees (locked thread l l' r ne e) = jlock_lock-Agrees thread l l' (Reached-Agrees r) ne e
Reached-Agrees (unlocked thread l r ne) = jlock_unlock-Agrees thread l (Reached-Agrees r)

-- the lock as `thread` holds it after `k` calls of jlock_lock
abbrev pub held : ℕ → ℕ → Lock
held thread k = record { owner = thread; acquired_count = k; mutex = some thread }

-- Whatever calls of jlock_lock and jlock_unlock came before, by any threads: a thread that is not the
-- owner waits in jlock_lock while the lock has an owner, and otherwise gets it at once, acquired once; its
-- jlock_unlock changes nothing.
pub jlock_exclusive :
    (l : Lock) (thread : ℕ)
    → Reached l
    → thread ≢ 0
    → thread ≢ l.owner
    → (jlock_lock thread l ≡ (if l.owner == 0 then some (held thread 1) else none))
      × (jlock_unlock thread l ≡ l)
unfolding jlock_lock jlock_unlock
jlock_exclusive l thread r ne other = let a = Reached-Agrees r in (ground arith, ground arith)

-- `n` calls of jlock_lock, and of jlock_unlock
abbrev pub lock_times : ℕ → ℕ → Lock → Option Lock
lock_times zero thread l = some l
lock_times (suc n) thread l = option_bind (lock_times n thread l) (jlock_lock thread)

abbrev pub unlock_times : ℕ → ℕ → Lock → Lock
unlock_times zero thread l = l
unlock_times (suc n) thread l = jlock_unlock thread (unlock_times n thread l)

pub lock_again :
    (thread n : ℕ) → n + 1 < 2 ^ 32 → jlock_lock thread (held thread n) ≡ some (held thread (suc n))
unfolding jlock_lock
lock_again thread n h = ground arith

pub lock_first : (thread : ℕ) → thread ≢ 0 → jlock_lock thread jlock_init ≡ some (held thread 1)
unfolding jlock_lock jlock_init
lock_first thread ne = ground arith

pub unlock_inner :
    (thread n : ℕ)
    → n + 1 < 2 ^ 32
    → n ≢ 0
    → jlock_unlock thread (held thread (suc n)) ≡ held thread n
unfolding jlock_unlock
unlock_inner thread n h ne = ground arith

unlock_last : (thread : ℕ) → jlock_unlock thread (held thread 1) ≡ jlock_init
unfolding jlock_unlock jlock_init
unlock_last thread = ground arith

lock_times_lem :
    (thread n : ℕ)
    → thread ≢ 0
    → n + 1 < 2 ^ 32
    → lock_times (suc n) thread jlock_init ≡ some (held thread (suc n))
lock_times_lem thread zero ne h = lock_first thread ne
lock_times_lem thread (suc n) ne h =
    rw (lock_times_lem thread n ne (omega arith)) (lock_again thread (suc n) (omega arith))

unlock_times_lem :
    (thread n k : ℕ)
    → n + 1 < 2 ^ 32
    → k ≤ n
    → unlock_times k thread (held thread (suc n)) ≡ held thread (suc n - k)
unlock_times_lem thread n zero h le = let e : suc n ≡ suc n - 0 = omega arith in ap (held thread) e
unlock_times_lem thread n (suc k) h le =
    let e : suc n - k ≡ suc (n - k) = omega arith in
    let e' : n - k ≡ suc n - suc k = omega arith in
    rw (unlock_times_lem thread n k h (omega arith), e)
      (unlock_inner thread (n - k) (omega arith) (omega arith) ∙ ap (held thread) e')

-- A thread that locks a new lock n times, with n from 1 up to the largest uint32_t, holds it after each
-- of the first n - 1 of its calls of jlock_unlock, and the n-th leaves the lock as it was at first.
pub jlock_reentrant :
    (thread n : ℕ)
    → thread ≢ 0
    → n + 1 < 2 ^ 32
    → (l : Lock) × (lock_times (suc n) thread jlock_init ≡ some l)
      × ((k : ℕ) → k ≤ n → unlock_times k thread l ≡ held thread (suc n - k))
      × (unlock_times (suc n) thread l ≡ jlock_init)
jlock_reentrant thread n ne h =
    let last : suc n - n ≡ 1 = omega arith in
    (
      held thread (suc n),
      lock_times_lem thread n ne h,
      λ k le. unlock_times_lem thread n k h le,
      rw (unlock_times_lem thread n n h (omega arith), last) (unlock_last thread),
    )
