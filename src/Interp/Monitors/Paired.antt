-- ===== src/Interp/Monitors/Paired.antt =====
-- monitorenter and the monitorexit behind it (bytecode_interpreter.c).
use cs_562_jvm.Machine.Effects.{At, pop-At}
use cs_562_jvm.Frame.View.{Entry}
use cs_562_jvm.Interp.Monitors.{
  Locks, put_lock, Throw, handle_instr_monitorenter, handle_instr_monitorexit, entered, pop,
  Monitor,
}
use cs_562_jvm.Lock.Exclusion.{held, unlock_inner, lock_first, lock_again}
use cs_562_jvm.Frame.{Frame}
use cs_562_jvm.Machine.{Machine, Object, ok, and_then, Run}
use cs_562_jvm.Lock.{jlock_unlock, jlock_lock, Lock, jlock_init}
use cs_562_jvm.Base.{
  ℕ, ◌≢◌, suc, ◌+◌, ◌≡◌, List, ◌<◌, none, zero, ◌^◌, arith, ◌==◌, some, true, ap, Option, ◌∷◌, pos,
  false, ◌∙◌, sym,
}
use cs_562_jvm.Frame.View.{Entry}

-- the lock that `thread` has acquired `n` times: a new one for 0
abbrev pub nested : ℕ → ℕ → Lock
nested thread zero = jlock_init
nested thread (suc n) = held thread (suc n)

lock-nested :
    (thread n : ℕ)
    → thread ≢ 0
    → n + 1 < 2 ^ 32
    → jlock_lock thread (nested thread n) ≡ some (nested thread (suc n))
lock-nested thread zero ne h = lock_first thread ne
lock-nested thread (suc n) ne h = lock_again thread (suc n) h

unlock-nested :
    (thread n : ℕ) → n + 1 < 2 ^ 32 → jlock_unlock thread (nested thread (suc n)) ≡ nested thread n
unfolding jlock_unlock jlock_init
unlock-nested thread zero h = ground arith
unlock-nested thread (suc n) h = unlock_inner thread (suc n) h (omega arith)

waits-nested :
    (thread other n : ℕ) → other ≢ thread → jlock_lock other (nested thread (suc n)) ≡ none
unfolding jlock_lock
waits-nested thread other n ne = ground arith

put_lock_self : (slot : ℕ) (l : Lock) (locks : Locks) → put_lock slot l locks slot ≡ l
put_lock_self slot l locks = let e : (slot == slot) ≡ true = ground arith in rw e

put_lock_other :
    (slot i : ℕ) (l : Lock) (locks : Locks) → i ≢ slot → put_lock slot l locks i ≡ locks i
put_lock_other slot i l locks ne = ground arith

-- a lock that is changed, and then put back
released :
    (slot : ℕ) (locks : Locks) (l l' : Lock)
    → l' ≡ locks slot
    → (i : ℕ) → put_lock slot l' (put_lock slot l locks) i ≡ locks i
released slot locks l l' e i = ground arith

objects-At :
    {b : Machine} {f : Frame} {fs : List Frame} {s : List Entry} {m : Machine}
    → At b f fs s m
    → m.objects ≡ b.objects
objects-At h = ap (λ (x : Machine). x.objects) h.whole

-- the pop of the slot of an object
object_popped :
    {b : Machine} {f : Frame} {fs : List Frame} {s : List Entry} {m : Machine} {slot t : ℕ}
    {obj : Object}
    → At b f fs ((slot, t) ∷ s) m
    → slot ≢ 0
    → b.objects slot ≡ some obj
    → (m' : Machine) × (pop m ≡ ok slot m')
      × ((slot == 0) ≡ false)
      × (m'.objects slot ≡ some obj)
      × At b f fs s m'
object_popped {slot} h ne there =
    let (m', p, _, h') = pop-At h in
    (m', p, ground arith, ap (λ (o : ℕ → Option Object). o slot) (objects-At h') ∙ there, h')

-- the run of `c` returns 1 with the locks `locks`, and leaves the entries `s`
abbrev pub Passes : Machine → Frame → List Frame → List Entry → Locks → Run Monitor → Type 0
Passes b f fs s locks x = (m' : Machine) × (x ≡ ok (some (pos 1, locks)) m') × At b f fs s m'

module _ {b : Machine} {f : Frame} {fs : List Frame} {s : List Entry} (throw : Throw)
    (locks : Locks) (thread slot : ℕ) where
  -- the handler, from the pop of the slot of an object on
  module _ {obj : Object} (null : slot ≢ 0) (there : b.objects slot ≡ some obj) where
    enter :
        {m : Machine} {t : ℕ} (r : Option Lock) (by : ℕ)
        → At b f fs ((slot, t) ∷ s) m
        → jlock_lock by (locks slot) ≡ r
        → (m' : Machine) × (handle_instr_monitorenter throw by locks m
            ≡ ok (entered slot locks r) m')
          × At b f fs s m'
    unfolding handle_instr_monitorenter
    enter r by h e =
        let (m', p, not_null, found, h') = object_popped h null there in
        (m', rw (p, not_null, found, e), h')

    exit :
        {m : Machine} {t : ℕ}
        → At b f fs ((slot, t) ∷ s) m
        → (locks slot).owner ≡ thread
        → (m' : Machine) × (handle_instr_monitorexit throw thread locks m
            ≡ ok (some (pos 1, put_lock slot (jlock_unlock thread (locks slot)) locks)) m')
          × At b f fs s m'
    unfolding handle_instr_monitorexit
    exit h e =
        let (m', p, not_null, found, h') = object_popped h null there in
        let mine : (thread == (locks slot).owner) ≡ true = ground arith in
        (m', rw (p, not_null, found, mine), h')

    exit_other :
        {m : Machine} {t : ℕ}
        → At b f fs ((slot, t) ∷ s) m
        → thread ≢ (locks slot).owner
        → (m' : Machine) × (handle_instr_monitorexit throw thread locks m
            ≡ and_then
                (throw "java/lang/IllegalMonitorStateException"
                  "Cannot exit a monitor that you do not own" m')
                λ _. ok (some (pos 0, locks)))
          × At b f fs s m'
    unfolding handle_instr_monitorexit
    exit_other h e =
        let (m', p, not_null, found, h') = object_popped h null there in
        let others : (thread == (locks slot).owner) ≡ false = ground arith in
        (m', rw (p, not_null, found, others), h')

-- A thread that has entered the monitor of an object `n` times, fewer than its counter allows, runs
-- monitorenter on the object: it pops the operand, returns 1, and has entered the monitor `n` + 1 times;
-- no other lock changes. While it is in the monitor, another thread's monitorenter on the object waits,
-- and another thread's monitorexit throws an IllegalMonitorStateException and changes no lock. The
-- thread's own monitorexit pops the operand, returns 1 and leaves every lock as it was before.
pub monitorenter-monitorexit :
    {b : Machine} {f : Frame} {fs : List Frame} {s : List Entry} {m : Machine} {t : ℕ}
    {obj : Object} (throw : Throw) (locks : Locks) (thread other slot n : ℕ)
    → thread ≢ 0
    → other ≢ thread
    → slot ≢ 0
    → b.objects slot ≡ some obj
    → locks slot ≡ nested thread n
    → n + 1 < 2 ^ 32
    → At b f fs ((slot, t) ∷ s) m
    → (held_locks : Locks) × Passes b f fs s held_locks
        (handle_instr_monitorenter throw thread locks m)
      × (held_locks slot ≡ nested thread (suc n))
      × ((i : ℕ) → i ≢ slot → held_locks i ≡ locks i)
      × ((k : Machine)
          → At b f fs ((slot, t) ∷ s) k
          → ((k' : Machine) × (handle_instr_monitorenter throw other held_locks k ≡ ok none k'))
            × ((k' : Machine) × (handle_instr_monitorexit throw other held_locks k
                  ≡ and_then
                      (throw "java/lang/IllegalMonitorStateException"
                        "Cannot exit a monitor that you do not own" k')
                      λ _. ok (some (pos 0, held_locks)))
                × At b f fs s k')
            × ((after : Locks) × Passes b f fs s after
                  (handle_instr_monitorexit throw thread held_locks k)
                × ((i : ℕ) → after i ≡ locks i)))
monitorenter-monitorexit throw locks thread other slot n ne other_ne null there lock fits h =
    let locks' = put_lock slot (nested thread (suc n)) locks in
    let now : locks' slot ≡ nested thread (suc n) =
      put_lock_self slot (nested thread (suc n)) locks in
    let (m', p, h') =
      enter throw locks thread slot null there (some (nested thread (suc n))) thread h
        (ap (jlock_lock thread) lock ∙ lock-nested thread n ne fits) in
    (
      locks',
      (m', p, h'),
      now,
      (λ i d. put_lock_other slot i (nested thread (suc n)) locks d),
      λ k hk. (
        (let (k', q, _) =
              enter throw locks' thread slot null there none other hk
                (ap (jlock_lock other) now ∙ waits-nested thread other n other_ne) in
            (k', q)),
        exit_other throw locks' other slot null there hk
            (λ e. other_ne (e ∙ ap (λ (l : Lock). l.owner) now)),
        (
          put_lock slot (jlock_unlock thread (locks' slot)) locks',
          exit throw locks' thread slot null there hk (ap (λ (l : Lock). l.owner) now),
          released slot locks (nested thread (suc n)) (jlock_unlock thread (locks' slot))
              (ap (jlock_unlock thread) now ∙ unlock-nested thread n fits ∙ sym lock),
        ),
      ),
    )
