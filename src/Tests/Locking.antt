-- ===== src/Tests/Locking.antt =====
-- Threads 1 and 2 on one lock.
use cs_562_jvm.Machine.Effects.{on, At}
use cs_562_jvm.Interp.Monitors.Paired.{Passes, nested, monitorenter-monitorexit}
use cs_562_jvm.Tests.Machines.{machine, frame, with_height, standing}
use cs_562_jvm.Interp.Monitors.{Locks, handle_instr_monitorenter, handle_instr_monitorexit}
use cs_562_jvm.Interp.Defs.{Throw}
use cs_562_jvm.Machine.{Machine, ok}
use cs_562_jvm.Lock.Waiting.{jlock_wait_loses}
use cs_562_jvm.Frame.{option_bind, Frame}
use cs_562_jvm.Base.{◌≢◌, ◌≡◌, none, some, ℕ, arith, refl, if◌then◌else◌, [], ◌==◌, ◌∷◌, pos}
use cs_562_jvm.Lock.{Lock, jlock_lock, jlock_init, jlock_wait_begin, jlock_wait_end, jlock_unlock}
use cs_562_jvm.Lock.Exclusion.{held, Reached, locked, created, jlock_exclusive}
use cs_562_jvm.Interp.Monitors.Paired.{Passes, nested, monitorenter-monitorexit}

taken : Reached (held 1 1)
unfolding jlock_lock jlock_init
taken = locked 1 jlock_init (held 1 1) created (omega arith) refl

jlock_exclusive_example : (jlock_lock 2 (held 1 1) ≡ none) × (jlock_unlock 2 (held 1 1) ≡ held 1 1)
jlock_exclusive_example = jlock_exclusive (held 1 1) 2 taken (omega arith) (omega arith)

jlock_wait_loses_example :
    (l : Lock) × (option_bind
        (jlock_lock 2 (jlock_wait_begin (held 1 1)))
        (λ taken. jlock_wait_end 1 (jlock_unlock 2 taken))
      ≡ some l)
    × (jlock_unlock 1 l ≡ l)
    × ((thread : ℕ) → thread ≢ 0 → jlock_lock thread l ≡ none)
jlock_wait_loses_example = jlock_wait_loses 1 2 1 (omega arith) (omega arith) (omega arith)

-- a machine with an object in slot 3, whose slot is the operand
abbrev one_object : Machine
one_object = record (machine 0) {
  objects =
      λ slot. if slot == 3 then some (record { class_name = []; elements = []; len = 0 }) else none;
}

abbrev slot_frame : Frame
slot_frame = record (frame []) { operands = 3 ∷ []; types = 8 ∷ [] }

abbrev silent : Throw
silent class_name message m = ok tt m

abbrev fresh : Locks
fresh slot = jlock_init

monitor_example :
    (held_locks : Locks) × Passes one_object slot_frame [] [] held_locks
      (handle_instr_monitorenter silent 5 fresh (on one_object [] (with_height slot_frame 1)))
    × (held_locks 3 ≡ nested 5 1)
    × ((i : ℕ) → i ≢ 3 → held_locks i ≡ fresh i)
    × ((k : Machine)
        → At one_object slot_frame [] ((3, 8) ∷ []) k
        → ((k' : Machine) × (handle_instr_monitorenter silent 6 held_locks k ≡ ok none k'))
          × ((k' : Machine) × (handle_instr_monitorexit silent 6 held_locks k
                ≡ ok (some (pos 0, held_locks)) k')
              × At one_object slot_frame [] [] k')
          × ((after : Locks) × Passes one_object slot_frame [] [] after
                (handle_instr_monitorexit silent 5 held_locks k)
              × ((i : ℕ) → after i ≡ fresh i)))
monitor_example =
    monitorenter-monitorexit silent fresh 5 6 3 0 (omega arith) (omega arith) (omega arith) refl
      refl (omega arith) (standing one_object slot_frame [] 1 (omega arith) (omega arith))
