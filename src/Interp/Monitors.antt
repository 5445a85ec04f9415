-- ===== src/Interp/Monitors.antt =====
-- The handlers of monitors (bytecode_interpreter.c: monitorenter, monitorexit), which take and release
-- the lock of an object.
pub mod Paired
use cs_562_jvm.Base.{ℕ, not, Option, none, some, ◌==◌, if◌then◌else◌, ℤ, pos}
use cs_562_jvm.Machine.{M, pure, crash, ◌>>=◌, ◌>>◌, pop}
use cs_562_jvm.Interp.Defs.{Throw}
use Prim.Native.String.{String}
use cs_562_jvm.Interp.Arrays.{get_object}
use cs_562_jvm.Lock.{Lock, jlock_lock, jlock_unlock}
use cs_562_jvm.Machine.{M, pure, crash, ◌>>=◌, ◌>>◌, pop}

-- the lock of the object in each slot
abbrev pub Locks : Type 0
Locks = ℕ → Lock

abbrev pub put_lock : ℕ → Lock → Locks → Locks
put_lock slot l locks = λ i. if i == slot then l else locks i

-- what the handler returns and the locks, or `none` while the thread waits for a mutex
abbrev pub Monitor : Type 0
Monitor = Option (ℤ × Locks)

abbrev refuse : Throw → String → String → Locks → M Monitor
refuse throw class_name message locks = do throw class_name message; pure (some (pos 0, locks))

-- the return behind the call of jlock_lock, once it has the mutex
abbrev entered : ℕ → Locks → Option Lock → Monitor
entered slot locks none = none
entered slot locks (some l) = some (pos 1, put_lock slot l locks)

-- `thread` is interpreter->jthread->id
unfoldable pub handle_instr_monitorenter : Throw → ℕ → Locks → M Monitor
handle_instr_monitorenter throw thread locks = do
  slot ← pop
  if slot == 0
      then refuse throw "java/lang/NullPointerException" "Cannot enter a monitor on a null object"
          locks
      else (do
        found ← get_object slot
        elim found [
          | none ↦ crash
          | some obj ↦ pure (entered slot locks (jlock_lock thread (locks slot)))
        ])

unfoldable pub handle_instr_monitorexit : Throw → ℕ → Locks → M Monitor
handle_instr_monitorexit throw thread locks = do
  slot ← pop
  if slot == 0
      then refuse throw "java/lang/NullPointerException" "Cannot exit a monitor on a null object"
          locks
      else (do
        found ← get_object slot
        elim found [
          | none ↦ crash
          | some obj ↦
              if not (thread == (locks slot).owner)
              then refuse throw "java/lang/IllegalMonitorStateException"
                  "Cannot exit a monitor that you do not own" locks
              else pure (some (pos 1, put_lock slot (jlock_unlock thread (locks slot)) locks))
        ])
