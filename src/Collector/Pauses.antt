-- ===== src/Collector/Pauses.antt =====
-- Safe points: the collector runs when every thread waits, and a safe point that is passed while no
-- collection is wanted keeps it from ever running.
use mathlib.Core.Path.{subst}
use cs_562_jvm.Collector.{
  Collector, save_point_enter, save_point_leave, run_gc_waits, request_gc, run_gc_end,
  save_point_idle, mode_normal, collects_old, mode_minor_only, mode_force_major,
}
use cs_562_jvm.Base.{
  ℕ, suc, zero, ◌+◌, ◌-◌, ◌%◌, ◌^◌, ◌<◌, ◌≤◌, ◌≡◌, refl, true, false, ◌∙◌, arith, max, ne→==,
  ==_iff, sym, ◌↔◌, ◌≢◌, ◌⊎◌,
}
use cs_562_jvm.Indirection.{Table}

-- `k` threads come to a safe point, and `k` threads go on
unfoldable pub enter_times : ℕ → Collector → Collector
enter_times zero g = g
enter_times (suc k) g = enter_times k (save_point_enter g)

unfoldable pub leave_times : ℕ → Collector → Collector
leave_times zero g = g
leave_times (suc k) g = leave_times k (save_point_leave g)

enter_times_lem :
    (k : ℕ) (g : Collector)
    → g.gc_wants_to_run ≡ true
    → g.num_threads_waiting < 2 ^ 64
    → enter_times k g ≡ record g { num_threads_waiting = (g.num_threads_waiting + k) % 2 ^ 64 }
unfolding enter_times save_point_enter
enter_times_lem zero g w l =
    let e : (g.num_threads_waiting + 0) % 2 ^ 64 ≡ g.num_threads_waiting = omega (arith, l) in
    rw (e) refl
enter_times_lem (suc k) g w l =
    let e : ((g.num_threads_waiting + 1) % 2 ^ 64 + k) % 2 ^ 64
        ≡ (g.num_threads_waiting + suc k) % 2 ^ 64 =
      omega arith in
    rw (w) (
      enter_times_lem k
        (record g {
          num_threads_waiting = (g.num_threads_waiting + 1) % 2 ^ 64;
          gc_wants_to_run = true;
        })
        refl (omega arith)
      ∙ rw (e) refl)

leave_times_lem :
    (k : ℕ) (g : Collector)
    → k ≤ g.num_threads_waiting
    → g.num_threads_waiting < 2 ^ 64
    → (leave_times k g).num_threads_waiting ≡ g.num_threads_waiting - k
unfolding leave_times save_point_leave
leave_times_lem zero g h l = omega arith
leave_times_lem (suc k) g h l =
    leave_times_lem k (save_point_leave g) (omega (arith, h, l)) (omega arith) ∙ omega (arith, h, l)

collects_old_lem :
    (mode cycle : ℕ)
    → (collects_old mode cycle ≡ true)
      ↔ ((mode ≢ mode_minor_only) × ((mode ≡ mode_force_major) ⊎ (cycle % 8 ≡ 0)))
collects_old_lem mode cycle = (λ e. (ground arith, ground arith), λ h. ground arith)

-- the threads that have come to a safe point, from a state in which none waits and a collection is wanted
abbrev pub IsCalm : Collector → Type 0
IsCalm g = (g.num_threads_waiting ≡ 0) × (g.num_threads < 2 ^ 64)

-- When no thread waits and a collection has been requested: as long as fewer than all threads have come
-- to a safe point the collector waits. When all have, it runs in the stronger one of the requested mode
-- and the mode requested before: it collects the old generation unless this is the minor mode, and then
-- if it is the major mode or the cycle is an eighth one. After that no collection is wanted, the mode is
-- the normal one, and when all threads have gone on, none counts as waiting.
pub safe_point_protocol :
    (per_page mallocs mode k : ℕ) (g : Collector) (t : Table)
    → IsCalm g
    → k < g.num_threads
    → let all = enter_times g.num_threads (request_gc mode g) in
      let run = run_gc_end per_page mallocs (all, t) in
      (run_gc_waits (enter_times k (request_gc mode g)) ≡ true)
      × (run_gc_waits all ≡ false)
      × ((run.0 ≡ true) ↔ (
          (max g.requested_mode mode ≢ mode_minor_only)
          × ((max g.requested_mode mode ≡ mode_force_major) ⊎ ((g.gc_cycle + 1) % 2 ^ 64 % 8 ≡ 0))))
      × (run.1.gc_wants_to_run ≡ false)
      × (run.1.requested_mode ≡ mode_normal)
      × ((leave_times g.num_threads run.1).num_threads_waiting ≡ 0)
unfolding run_gc_waits request_gc run_gc_end
safe_point_protocol per_page mallocs mode k g t c h =
    let requested = request_gc mode g in
    let e = enter_times_lem k requested refl (omega (arith, c.0)) in
    let f = enter_times_lem g.num_threads requested refl (omega (arith, c.0)) in
    let n : (g.num_threads_waiting + k) % 2 ^ 64 ≡ k = omega (arith, c.0, c.1, h) in
    let m : (g.num_threads_waiting + g.num_threads) % 2 ^ 64 ≡ g.num_threads =
      omega (arith, c.0, c.1) in
    (
      rw (e, n, ne→== g.num_threads k (λ q. absurd (omega (arith, q, h)))) refl,
      rw (f, m, (==_iff g.num_threads g.num_threads).1 refl) refl,
      rw f (collects_old_lem (max g.requested_mode mode) ((g.gc_cycle + 1) % 2 ^ 64)),
      refl,
      refl,
      rw (f, m)
          (leave_times_lem g.num_threads
              (record requested {
                num_threads_waiting = g.num_threads;
                gc_cycle = (g.gc_cycle + 1) % 2 ^ 64;
                gc_wants_to_run = false;
                requested_mode = mode_normal;
              })
              (omega arith) (omega (arith, c.1))
            ∙ omega arith),
    )

abbrev counted_down : Collector → Collector
counted_down g = record g { num_threads_waiting = (g.num_threads_waiting + (2 ^ 64 - 1)) % 2 ^ 64 }

idle_lem : (g : Collector) → g.gc_wants_to_run ≡ false → save_point_idle g ≡ counted_down g
unfolding save_point_leave save_point_enter
idle_lem g w = rw (w) refl

counted_down_blocks :
    (mode : ℕ) (g : Collector)
    → IsCalm g
    → 0 < g.num_threads
    → run_gc_waits (enter_times g.num_threads (request_gc mode (counted_down g))) ≡ true
unfolding run_gc_waits request_gc
counted_down_blocks mode g c h =
    let passed = request_gc mode (counted_down g) in
    let e = enter_times_lem g.num_threads passed refl (omega arith) in
    let n : ((g.num_threads_waiting + (2 ^ 64 - 1)) % 2 ^ 64 + g.num_threads) % 2 ^ 64
        ≡ g.num_threads - 1 =
      omega (arith, c.0, c.1, h) in
    rw (e, n, ne→== g.num_threads (g.num_threads - 1) (λ q. absurd (omega (arith, q, h)))) refl

-- When no thread waits, one thread passes a safe point while no collection is wanted, and then a
-- collection is requested: even when all threads have come to a safe point the collector still waits,
-- because the count of waiting threads had wrapped around below zero.
pub idle_safe_point_blocks :
    (mode : ℕ) (g : Collector)
    → IsCalm g
    → 0 < g.num_threads
    → g.gc_wants_to_run ≡ false
    → run_gc_waits (enter_times g.num_threads (request_gc mode (save_point_idle g))) ≡ true
idle_safe_point_blocks mode g c h w =
    subst (λ g'. run_gc_waits (enter_times g.num_threads (request_gc mode g')) ≡ true)
      (sym (idle_lem g w)) (counted_down_blocks mode g c h)
