-- ===== src/Collector.antt =====
-- The garbage collector's threads (gc.c, gc.h). A thread is known by a number. The collections
-- themselves, _youngHeapGC and _oldHeapGC, are empty in the source. Counters are 64 bits wide.
pub mod Threads
pub mod Cycles
pub mod Pauses
use cs_562_jvm.Base.{
  ℕ, suc, zero, ◌+◌, ◌-◌, ◌*◌, ◌%◌, ◌^◌, ◌==◌, ◌&&◌, ◌||◌, Bool, true, false, not, Option, none,
  some, List, [], ◌∷◌, if◌then◌else◌, length, replicate, ltb, leb, set, get_or, max, ◌++◌,
}
use cs_562_jvm.Indirection.{Table, rebuild_free_list}

-- GC_MODE_NORMAL, GC_MODE_MINOR_ONLY, GC_MODE_FORCE_MAJOR
abbrev pub mode_normal : ℕ
mode_normal = 0

abbrev pub mode_minor_only : ℕ
mode_minor_only = 1

abbrev pub mode_force_major : ℕ
mode_force_major = 2

-- The globals of gc.c, without lastGC. `jthreads` has maxNumThreads entries.
pub record Collector : Type 0 where
  pub gc_wants_to_run : Bool
  pub num_threads : ℕ
  pub num_threads_waiting : ℕ
  pub jthreads : List ℕ
  pub max_num_threads : ℕ
  pub gc_cycle : ℕ
  pub requested_mode : ℕ

-- initGC, if malloc and pthread_create succeed; the entries that malloc leaves are 0 here
unfoldable pub init_gc : Collector
init_gc = record {
  gc_wants_to_run = false;
  num_threads = 0;
  num_threads_waiting = 0;
  jthreads = replicate 4 0;
  max_num_threads = 4;
  gc_cycle = 0;
  requested_mode = mode_normal;
}

-- `jthreads[numThreads++] = jthread`
abbrev pub add_thread : ℕ → Collector → Collector
add_thread thread g = record g {
  jthreads = set g.jthreads g.num_threads thread;
  num_threads = (g.num_threads + 1) % 2 ^ 64;
}

-- `jthreads = newArray; maxNumThreads *= 2`
abbrev pub double_threads : Collector → Collector
double_threads g = record g {
  jthreads = g.jthreads ++ replicate g.max_num_threads 0;
  max_num_threads = g.max_num_threads * 2;
}

-- `reallocs` is whether realloc succeeds.
unfoldable pub register_thread : Bool → ℕ → Collector → Bool × Collector
register_thread reallocs thread g =
    if g.num_threads == g.max_num_threads
    then if reallocs then (true, add_thread thread (double_threads g)) else (false, g)
    else (true, add_thread thread g)

-- the loop of unregisterThread, from `i` on, with `n` entries left: the first index of the thread, or
-- the number of threads
abbrev pub find_thread : List ℕ → ℕ → ℕ → ℕ → ℕ
find_thread jthreads thread zero i = i
find_thread jthreads thread (suc n) i =
    let rest = find_thread jthreads thread n (suc i) in
    if get_or jthreads i 0 == thread then i else rest

unfoldable pub unregister_thread : ℕ → Collector → Collector
unregister_thread thread g =
    let i = find_thread g.jthreads thread g.num_threads 0 in
    if ltb i g.num_threads
    then record g {
      jthreads = set g.jthreads i (get_or g.jthreads (g.num_threads - 1) 0);
      num_threads = g.num_threads - 1;
    }
    else g

unfoldable pub request_gc : ℕ → Collector → Collector
request_gc mode g = record g { gc_wants_to_run = true; requested_mode = max g.requested_mode mode }

-- savePoint in three steps: up to the loop, the test of the loop, and what follows it.
unfoldable pub save_point_enter : Collector → Collector
save_point_enter g =
    if g.gc_wants_to_run
    then record g { num_threads_waiting = (g.num_threads_waiting + 1) % 2 ^ 64 }
    else g

unfoldable pub save_point_waits : Collector → Bool
save_point_waits g = g.gc_wants_to_run

unfoldable pub save_point_leave : Collector → Collector
save_point_leave g = record g {
  num_threads_waiting = (g.num_threads_waiting + (2 ^ 64 - 1)) % 2 ^ 64;
}

-- savePoint when no collection is wanted
abbrev pub save_point_idle : Collector → Collector
save_point_idle g = save_point_leave (save_point_enter g)

-- runGC up to its loop, and the test of the loop
unfoldable pub run_gc_begin : Collector → Collector
run_gc_begin g = record g { gc_wants_to_run = true }

unfoldable pub run_gc_waits : Collector → Bool
run_gc_waits g = not (g.num_threads == g.num_threads_waiting)

-- whether runGC calls _oldHeapGC, in the mode and the cycle
abbrev pub collects_old : ℕ → ℕ → Bool
collects_old mode cycle =
    not (mode == mode_minor_only) && ((mode == mode_force_major) || (cycle % 8 == 0))

-- what runGC does to the slot table; `mallocs` is the number of times that malloc succeeds in
-- rebuildFreeList
unfoldable pub tidy_table : ℕ → ℕ → Table → Table
tidy_table per_page mallocs t =
    if leb 8192 t.num_fragmented_free then rebuild_free_list per_page mallocs t else t

-- runGC after its loop, with the slot table; the first part of the result is whether the old generation
-- is collected.
unfoldable pub run_gc_end : ℕ → ℕ → Collector × Table → Bool × Collector × Table
unfolding tidy_table
run_gc_end per_page mallocs (g, t) =
    let cycle = (g.gc_cycle + 1) % 2 ^ 64 in
    (
      collects_old g.requested_mode cycle,
      record g { gc_cycle = cycle; gc_wants_to_run = false; requested_mode = mode_normal },
      tidy_table per_page mallocs t,
    )
