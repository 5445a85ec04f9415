-- ===== src/Tests/Collecting.antt =====
-- A collector with two threads.
use cs_562_jvm.Base.{
  [], ◌∷◌, ◌≡◌, refl, true, false, ◌-◌, max, arith, ◌+◌, if◌then◌else◌, ◌↔◌, ◌≢◌, ◌⊎◌, ◌%◌, ◌^◌,
}
use cs_562_jvm.Indirection.{Table, create_address_indirection_info}
use cs_562_jvm.Collector.{
  Collector, register_thread, unregister_thread, request_gc, run_gc_waits, run_gc_end,
  save_point_idle, mode_normal, mode_minor_only, mode_force_major,
}
use cs_562_jvm.Collector.Threads.{
  IsCollector, registered, is, register_thread_lem, unregister_thread_lem,
}
use cs_562_jvm.Collector.Cycles.{old_collections, old_collections-eight}
use cs_562_jvm.Collector.Pauses.{
  enter_times, leave_times, safe_point_protocol, idle_safe_point_blocks,
}

abbrev two_threads : Collector
two_threads = record {
  gc_wants_to_run = false;
  num_threads = 2;
  num_threads_waiting = 0;
  jthreads = 7 ∷ 8 ∷ [];
  max_num_threads = 2;
  gc_cycle = 5;
  requested_mode = mode_normal;
}

two_threads-IsCollector : IsCollector two_threads
two_threads-IsCollector = (refl, omega arith, omega arith)

register_thread_example :
    let r = register_thread true 9 two_threads in
    IsCollector r.1
    × (registered 9 r.1 ≡ registered 9 two_threads + (if r.0 then is 9 9 else 0))
    × (r.0 ≡ true)
register_thread_example =
    register_thread_lem true 9 9 two_threads two_threads-IsCollector (omega arith)

unregister_thread_example :
    IsCollector (unregister_thread 7 two_threads)
    × (registered 8 (unregister_thread 7 two_threads) ≡ registered 8 two_threads - is 8 7)
unregister_thread_example = unregister_thread_lem 7 8 two_threads two_threads-IsCollector

abbrev new_table : Table
new_table = create_address_indirection_info 512

old_collections_example : old_collections 512 0 8 (two_threads, new_table) ≡ 1
old_collections_example = old_collections-eight 512 0 two_threads new_table refl

safe_point_example :
    let all = enter_times 2 (request_gc 2 two_threads) in
    let run = run_gc_end 512 0 (all, new_table) in
    (run_gc_waits (enter_times 1 (request_gc 2 two_threads)) ≡ true)
    × (run_gc_waits all ≡ false)
    × ((run.0 ≡ true) ↔ (
        (max 0 2 ≢ mode_minor_only) × ((max 0 2 ≡ mode_force_major) ⊎ ((5 + 1) % 2 ^ 64 % 8 ≡ 0))))
    × (run.1.gc_wants_to_run ≡ false)
    × (run.1.requested_mode ≡ 0)
    × ((leave_times 2 run.1).num_threads_waiting ≡ 0)
safe_point_example =
    safe_point_protocol 512 0 2 1 two_threads new_table (refl, omega arith) (omega arith)

idle_safe_point_example :
    run_gc_waits (enter_times 2 (request_gc 1 (save_point_idle two_threads))) ≡ true
idle_safe_point_example =
    idle_safe_point_blocks 1 two_threads (refl, omega arith) (omega arith) refl
