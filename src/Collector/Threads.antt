-- ===== src/Collector/Threads.antt =====
-- registerThread and unregisterThread keep a collection of threads.
use mathlib.Core.Path.{subst}
use cs_562_jvm.Collector.{
  Collector, add_thread, double_threads, register_thread, find_thread, unregister_thread,
}
use cs_562_jvm.Base.{
  ℕ, suc, zero, ◌+◌, ◌-◌, ◌≤◌, ◌<◌, ◌^◌, ◌≡◌, inl, inr, refl, Bool, false, List, [], ◌∷◌, ◌++◌,
  if◌then◌else◌, length, set, get_or, ◌==◌, Bool-cases, length-set, length-append, length-replicate,
  replicate, ap, ◌∙◌, arith, not, ==_iff, ◌%◌, ◌*◌, get_or-set_self, ◌&&◌, ==_false, ≡_dec, ltb,
  sym, ltb→lt, ne→==,
}

abbrev pub is : ℕ → ℕ → ℕ
is thread x = if x == thread then 1 else 0

-- how often the thread is among the first `n` entries
abbrev pub times : ℕ → ℕ → List ℕ → ℕ
times thread zero xs = 0
times thread (suc n) [] = 0
times thread (suc n) (x ∷ xs) = is thread x + times thread n xs

-- the threads in use fit the array, which has at least one entry
abbrev pub IsCollector : Collector → Type 0
IsCollector g =
    (length g.jthreads ≡ g.max_num_threads)
    × (g.num_threads ≤ g.max_num_threads)
    × (0 < g.max_num_threads)

-- how often the thread is registered
abbrev pub registered : ℕ → Collector → ℕ
registered thread g = times thread g.num_threads g.jthreads

times-suc :
    (thread n : ℕ) (xs : List ℕ)
    → n < length xs
    → times thread (suc n) xs ≡ times thread n xs + is thread (get_or xs n 0)
times-suc thread n [] h = absurd (omega (arith, h))
times-suc thread zero (x ∷ xs) h = omega arith
times-suc thread (suc n) (x ∷ xs) h = omega (arith, times-suc thread n xs (omega (arith, h)))

times-set_behind :
    (thread n i v : ℕ) (xs : List ℕ) → n ≤ i → times thread n (set xs i v) ≡ times thread n xs
times-set_behind thread zero i v xs h = refl
times-set_behind thread (suc n) i v [] h = refl
times-set_behind thread (suc n) zero v (x ∷ xs) h = absurd (omega (arith, h))
times-set_behind thread (suc n) (suc i) v (x ∷ xs) h =
    ap (λ k. is thread x + k) (times-set_behind thread n i v xs (omega (arith, h)))

times-set :
    (thread n i v : ℕ) (xs : List ℕ)
    → i < n
    → n ≤ length xs
    → times thread n (set xs i v) + is thread (get_or xs i 0) ≡ times thread n xs + is thread v
times-set thread zero i v xs h k = absurd (omega (arith, h))
times-set thread (suc n) i v [] h k = absurd (omega (arith, k))
times-set thread (suc n) zero v (x ∷ xs) h k = omega arith
times-set thread (suc n) (suc i) v (x ∷ xs) h k =
    omega (arith, times-set thread n i v xs (omega (arith, h)) (omega (arith, k)))

times_append :
    (thread n : ℕ) (xs ys : List ℕ) → n ≤ length xs → times thread n (xs ++ ys) ≡ times thread n xs
times_append thread zero xs ys h = refl
times_append thread (suc n) [] ys h = absurd (omega (arith, h))
times_append thread (suc n) (x ∷ xs) ys h =
    ap (λ k. is thread x + k) (times_append thread n xs ys (omega (arith, h)))

add_thread_lem :
    (thread other : ℕ) (g : Collector)
    → g.num_threads < length g.jthreads
    → g.num_threads + 1 < 2 ^ 64
    → registered other (add_thread thread g) ≡ registered other g + is other thread
add_thread_lem thread other g h f =
    let m : (g.num_threads + 1) % 2 ^ 64 ≡ suc g.num_threads = omega (arith, f) in
    let l = length-set g.jthreads g.num_threads thread in
    rw (m) (
      times-suc other g.num_threads (set g.jthreads g.num_threads thread) (omega (arith, h, l))
      ∙ rw
          (
            get_or-set_self g.jthreads g.num_threads thread 0 h,
            times-set_behind other g.num_threads g.num_threads thread g.jthreads (omega arith),
          )
          refl)

add_thread-IsCollector :
    (thread : ℕ) (g : Collector)
    → length g.jthreads ≡ g.max_num_threads
    → g.num_threads < g.max_num_threads
    → g.num_threads + 1 < 2 ^ 64
    → IsCollector (add_thread thread g)
add_thread-IsCollector thread g e h f =
    (length-set g.jthreads g.num_threads thread ∙ e, omega (arith, h, f), omega (arith, h))

doubled_length :
    (g : Collector)
    → length g.jthreads ≡ g.max_num_threads
    → length (double_threads g).jthreads ≡ g.max_num_threads * 2
doubled_length g e = omega (
  arith,
  e,
  length-append g.jthreads (replicate g.max_num_threads 0),
  length-replicate {A = ℕ} g.max_num_threads 0,
)

-- When the threads in use fit the array, registerThread adds one entry for its thread and none for the
-- others, and the threads fit the array again, which may have grown; it fails only if the array is full
-- and realloc fails, and changes nothing then.
pub register_thread_lem :
    (reallocs : Bool) (thread other : ℕ) (g : Collector)
    → IsCollector g
    → g.num_threads + 1 < 2 ^ 64
    → let r = register_thread reallocs thread g in
      IsCollector r.1
      × (registered other r.1 ≡ registered other g + (if r.0 then is other thread else 0))
      × (r.0 ≡ not ((g.num_threads == g.max_num_threads) && not reallocs))
unfolding register_thread
register_thread_lem reallocs thread other g v f =
    elim (Bool-cases (g.num_threads == g.max_num_threads)) [
      | inl t ↦ elim (Bool-cases reallocs) [
        | inl u ↦
            let n = (==_iff g.num_threads g.max_num_threads).0 t in
            let l = doubled_length g v.0 in
            rw (t, u)
              (
                add_thread-IsCollector thread (double_threads g) l (omega (arith, n, v.2)) f,
                add_thread_lem thread other (double_threads g) (omega (arith, l, n, v.2)) f
                    ∙ ap (λ k. k + is other thread)
                        (times_append other g.num_threads g.jthreads (replicate g.max_num_threads 0)
                          (omega (arith, v.0, v.1))),
                refl,
              )
        | inr w ↦ rw (t, w) (v, omega arith, refl)
      ]
      | inr e ↦
          let n = ==_false g.num_threads g.max_num_threads e in
          rw (e) (
            add_thread-IsCollector thread g v.0 (omega (arith, n, v.1)) f,
            add_thread_lem thread other g (omega (arith, n, v.0, v.1)) f,
            refl,
          )
    ]

-- the index that the loop of unregisterThread ends with
find_thread_lem :
    (jthreads : List ℕ) (thread n i : ℕ)
    → let k = find_thread jthreads thread n i in
      (i ≤ k) × (k ≤ i + n) × (k < i + n → get_or jthreads k 0 ≡ thread)
find_thread_lem jthreads thread zero i = (omega arith, omega arith, λ h. absurd (omega (arith, h)))
find_thread_lem jthreads thread (suc n) i = elim (Bool-cases (get_or jthreads i 0 == thread)) [
  | inl t ↦ rw (t) (omega arith, omega arith, λ h. (==_iff (get_or jthreads i 0) thread).0 t)
  | inr f ↦
      let r = find_thread_lem jthreads thread n (suc i) in
      rw (f) (omega (arith, r.0), omega (arith, r.1), λ h. r.2 (omega (arith, h)))
]

absent :
    (jthreads : List ℕ) (thread n i : ℕ)
    → i + n ≤ length jthreads
    → find_thread jthreads thread n i ≡ i + n
    → times thread (i + n) jthreads ≡ times thread i jthreads
absent jthreads thread zero i h e = ap (λ k. times thread k jthreads) (omega arith)
absent jthreads thread (suc n) i h e = elim (Bool-cases (get_or jthreads i 0 == thread)) [
  | inl t ↦
      let q : find_thread jthreads thread (suc n) i ≡ i = rw (t) refl in
      absurd (omega (arith, e, q))
  | inr f ↦
      let q : find_thread jthreads thread (suc n) i ≡ find_thread jthreads thread n (suc i) =
        rw (f) refl in
      let z : is thread (get_or jthreads i 0) ≡ 0 = rw (f) refl in
      let r = absent jthreads thread n (suc i) (omega (arith, h)) (omega (arith, q, e)) in
      ap (λ k. times thread k jthreads) (omega arith)
      ∙ r
      ∙ times-suc thread i jthreads (omega (arith, h))
      ∙ omega (arith, z)
]

-- the last thread put over the one at `i`, and one thread less
removed :
    (other n i : ℕ) (xs : List ℕ)
    → i < suc n
    → suc n ≤ length xs
    → times other n (set xs i (get_or xs n 0)) + is other (get_or xs i 0) ≡ times other (suc n) xs
removed other n i xs h l = elim (≡_dec i n) [
  | inl e ↦ omega (
    arith,
    times-set_behind other n i (get_or xs n 0) xs (omega (arith, e)),
    times-suc other n xs (omega (arith, l)),
    ap (λ k. is other (get_or xs k 0)) e,
  )
  | inr ne ↦ omega (
    arith,
    times-set other n i (get_or xs n 0) xs (omega (arith, h, ne)) (omega (arith, l)),
    times-suc other n xs (omega (arith, l)),
  )
]

abbrev drop_last : ℕ → Collector → Collector
drop_last i g = record g {
  jthreads = set g.jthreads i (get_or g.jthreads (g.num_threads - 1) 0);
  num_threads = g.num_threads - 1;
}

drop_last_lem :
    (other i : ℕ) (g : Collector)
    → IsCollector g
    → i < g.num_threads
    → registered other (drop_last i g) + is other (get_or g.jthreads i 0) ≡ registered other g
drop_last_lem other i g v h =
    let e : suc (g.num_threads - 1) ≡ g.num_threads = omega (arith, h) in
    removed other (g.num_threads - 1) i g.jthreads (omega (arith, h, e))
      (omega (arith, v.0, v.1, e))
    ∙ ap (λ k. times other k g.jthreads) e

is_zero : (other x n : ℕ) → (other ≡ x → n ≡ 0) → n ≡ n - is other x
is_zero other x n h = elim (≡_dec x other) [
  | inl e ↦ rw ((==_iff x other).1 e) (omega (arith, h (sym e)))
  | inr ne ↦ rw (ne→== x other ne) (omega arith)
]

diff : {a b c d : ℕ} → a + b ≡ c → b ≡ d → a ≡ c - d
diff h e = omega (arith, h, e)

ge_of_ltb : (a b : ℕ) → ltb a b ≡ false → b ≤ a
ge_of_ltb a b h = ground arith

-- When the threads in use fit the array, unregisterThread takes away one entry for its thread, if there
-- is one, and none for the others, and the threads still fit the array.
pub unregister_thread_lem :
    (thread other : ℕ) (g : Collector)
    → IsCollector g
    → IsCollector (unregister_thread thread g)
      × (registered other (unregister_thread thread g) ≡ registered other g - is other thread)
unfolding unregister_thread
unregister_thread_lem thread other g v =
    let i = find_thread g.jthreads thread g.num_threads 0 in
    let k = find_thread_lem g.jthreads thread g.num_threads 0 in
    elim (Bool-cases (ltb i g.num_threads)) [
      | inl t ↦
          let h = ltb→lt i g.num_threads t in
          let e = k.2 (omega (arith, h)) in
          let q : is other (get_or g.jthreads i 0) ≡ is other thread = ap (is other) e in
          let d : times other (g.num_threads - 1)
                (set g.jthreads i (get_or g.jthreads (g.num_threads - 1) 0))
              ≡ registered other g - is other thread =
            diff (drop_last_lem other i g v h) q in
          rw (t) (
            (
              length-set g.jthreads i (get_or g.jthreads (g.num_threads - 1) 0) ∙ v.0,
              omega (arith, v.1),
              v.2,
            ),
            d,
          )
      | inr f ↦
          let n : g.num_threads ≤ i = omega (arith, ge_of_ltb i g.num_threads f) in
          let z =
            absent g.jthreads thread g.num_threads 0 (omega (arith, v.0, v.1))
              (omega (arith, n, k.1)) in
          let z' : registered thread g ≡ 0 =
            ap (λ k. times thread k g.jthreads) (omega arith) ∙ z in
          rw (f) (
            v,
            is_zero other thread (registered other g)
                (λ e. subst (λ x. registered x g ≡ 0) (sym e) z'),
          )
    ]
