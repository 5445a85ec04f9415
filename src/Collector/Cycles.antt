-- ===== src/Collector/Cycles.antt =====
-- Which generations runGC collects.
use cs_562_jvm.Collector.{run_gc_end, Collector, mode_normal}
use cs_562_jvm.Base.{
  ℕ, suc, zero, ◌+◌, ◌%◌, ◌^◌, ◌<◌, ◌≡◌, refl, if◌then◌else◌, ap, ◌∙◌, ◌==◌, arith,
}
use cs_562_jvm.Indirection.{Table}

-- how many of `n` collections, one after the other with no request between them, collect the old
-- generation
module _ (per_page mallocs : ℕ) where
  unfoldable pub old_collections : ℕ → Collector × Table → ℕ
  unfolding run_gc_end
  old_collections zero s = 0
  old_collections (suc n) s =
      let r = run_gc_end per_page mallocs s in
      let rest = old_collections n (r.1, r.2) in (if r.0 then 1 else 0) + rest

is_old : ℕ → ℕ
is_old cycle = if cycle % 8 == 0 then 1 else 0

-- the same for cycles behind `c`
count : ℕ → ℕ → ℕ
count zero c = 0
count (suc n) c = is_old (suc c) + count n (suc c)

is_old-mod : (c d : ℕ) → c % 8 ≡ d % 8 → is_old c ≡ is_old d
unfolding is_old
is_old-mod c d e = ap (λ k. if k == 0 then 1 else 0) e

count-mod : (n c d : ℕ) → c % 8 ≡ d % 8 → count n c ≡ count n d
unfolding count
count-mod zero c d e = refl
count-mod (suc n) c d e =
    let f : suc c % 8 ≡ suc d % 8 = omega (arith, e) in
    omega (arith, is_old-mod (suc c) (suc d) f, count-mod n (suc c) (suc d) f)

count_eight : (c : ℕ) → c < 8 → count 8 c ≡ 1
unfolding count is_old
count_eight zero h = refl
count_eight (suc zero) h = refl
count_eight (suc (suc zero)) h = refl
count_eight (suc (suc (suc zero))) h = refl
count_eight (suc (suc (suc (suc zero)))) h = refl
count_eight (suc (suc (suc (suc (suc zero))))) h = refl
count_eight (suc (suc (suc (suc (suc (suc zero)))))) h = refl
count_eight (suc (suc (suc (suc (suc (suc (suc zero))))))) h = refl
count_eight (suc (suc (suc (suc (suc (suc (suc (suc c)))))))) h = absurd (omega (arith, h))

module _ (per_page mallocs : ℕ) where
  counted :
      (n : ℕ) (g : Collector) (t : Table)
      → g.requested_mode ≡ mode_normal
      → old_collections per_page mallocs n (g, t) ≡ count n g.gc_cycle
  unfolding old_collections count run_gc_end is_old
  counted zero g t e = refl
  counted (suc n) g t e =
      let r = run_gc_end per_page mallocs (g, t) in
      let i = counted n r.1 r.2 refl in
      let m = count-mod n ((g.gc_cycle + 1) % 2 ^ 64) (suc g.gc_cycle) (omega arith) in
      let q : (g.gc_cycle + 1) % 2 ^ 64 % 8 ≡ suc g.gc_cycle % 8 = omega arith in
      rw (e, q) (ap (λ k. (if suc g.gc_cycle % 8 == 0 then 1 else 0) + k) (i ∙ m))

  -- Of any eight collections one after the other without a call of requestGC, exactly one collects the
  -- old generation, also when the counter of cycles wraps around.
  pub old_collections-eight :
      (g : Collector) (t : Table)
      → g.requested_mode ≡ mode_normal
      → old_collections per_page mallocs 8 (g, t) ≡ 1
  old_collections-eight g t e =
      counted 8 g t e
      ∙ count-mod 8 g.gc_cycle (g.gc_cycle % 8) (omega arith)
      ∙ count_eight (g.gc_cycle % 8) (omega arith)
