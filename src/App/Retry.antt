-- ===== src/App/Retry.antt =====
-- The retries of transient.go: how many attempts an update gets, and the waits between.
use undelete.Base.{
  ℕ, zero, suc, ◌+◌, ◌*◌, ◌-◌, ◌≤◌, ◌<◌, ◌≡◌, refl, true, none, some, sym, ap, ◌∙◌, arith,
  Bool-cases, Option-cases, inl, inr, ◌⊎◌, if◌then◌else◌, if-both, leb, ltb, not, nat_beq, ◌&&◌,
  ◌/◌, ◌^◌,
}
use undelete.Base.Int.{pos, negsuc, neg_nat, mul64, add64, quot64, max_int64, mul64_pos, add64_pos}
use undelete.Outbox.Store.{second}
use undelete.App.Transient.{
  Failure, is_transient, throttled, jittered, min_ℤ, World, Ran, budget, retry_loop, run,
  transient_max_wait, transient_attempts,
}

-- Every attempt but the last failed with an error that is retried, and the result is the last one's.
abbrev pub Retried : World → ℕ → Ran → Type 0
Retried w from r =
    (from ≤ r.attempts)
    × (r.result ≡ w.attempt (r.attempts - 1))
    × ((i : ℕ)
        → suc i < r.attempts
        → from ≤ suc i
        → (e : Failure) × (w.attempt i ≡ some e) × (is_transient e ≡ true))

-- The attempt before the last one, of a run that made one more.
step_back :
    (w : World) (made : ℕ) (e : Failure)
    → 1 ≤ made
    → w.attempt (made - 1) ≡ some e
    → is_transient e ≡ true
    → (i : ℕ) → suc i < suc made
    → made ≤ suc i
    → (f : Failure) × (w.attempt i ≡ some f) × (is_transient f ≡ true)
step_back w made e h last again i lt le =
    let same : i ≡ made - 1 = omega (arith, h, lt, le) in (e, ap w.attempt same ∙ last, again)

retry_loop-Retried :
    (w : World) (left made : ℕ) (e : Failure)
    → 1 ≤ made
    → w.attempt (made - 1) ≡ some e
    → is_transient e ≡ true
    → Retried w made (retry_loop w left made e)
      × ((retry_loop w left made e).attempts ≤ made + left)
unfolding retry_loop
retry_loop-Retried w zero made e h last again =
    ((omega arith, sym last, λ i lt le. absurd (omega (arith, lt, le))), omega arith)
retry_loop-Retried w (suc left) made e h last again = elim (Bool-cases (w.sleeps made)) [
  | inr cut ↦
      rw (cut, retry_loop)
        ((omega arith, sym last, λ i lt le. absurd (omega (arith, lt, le))), omega arith)
  | inl slept ↦
      let back : made ≡ suc made - 1 = omega arith in
      elim (Option-cases (w.attempt made)) [
        | inl ok ↦
            rw (slept, retry_loop, ok)
              (
                (omega arith, sym ok ∙ ap w.attempt back, step_back w made e h last again),
                omega arith,
              )
        | inr (f, failed) ↦ elim (Bool-cases (is_transient f)) [
          | inr final ↦
              rw (slept, retry_loop, failed, final)
                (
                  (omega arith, sym failed ∙ ap w.attempt back, step_back w made e h last again),
                  omega arith,
                )
          | inl more ↦
              let rest =
                retry_loop-Retried w left (suc made) f (omega arith)
                  (ap w.attempt (sym back) ∙ failed) more in
              rw (slept, retry_loop, failed, more)
                (
                  (
                    omega (arith, rest.0.0),
                    rest.0.1,
                    λ i lt le. elim (Bool-cases (leb (suc made) (suc i))) [
                      | inl far ↦ rest.0.2 i lt (ground (arith, far))
                      | inr near ↦ step_back w made e h last again i (ground (arith, near)) le
                    ],
                  ),
                  omega (arith, rest.1),
                )
        ]
      ]
]

budget_positive : (w : World) → 1 ≤ budget w
budget_positive w =
    if-both (λ (n : ℕ). 1 ≤ n)
      (not (nat_beq w.degraded_until 0) && ltb w.checked_at w.degraded_until) 1 transient_attempts
      (omega arith) (omega arith)

budget_few : (w : World) → budget w ≤ 3
budget_few w =
    if-both (λ (n : ℕ). n ≤ 3)
      (not (nat_beq w.degraded_until 0) && ltb w.checked_at w.degraded_until) 1 transient_attempts
      (omega arith) (omega arith)

-- The bound by the code's own budget.
run-budget :
    (w : World) → Retried w 1 (run w) × ((run w).attempts ≤ 3) × ((run w).attempts ≤ budget w)
unfolding run
run-budget w = elim (Option-cases (w.attempt 0)) [
  | inl ok ↦
      rw (ok, run)
        (
          (omega arith, sym ok, λ i lt le. absurd (omega (arith, lt, le))),
          omega arith,
          budget_positive w,
        )
  | inr (e, failed) ↦ elim (Bool-cases (is_transient e)) [
    | inr final ↦
        rw (failed, run, final)
          (
            (omega arith, sym failed, λ i lt le. absurd (omega (arith, lt, le))),
            omega arith,
            budget_positive w,
          )
    | inl more ↦
        let loop = retry_loop-Retried w (budget w - 1) 1 e (omega arith) failed more in
        let positive = budget_positive w in
        let few = budget_few w in
        rw (failed, run, more)
          (loop.0, omega (arith, loop.1, few, positive), omega (arith, loop.1, few, positive))
  ]
]

budget-degraded : (w : World) → (w.degraded_until ≤ w.checked_at) ⊎ (budget w ≡ 1)
budget-degraded w = ground arith

-- An update is attempted at most three times, and exactly once when the deadline of the degraded mode
-- lies after the clock at its check. The result is that of the last attempt; each attempt before it
-- failed with an error that is retried.
pub run_lem :
    (w : World)
    → Retried w 1 (run w)
      × ((run w).attempts ≤ 3)
      × ((w.degraded_until ≤ w.checked_at) ⊎ ((run w).attempts ≡ 1))
run_lem w =
    let (retried, few, allowed) = run-budget w in
    (
      retried,
      few,
      elim (budget-degraded w) [
        | inl healthy ↦ inl healthy
        | inr one ↦ inr (omega (arith, one, allowed, retried.0))
      ],
    )

capped :
    (draw : ℕ → ℕ) (d : ℕ)
    → d ≤ transient_max_wait
    → draw (suc (d / 4)) < suc (d / 4)
    → jittered draw (pos d) (add64 (quot64 (pos d) 4) (pos 1)) ≡ some (pos (d + draw (suc (d / 4))))
unfolding quot64
capped draw d h small =
    let above : d / 4 + 1 ≤ max_int64 = omega (arith, h) in
    let next : d / 4 + 1 ≡ suc (d / 4) = omega arith in
    rw (add64_pos (d / 4) 1 above, next, add64_pos d (draw (suc (d / 4))) (omega (arith, h, small)))
      refl

-- The wait after a rate limit of up to 9223372036 s is at least what the server asks for, capped at
-- five seconds, and at most a quarter longer.
pub wait-throttled :
    (draw : ℕ → ℕ) (n : ℕ)
    → ((k : ℕ) → 0 < k → draw k < k)
    → 0 < n
    → n * second ≤ max_int64
    → (d : ℕ) × (throttled draw (pos n) ≡ some (pos d))
      × ((if leb (n * second) transient_max_wait then n * second else transient_max_wait) ≤ d)
      × (4 * d ≤ 5 * transient_max_wait)
wait-throttled draw n h positive small =
    let d = if leb (n * second) transient_max_wait then n * second else transient_max_wait in
    let low : d ≤ transient_max_wait = ground arith in
    let drawn = h (suc (d / 4)) (omega arith) in
    let minimum : min_ℤ (pos (n * second)) (pos transient_max_wait) ≡ pos d = ground arith in
    (
      d + draw (suc (d / 4)),
      rw (mul64_pos n second small, minimum) (capped draw d low drawn),
      omega arith,
      omega (arith, low, drawn),
    )

next_negative : (q k : ℕ) → q ≡ suc (suc k) → k < max_int64 → add64 (neg_nat q) (pos 1) ≡ negsuc k
unfolding add64
next_negative q k e h = rw e (ground (arith, h))

min-negative : (m c : ℕ) → min_ℤ (negsuc m) (pos c) ≡ negsuc m
min-negative m c = ground arith

spread_negative :
    (m : ℕ) → 8 ≤ m → m ≤ max_int64 → (k : ℕ) × (add64 (quot64 (negsuc m) 4) (pos 1) ≡ negsuc k)
unfolding quot64
spread_negative m h small =
    let k = suc m / 4 - 2 in
    let two_more : suc m / 4 ≡ suc (suc k) = omega (arith, h) in
    (k, next_negative (suc m / 4) k two_more (omega (arith, small)))

-- A `retry_after` from 9223372037 s to 18446744073 s makes the product negative, and the draw of
-- the jitter panics.
pub wait-panics :
    (draw : ℕ → ℕ) (n : ℕ) → 9223372037 ≤ n → n ≤ 18446744073 → throttled draw (pos n) ≡ none
wait-panics draw n h k =
    let m = 2 ^ 64 - n * second - 1 in
    let product : mul64 (pos n) (pos second) ≡ negsuc m = unfold mul64 in ground arith in
    let low = spread_negative m (omega (arith, k)) (omega (arith, h)) in
    rw (product, min-negative m transient_max_wait, low.1) refl
