-- ===== src/Rm/Timer/Period.antt =====
-- src/rm/timer.c: when the timer fires.
use rm_vm.Common.{
  ℕ, zero, suc, ◌+◌, ◌%◌, ◌<◌, ◌≡◌, true, ◌||◌, arith, dec_lt, leb, ◌==◌, if◌then◌else◌,
}
use native.Mathlib.Nat.{mod-add-mod, mod-lt, mod-eq_of_lt, mod-eq-sub-mod}
use rm_vm.Rm.Timer.{Timer, init_timer, tick_timer}

-- `n` ticks.
pub ticks : ℕ → Timer → Timer
ticks zero t = t
ticks (suc n) t = tick_timer (ticks n t)

next_mod : (n l : ℕ) → 0 < l → (n + 1) % l ≡ (if n % l + 1 == l then 0 else n % l + 1)
next_mod n l h = elim (dec_lt (n % l + 1) l) [
  | yes p ↦ ground (arith, mod-add-mod n l 1, mod-eq_of_lt p)
  | no p ↦ ground (
    arith,
    mod-add-mod n l 1,
    mod-eq-sub-mod {n = n % l + 1} {m = l} (omega arith),
    mod-lt n h,
    mod-eq_of_lt h,
  )
]

-- Below the limit a timer has not come round yet.
reached : (n l : ℕ) → 0 < l → leb l (suc n) ≡ (leb l n || n % l + 1 == l)
reached n l h = elim (dec_lt n l) [ yes p ↦ ground (arith, mod-eq_of_lt p) | no p ↦ ground arith ]

tick_timer_lem :
    (t : Timer)
    → t.active ≡ true
    → t.counter < t.limit
    → t.limit < 65536
    → let t' = tick_timer t in
      (t'.counter ≡ (if t.counter + 1 == t.limit then 0 else t.counter + 1))
      × (t'.interrupt_flag ≡ (t.interrupt_flag || t.counter + 1 == t.limit))
      × (t'.limit ≡ t.limit)
      × (t'.active ≡ true)
unfolding tick_timer
tick_timer_lem t a c l = ground arith

-- With a limit that fits a `uint16_t` and is not 0, a fresh timer has counted `n` modulo the limit
-- after `n` ticks, and its interrupt flag is set exactly if the limit has been reached.
pub ticks_lem :
    (n limit : ℕ)
    → 0 < limit
    → limit < 65536
    → let t = ticks n (init_timer limit) in
      (t.counter ≡ n % limit)
      × (t.interrupt_flag ≡ leb limit n)
      × (t.limit ≡ limit)
      × (t.active ≡ true)
unfolding ticks init_timer
ticks_lem zero limit h k = ground arith
ticks_lem (suc n) limit h k =
    let p = ticks_lem n limit h k in
    ground (
      arith,
      p,
      tick_timer_lem (ticks n (init_timer limit)),
      next_mod n limit h,
      reached n limit h,
      mod-lt n h,
    )
