-- ===== src/Rm/Cycle/Termination.antt =====
-- The loops of `execCycle` in src/rm/cpu.c: the inner one ends, and what holds then.
use rm_vm.Common.{
  refl, ℕ, zero, suc, ◌+◌, ◌<◌, ◌≡◌, ◌∙◌, ◌⊎◌, inl, inr, true, Option, none, some, arith,
  Bool-cases, IsWord,
}
use rm_vm.Rm.State.{
  tick_limit, raise_timer_interrupt, mode_user, pi_invalid_opcode, Machine, blank, IsValid,
  has_pending_interrupt, raise_program_interrupt,
}
use rm_vm.Rm.Decode.{decode}
use rm_vm.Rm.Decode.Format.{decode_total}
use rm_vm.Rm.Execute.Protection.{execute-Protected, Protected-trans, Protected, read-Protected}
use rm_vm.Rm.Execute.Bounds.{IsValid-keeps, Keeps, IsValid-raise, execute-IsValid, read-IsValid}
use rm_vm.Rm.Cycle.{run_until_interrupt, exec_one_cycle, tick, decode_execute, fetch, interrupted}

-- A failed fetch or decode has latched a program interrupt.
fetch_cases :
    (m : Machine)
    → let (fetched, word, m') = fetch m in ((fetched ≡ true) ⊎ (interrupted m' ≡ true))
unfolding fetch interrupted has_pending_interrupt
fetch_cases m = ground arith

decode_cases :
    (w : ℕ) (m : Machine)
    → IsWord w
    → let (accepted, i, m') = decode w blank m in ((accepted ≡ true) ⊎ (interrupted m' ≡ true))
unfolding interrupted has_pending_interrupt raise_program_interrupt
decode_cases w m h = ground (arith, decode_total w blank m h)

fetch-IsValid : {m : Machine} → IsValid m → IsValid (fetch m).2 × IsWord (fetch m).1
unfolding fetch
fetch-IsValid {m} h = ground (arith, read-IsValid m.cpu.ic h)

fetch-Protected : (m : Machine) → Protected m (fetch m).2
unfolding fetch
fetch-Protected m = ground (arith, read-Protected m m.cpu.ic)

decode_execute-IsValid :
    (w : ℕ) {m : Machine} → IsWord w → IsValid m → IsValid (decode_execute w m).1
unfolding decode_execute
decode_execute-IsValid w {m} hw h = ground (
  arith,
  decode_total w blank m hw,
  execute-IsValid (decode w blank m).1 {m = (decode w blank m).2},
  IsValid-raise pi_invalid_opcode h,
)

decode_execute-Protected :
    (w : ℕ) (m : Machine) → IsWord w → m.cpu.mode ≡ mode_user → Protected m (decode_execute w m).1
unfolding decode_execute raise_program_interrupt
decode_execute-Protected w m hw h =
    ground (
      arith,
      decode_total w blank m hw,
      execute-Protected (decode w blank m).1 (decode w blank m).2,
    )

decode_execute_cases :
    (w : ℕ) (m : Machine)
    → IsWord w
    → let (executed, m') = decode_execute w m in ((executed ≡ true) ⊎ (interrupted m' ≡ true))
unfolding decode_execute
decode_execute_cases w m hw = ground (arith, decode_cases w m hw)

-- One cycle keeps the machine valid, and one that executes nothing has latched an interrupt.
pub exec_one_cycle_lem :
    {m : Machine}
    → IsValid m
    → let (executed, m') = exec_one_cycle m in
      IsValid m' × ((executed ≡ true) ⊎ (interrupted m' ≡ true))
unfolding exec_one_cycle
exec_one_cycle_lem {m} h =
    let (hv, hw) = fetch-IsValid h in
    ground (
      arith,
      fetch_cases m,
      fetch-IsValid h,
      decode_execute-IsValid (fetch m).1 hw hv,
      decode_execute_cases (fetch m).1 (fetch m).2 hw,
    )

-- One cycle in user mode leaves the mode and the supervisor cells alone.
pub exec_one_cycle-Protected :
    {m : Machine} → IsValid m → m.cpu.mode ≡ mode_user → Protected m (exec_one_cycle m).1
unfolding exec_one_cycle
exec_one_cycle-Protected {m} h u =
    let p = fetch-Protected m in
    let (hv, hw) = fetch-IsValid h in
    let q = decode_execute-Protected (fetch m).1 (fetch m).2 hw (p.same_mode ∙ u) in
    ground (arith, p, Protected-trans p q)

-- The timer keeps the machine valid and `ticks` below the limit; it counts or interrupts.
pub tick-Keeps : (t : ℕ) (m : Machine) → Keeps m (tick t m).1
unfolding tick raise_timer_interrupt
tick-Keeps t m = ground arith

tick_cases :
    (t : ℕ) (m : Machine)
    → t < tick_limit
    → let (t', m') = tick t m in (t' < tick_limit) × ((t' ≡ t + 1) ⊎ (interrupted m' ≡ true))
unfolding tick raise_timer_interrupt interrupted has_pending_interrupt
tick_cases t m h = ground arith

-- How the inner loop is left: with an interrupt, the counter below its limit, a valid machine.
abbrev pub Ends : Option (ℕ × Machine) → Type 0
Ends none = ⊥
Ends (some (ticks, m)) = (interrupted m ≡ true) × (ticks < tick_limit) × IsValid m

pub run_interrupted :
    (fuel t : ℕ) {m : Machine}
    → interrupted m ≡ true
    → 0 < fuel
    → run_until_interrupt fuel t m ≡ some (t, m)
unfolding run_until_interrupt
run_interrupted zero t e h = absurd (omega arith)
run_interrupted (suc fuel) t e h = rw e

pub run_until_interrupt-Ends :
    (fuel t : ℕ) {m : Machine}
    → t < tick_limit
    → tick_limit < t + fuel
    → IsValid m
    → Ends (run_until_interrupt fuel t m)
unfolding run_until_interrupt
run_until_interrupt-Ends zero t ht hf h = absurd (omega arith)
run_until_interrupt-Ends (suc fuel) t {m} ht hf h = elim (Bool-cases (interrupted m)) [
  | inl e ↦ rw (e, run_until_interrupt) (e, ht, h)
  | inr e ↦
      rw (e, run_until_interrupt)
        (elim (Bool-cases (exec_one_cycle m).0) [
          | inr fault ↦ rw (fault, run_until_interrupt) (ground (arith, c), ht, c.0)
          | inl done ↦
              rw (done, run_until_interrupt)
                (elim k.1 [
                  | inl counted ↦ run_until_interrupt-Ends fuel _ k.0 (omega (arith, counted)) valid
                  | inr latched ↦
                      rw (run_interrupted fuel _ latched (omega arith)) (latched, k.0, valid)
                ])
        ])
]
  where
    c :
        IsValid (exec_one_cycle m).1
        × (((exec_one_cycle m).0 ≡ true) ⊎ (interrupted (exec_one_cycle m).1 ≡ true))
    c = exec_one_cycle_lem h

    k :
        let (t', m') = tick t (exec_one_cycle m).1 in
        (t' < tick_limit) × ((t' ≡ t + 1) ⊎ (interrupted m' ≡ true))
    k = tick_cases t (exec_one_cycle m).1 ht

    valid : IsValid (tick t (exec_one_cycle m).1).1
    valid = IsValid-keeps (tick-Keeps t (exec_one_cycle m).1) c.0

-- From a valid machine with its tick counter below the limit, the inner loop of `execCycle` ends within
-- one round more than the limit; then an interrupt is latched, the counter is below the limit and the
-- machine is valid.
pub run_until_interrupt_total :
    (t : ℕ) {m : Machine}
    → t < tick_limit
    → IsValid m
    → (t' : ℕ) × (m' : Machine) × (run_until_interrupt (tick_limit + 1) t m ≡ some (t', m'))
      × (interrupted m' ≡ true)
      × (t' < tick_limit)
      × IsValid m'
run_until_interrupt_total t {m} ht h = found _ refl
  where
    ends : Ends (run_until_interrupt (tick_limit + 1) t m)
    ends = run_until_interrupt-Ends (tick_limit + 1) t ht (omega arith) h

    found :
        (o : Option (ℕ × Machine))
        → run_until_interrupt (tick_limit + 1) t m ≡ o
        → (t' : ℕ) × (m' : Machine) × (run_until_interrupt (tick_limit + 1) t m ≡ some (t', m'))
          × (interrupted m' ≡ true)
          × (t' < tick_limit)
          × IsValid m'
    found none e = absurd (rw e at ends)
    found (some (t', m')) e = let (i, b, v) = rw e at ends in (t', m', e, i, b, v)
