-- ===== src/Kernel/Scheduler/Table.antt =====
-- `addProc` of src/kernel/scheduler.c: the slot that a process gets, and the window of priorities.
use rm_vm.Common.{
  ℕ, ◌+◌, ◌-◌, ◌≤◌, ◌<◌, ◌≡◌, refl, ap, ◌∙◌, Bool, true, false, Option, none, some, arith,
  ℕ_discrete, ltb, if◌then◌else◌, length, get_or, set, replicate, length-set, get_or-set_ne,
  length-replicate, All-get_or, All-replicate,
}
use rm_vm.Kernel.System.{Scheduler, init_scheduler}
use rm_vm.Kernel.Scheduler.{free_slot, place, place_system, place_user}
use rm_vm.Kernel.Scheduler.Search.{Found, Free, free_slot-Found}

-- The table has its size, the top of the window lies in the system's band, and every process that is
-- scheduled stands in the window, which does not reach slot 0.
pub record IsTable (sch : Scheduler) : Type 0 where
  pub size : length sch.schedule ≡ 100
  pub top_low : 80 ≤ sch.prio_max
  pub top_high : sch.prio_max < 100
  pub bottom : 0 < sch.prio_min
  pub ordered : sch.prio_min ≤ sch.prio_max
  pub window : (j : ℕ) → ¬ Free sch.schedule j → (sch.prio_min ≤ j) × (j ≤ sch.prio_max)

-- The search of `addProc`, in the band of the system or of the users.
abbrev pub Chosen : Scheduler → Bool → Option ℕ → Type 0
Chosen sch sys_proc o =
    Found (Free sch.schedule) (if sys_proc then 80 else 1) (if sys_proc then sch.prio_max else 79) o

-- What `addProc` did with the slot.
abbrev pub Placed : Scheduler → ℕ → Option ℕ → Bool × Scheduler → Type 0
Placed sch a none (done, sch') = (done ≡ false) × (sch' ≡ sch)
Placed sch a (some k) (done, sch') = (done ≡ true) × (sch'.schedule ≡ set sch.schedule k (some a))

-- A slot below the top of the window that is filled, and the bottom lowered to it.
filled :
    (sch sch' : Scheduler) (k a : ℕ)
    → IsTable sch
    → 0 < k
    → k ≤ sch.prio_max
    → sch'.schedule ≡ set sch.schedule k (some a)
    → sch'.prio_max ≡ sch.prio_max
    → sch'.prio_min ≡ (if ltb k sch.prio_min then k else sch.prio_min)
    → IsTable sch'
filled sch sch' k a t low h es em en = record {
  size = ap length es ∙ length-set sch.schedule k (some a) ∙ t.size;
  top_low = omega (arith, em, t.top_low);
  top_high = omega (arith, em, t.top_high);
  bottom = ground (arith, en, t.bottom, low);
  ordered = ground (arith, en, em, h, t.ordered);
  window = λ j busy. elim (ℕ_discrete k j) [
    | yes e ↦ (ground (arith, em, en, e, h), ground (arith, em, en, e, h))
    | no ne ↦
        let w = t.window j (λ f.
          busy (
            ap (λ xs. get_or xs j none) es
            ∙ get_or-set_ne sch.schedule k j (some a) none ne
            ∙ f)) in
        (ground (arith, em, en, w.0), ground (arith, em, en, w.1))
  ];
}

system_lem :
    (sch : Scheduler) (a : ℕ) (o : Option ℕ)
    → IsTable sch
    → Chosen sch true o
    → Placed sch a o (place_system sch a o) × IsTable (place_system sch a o).1
system_lem sch a none t f = ((refl, refl), t)
system_lem sch a (some k) t f =
    ((refl, refl), filled sch _ k a t (omega (arith, f.0)) f.1 refl (ground (arith, f.1)) refl)

user_lem :
    (sch : Scheduler) (a : ℕ) (o : Option ℕ)
    → IsTable sch
    → Chosen sch false o
    → Placed sch a o (place_user sch a o) × IsTable (place_user sch a o).1
user_lem sch a none t f = ((refl, refl), t)
user_lem sch a (some k) t f = (
  (refl, refl),
  filled sch _ k a t (omega (arith, f.0)) (omega (arith, f.1, t.top_low)) refl refl refl,
)

-- `addProc` puts a process into the highest free slot of its band, which is 80 up to the top of the
-- window for a system process and 1 to 79 for a user's; it fails and changes no slot exactly where the
-- band is full. The table keeps its size and its window, which covers every process that is scheduled.
pub place_lem :
    {sch : Scheduler} (sys_proc : Bool) (a : ℕ)
    → IsTable sch
    → (o : Option ℕ) × Chosen sch sys_proc o
      × Placed sch a o (place sch sys_proc a)
      × IsTable (place sch sys_proc a).1
unfolding place
place_lem {sch} true a t =
    let f =
      free_slot-Found (sch.prio_max + 1 - 80) sch.prio_max 79 sch.schedule
        (omega (arith, t.top_low)) in
    let (p, t') =
      system_lem sch a (free_slot (sch.prio_max + 1 - 80) sch.prio_max sch.schedule) t f in
    (free_slot (sch.prio_max + 1 - 80) sch.prio_max sch.schedule, f, p, t')
place_lem {sch} false a t =
    let f = free_slot-Found 79 79 0 sch.schedule refl in
    let (p, t') = user_lem sch a (free_slot 79 79 sch.schedule) t f in
    (free_slot 79 79 sch.schedule, f, p, t')

pub init_scheduler-IsTable : IsTable init_scheduler.1
unfolding init_scheduler
init_scheduler-IsTable = record {
  size = length-set (replicate 100 none) 97 (some 0) ∙ length-replicate 100 none;
  top_low = omega arith;
  top_high = omega arith;
  bottom = omega arith;
  ordered = omega arith;
  window = λ j busy. elim (ℕ_discrete 97 j) [
    | yes e ↦ (omega (arith, e), omega (arith, e))
    | no ne ↦ absurd (
        busy (
          get_or-set_ne (replicate 100 none) 97 j (some 0) none ne
          ∙ All-get_or (λ x. x ≡ none) (replicate 100 none) j none
              (All-replicate (λ x. x ≡ none) 100 none refl) refl))
  ];
}
