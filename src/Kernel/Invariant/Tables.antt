-- ===== src/Kernel/Invariant/Tables.antt =====
-- The table of src/kernel/scheduler.c with slots emptied, a process that is freed, and the invariant of
-- src/kernel.
use rm_vm.Kernel.Invariant.Fills.{slot-Alive}
use rm_vm.Kernel.Invariant.Ends.{busy}
use rm_vm.Kernel.Invariant.Frame.{with_table-Inv}
use rm_vm.Kernel.Invariant.Heap.{At-free-cases}
use rm_vm.Kernel.System.Steps.{some-injective, At-unique, At}
use rm_vm.Kernel.Scheduler.Search.{LiveSlot}
use rm_vm.Kernel.System.Safe.{CurrentLive, Alive}
use rm_vm.Kernel.Resource.{Resource}
use rm_vm.Kernel.Process.{ProcState, has_state, Process}
use rm_vm.Kernel.Invariant.{Pending, Inv, Ghost}
use rm_vm.Common.{
  ℕ, suc, ◌≡◌, refl, sym, ap, ◌∙◌, subst, ◌≢◌, inl, inr, false, Option, none, some, List, [], ◌∷◌,
  Option-cases, length, get_or, set, get_or-set_ne, All, some-ne-none,
}
use rm_vm.Kernel.System.{Sys}

every_slot :
    (heap : List (Option Process)) (slots : List (Option ℕ))
    → ((j a : ℕ) → get_or slots j none ≡ some a → Alive heap a)
    → All (LiveSlot heap) slots
every_slot heap [] h = tt
every_slot heap (none ∷ slots) h = (tt, every_slot heap slots (λ j a e. h (suc j) a e))
every_slot heap (some b ∷ slots) h = (h 0 b refl, every_slot heap slots (λ j a e. h (suc j) a e))

-- Slots that hold nothing new.
abbrev pub Fewer : List (Option ℕ) → List (Option ℕ) → Type 0
Fewer slots slots' =
    (length slots' ≡ length slots)
    × ((j a : ℕ) → get_or slots' j none ≡ some a → get_or slots j none ≡ some a)

abbrev pub with_slots : Sys → List (Option ℕ) → Sys
with_slots s slots = record s { scheduler = record (s.scheduler) { schedule = slots } }

pub with_slots-Inv :
    {g : Ghost} {s : Sys} (slots : List (Option ℕ))
    → Inv g s
    → Fewer s.scheduler.schedule slots
    → Inv g (with_slots s slots)
with_slots-Inv {g} {s} slots h (size, f) =
    with_table-Inv slots s.scheduler.cycle h
      (record {
        is_table = record {
          size = size ∙ h.sound.is_table.size;
          top_low = h.sound.is_table.top_low;
          top_high = h.sound.is_table.top_high;
          bottom = h.sound.is_table.bottom;
          ordered = h.sound.is_table.ordered;
          window = λ j busy. h.sound.is_table.window j (λ free.
              busy (elim (Option-cases (get_or slots j none)) as (λ _. get_or slots j none ≡ none) [
                | inl e ↦ e
                | inr (a, e) ↦ absurd (some-ne-none a (sym (f j a e) ∙ free))
              ]));
        };
        slots =
            every_slot s.heap slots
              (λ j a e. slot-Alive s.heap s.scheduler.schedule j a h.sound.slots (f j a e));
        current = h.sound.current;
      })
      (λ i j a e e'. h.unique i j a (f i a e) (f j a e'))

-- What the process with the request in the queue is like.
pub asleep_lem :
    (g : Ghost) (s : Sys) (a : ℕ) (p : Process) (x : Option ℕ)
    → Pending x s.io s.heap g.io_res
    → At s.heap a p
    → x ≡ some a
    → (has_state ProcState.ready p ≡ false) × (p.loaded ≡ 1)
asleep_lem g s a p none e l eq = absurd (some-ne-none a (sym eq))
asleep_lem g s a p (some c) (_, (q, m, w)) l eq =
    let same = At-unique s.heap c a q p m (some-injective c a eq) l in
    (
      subst (λ p. has_state ProcState.ready p ≡ false) same w.not_ready,
      subst (λ p. p.loaded ≡ 1) same w.loaded,
    )

-- A process that is freed, and that neither the table nor the queue needs, nor is current.
module _ (r : Resource) (x d : Option ℕ) (l : List ℕ) (s : Sys) (a : ℕ) (p : Process)
    (h : Inv (busy r x d l) s) (at : At s.heap a p) (n : x ≢ some a)
    (dd : (c : ℕ) → d ≡ some c → c ≡ a)
    (gone : (j : ℕ) → get_or s.scheduler.schedule j none ≢ some a)
    (cur : s.scheduler.current ≡ none) where
  abbrev freed_state : Sys
  freed_state = record s { heap = set s.heap a none }

  freed-Pending :
      (y : Option ℕ) → y ≢ some a → Pending y s.io s.heap r → Pending y s.io freed_state.heap r
  freed-Pending none ne e = e
  freed-Pending (some c) ne (req, (u, m, w)) =
      (req, (u, get_or-set_ne s.heap a c none none (λ e. ne (ap some (sym e))) ∙ m, w))

  still_there : (b : ℕ) (u : Process) → At freed_state.heap b u → (a ≢ b) × At s.heap b u
  still_there b u m = At-free-cases s.heap a p b u at m

  pub free-Inv : Inv (busy r x none l) freed_state
  free-Inv = record {
    sound = record {
      is_table = h.sound.is_table;
      slots = every_slot freed_state.heap s.scheduler.schedule (λ j b e.
          let (u, m) = slot-Alive s.heap s.scheduler.schedule j b h.sound.slots e in
          (u, get_or-set_ne s.heap a b none none (λ eq. gone j (e ∙ ap some (sym eq))) ∙ m));
      current = subst (λ c. CurrentLive c freed_state.heap) (sym cur) tt;
    };
    procs = λ b u m. h.procs b u (still_there b u m).1;
    distinct = λ b c u v m m' e. h.distinct b c u v (still_there b u m).1 (still_there c v m').1 e;
    unique = h.unique;
    parents = λ b c u v m m' i e.
        elim (h.parents b c u v (still_there b u m).1 (still_there c v m').1 i e) [
          | inl f ↦ absurd ((still_there b u m).0 (sym (dd b f)))
          | inr two ↦ inr two
        ];
    single =
        λ b c u v m m' i j e. h.single b c u v (still_there b u m).1 (still_there c v m').1 i j e;
    governors = λ b u m e z. h.governors b u (still_there b u m).1 e z;
    room = h.room;
    pool = h.pool;
    units = h.units;
    queue = freed-Pending x n h.queue;
    resting = λ b e. absurd (some-ne-none b (sym e ∙ cur));
    no_pi = h.no_pi;
    no_si = h.no_si;
    last_pi = h.last_pi;
    last_si = h.last_si;
    disk = h.disk;
  }
