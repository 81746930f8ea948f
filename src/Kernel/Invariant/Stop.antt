-- ===== src/Kernel/Invariant/Stop.antt =====
-- `startStopEntry` of src/main.c, and the invariant of src/kernel.
use rm_vm.Kernel.Invariant.Ends.{busy}
use rm_vm.Kernel.Invariant.Change.{Loads-same, changed-Inv}
use rm_vm.Kernel.Invariant.Leave.{Done}
use rm_vm.Kernel.Invariant.Parts.{with_parts-Inv}
use rm_vm.Kernel.Scheduler.Search.{find_proc-cases, LiveSlot}
use rm_vm.Kernel.Invariant.Put.{put}
use rm_vm.Kernel.Jobs.Survival.{stripped}
use rm_vm.Kernel.System.Safe.{All-Alive, set-Alive, Alive}
use rm_vm.Kernel.System.Steps.{goes_on, At}
use rm_vm.Kernel.Scheduler.{first}
use rm_vm.Kernel.Resource.{Resource}
use rm_vm.Kernel.Process.{ProcType, has_type, ProcState, EntryResult, Process, has_state}
use rm_vm.Kernel.Invariant.{Inv, Ghost}
use rm_vm.Kernel.Jobs.{works, shut_down, has_work, clear_slots, start_stop_entry}
use rm_vm.Kernel.Invariant.Tables.{asleep_lem, with_slots-Inv, Fewer}
use rm_vm.Common.{
  ℕ, zero, suc, ◌≡◌, refl, sym, ap, ◌∙◌, ◌≢◌, inl, inr, true, false, Option, none, some, List, [],
  ◌∷◌, if◌then◌else◌, Bool-cases, get_or, All, some-ne-none,
}
use rm_vm.Kernel.System.{Sys, M}

stripped_rests :
    (p : Process) → has_state ProcState.ready (stripped p) ≡ has_state ProcState.ready p
unfolding has_state
stripped_rests p = refl

strip-Inv :
    (g : Ghost) (s : Sys) (a : ℕ) (p : Process)
    → At s.heap a p
    → Inv g s
    → Inv g (put s a (stripped p))
strip-Inv g s a p l h =
    changed-Inv a p l h tt (λ e. refl) (Loads-same a p (stripped p) l h refl refl)
      (λ e.
        let (nr, one) = asleep_lem g s a p g.pending h.queue l e in (stripped_rests p ∙ nr, one))

-- The slots that `clear_slots` leaves, and the heap.
abbrev Clears : Ghost → Sys → List (Option ℕ) → Type 0
Clears g s slots =
    (heap' : List (Option Process)) × (slots' : List (Option ℕ)) × (clear_slots s.heap slots
      ≡ some (heap', slots'))
    × Inv g (record s { heap = heap' })
    × ((a : ℕ) → Alive s.heap a → Alive heap' a)
    × Fewer slots slots'

more_slots :
    (x y : Option ℕ) (slots slots' : List (Option ℕ))
    → ((a : ℕ) → y ≡ some a → x ≡ some a)
    → Fewer slots slots'
    → Fewer (x ∷ slots) (y ∷ slots')
more_slots x y slots slots' f (e, h) = (ap suc e, at)
  where
    at : (j a : ℕ) → get_or (y ∷ slots') j none ≡ some a → get_or (x ∷ slots) j none ≡ some a
    at zero a e = f a e
    at (suc j) a e = h j a e

clear_slots-Inv :
    (g : Ghost) (s : Sys) (slots : List (Option ℕ))
    → Inv g s
    → All (LiveSlot s.heap) slots
    → Clears g s slots
unfolding clear_slots
clear_slots-Inv g s [] h al = (s.heap, [], refl, h, λ a z. z, (refl, λ j a e. e))
clear_slots-Inv g s (none ∷ slots) h al =
    let (heap', slots', e, h', v, f) = clear_slots-Inv g s slots h al.1 in
    (heap', none ∷ slots', goes_on _ e, h', v, more_slots none none slots slots' (λ a e. e) f)
clear_slots-Inv g s (some a ∷ slots) h ((p, l), al) =
    elim (Bool-cases (has_type ProcType.start_stop p)) [
      | inl t ↦
          let (heap', slots', e, h', v, f) = clear_slots-Inv g s slots h al in
          (
            heap',
            some a ∷ slots',
            rw (l, t, clear_slots)
                (goes_on _ e ∙ ap (λ b. some (heap', (if b then some a else none) ∷ slots')) t),
            h',
            v,
            more_slots (some a) (some a) slots slots' (λ a e. e) f,
          )
      | inr t ↦
          let s1 = put s a (stripped p) in
          let keeps = λ (b : ℕ). λ (z : Alive s.heap b). set-Alive s.heap a p (stripped p) b l z in
          let (heap', slots', e, h', v, f) =
            clear_slots-Inv g s1 slots (strip-Inv g s a p l h)
              (All-Alive s.heap s1.heap slots keeps al) in
          (
            heap',
            none ∷ slots',
            rw (l, t, clear_slots)
                (goes_on _ e ∙ ap (λ b. some (heap', (if b then some a else none) ∷ slots')) t),
            h',
            λ b z. v b (keeps b z),
            more_slots (some a) none slots slots' (λ b e. absurd (some-ne-none b (sym e))) f,
          )
    ]

-- A run of an entry of process `a`, from which `runRange` can end the turn.
abbrev pub Stops : ℕ → M EntryResult → Sys → Type 0
Stops a m s =
    (v : EntryResult) × (r : Resource) × (x : Option ℕ) × (d : Option ℕ) × (l : List ℕ) × (s' : Sys)
    × (m s ≡ some (v, s'))
    × Inv (busy r x d l) s'
    × ((b : ℕ) → Alive s.heap b → Alive s'.heap b)
    × Done v x d a s'

pub start_stop-Stops :
    (r : Resource) (x : Option ℕ) (l : List ℕ) (s : Sys) (a : ℕ)
    → Inv (busy r x none l) s
    → x ≢ some a
    → Stops a (start_stop_entry true) s
unfolding start_stop_entry has_work first shut_down
start_stop-Stops r x l s a h n =
    elim (find_proc-cases works s.heap s.scheduler.schedule 0 h.sound.slots) [
      | inr (w, k, b, e) ↦ (
        EntryResult.keeps,
        r,
        x,
        none,
        l,
        s,
        goes_on _ (goes_on _ (goes_on _ e)),
        h,
        λ b z. z,
        (n, refl),
      )
      | inl (_, e) ↦
          let (heap', slots', c, h', v, f) =
            clear_slots-Inv (busy r x none l) s s.scheduler.schedule h h.sound.slots in
          let h2 = with_slots-Inv slots' h' f in
          let t = record (s.timer) { active = false } in
          let h3 =
            with_parts-Inv s.machine.cpu s.kernel t s.scheduler.current h2 h2.no_pi h2.no_si
              h2.last_pi h2.last_si h2.sound.current h2.resting in
          (
            EntryResult.finished,
            r,
            x,
            none,
            l,
            record s {
              heap = heap';
              scheduler = record (s.scheduler) { schedule = slots' };
              timer = t;
            },
            goes_on _ (goes_on _ (goes_on _ e)) ∙ goes_on _ (goes_on _ c),
            h3,
            v,
            (n, λ c e. absurd (some-ne-none c (sym e)), inl refl),
          )
    ]
