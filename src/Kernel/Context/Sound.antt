-- ===== src/Kernel/Context/Sound.antt =====
-- `contextSwitch` of src/kernel/context_switcher.c frees nothing.
use rm_vm.Common.{ℕ, sym, subst, inl, inr, Option, none, some, Bool-cases, set}
use rm_vm.Kernel.Process.{Process, ProcState, has_state}
use rm_vm.Kernel.System.{Sys}
use rm_vm.Kernel.System.Steps.{At}
use rm_vm.Kernel.System.Safe.{Alive, set-Alive, All-Alive, current-Alive}
use rm_vm.Kernel.Scheduler.Sound.{Sound, with_current-IsTable}
use rm_vm.Kernel.Context.Switch.{Saved, Loaded}
use rm_vm.Kernel.Context.{context_of}

-- A process that is written stays live, and so do all others.
pub set-Sound :
    (s : Sys) (a : ℕ) (p q : Process)
    → At s.heap a p
    → Sound s
    → Sound (record s { heap = set s.heap a (some q) })
set-Sound s a p q l h =
    let heap' = set s.heap a (some q) in
    let keeps : (b : ℕ) → Alive s.heap b → Alive heap' b = λ b m. set-Alive s.heap a p q b l m in
    record {
      is_table = h.is_table;
      slots = All-Alive s.heap heap' s.scheduler.schedule keeps h.slots;
      current = current-Alive s.scheduler.current s.heap heap' keeps h.current;
    }

Saved-Sound : (c : Option ℕ) (s s1 : Sys) → Saved c s s1 → Sound s → Sound s1
Saved-Sound none s s1 e h = subst Sound (sym e) h
Saved-Sound (some a) s s1 (p, l, e) h =
    let q = record p { context = context_of s.machine.cpu; state = ProcState.ready } in
    subst Sound (sym e) (elim (Bool-cases (has_state ProcState.running p)) [
      | inl r ↦ rw r (set-Sound s a p q l h)
      | inr r ↦ rw r h
    ])

Loaded-Sound : (s1 : Sys) (o : Option ℕ) (s2 : Sys) → Loaded s1 o s2 → Sound s1 → Sound s2
Loaded-Sound s1 none s2 e h = subst Sound (sym e) h
Loaded-Sound s1 (some k) s2 (a, p, _, l, e) h =
    let q = record p { state = ProcState.running } in
    let w = set-Sound s1 a p q l h in
    subst Sound (sym e) (record {
      is_table = with_current-IsTable (some a) h.is_table;
      slots = w.slots;
      current = set-Alive s1.heap a p q a l (p, l);
    })

pub context_switch-Sound :
    (s s1 s2 : Sys) (o : Option ℕ)
    → Saved s.scheduler.current s s1
    → Loaded s1 o s2
    → Sound s
    → Sound s2
context_switch-Sound s s1 s2 o v l h =
    Loaded-Sound s1 o s2 l (Saved-Sound s.scheduler.current s s1 v h)
