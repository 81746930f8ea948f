-- ===== src/Kernel/Invariant/Change.antt =====
-- Changes of a process that the invariant of src/kernel allows.
use rm_vm.Kernel.System.Steps.{At}
use rm_vm.Kernel.Invariant.Put.{put-Inv, put, Loads, Same, Rests}
use rm_vm.Kernel.System.{Sys}
use rm_vm.Vm.State.{VirtualMachine}
use rm_vm.Kernel.Process.{Process, ProcState}
use rm_vm.Kernel.Invariant.{Inv, Valid, IsProc, Ghost}
use rm_vm.Kernel.Scheduler.{mark_request}
use rm_vm.Common.{
  ℕ, ◌≡◌, refl, sym, ◌∙◌, ◌≢◌, inl, inr, Bool, true, false, Option, none, some, arith, u8,
}

-- A process that is not the one with the request in the queue.
abbrev pub Apart : Ghost → ℕ → Type 0
Apart g a = g.pending ≢ some a

pub Rests-Apart : (g : Ghost) (a : ℕ) (q : Process) → Apart g a → Rests g a q
Rests-Apart g a q n e = absurd (n e)

-- A process with another context in which no interrupt waits, and with another machine.
pub kept-IsProc :
    {n : ℕ} {p q : Process}
    → IsProc n p
    → Same p q
    → q.context.pi ≡ 0
    → q.context.si ≡ 0
    → Valid q.vm
    → (q.entry ≡ none → q.vm ≡ none)
    → IsProc n q
kept-IsProc h k pi si v f = record {
  no_pi = pi;
  no_si = si;
  machine = v;
  owned = f;
  pid_low = omega (arith, k.pid, h.pid_low);
  pid_high = omega (arith, k.pid, h.pid_high);
  parent = omega (arith, k.parent, h.parent);
}

-- Another state, resource to wait for, stage of the loading and machine.
abbrev pub changed : ProcState → ℕ → ℕ → Option VirtualMachine → Process → Process
changed st w k vm p = record p { state = st; waiting_res_id = w; loaded = k; vm = vm }

changed-Same :
    (st : ProcState) (w k : ℕ) (vm : Option VirtualMachine) (p : Process)
    → Same p (changed st w k vm p)
changed-Same st w k vm p = record { pid = refl; entry = refl; parent = refl }

-- A process that keeps what `loaded` says.
pub Loads-same :
    {g : Ghost} {s : Sys} (a : ℕ) (p q : Process)
    → At s.heap a p
    → Inv g s
    → q.pid ≡ p.pid
    → q.loaded ≡ p.loaded
    → Loads g s p q
Loads-same a p q l h e f = record {
  fresh = λ z. sym f ∙ z;
  parents = λ b r m i k. elim (h.parents b a r p m l i (sym e ∙ k)) [
    | inl d ↦ inl d
    | inr two ↦ inr (f ∙ two)
  ];
}

-- A machine for a process that has an entry, or none, and what that says of the loading.
pub changed-Inv :
    {g : Ghost} {s : Sys} {st : ProcState} {w k : ℕ} {vm : Option VirtualMachine} (a : ℕ)
    (p : Process)
    → At s.heap a p
    → Inv g s
    → Valid vm
    → (p.entry ≡ none → vm ≡ none)
    → Loads g s p (changed st w k vm p)
    → Rests g a (changed st w k vm p)
    → Inv g (put s a (changed st w k vm p))
changed-Inv {g} {s} {st} {w} {k} {vm} a p l h v f ld n =
    let o = h.procs a p l in
    let same = changed-Same st w k vm p in
    put-Inv a p (changed st w k vm p) l h (kept-IsProc o same o.no_pi o.no_si v f) same ld n

-- A write that such a process does not feel.
pub record Mild (f : Process → Process) : Type 0 where
  pub same : (p : Process) → Same p (f p)
  pub loaded : (p : Process) → (f p).loaded ≡ p.loaded
  pub proc : (n : ℕ) (p : Process) → IsProc n p → IsProc n (f p)

-- Another state and another resource to wait for.
schedule-Mild :
    (st : Process → ProcState) (w : Process → ℕ)
    → Mild (λ p. record p { state = st p; waiting_res_id = w p })
schedule-Mild st w = record {
  same = λ p. changed-Same (st p) (w p) p.loaded p.vm p;
  loaded = λ p. refl;
  proc = λ n p h.
      kept-IsProc h (changed-Same (st p) (w p) p.loaded p.vm p) h.no_pi h.no_si h.machine h.owned;
}

abbrev pub state_set : ProcState → ℕ → Process → Process
state_set st w p = record p { state = st; waiting_res_id = w }

pub state_set-Mild : (st : ProcState) (w : ℕ) → Mild (state_set st w)
state_set-Mild st w = schedule-Mild (λ p. st) (λ p. w)

abbrev pub blocked : Process → Process
blocked p = record p { state = ProcState.blocked }

pub blocked-Mild : Mild blocked
blocked-Mild = schedule-Mild (λ p. ProcState.blocked) (λ p. p.waiting_res_id)

abbrev pub readied : Process → Process
readied p = record p { state = ProcState.ready }

pub readied-Mild : Mild readied
readied-Mild = schedule-Mild (λ p. ProcState.ready) (λ p. p.waiting_res_id)

pub mark-Mild : (granted : Bool) (id : ℕ) → Mild (mark_request id granted)
mark-Mild true id = schedule-Mild (λ p. p.state) (λ p. 0)
mark-Mild false id = schedule-Mild (λ p. ProcState.susp_blocked) (λ p. u8 id)

pub Mild-Inv :
    {g : Ghost} {s : Sys} (a : ℕ) (f : Process → Process) (p : Process)
    → At s.heap a p
    → Mild f
    → Rests g a (f p)
    → Inv g s
    → Inv g (put s a (f p))
Mild-Inv {g} {s} a f p l m w h =
    put-Inv a p (f p) l h (m.proc s.scheduler.pid p (h.procs a p l)) (m.same p)
      (Loads-same a p (f p) l h (m.same p).pid (m.loaded p)) w
