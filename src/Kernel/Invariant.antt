-- ===== src/Kernel/Invariant.antt =====
-- What holds of the state of src/kernel between two turns of `runCycle`, as `main` sets it up.
pub mod Heap
pub mod Put
pub mod Change
pub mod Frame
pub mod Answers
pub mod Units
pub mod Parts
pub mod Timer
pub mod Io
pub mod Handler
pub mod Serve
pub mod Refusal
pub mod Trap
pub mod Fills
pub mod Spawn
pub mod Launch
pub mod Ends
pub mod Govern
pub mod Job
pub mod Find
pub mod Load
pub mod Loading
pub mod Loaders
pub mod Tables
pub mod Leave
pub mod Stop
pub mod Turn
pub mod Visit
pub mod Rounds
use rm_vm.Common.{
  ℕ, zero, suc, ◌+◌, ◌-◌, ◌*◌, ◌/◌, ◌%◌, ◌^◌, ◌≤◌, ◌<◌, bit_or, min, ◌≡◌, refl, sym, ap, ap₂, ◌∙◌,
  subst, ◌≢◌, ◌↔◌, ◌⊎◌, inl, inr, Bool, true, false, not, ◌&&◌, ◌||◌, Option, none, some, List, [],
  ◌∷◌, ◌++◌, map, append-nil, append_assoc, arith, dec_lt, ℕ_discrete, ltb, leb, ◌==◌,
  if◌then◌else◌, tests, Bool-cases, Option-cases, ltb→lt, ltb→ge, leb→le, leb→gt, ==→eq, length,
  get_or, set, take, drop, replicate, length-set, get_or-set_self, get_or-set_ne, length-append,
  length-replicate, All, All-set, All-get_or, All-replicate, u8, u16, uint16_max, IsByte, IsWord,
  AllWord, sub_u16, bit, drop-set, memcpy, length-memcpy, get_or-memcpy_out, get_or-memcpy_in,
  list_ext, some-ne-none,
}
use rm_vm.Rm.State.{si_read, si_write}
use rm_vm.Rm.Disk.{HardDisk, sector_at}
use rm_vm.Rm.Disk.RoundTrip.{Sized}
use rm_vm.Vm.State.{VirtualMachine}
use rm_vm.Vm.State
use rm_vm.Kernel.Process.{Process, ProcState, Entry, has_state}
use rm_vm.Kernel.Resource.{Resource, ResourceManager}
use rm_vm.Kernel.Resource.Ring.{waiting}
use rm_vm.Kernel.Resource.Ring
use rm_vm.Kernel.System.{Sys, IoQueue, M, ◌>>=◌}
use rm_vm.Kernel.System.Steps.{goes_on}
use rm_vm.Kernel.System.Steps.{At}
use rm_vm.Kernel.System.Safe.{Alive}
use rm_vm.Kernel.Scheduler.Sound.{Sound}
use rm_vm.Kernel.IoHandler.{head_request, request_of}
use rm_vm.Kernel.IoHandler.Steps.{Empty}

-- No machine, or a valid one.
abbrev pub Valid : Option VirtualMachine → Type 0
Valid none = Unit
Valid (some vm) = State.IsValid vm

-- A process, where `n` is the last pid that was given: no interrupt waits in its context, its machine is
-- valid, and one without an entry has none.
pub record IsProc (n : ℕ) (p : Process) : Type 0 where
  pub no_pi : p.context.pi ≡ 0
  pub no_si : p.context.si ≡ 0
  pub machine : Valid p.vm
  pub owned : p.entry ≡ none → p.vm ≡ none
  pub pid_low : 0 < p.pid
  pub pid_high : p.pid ≤ n
  pub parent : p.parent_pid ≤ n

-- A resource with `k` units left for which nobody waits.
abbrev pub Idle : ℕ → ℕ → Resource → Type 0
Idle id k r = (r.id ≡ id) × (r.available ≡ k) × (r.head ≡ r.tail)

-- The four resources, with their units left; `r` is that of input and output.
pub record Pool (memory cpu timer : ℕ) (r : Resource) (rm : ResourceManager) : Type 0 where
  pub r2 : Resource
  pub r3 : Resource
  pub r4 : Resource
  pub shape : rm ≡ r ∷ r2 ∷ r3 ∷ r4 ∷ []
  pub io : r.id ≡ 1
  pub ring : Ring.IsValid r
  pub mem : Idle 2 memory r2
  pub processor : Idle 3 cpu r3
  pub clock : Idle 4 timer r4

-- The one request in the queue, of process `a`.
pub record Request (a : ℕ) (q : IoQueue) : Type 0 where
  pub code : ℕ
  pub r0 : ℕ
  pub r1 : ℕ
  pub r2 : ℕ
  pub ticks : ℕ
  pub first : head_request q ≡ request_of a code r0 r1 r2 ticks
  pub known : (code ≡ 1) ⊎ (code ≡ 2) ⊎ (code ≡ 4)
  pub fits : (code ≡ 4) ⊎ (r1 ≤ 255)
  pub alone : (q.io_head + 1) % 8 ≡ q.io_tail
  pub small : q.io_head < 8
  pub size : length q.pending_io ≡ 8

-- Its process cannot run, and does not wait for the resource.
pub record Waits (p : Process) (r : Resource) : Type 0 where
  pub not_ready : has_state ProcState.ready p ≡ false
  pub loaded : p.loaded ≡ 1
  pub apart : All (λ pid. pid ≢ p.pid) (waiting r)

abbrev pub Pending : Option ℕ → IoQueue → List (Option Process) → Resource → Type 0
Pending none q heap r = Empty q
Pending (some a) q heap r = Request a q × ((p : Process) × At heap a p × Waits p r)

-- The unit for input and output is there, with nobody waiting and no request in the queue, or it is not.
abbrev pub UnitState : Option ℕ → Resource → Type 0
UnitState x r = (r.available ≡ 0) ⊎ ((r.available ≡ 1) × (r.head ≡ r.tail) × (x ≡ none))

abbrev pub In : ℕ → List ℕ → Type 0
In a [] = ⊥
In a (b ∷ l) = (a ≡ b) ⊎ In a l

-- Sectors of 16 bytes on a disk that is idle.
pub record IsDisk (d : HardDisk) : Type 0 where
  pub idle : d.busy ≡ false
  pub sized : Sized d
  pub sectors : (t : ℕ) → t < 128 → (length (sector_at d t) ≡ 16) × All IsByte (sector_at d t)

-- What a state is in besides its fields: the units left, the resource for input and output, the process whose request is in the queue, the
-- loader that has done its work, and the job governors that may still ask for a loader.
pub record Ghost : Type 0 where
  pub memory : ℕ
  pub cpu : ℕ
  pub timer : ℕ
  pub io_res : Resource
  pub pending : Option ℕ
  pub done : Option ℕ
  pub fresh : List ℕ

-- Between two turns.
abbrev pub quiet : Resource → Option ℕ → List ℕ → Ghost
quiet r x l = record {
  memory = 2;
  cpu = 1;
  timer = 1;
  io_res = r;
  pending = x;
  done = none;
  fresh = l;
}

abbrev pub IsLoader : Process → Type 0
IsLoader p = p.entry ≡ some Entry.loader_entry

pub record Inv (g : Ghost) (s : Sys) : Type 0 where
  pub sound : Sound s
  pub procs : (a : ℕ) (p : Process) → At s.heap a p → IsProc s.scheduler.pid p
  pub distinct : (a b : ℕ) (p q : Process) → At s.heap a p → At s.heap b q → p.pid ≡ q.pid → a ≡ b
  pub unique :
      (i j a : ℕ)
      → get_or s.scheduler.schedule i none ≡ some a
      → get_or s.scheduler.schedule j none ≡ some a
      → i ≡ j
  pub parents :
      (a b : ℕ) (p q : Process)
      → At s.heap a p
      → At s.heap b q
      → IsLoader p
      → q.pid ≡ p.parent_pid
      → (g.done ≡ some a) ⊎ (q.loaded ≡ 2)
  pub single :
      (a b : ℕ) (p q : Process)
      → At s.heap a p
      → At s.heap b q
      → IsLoader p
      → IsLoader q
      → p.parent_pid ≡ q.parent_pid
      → a ≡ b
  pub governors :
      (a : ℕ) (p : Process)
      → At s.heap a p
      → p.entry ≡ some Entry.job_governor_entry
      → p.loaded ≡ 0
      → In a g.fresh
  pub room : s.scheduler.pid + length g.fresh < 256
  pub pool : Pool g.memory g.cpu g.timer g.io_res s.resources
  pub units : UnitState g.pending g.io_res
  pub queue : Pending g.pending s.io s.heap g.io_res
  pub resting : (a : ℕ) → s.scheduler.current ≡ some a → g.pending ≢ some a
  pub no_pi : s.machine.cpu.pi ≡ 0
  pub no_si : s.machine.cpu.si ≡ 0
  pub last_pi : s.kernel.last_pi ≡ 0
  pub last_si : s.kernel.last_si ≡ 0
  pub disk : IsDisk s.disk

-- What no function takes away that frees no process and empties no slot.
pub record Onward (s s' : Sys) : Type 0 where
  pub alive : (a : ℕ) → Alive s.heap a → Alive s'.heap a
  pub slots :
      (i a : ℕ)
      → get_or s.scheduler.schedule i none ≡ some a
      → get_or s'.scheduler.schedule i none ≡ some a

pub Onward-refl : (s : Sys) → Onward s s
Onward-refl s = record { alive = λ a l. l; slots = λ i a e. e }

pub Onward-trans : {s s' s'' : Sys} → Onward s s' → Onward s' s'' → Onward s s''
Onward-trans h k = record {
  alive = λ a l. k.alive a (h.alive a l);
  slots = λ i a e. k.slots i a (h.slots i a e);
}

-- A run that ends in such a state.
abbrev pub Keeps : {A : Type 0} → Ghost → M A → Sys → Type 0
Keeps {A} g m s = (v : A) × (s' : Sys) × (m s ≡ some (v, s')) × Inv g s' × Onward s s'

-- The same with the value that it returns.
abbrev pub Yields : {A : Type 0} → Ghost → M A → Sys → A → Type 0
Yields {A} g m s v = (s' : Sys) × (m s ≡ some (v, s')) × Inv g s' × Onward s s'

pub Yields->>= :
    {A B : Type 0} {g g' : Ghost} {s : Sys} (m : M A) (f : A → M B) (v : A) (w : B)
    → Yields g m s v
    → ((s' : Sys) → Inv g s' → Onward s s' → Yields g' (f v) s' w)
    → Yields g' (m >>= f) s w
Yields->>= m f v w (s', e, h, o) k =
    let (s'', e', h', o') = k s' h o in (s'', goes_on _ e ∙ e', h', Onward-trans o o')

pub Keeps->>= :
    {A B : Type 0} {g g' : Ghost} {s : Sys} (m : M A) (f : A → M B)
    → Keeps g m s
    → ((v : A) (s' : Sys) → Inv g s' → Onward s s' → Keeps g' (f v) s')
    → Keeps g' (m >>= f) s
Keeps->>= m f (v, s', e, h, o) k =
    let (w, s'', e', h', o') = k v s' h o in (w, s'', goes_on _ e ∙ e', h', Onward-trans o o')

pub Yields-Keeps :
    {A : Type 0} {g : Ghost} {s : Sys} (m : M A) (v : A) → Yields g m s v → Keeps g m s
Yields-Keeps m v (s', e, h, o) = (v, s', e, h, o)
