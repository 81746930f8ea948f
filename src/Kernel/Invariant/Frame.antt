-- ===== src/Kernel/Invariant/Frame.antt =====
-- Writes to the parts of the state beside its processes, and the invariant of src/kernel.
use rm_vm.Kernel.System.Steps.{At}
use rm_vm.Kernel.Process.{Entry, Process}
use rm_vm.Rm.Disk.{HardDisk}
use rm_vm.Kernel.Scheduler.Sound.{Sound}
use rm_vm.Kernel.Resource.{Resource, ResourceManager}
use rm_vm.Kernel.System.{IoQueue, Sys}
use rm_vm.Kernel.Invariant.{In, IsDisk, IsLoader, Pending, UnitState, Pool, Inv, Ghost}
use rm_vm.Kernel.Resource.Ring
use rm_vm.Common.{
  ℕ, ◌+◌, ◌<◌, ◌≡◌, refl, ◌≢◌, ◌⊎◌, Option, none, some, List, [], ◌∷◌, length, get_or,
}

-- Other resources, another queue with the process whose request is in it, and another disk.
with_devices-Inv :
    {g : Ghost} {s : Sys} (m c t : ℕ) (r : Resource) (x : Option ℕ) (rm : ResourceManager)
    (q : IoQueue) (d : HardDisk)
    → Inv g s
    → Pool m c t r rm
    → UnitState x r
    → Pending x q s.heap r
    → ((a : ℕ) → s.scheduler.current ≡ some a → x ≢ some a)
    → IsDisk d
    → Inv
        (record g { memory = m; cpu = c; timer = t; io_res = r; pending = x })
        (record s { resources = rm; io = q; disk = d })
with_devices-Inv m c t r x rm q d h pool u p n i = record {
  sound = record { is_table = h.sound.is_table; slots = h.sound.slots; current = h.sound.current };
  procs = h.procs;
  distinct = h.distinct;
  unique = h.unique;
  parents = h.parents;
  single = h.single;
  governors = h.governors;
  room = h.room;
  pool = pool;
  units = u;
  queue = p;
  resting = n;
  no_pi = h.no_pi;
  no_si = h.no_si;
  last_pi = h.last_pi;
  last_si = h.last_si;
  disk = i;
}

-- Other resources do not matter to the rest.
pub with_resources-Inv :
    {g : Ghost} {s : Sys} (m c t : ℕ) (rm : ResourceManager)
    → Inv g s
    → Pool m c t g.io_res rm
    → Inv (record g { memory = m; cpu = c; timer = t }) (record s { resources = rm })
with_resources-Inv {g} {s} m c t rm h q =
    with_devices-Inv m c t g.io_res g.pending rm s.io s.disk h q h.units h.queue h.resting h.disk

-- Another queue, another process that waits for it, and another disk.
pub with_io-Inv :
    {g : Ghost} {s : Sys} (q : IoQueue) (x : Option ℕ) (d : HardDisk)
    → Inv g s
    → Pending x q s.heap g.io_res
    → UnitState x g.io_res
    → ((a : ℕ) → s.scheduler.current ≡ some a → x ≢ some a)
    → IsDisk d
    → Inv (record g { pending = x }) (record s { io = q; disk = d })
with_io-Inv {g} {s} q x d h p u n i =
    with_devices-Inv g.memory g.cpu g.timer g.io_res x s.resources q d h h.pool u p n i

-- Another state of the resource for input and output.
pub with_first-Inv :
    {g : Ghost} {s : Sys} (r : Resource) (h : Inv g s)
    → r.id ≡ 1
    → Ring.IsValid r
    → UnitState g.pending r
    → Pending g.pending s.io s.heap r
    → Inv
        (record g { io_res = r })
        (record s { resources = r ∷ h.pool.r2 ∷ h.pool.r3 ∷ h.pool.r4 ∷ [] })
with_first-Inv {g} {s} r h i v u p =
    let o = h.pool in
    with_devices-Inv g.memory g.cpu g.timer r g.pending (r ∷ o.r2 ∷ o.r3 ∷ o.r4 ∷ []) s.io s.disk h
      (record {
        r2 = o.r2;
        r3 = o.r3;
        r4 = o.r4;
        shape = refl;
        io = i;
        ring = v;
        mem = o.mem;
        processor = o.processor;
        clock = o.clock;
      })
      u p h.resting h.disk

-- What is known of the loaders and of the job governors that may ask for one.
pub with_loads-Inv :
    {g : Ghost} {s : Sys} (d : Option ℕ) (l : List ℕ)
    → Inv g s
    → ((a b : ℕ) (p q : Process)
        → At s.heap a p
        → At s.heap b q
        → IsLoader p
        → q.pid ≡ p.parent_pid
        → (d ≡ some a) ⊎ (q.loaded ≡ 2))
    → ((a : ℕ) (p : Process)
        → At s.heap a p
        → p.entry ≡ some Entry.job_governor_entry
        → p.loaded ≡ 0
        → In a l)
    → s.scheduler.pid + length l < 256
    → Inv (record g { done = d; fresh = l }) s
with_loads-Inv d l h k f n = record {
  sound = h.sound;
  procs = h.procs;
  distinct = h.distinct;
  unique = h.unique;
  parents = k;
  single = h.single;
  governors = f;
  room = n;
  pool = h.pool;
  units = h.units;
  queue = h.queue;
  resting = h.resting;
  no_pi = h.no_pi;
  no_si = h.no_si;
  last_pi = h.last_pi;
  last_si = h.last_si;
  disk = h.disk;
}

-- Another table of the same processes, and another count of the cycles.
pub with_table-Inv :
    {g : Ghost} {s : Sys} (slots : List (Option ℕ)) (c : ℕ)
    → Inv g s
    → Sound (record s { scheduler = record (s.scheduler) { schedule = slots; cycle = c } })
    → ((i j a : ℕ) → get_or slots i none ≡ some a → get_or slots j none ≡ some a → i ≡ j)
    → Inv g (record s { scheduler = record (s.scheduler) { schedule = slots; cycle = c } })
with_table-Inv slots c h sd u = record {
  sound = sd;
  procs = h.procs;
  distinct = h.distinct;
  unique = u;
  parents = h.parents;
  single = h.single;
  governors = h.governors;
  room = h.room;
  pool = h.pool;
  units = h.units;
  queue = h.queue;
  resting = h.resting;
  no_pi = h.no_pi;
  no_si = h.no_si;
  last_pi = h.last_pi;
  last_si = h.last_si;
  disk = h.disk;
}
