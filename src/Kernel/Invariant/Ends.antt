-- ===== src/Kernel/Invariant/Ends.antt =====
-- How a run of an entry of src/kernel/scheduler.c ends, while a process of which the invariant of src/kernel
-- knows more is run.
use rm_vm.Kernel.Invariant.Frame.{with_loads-Inv}
use rm_vm.Kernel.System.Steps.{At}
use rm_vm.Kernel.Resource.{Resource}
use rm_vm.Kernel.Invariant.{In, Yields, Inv, Ghost}
use rm_vm.Kernel.System.{Sys, M}
use rm_vm.Kernel.Process.{Entry, Process, EntryResult}
use rm_vm.Common.{ℕ, ◌+◌, ◌<◌, ◌≡◌, ◌∙◌, ◌≢◌, Option, none, some, List, length}

-- During a turn, with the processor taken.
abbrev pub busy : Resource → Option ℕ → Option ℕ → List ℕ → Ghost
busy r x d l = record {
  memory = 2;
  cpu = 0;
  timer = 1;
  io_res = r;
  pending = x;
  done = d;
  fresh = l;
}

-- What an entry of process `a` leaves, so that `runRange` can end the turn.
abbrev pub After : EntryResult → Option ℕ → Option ℕ → ℕ → Type 0
After EntryResult.finished x d a = (x ≢ some a) × ((c : ℕ) → d ≡ some c → c ≡ a)
After EntryResult.keeps x d a = (x ≢ some a) × (d ≡ none)
After EntryResult.waits x d a = d ≡ none

abbrev pub Ends : ℕ → M EntryResult → Sys → Type 0
Ends a m s =
    (v : EntryResult) × (r : Resource) × (x : Option ℕ) × (d : Option ℕ) × (l : List ℕ) × Yields
      (busy r x d l) m s v
    × After v x d a

pub Ends-run : (a : ℕ) (m m' : M EntryResult) (s : Sys) → m s ≡ m' s → Ends a m' s → Ends a m s
Ends-run a m m' s e (v, r, x, d, l, (s', f, h, o), af) = (v, r, x, d, l, (s', e ∙ f, h, o), af)

-- Other job governors that may ask for a loader.
pub with_fresh-Inv :
    {g : Ghost} {s : Sys} (l : List ℕ)
    → Inv g s
    → ((b : ℕ) (r : Process)
        → At s.heap b r
        → r.entry ≡ some Entry.job_governor_entry
        → r.loaded ≡ 0
        → In b l)
    → s.scheduler.pid + length l < 256
    → Inv (record g { fresh = l }) s
with_fresh-Inv {g} l h k n = with_loads-Inv g.done l h h.parents k n
