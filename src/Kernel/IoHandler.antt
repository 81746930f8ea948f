-- ===== src/Kernel/IoHandler.antt =====
-- src/kernel/ioHandler.c; a run is `none` also where a copy leaves an array. The log lines are left out.
pub mod Amount
pub mod Transfer
pub mod Unit
pub mod Steps
pub mod Service
pub mod Safe
use rm_vm.Common.{
  ℕ, zero, suc, ◌+◌, ◌-◌, ◌*◌, ◌/◌, ◌%◌, ◌^◌, ◌≤◌, ◌<◌, bit_or, min, ◌≡◌, refl, sym, ap, ap₂, ◌∙◌,
  subst, ◌≢◌, ◌↔◌, ◌⊎◌, inl, inr, Bool, true, false, not, ◌&&◌, ◌||◌, Option, none, some, List, [],
  ◌∷◌, ◌++◌, map, append-nil, append_assoc, arith, dec_lt, ℕ_discrete, ltb, leb, ◌==◌,
  if◌then◌else◌, tests, Bool-cases, Option-cases, ltb→lt, ltb→ge, leb→le, leb→gt, ==→eq, length,
  get_or, set, take, drop, replicate, length-set, get_or-set_self, get_or-set_ne, length-append,
  length-replicate, All, All-set, All-get_or, All-replicate, u8, u16, uint16_max, IsByte, IsWord,
  AllWord, sub_u16, bit, drop-set, memcpy, length-memcpy, get_or-memcpy_out, get_or-memcpy_in,
  list_ext, some-ne-none,
}
use rm_vm.Rm.State.{si_read, si_write}
use rm_vm.Rm.Disk.{HardDisk, disk_sector_size, read_disk, write_disk}
use rm_vm.Vm.State.{VirtualMachine, vm_memory_size}
use rm_vm.Kernel.Process.{has_vm, EntryResult, ProcState}
use rm_vm.Kernel.System.{
  IoRequest, IoQueue, blank_request, M, pure, ◌>>=◌, ◌>>◌, gets, modify, when, load, update,
}
use rm_vm.Kernel.Scheduler.{request, release}

-- `bytes` of `completeIO`: the subtraction is of `size_t`, which is 64 bits wide.
unfoldable pub transfer_size : ℕ → ℕ → ℕ
transfer_size r1 r2 =
    let bytes = if ltb disk_sector_size (r2 * 2) then disk_sector_size else r2 * 2 in
    if ltb vm_memory_size (r1 + bytes) then (vm_memory_size + 2 ^ 64 - r1) % 2 ^ 64 else bytes

-- `memcpy(dst + to, src + from, n)`; `none` where it leaves one of the two arrays.
unfoldable pub copy : ℕ → List ℕ → ℕ → List ℕ → ℕ → Option (List ℕ)
copy n dst to src from = elim (leb (to + n) (length dst) && leb (from + n) (length src)) [
  | true ↦ some (memcpy n dst to src from 0)
  | false ↦ none
]

-- The `switch` of `completeIO` on the disk and the cells of the Virtual Machine.
unfoldable pub carry_out : ℕ → ℕ → ℕ → ℕ → HardDisk → List ℕ → Option (HardDisk × List ℕ)
carry_out code r0 r1 r2 disk cells =
    let n = transfer_size r1 r2 in
    let (got, read) = read_disk disk r0 in
    let zeros = replicate disk_sector_size 0 in
    if code == si_read
    then elim got [
      | none ↦ some (read, cells)
      | some sector_buf ↦ elim (copy n cells r1 sector_buf 0) [
        | none ↦ none
        | some cells' ↦ some (read, cells')
      ]
    ]
    else if code == si_write
    then elim (copy n zeros 0 cells r1) [
      | none ↦ none
      | some buf ↦ some ((write_disk disk r0 buf).1, cells)
    ]
    else some (disk, cells)

-- `carry_out` for a request, on the disk of the state.
unfoldable pub carry_out_for : IoRequest → List ℕ → M (List ℕ)
carry_out_for req cells s = elim (carry_out req.code req.r0 req.r1 req.r2 s.disk cells) [
  | none ↦ none
  | some (disk, cells') ↦ some (cells', record s { disk = disk })
]

-- `completeIO` for a request of process `a`.
unfoldable pub complete_for : IoRequest → ℕ → Option VirtualMachine → M (Unit {0})
complete_for req a none = pure tt
complete_for req a (some vm) = do
  cells ← carry_out_for req vm.memory
  update a (λ p. record p { vm = some (record vm { memory = cells }) })
  when req.holds_res (release 1 true >>= λ _. pure tt)
  update a (λ p. record p { state = ProcState.ready; waiting_res_id = 0 })

unfoldable pub complete_io : IoRequest → M (Unit {0})
complete_io req = elim req.proc [ none ↦ pure tt | some a ↦ do p ← load a; complete_for req a p.vm ]

abbrev pub set_io : IoQueue → M (Unit {0})
set_io q = modify (λ s. record s { io = q })

-- The queue with a request behind the others.
abbrev pub push : IoQueue → IoRequest → IoQueue
push q req = record {
  pending_io = set q.pending_io q.io_tail req;
  io_head = q.io_head;
  io_tail = (q.io_tail + 1) % 8;
}

-- What `enqueueIORequest` writes to a request.
abbrev pub request_of : ℕ → ℕ → ℕ → ℕ → ℕ → ℕ → IoRequest
request_of a code r0 r1 r2 ticks = record {
  proc = some a;
  code = code;
  r0 = r0;
  r1 = r1;
  r2 = r2;
  ticks = ticks;
  holds_res = true;
}

-- `next == ioHead`
abbrev pub is_full : IoQueue → Bool
is_full q = ((q.io_tail + 1) % 8) == q.io_head

-- What follows the claim of the resource, for the request of process `a`.
abbrev pub accept : ℕ → IoRequest → Bool → M Bool
accept a req false = pure false
accept a req true = do
  q ← gets (λ s. s.io)
  if is_full q then (do _ ← release 1 false; pure false) else (do
    set_io (push q req)
    update a (λ p. record p { state = ProcState.blocked; waiting_res_id = 1 })
    pure true)

unfoldable pub enqueue_io_request : ℕ → ℕ → ℕ → ℕ → ℕ → M Bool
enqueue_io_request a code r0 r1 r2 = do
  granted ← request 1 (some a)
  accept a (request_of a code r0 r1 r2 1) granted

-- `pendingIO[ioHead]`
abbrev pub head_request : IoQueue → IoRequest
head_request q = get_or q.pending_io q.io_head blank_request

-- `ioHead = (ioHead + 1) % 8`
abbrev pub advance : IoQueue → IoQueue
advance q = record q { io_head = (q.io_head + 1) % 8 }

-- `completeIO` has cleared `holdsRes` where it came to its end, and that is where the process has a
-- Virtual Machine; `stepIO` clears the rest.
unfoldable pub clear_request : IoQueue → Bool → IoQueue
clear_request q ended = record q {
  pending_io = set q.pending_io q.io_head (record (head_request q) {
    proc = none;
    code = 0;
    holds_res = if ended then false else (head_request q).holds_res;
  });
}

-- `req->proc && req->proc->vm`
unfoldable pub has_machine : IoRequest → M Bool
has_machine req = elim req.proc [ none ↦ pure false | some a ↦ do p ← load a; pure (has_vm p) ]

-- `!req->proc || req->code == 0`
abbrev pub is_void : IoRequest → Bool
is_void req = (elim req.proc [ none ↦ true | some a ↦ false ]) || (req.code == 0)

-- `stepIO` for the request at the head of a queue that is not empty.
unfoldable pub serve : IoQueue → IoRequest → M (Unit {0})
serve q req =
    if is_void req
    then set_io (advance q)
    else if ltb 0 req.ticks
    then set_io (record q {
      pending_io = set q.pending_io q.io_head (record req { ticks = req.ticks - 1 });
    })
    else (do ended ← has_machine req; complete_io req; set_io (advance (clear_request q ended)))

unfoldable pub step_io : M (Unit {0})
step_io = do
  q ← gets (λ s. s.io)
  if q.io_head == q.io_tail then pure tt else serve q (head_request q)

-- The log line of `ioHandlerEntry` reads the process of the request.
unfoldable pub log_request : IoRequest → M (Unit {0})
log_request req = elim req.proc [ none ↦ pure tt | some a ↦ do p ← load a; pure tt ]

-- `ioHandlerEntry` for a scheduler that is not null.
unfoldable pub io_handler_entry : M EntryResult
io_handler_entry = do
  q ← gets (λ s. s.io)
  if q.io_head == q.io_tail
      then pure EntryResult.keeps
      else (do log_request (head_request q); step_io; pure EntryResult.keeps)
