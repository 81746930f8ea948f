-- ===== src/Kernel/Invariant/Serve.antt =====
-- `stepIO` and `ioHandlerEntry` of src/kernel/ioHandler.c, and the invariant of src/kernel.
use rm_vm.Kernel.Invariant.Frame.{with_io-Inv}
use rm_vm.Kernel.Invariant.Change.{state_set-Mild, Mild-Inv, Apart, state_set}
use rm_vm.Kernel.Invariant.Put.{put-Onward, put}
use rm_vm.Kernel.Invariant.Io.{carry_out-Carried}
use rm_vm.Rm.Disk.{HardDisk}
use rm_vm.Vm.State.{VirtualMachine}
use rm_vm.Kernel.Invariant.Handler.{complete_run, release-Beside, with_cells, cells-Inv, free_queue}
use rm_vm.Kernel.System.Steps.{At-set, At}
use rm_vm.Kernel.Process.{ProcState, EntryResult, Process}
use rm_vm.Kernel.IoHandler.Steps.{serve_due, entry_lem, serve_nobody, Empty}
use rm_vm.Kernel.Resource.{Resource}
use rm_vm.Kernel.IoHandler.{io_handler_entry, advance, request_of, clear_request, serve}
use rm_vm.Kernel.Invariant.{Onward-refl, Pending, Valid, IsDisk, Waits, Yields, Inv, Request, Ghost}
use rm_vm.Kernel.System.{blank_request, Sys, IoRequest, M, IoQueue}
use rm_vm.Vm.State
use rm_vm.Common.{
  ℕ, zero, suc, ◌-◌, ◌≡◌, refl, sym, ap, ◌∙◌, subst, ◌≢◌, inl, inr, Bool, true, false, Option, none,
  some, arith, ltb, ◌==◌, Option-cases, set, length-set, get_or-set_self, some-ne-none,
}

-- A turn of the handler: what it leaves of the queue and the resource.
abbrev pub Turns : {A : Type 0} → Ghost → M A → Sys → A → Type 0
Turns {A} g m s v =
    (r : Resource) × (x : Option ℕ) × Yields (record g { io_res = r; pending = x }) m s v
    × ((a : ℕ) → Apart g a → x ≢ some a)

-- The request that is counted down.
abbrev counted : IoQueue → IoRequest → IoQueue
counted q req = record q { pending_io = set q.pending_io q.io_head req }

serve_tick :
    (s : Sys) (a code r0 r1 r2 n : ℕ)
    → code ≢ 0
    → serve s.io (request_of a code r0 r1 r2 (suc n)) s
      ≡ some (tt, record s { io = counted s.io (request_of a code r0 r1 r2 n) })
unfolding serve
serve_tick s a code r0 r1 r2 n c =
    let known : (code == 0) ≡ false = ground (arith, c) in
    let early : ltb 0 (suc n) ≡ true = ground arith in
    let less : suc n - 1 ≡ n = omega arith in
    rw (known, early)
      (ap (λ n. some (tt, record s { io = counted s.io (request_of a code r0 r1 r2 n) })) less)

counted-Request :
    (a : ℕ) (q : IoQueue) (h : Request a q) (n : ℕ)
    → Request a (counted q (request_of a h.code h.r0 h.r1 h.r2 n))
counted-Request a q h n = record {
  code = h.code;
  r0 = h.r0;
  r1 = h.r1;
  r2 = h.r2;
  ticks = n;
  first =
      get_or-set_self q.pending_io q.io_head (request_of a h.code h.r0 h.r1 h.r2 n) blank_request
        (omega (arith, h.small, h.size));
  known = h.known;
  fits = h.fits;
  alone = h.alone;
  small = h.small;
  size = length-set q.pending_io q.io_head (request_of a h.code h.r0 h.r1 h.r2 n) ∙ h.size;
}

served-Empty :
    (a : ℕ) (q : IoQueue) (ended : Bool) → Request a q → Empty (advance (clear_request q ended))
unfolding clear_request
served-Empty a q ended h = record {
  same = h.alone;
  small = omega (arith, h.alone);
  size = length-set q.pending_io q.io_head _ ∙ h.size;
}

module _ (g : Ghost) (s : Sys) (a : ℕ) (p : Process) (h : Inv (record g { pending = some a }) s)
    (req : Request a s.io) (l : At s.heap a p) (w : Waits p g.io_res) where
  serve_early-Turns :
      (n : ℕ)
      → Turns
          (record g { pending = some a })
          (serve s.io (request_of a req.code req.r0 req.r1 req.r2 (suc n)))
          s
          tt
  serve_early-Turns n =
      let q = counted s.io (request_of a req.code req.r0 req.r1 req.r2 n) in
      (
        g.io_res,
        some a,
        (
          record s { io = q },
          serve_tick s a req.code req.r0 req.r1 req.r2 n (ground (arith, req.known)),
          with_io-Inv q (some a) s.disk h (counted-Request a s.io req n, (p, l, w)) h.units
              h.resting h.disk,
          record { alive = λ a l. l; slots = λ i a e. e },
        ),
        λ b n. n,
      )

  -- The unit is out while a request is in the queue.
  out : g.io_res.available ≡ 0
  out = elim h.units [ inl z ↦ z | inr (_, _, e) ↦ absurd (some-ne-none a e) ]

  -- The queue is empty after the service.
  emptied-Inv :
      (ended : Bool) (d : HardDisk)
      → IsDisk d
      → Inv (free_queue g) (record s { io = advance (clear_request s.io ended); disk = d })
  emptied-Inv ended d i =
      with_io-Inv (advance (clear_request s.io ended)) none d h (served-Empty a s.io ended req)
        (inl out) (λ b _ e. some-ne-none b (sym e)) i

  serve_nobody-Turns :
      p.vm ≡ none
      → Turns
          (record g { pending = some a })
          (serve s.io (request_of a req.code req.r0 req.r1 req.r2 0))
          s
          tt
  serve_nobody-Turns m = (
    g.io_res,
    none,
    (
      record s { io = advance (clear_request s.io false) },
      serve_nobody s a p req.code req.r0 req.r1 req.r2 l m (ground (arith, req.known)),
      emptied-Inv false s.disk h.disk,
      record { alive = λ a l. l; slots = λ i a e. e },
    ),
    λ b _ e. some-ne-none b (sym e),
  )

  serve_due-Turns :
      (vm : VirtualMachine)
      → p.vm ≡ some vm
      → Turns
          (record g { pending = some a })
          (serve s.io (request_of a req.code req.r0 req.r1 req.r2 0))
          s
          tt
  serve_due-Turns vm m =
      let v : State.IsValid vm = subst Valid m (h.procs a p l).machine in
      let (d, cells, t, c) =
        carry_out-Carried req.code req.r0 req.r1 req.r2 s.disk vm.memory req.known req.fits h.disk
          v.cells v.bytes in
      let q = advance (clear_request s.io true) in
      let h1 =
        cells-Inv g (record s { io = q; disk = d }) a p vm cells (emptied-Inv true d c.disk) l m
          c.sized c.bytes in
      let s1 : Sys = record (put s a (with_cells p vm cells)) { io = q; disk = d } in
      let (r, (s2, e, h2, o)) = release-Beside g s1 s.io h1 out in
      let (p2, l2) =
        o.alive a (with_cells p vm cells, At-set s.heap a p (with_cells p vm cells) l) in
      let o1 = put-Onward s a p (with_cells p vm cells) l in
      let o3 = put-Onward s2 a p2 (state_set ProcState.ready 0 p2) l2 in
      let h3 =
        Mild-Inv a (state_set ProcState.ready 0) p2 l2 (state_set-Mild ProcState.ready 0)
          (λ e. absurd (some-ne-none a (sym e))) h2 in
      let h4 =
        with_io-Inv q none s2.disk h3 (served-Empty a s.io true req) h3.units
          (λ b _ e. some-ne-none b (sym e)) h3.disk in
      (
        r,
        none,
        (
          record (put s2 a (state_set ProcState.ready 0 p2)) { io = q },
          serve_due s (put (record s2 { io = s.io }) a (state_set ProcState.ready 0 p2)) a p vm
              req.code req.r0 req.r1 req.r2 l m (ground (arith, req.known))
              (complete_run s (record s2 { io = s.io }) a p p2 vm req.code req.r0 req.r1 req.r2 d
                cells l m t e l2),
          h4,
          record {
            alive = λ b m. o3.alive b (o.alive b (o1.alive b m));
            slots = λ i b e. o3.slots i b (o.slots i b (o1.slots i b e));
          },
        ),
        λ b _ e. some-ne-none b (sym e),
      )

  serve-Turns :
      (n : ℕ)
      → Turns
          (record g { pending = some a })
          (serve s.io (request_of a req.code req.r0 req.r1 req.r2 n))
          s
          tt
  serve-Turns zero = elim (Option-cases p.vm) [
    | inl m ↦ serve_nobody-Turns m
    | inr (vm, m) ↦ serve_due-Turns vm m
  ]
  serve-Turns (suc n) = serve_early-Turns n

turned :
    (g : Ghost) (s : Sys) (x : Option ℕ)
    → Inv (record g { pending = x }) s
    → Pending x s.io s.heap g.io_res
    → Turns (record g { pending = x }) io_handler_entry s EntryResult.keeps
unfolding io_handler_entry
turned g s none h e =
    let idle : (s.io.io_head == s.io.io_tail) ≡ true = ground (arith, e.same) in
    (g.io_res, none, (s, rw idle refl, h, Onward-refl s), λ b n. n)
turned g s (some a) h (req, (p, l, w)) =
    let busy : (s.io.io_head == s.io.io_tail) ≡ false = ground (arith, req.alone, req.small) in
    let (r, x, (s', e, h', o), n) = serve-Turns g s a p h req l w req.ticks in
    (
      r,
      x,
      (s', entry_lem s s' a p req.code req.r0 req.r1 req.r2 req.ticks l busy req.first e, h', o),
      n,
    )

pub io_handler_entry-Turns :
    {g : Ghost} {s : Sys} → Inv g s → Turns g io_handler_entry s EntryResult.keeps
io_handler_entry-Turns {g} {s} h = turned g s g.pending h h.queue
