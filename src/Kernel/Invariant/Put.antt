-- ===== src/Kernel/Invariant/Put.antt =====
-- Writes to a process, and the invariant of src/kernel.
use rm_vm.Kernel.Resource.Ring.{waiting}
use rm_vm.Common.{
  ℕ, ◌≡◌, refl, sym, ap, ◌∙◌, subst, ◌≢◌, ◌⊎◌, inl, inr, false, Option, none, some, ℕ_discrete, set,
  get_or-set_ne, All,
}
use rm_vm.Kernel.Process.{Process, ProcState, has_state, Entry}
use rm_vm.Kernel.System.{Sys}
use rm_vm.Kernel.System.Steps.{At-set, At, At-unique}
use rm_vm.Kernel.System.Safe.{set-Alive}
use rm_vm.Kernel.Context.Sound.{set-Sound}
use rm_vm.Kernel.Invariant.{In, Inv, Ghost, IsProc, IsLoader, Pending, Onward}
use rm_vm.Kernel.Invariant.Heap.{At-set-cases}

abbrev pub put : Sys → ℕ → Process → Sys
put s a q = record s { heap = set s.heap a (some q) }

-- What a write may not change of a process.
pub record Same (p q : Process) : Type 0 where
  pub pid : q.pid ≡ p.pid
  pub entry : q.entry ≡ p.entry
  pub parent : q.parent_pid ≡ p.parent_pid

-- What it may not do to the loading of programs.
pub record Loads (g : Ghost) (s : Sys) (p q : Process) : Type 0 where
  pub fresh : q.loaded ≡ 0 → p.loaded ≡ 0
  pub parents :
      (b : ℕ) (r : Process)
      → At s.heap b r
      → IsLoader r
      → q.pid ≡ r.parent_pid
      → (g.done ≡ some b) ⊎ (q.loaded ≡ 2)

-- What it may not do to the process whose request is in the queue.
abbrev pub Rests : Ghost → ℕ → Process → Type 0
Rests g a q = g.pending ≡ some a → (has_state ProcState.ready q ≡ false) × (q.loaded ≡ 1)

pub put-Onward : (s : Sys) (a : ℕ) (p q : Process) → At s.heap a p → Onward s (put s a q)
put-Onward s a p q l = record { alive = λ b m. set-Alive s.heap a p q b l m; slots = λ i b e. e }

module _ {g : Ghost} {s : Sys} (a : ℕ) (p q : Process) (l : At s.heap a p) (h : Inv g s)
    (n : IsProc s.scheduler.pid q) (k : Same p q) (ld : Loads g s p q) (w : Rests g a q) where
  -- The process behind a pointer, with the one it was before.
  old :
      (b : ℕ) (r : Process) → At (put s a q).heap b r → (r' : Process) × At s.heap b r' × Same r' r
  old b r m = elim (At-set-cases s.heap a p q b r l m) [
    | inl (e, f) ↦ (p, subst (λ x. At s.heap x p) e l, subst (Same p) f k)
    | inr (ne, m') ↦ (r, m', record { pid = refl; entry = refl; parent = refl })
  ]

  put-parents :
      (b c : ℕ) (r t : Process)
      → At (put s a q).heap b r
      → At (put s a q).heap c t
      → IsLoader r
      → t.pid ≡ r.parent_pid
      → (g.done ≡ some b) ⊎ (t.loaded ≡ 2)
  put-parents b c r t m m' i e =
      let (r', o, sr) = old b r m in
      let i' = sym sr.entry ∙ i in
      elim (At-set-cases s.heap a p q c t l m') [
        | inl (_, f) ↦
            subst (λ t. (g.done ≡ some b) ⊎ (t.loaded ≡ 2)) f
              (ld.parents b r' o i' (ap (λ t. t.pid) f ∙ e ∙ sr.parent))
        | inr (_, o') ↦ h.parents b c r' t o o' i' (e ∙ sr.parent)
      ]

  put-governors :
      (b : ℕ) (r : Process)
      → At (put s a q).heap b r
      → r.entry ≡ some Entry.job_governor_entry
      → r.loaded ≡ 0
      → In b g.fresh
  put-governors b r m e z = elim (At-set-cases s.heap a p q b r l m) [
    | inl (eq, f) ↦
        subst (λ x. In x g.fresh) eq
          (h.governors a p l (sym k.entry ∙ ap (λ t. t.entry) f ∙ e)
            (ld.fresh (ap (λ t. t.loaded) f ∙ z)))
    | inr (_, o) ↦ h.governors b r o e z
  ]

  put-Pending :
      (x : Option ℕ)
      → g.pending ≡ x
      → Pending x s.io s.heap g.io_res
      → Pending x s.io (put s a q).heap g.io_res
  put-Pending none e d = d
  put-Pending (some c) e (req, (t, m, ws)) = elim (ℕ_discrete a c) [
    | yes same ↦
        let (nr, one) = w (e ∙ ap some (sym same)) in
        let is = At-unique s.heap a c p t l same m in
        (
          req,
          (
            q,
            subst (λ x. At (put s a q).heap x q) same (At-set s.heap a p q l),
            record {
              not_ready = nr;
              loaded = one;
              apart =
                  subst (λ n. All (λ pid. pid ≢ n) (waiting g.io_res))
                    (ap (λ t. t.pid) (sym is) ∙ sym k.pid) ws.apart;
            },
          ),
        )
    | no other ↦ (req, (t, get_or-set_ne s.heap a c (some q) none other ∙ m, ws))
  ]

  pub put-Inv : Inv g (put s a q)
  put-Inv = record {
    sound = set-Sound s a p q l h.sound;
    procs = λ b r m. elim (At-set-cases s.heap a p q b r l m) [
      | inl (_, f) ↦ subst (IsProc s.scheduler.pid) f n
      | inr (_, o) ↦ h.procs b r o
    ];
    distinct = λ b c r t m m' e.
        let (r', o, sr) = old b r m in
        let (t', o', st) = old c t m' in h.distinct b c r' t' o o' (sym sr.pid ∙ e ∙ st.pid);
    unique = h.unique;
    parents = put-parents;
    single = λ b c r t m m' i j e.
        let (r', o, sr) = old b r m in
        let (t', o', st) = old c t m' in
        h.single b c r' t' o o' (sym sr.entry ∙ i) (sym st.entry ∙ j)
          (sym sr.parent ∙ e ∙ st.parent);
    governors = put-governors;
    room = h.room;
    pool = h.pool;
    units = h.units;
    queue = put-Pending g.pending refl h.queue;
    resting = h.resting;
    no_pi = h.no_pi;
    no_si = h.no_si;
    last_pi = h.last_pi;
    last_si = h.last_si;
    disk = h.disk;
  }
