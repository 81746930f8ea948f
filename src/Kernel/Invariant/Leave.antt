-- ===== src/Kernel/Invariant/Leave.antt =====
-- The end of a turn in `runRange` of src/kernel/scheduler.c, `removeProcP` included, and the invariant of
-- src/kernel.
use rm_vm.Kernel.Invariant.Ends.{busy}
use rm_vm.Kernel.Invariant.Change.{readied-Mild, readied, blocked-Mild, Mild-Inv, blocked}
use rm_vm.Kernel.Invariant.Put.{put}
use rm_vm.Kernel.Invariant.Find.{find_proc-Match, Match}
use rm_vm.Kernel.Invariant.Trap.{blocked_not_ready, vacant, vacant-Inv}
use rm_vm.Kernel.Scheduler.{first, remove_proc_p, find_proc}
use rm_vm.Kernel.Cycle.{end_entry, remove_self}
use rm_vm.Kernel.System.Steps.{
  set_state-At, free-At, load-At, goes_on, some-injective, At-unique, At,
}
use rm_vm.Kernel.Invariant.{Inv}
use rm_vm.Kernel.Scheduler.Search.{Skips, find_proc-cases, LiveSlot}
use rm_vm.Kernel.Process.{ProcState, has_pid, EntryResult, Process}
use rm_vm.Kernel.Invariant.Tables.{asleep_lem, with_slots, free-Inv, with_slots-Inv, Fewer}
use rm_vm.Kernel.Resource.{Resource}
use rm_vm.Common.{
  ℕ, zero, suc, ◌<◌, ◌≡◌, refl, sym, ap, ◌∙◌, subst, ◌≢◌, ◌⊎◌, inl, inr, Bool, true, false, Option,
  none, some, List, [], ◌∷◌, arith, ℕ_discrete, ◌==◌, ==→eq, length, get_or, set, length-set,
  get_or-set_self, get_or-set_ne, All, All-get_or, some-ne-none,
}
use rm_vm.Kernel.System.{set_current, M, Sys, ◌>>◌}

slot-lt : (slots : List (Option ℕ)) (j a : ℕ) → get_or slots j none ≡ some a → j < length slots
slot-lt [] j a e = absurd (some-ne-none a (sym e))
slot-lt (x ∷ slots) zero a e = omega arith
slot-lt (x ∷ slots) (suc j) a e = omega (arith, slot-lt slots j a e)

-- A process that stands in the table is found.
found_lem :
    (q : Process → Bool) (heap : List (Option Process)) (slots : List (Option ℕ)) (j a : ℕ)
    (p : Process)
    → All (LiveSlot heap) slots
    → get_or slots j none ≡ some a
    → At heap a p
    → q p ≡ true
    → find_proc q heap slots 0 ≢ some none
found_lem q heap slots j a p al e l t f = elim (find_proc-cases q heap slots 0 al) [
  | inl (skips, _) ↦
      let (p', l', t') : Skips q heap (some a) =
        subst (Skips q heap) e (All-get_or (Skips q heap) slots j none skips tt) in
      let same = At-unique heap a a p p' l refl l' in cc (t, t', ap q same)
  | inr (_, k, b, e') ↦ some-ne-none (k, b) (some-injective (some (k, b)) none (sym e' ∙ f))
]

-- The table without the slot of a process.
without_slot :
    (slots : List (Option ℕ)) (k a : ℕ)
    → get_or slots k none ≡ some a
    → ((i j b : ℕ) → get_or slots i none ≡ some b → get_or slots j none ≡ some b → i ≡ j)
    → Fewer slots (set slots k none) × ((j : ℕ) → get_or (set slots k none) j none ≢ some a)
without_slot slots k a e u = ((length-set slots k none, fewer), gone)
  where
    here : get_or (set slots k none) k none ≡ none
    here = get_or-set_self slots k none none (slot-lt slots k a e)

    fewer : (j b : ℕ) → get_or (set slots k none) j none ≡ some b → get_or slots j none ≡ some b
    fewer j b f = elim (ℕ_discrete k j) [
      | yes eq ↦
          absurd
            (some-ne-none b (sym f ∙ ap (λ j. get_or (set slots k none) j none) (sym eq) ∙ here))
      | no ne ↦ sym (get_or-set_ne slots k j none none ne) ∙ f
    ]

    gone : (j : ℕ) → get_or (set slots k none) j none ≢ some a
    gone j f =
        let eq = u k j a e (fewer j a f) in
        some-ne-none a (sym f ∙ ap (λ j. get_or (set slots k none) j none) (sym eq) ∙ here)

-- The state after the removal, with nobody current.
abbrev removed : Sys → ℕ → ℕ → Sys
removed s k a = record s {
  heap = set s.heap a none;
  scheduler = record (s.scheduler) { schedule = set s.scheduler.schedule k none; current = none };
}

removed-Inv :
    (r : Resource) (x d : Option ℕ) (l : List ℕ) (s : Sys) (k a : ℕ) (p : Process)
    → Inv (busy r x d l) s
    → At s.heap a p
    → x ≢ some a
    → ((c : ℕ) → d ≡ some c → c ≡ a)
    → get_or s.scheduler.schedule k none ≡ some a
    → Inv (busy r x none l) (removed s k a)
removed-Inv r x d l s k a p h at n dd e =
    let (f, gone) = without_slot s.scheduler.schedule k a e h.unique in
    let h1 = with_slots-Inv (set s.scheduler.schedule k none) (vacant-Inv h) f in
    free-Inv r x d l (with_slots (vacant s) (set s.scheduler.schedule k none)) a p h1 at n dd gone
      refl

abbrev pub Left : M (Unit {0}) → Sys → Type 0
Left m s =
    (r : Resource) × (x : Option ℕ) × (l : List ℕ) × (s' : Sys) × (m s ≡ some (tt, s'))
    × Inv (busy r x none l) s'

-- What an entry has left for `runRange`.
abbrev pub Done : EntryResult → Option ℕ → Option ℕ → ℕ → Sys → Type 0
Done EntryResult.finished x d a s =
    (x ≢ some a)
    × ((c : ℕ) → d ≡ some c → c ≡ a)
    × ((d ≡ none) ⊎ ((i : ℕ) × (get_or s.scheduler.schedule i none ≡ some a)))
Done EntryResult.keeps x d a s = (x ≢ some a) × (d ≡ none)
Done EntryResult.waits x d a s = d ≡ none

-- `removeProcP(sch, next->pid)` where the search finds nothing, and where it finds slot `k`.
remove_self-none :
    (s : Sys) (a : ℕ) (p : Process)
    → At s.heap a p
    → (p.pid == 0) ≡ false
    → find_proc (has_pid p.pid) s.heap s.scheduler.schedule 0 ≡ some none
    → remove_self a s ≡ some (tt, s)
unfolding remove_self remove_proc_p first
remove_self-none s a p l z e =
    goes_on _ (load-At a s p l) ∙ rw z (goes_on _ (goes_on _ (goes_on _ e)))

remove_self-some :
    (s : Sys) (a k c : ℕ) (p q : Process)
    → At s.heap a p
    → At s.heap c q
    → (p.pid == 0) ≡ false
    → find_proc (has_pid p.pid) s.heap s.scheduler.schedule 0 ≡ some (some (k, c))
    → remove_self a s
      ≡ some (
        tt,
        record s {
          heap = set s.heap c none;
          scheduler = record (s.scheduler) { schedule = set s.scheduler.schedule k none };
        },
      )
unfolding remove_self remove_proc_p first
remove_self-some s a k c p q l m z e =
    goes_on _ (load-At a s p l)
    ∙ rw z (
        goes_on _ (
          goes_on _ (goes_on _ e)
          ∙ goes_on _ (
              free-At c
                (record s {
                  scheduler = record (s.scheduler) { schedule = set s.scheduler.schedule k none };
                })
                q m)))

module _ (r : Resource) (x d : Option ℕ) (l : List ℕ) (s : Sys) (a : ℕ) (p : Process)
    (h : Inv (busy r x d l) s) (at : At s.heap a p) where
  not_zero : (p.pid == 0) ≡ false
  not_zero = ground (arith, (h.procs a p at).pid_low)

  own_pid : has_pid p.pid p ≡ true
  unfolding has_pid
  own_pid = ground arith

  leaves :
      (o : Option (ℕ × ℕ))
      → Match (has_pid p.pid) s.heap s.scheduler.schedule 0 o
      → find_proc (has_pid p.pid) s.heap s.scheduler.schedule 0 ≡ some o
      → Done EntryResult.finished x d a s
      → Left (remove_self a >> set_current none) s
  unfolding has_pid
  leaves none m e (n, dd, inl dn) =
      let h' = vacant-Inv (subst (λ d. Inv (busy r x d l) s) dn h) in
      (r, x, l, vacant s, goes_on _ (remove_self-none s a p at not_zero e), h')
  leaves none m e (n, dd, inr (i, sl)) =
      absurd
        (found_lem (has_pid p.pid) s.heap s.scheduler.schedule i a p h.sound.slots sl at own_pid e)
  leaves (some (k, c)) (q, lq, t, j, ej, sl) e (n, dd, _) =
      let is : c ≡ a = h.distinct c a q p lq at (==→eq q.pid p.pid t) in
      let ek : j ≡ k = omega (arith, ej) in
      let h' =
        removed-Inv r x d l s k c q h lq (λ f. n (f ∙ ap some is)) (λ b f. dd b f ∙ sym is)
          (ap (λ k. get_or s.scheduler.schedule k none) (sym ek) ∙ sl) in
      (r, x, l, removed s k c, goes_on _ (remove_self-some s a k c p q at lq not_zero e), h')

  pub end_entry-Left : (v : EntryResult) → Done v x d a s → Left (end_entry a v) s
  unfolding end_entry
  end_entry-Left EntryResult.finished c =
      let (o, e, m) = find_proc-Match (has_pid p.pid) s.heap s.scheduler.schedule 0 h.sound.slots in
      leaves o m e c
  end_entry-Left EntryResult.waits dn =
      let h' = subst (λ d. Inv (busy r x d l) s) dn h in
      (
        r,
        x,
        l,
        vacant (put s a (blocked p)),
        goes_on _ (set_state-At a ProcState.blocked s p at),
        vacant-Inv (
            Mild-Inv a blocked p at blocked-Mild
              (λ e. (blocked_not_ready p, (asleep_lem (busy r x none l) s a p x h'.queue at e).1))
              h'),
      )
  end_entry-Left EntryResult.keeps (n, dn) =
      let h' = subst (λ d. Inv (busy r x d l) s) dn h in
      (
        r,
        x,
        l,
        vacant (put s a (readied p)),
        goes_on _ (set_state-At a ProcState.ready s p at),
        vacant-Inv (Mild-Inv a readied p at readied-Mild (λ e. absurd (n e)) h'),
      )
