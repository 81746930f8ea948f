-- ===== src/Kernel/Jobs/Clearing.antt =====
-- The second loop of `startStopEntry` of src/main.c.
use rm_vm.Kernel.Jobs.Survival.{
  kept, kept, kept, kept, kept, kept, kept, kept, is_there_still, kept, Survives-set, kept,
  kept-stripped, kept, LiveSlot-set, Survives, kept, stripped, kept,
}
use rm_vm.Common.{
  ℕ, zero, suc, ◌≡◌, refl, sym, ap, ◌∙◌, subst, inl, inr, Bool, true, false, Option, none, some,
  List, [], ◌∷◌, arith, ℕ_discrete, if◌then◌else◌, Bool-cases, length, get_or, set, get_or-set_ne,
  All, some-ne-none,
}
use rm_vm.Kernel.Process.{Process, ProcType, has_type}
use rm_vm.Kernel.System.Steps.{some-injective, At-unique, At, At-set, goes_on}
use rm_vm.Kernel.Scheduler.Search.{LiveSlot}
use rm_vm.Kernel.Jobs.{clear_slots}

-- Every process in the slots but a start/stop process has lost its Virtual Machine.
abbrev pub Destroyed : List (Option Process) → List (Option ℕ) → List (Option Process) → Type 0
Destroyed heap slots heap' =
    (j a : ℕ) (p : Process)
    → get_or slots j none ≡ some a
    → At heap a p
    → has_type ProcType.start_stop p ≡ false
    → At heap' a (stripped p)

-- The same once the process of one slot has lost its own.
Destroyed-set :
    (heap heap' : List (Option Process)) (slots : List (Option ℕ)) (a : ℕ) (p : Process)
    → At heap a p
    → Destroyed (set heap a (some (stripped p))) slots heap'
    → Destroyed heap slots heap'
unfolding has_type
Destroyed-set heap heap' slots a p l h j b q x m t = elim (ℕ_discrete a b) [
  | yes e ↦
      let same = At-unique heap a b p q l e m in
      h j b (stripped q) x
        (subst (λ y. At (set heap a (some (stripped p))) y (stripped q)) e
          (subst (λ y. At (set heap a (some (stripped p))) a (stripped y)) same
            (At-set heap a p (stripped p) l)))
        t
  | no ne ↦ h j b q x (get_or-set_ne heap a b (some (stripped p)) none ne ∙ m) t
]

-- What the second loop of `startStopEntry` makes of the heap and the slots.
pub record Cleared (heap : List (Option Process)) (slots : List (Option ℕ))
    (heap' : List (Option Process)) (slots' : List (Option ℕ)) : Type 0 where
  pub size : length slots' ≡ length slots
  pub left : (j : ℕ) → get_or slots' j none ≡ kept heap (get_or slots j none)
  pub survives : Survives heap heap'
  pub destroyed : Destroyed heap slots heap'

-- One slot more in front.
left-cons :
    (heap : List (Option Process)) (x y : Option ℕ) (slots slots' : List (Option ℕ))
    → y ≡ kept heap x
    → ((j : ℕ) → get_or slots' j none ≡ kept heap (get_or slots j none))
    → (j : ℕ) → get_or (y ∷ slots') j none ≡ kept heap (get_or (x ∷ slots) j none)
left-cons heap x y slots slots' e h zero = e
left-cons heap x y slots slots' e h (suc j) = h j

Destroyed-cons :
    (heap heap' : List (Option Process)) (x : Option ℕ) (slots : List (Option ℕ))
    → ((a : ℕ) (p : Process)
        → x ≡ some a
        → At heap a p
        → has_type ProcType.start_stop p ≡ false
        → At heap' a (stripped p))
    → Destroyed heap slots heap'
    → Destroyed heap (x ∷ slots) heap'
Destroyed-cons heap heap' x slots e h zero a p = e a p
Destroyed-cons heap heap' x slots e h (suc j) a p = h j a p

-- The slots that hold nothing.
no_slots : (heap : List (Option Process)) (j : ℕ) → get_or [] j none ≡ kept heap (get_or [] j none)
unfolding kept
no_slots heap j = refl

empty_slot : (heap : List (Option Process)) → none ≡ kept heap none
unfolding kept
empty_slot heap = refl

kept-At :
    (heap : List (Option Process)) (a : ℕ) (p : Process)
    → At heap a p
    → kept heap (some a) ≡ (if has_type ProcType.start_stop p then some a else none)
unfolding kept
kept-At heap a p l = rw (l, kept) refl

not_both : (b : Bool) → b ≡ false → ¬ (b ≡ true)
not_both b e f = ground (arith, e, f)

pub clear_slots-Cleared :
    (heap : List (Option Process)) (slots : List (Option ℕ))
    → All (LiveSlot heap) slots
    → (heap' : List (Option Process)) × (slots' : List (Option ℕ)) × (clear_slots heap slots
        ≡ some (heap', slots'))
      × Cleared heap slots heap' slots'
unfolding clear_slots
clear_slots-Cleared heap [] h = (
  heap,
  [],
  refl,
  record {
    size = refl;
    left = no_slots heap;
    survives = λ a p l. inl l;
    destroyed = λ j a p x l t. absurd (some-ne-none a (sym x));
  },
)
clear_slots-Cleared heap (none ∷ slots) h =
    let (heap', slots', e, c) = clear_slots-Cleared heap slots h.1 in
    (
      heap',
      none ∷ slots',
      goes_on _ e,
      record {
        size = ap suc c.size;
        left = left-cons heap none none slots slots' (empty_slot heap) c.left;
        survives = c.survives;
        destroyed =
            Destroyed-cons heap heap' none slots (λ a p x. absurd (some-ne-none a (sym x)))
              c.destroyed;
      },
    )
clear_slots-Cleared heap (some a ∷ slots) ((p, at), h) =
    let heap1 = set heap a (some (stripped p)) in
    let kept_rest = clear_slots-Cleared heap slots h in
    let cleared_rest =
      clear_slots-Cleared heap1 slots (LiveSlot-set heap a p (stripped p) slots at h) in
    elim (Bool-cases (has_type ProcType.start_stop p)) [
      | inl t ↦
          let (heap', slots', e, c) = kept_rest in
          (
            heap',
            some a ∷ slots',
            rw (at, t, clear_slots)
                (goes_on _ e ∙ ap (λ b. some (heap', (if b then some a else none) ∷ slots')) t),
            record {
              size = ap suc c.size;
              left =
                  left-cons heap (some a) (some a) slots slots'
                    (sym (kept-At heap a p at ∙ rw t refl)) c.left;
              survives = c.survives;
              destroyed =
                  Destroyed-cons heap heap' (some a) slots
                    (λ b q x m f. absurd (
                      not_both _
                        (ap (has_type ProcType.start_stop)
                            (At-unique heap a b p q at (some-injective a b x) m)
                          ∙ f)
                        t))
                    c.destroyed;
            },
          )
      | inr f ↦
          let (heap', slots', e, c) = cleared_rest in
          (
            heap',
            none ∷ slots',
            rw (at, f, clear_slots)
                (goes_on _ e ∙ ap (λ b. some (heap', (if b then some a else none) ∷ slots')) f),
            record {
              size = ap suc c.size;
              left =
                  left-cons heap (some a) none slots slots' (sym (kept-At heap a p at ∙ rw f refl))
                    (λ j. c.left j ∙ kept-stripped heap a p (get_or slots j none) at);
              survives = Survives-set heap heap' a p at c.survives;
              destroyed =
                  Destroyed-cons heap heap' (some a) slots
                    (λ b q x m t.
                      subst (λ y. At heap' y (stripped q)) (some-injective a b x)
                        (subst (λ y. At heap' a (stripped y))
                          (At-unique heap a b p q at (some-injective a b x) m)
                          (is_there_still heap heap' a p at c.survives)))
                    (Destroyed-set heap heap' slots a p at c.destroyed);
            },
          )
    ]
