-- ===== src/Kernel/Resource/Ring.antt =====
-- The ring of src/kernel/resourceManager.c as a queue of at most 31 process ids.
use rm_vm.Common.{
  ℕ, zero, suc, ◌+◌, ◌-◌, ◌%◌, ◌<◌, ◌≡◌, refl, ap, ap₂, ◌∙◌, ◌≢◌, inl, inr, Option, none, some,
  List, [], ◌∷◌, ◌++◌, arith, ltb, ◌==◌, if◌then◌else◌, Bool-cases, length, get_or, set, length-set,
  get_or-set_self, get_or-set_ne,
}
use rm_vm.Kernel.Resource.{Resource, enqueue, dequeue, max_wait_pids}

pub record IsValid (r : Resource) : Type 0 where
  pub storage : length r.wait_pids ≡ max_wait_pids
  pub head_in : r.head < max_wait_pids
  pub tail_in : r.tail < max_wait_pids

-- `n` ids of the array, from index `h` on and round the end.
abbrev pub slice : List ℕ → ℕ → ℕ → List ℕ
slice ids h zero = []
slice ids h (suc n) = get_or ids h 0 ∷ slice ids ((h + 1) % 32) n

-- How many wait, and who, the longest first.
abbrev pub count : Resource → ℕ
count r = (r.tail + 32 - r.head) % 32

unfoldable pub waiting : Resource → List ℕ
waiting r = slice r.wait_pids r.head (count r)

length-slice : (ids : List ℕ) (h n : ℕ) → length (slice ids h n) ≡ n
length-slice ids h zero = refl
length-slice ids h (suc n) = ap suc (length-slice ids ((h + 1) % 32) n)

-- A write just behind a slice that does not fill the ring makes it one longer.
slice-set :
    (ids : List ℕ) (x h n i : ℕ)
    → length ids ≡ 32
    → h < 32
    → n < 32
    → i ≡ (h + n) % 32
    → slice (set ids i x) h (suc n) ≡ slice ids h n ++ x ∷ []
slice-set ids x h zero i l hh hn e = ground (arith, get_or-set_self ids i x 0 (omega arith))
slice-set ids x h (suc n) i l hh hn e =
    ap₂ ◌∷◌ (get_or-set_ne ids i h x 0 (omega arith))
      (slice-set ids x ((h + 1) % 32) n i l (omega arith) (omega arith) (omega arith))

slice-suc :
    (ids : List ℕ) (h n : ℕ)
    → n ≢ 0
    → slice ids h n ≡ get_or ids h 0 ∷ slice ids ((h + 1) % 32) (n - 1)
slice-suc ids h zero e = absurd (e refl)
slice-suc ids h (suc n) e = ap (λ k. slice ids h (suc k)) (omega arith)

pub length-waiting : (r : Resource) → length (waiting r) ≡ count r
unfolding waiting
length-waiting r = length-slice r.wait_pids r.head (count r)

pub enqueue-IsValid : {r : Resource} (pid : ℕ) → IsValid r → IsValid (enqueue r pid).1
unfolding enqueue
enqueue-IsValid {r} pid v = ground (arith, length-set r.wait_pids r.tail pid)

pub dequeue-IsValid : {r : Resource} → IsValid r → IsValid (dequeue r).1
unfolding dequeue
dequeue-IsValid v = ground arith

-- `enqueue` puts the id behind those that wait, unless 31 wait already: then it fails and changes
-- nothing.
pub enqueue_lem :
    {r : Resource} (pid : ℕ)
    → IsValid r
    → let (done, r') = enqueue r pid in
      (done ≡ ltb (length (waiting r)) 31)
      × (waiting r' ≡ (if done then waiting r ++ pid ∷ [] else waiting r))
      × (r'.available ≡ r.available)
unfolding enqueue waiting
enqueue_lem {r} pid v = elim (Bool-cases ((r.tail + 1) % 32 == r.head)) [
  | inl full ↦ rw (full, enqueue) (ground (arith, v, full, length-waiting r), refl, refl)
  | inr room ↦
      let more : ((r.tail + 1) % 32 + 32 - r.head) % 32 ≡ suc (count r) = ground arith in
      let behind =
        slice-set r.wait_pids pid r.head (count r) r.tail v.storage v.head_in (omega arith)
          (omega arith) in
      rw (room, enqueue)
        (
          ground (arith, v, room, length-waiting r),
          ap (slice (set r.wait_pids r.tail pid) r.head) more ∙ behind,
          refl,
        )
]

-- What is left to a queue once an attempt to take its first id has given `o`.
abbrev pub Takes : List ℕ → Option ℕ → List ℕ → Type 0
Takes xs none ys = (xs ≡ []) × (ys ≡ [])
Takes xs (some pid) ys = xs ≡ pid ∷ ys

-- `dequeue` takes the id that has waited longest, and fails exactly if none waits.
pub dequeue_lem :
    {r : Resource}
    → IsValid r
    → let (pid, r') = dequeue r in Takes (waiting r) pid (waiting r') × (r'.available ≡ r.available)
unfolding dequeue waiting
dequeue_lem {r} v = elim (Bool-cases (r.head == r.tail)) [
  | inl empty ↦
      let none_waits : count r ≡ 0 = ground arith in
      let nobody = ap (slice r.wait_pids r.head) none_waits in
      rw (empty, dequeue) ((nobody, nobody), refl)
  | inr left ↦
      let first = slice-suc r.wait_pids r.head (count r) (ground arith) in
      let fewer : count r - 1 ≡ (r.tail + 32 - (r.head + 1) % 32) % 32 = ground arith in
      rw (left, dequeue)
        (
          first
              ∙ ap (λ n. get_or r.wait_pids r.head 0 ∷ slice r.wait_pids ((r.head + 1) % 32) n)
                  fewer,
          refl,
        )
]

-- On the queue that the ring stands for, `enqueue` puts the id behind those that wait, unless 31 wait
-- already: then it fails and changes nothing. `dequeue` takes the id that has waited longest, and fails
-- exactly if none waits. Both keep the ring well formed and the count of the units.
pub ring_lem :
    {r : Resource} (pid : ℕ)
    → IsValid r
    → let (done, r1) = enqueue r pid in
      let (first, r2) = dequeue r in
      (done ≡ ltb (length (waiting r)) 31)
      × (waiting r1 ≡ (if done then waiting r ++ pid ∷ [] else waiting r))
      × Takes (waiting r) first (waiting r2)
      × (r1.available ≡ r.available)
      × (r2.available ≡ r.available)
      × IsValid r1
      × IsValid r2
ring_lem pid v =
    let (done, behind, units) = enqueue_lem pid v in
    let (taken, units') = dequeue_lem v in
    (done, behind, taken, units, units', enqueue-IsValid pid v, dequeue-IsValid v)
