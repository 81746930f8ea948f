-- ===== src/Kernel/Resource/Units.antt =====
-- `requestResource` and `releaseResource` of src/kernel/resourceManager.c: who gets a unit, and the
-- unit that a release loses when somebody waits.
use rm_vm.Common.{
  ℕ, ◌+◌, ◌-◌, ◌≡◌, refl, ap, ◌∙◌, subst, ◌≢◌, inl, inr, Bool, false, ◌||◌, Option, none, some,
  List, [], ◌∷◌, ◌++◌, arith, ltb, leb, if◌then◌else◌, Bool-cases, Option-cases, length, All,
}
use rm_vm.Kernel.Resource.{Resource, request_unit, release_unit, enqueue, dequeue}
use rm_vm.Kernel.Resource.Ring.{
  Takes, IsValid, waiting, enqueue-IsValid, dequeue-IsValid, enqueue_lem, dequeue_lem,
}

-- A change of the count leaves the ring alone.
with_units : (n : ℕ) (r : Resource) → waiting (record r { available = n }) ≡ waiting r
unfolding waiting
with_units n r = refl

with_units-IsValid : (n : ℕ) {r : Resource} → IsValid r → IsValid (record r { available = n })
with_units-IsValid n v = record { storage = v.storage; head_in = v.head_in; tail_in = v.tail_in }

request_unit_lem :
    {r : Resource} (pid : ℕ)
    → IsValid r
    → let (granted, r') = request_unit r pid in
      (granted ≡ ltb 0 r.available)
      × (r'.available ≡ r.available - 1)
      × (waiting r'
          ≡ (if granted || leb 31 (length (waiting r)) then waiting r else waiting r ++ pid ∷ []))
      × IsValid r'
unfolding request_unit
request_unit_lem {r} pid v = elim (Bool-cases (ltb 0 r.available)) [
  | inl free ↦ rw (free, request_unit) (refl, refl, with_units _ r, with_units-IsValid _ v)
  | inr taken ↦
      rw (taken, request_unit) (refl, ground (arith, e), ground (arith, e), enqueue-IsValid pid v)
]
  where
    e :
        let (done, r') = enqueue r pid in
        (done ≡ ltb (length (waiting r)) 31)
        × (waiting r' ≡ (if done then waiting r ++ pid ∷ [] else waiting r))
        × (r'.available ≡ r.available)
    e = enqueue_lem pid v

-- What `releaseResource` did, if it woke nobody and if it woke a process.
abbrev pub Released : Resource → Option ℕ × Resource → Type 0
Released r (none, r') = (waiting r ≡ []) × (waiting r' ≡ []) × (r'.available ≡ r.available + 1)
Released r (some pid, r') = (waiting r ≡ pid ∷ waiting r') × (r'.available ≡ r.available)

release_unit_lem :
    {r : Resource} → IsValid r → Released r (release_unit r) × IsValid (release_unit r).1
unfolding release_unit
release_unit_lem {r} v = elim (Option-cases (dequeue r).0) [
  | inl e ↦
      let t = taken none e in
      rw (e, release_unit)
        ((t.0, with_units _ _ ∙ t.1, ap (λ n. n + 1) d.1), with_units-IsValid _ (dequeue-IsValid v))
  | inr (p, e) ↦ rw (e, release_unit) ((taken (some p) e, d.1), dequeue-IsValid v)
]
  where
    d :
        let (pid, r') = dequeue r in
        Takes (waiting r) pid (waiting r') × (r'.available ≡ r.available)
    d = dequeue_lem v

    taken : (o : Option ℕ) → (dequeue r).0 ≡ o → Takes (waiting r) o (waiting (dequeue r).1)
    taken o e = subst (λ x. Takes (waiting r) x (waiting (dequeue r).1)) e d.0

-- On a well-formed ring a request is granted exactly if a unit is there, and takes it. Otherwise the
-- process joins the end of those that wait, unless 31 wait already: then nothing records it. A release
-- wakes the process that has waited longest, and then no unit comes back; if nobody waits it wakes none,
-- and one unit more is there. Both keep the ring well formed.
pub units_lem :
    {r : Resource} (pid : ℕ)
    → IsValid r
    → let (granted, r1) = request_unit r pid in
      let (woken, r2) = release_unit r in
      (granted ≡ ltb 0 r.available)
      × (r1.available ≡ r.available - 1)
      × (waiting r1
          ≡ (if granted || leb 31 (length (waiting r)) then waiting r else waiting r ++ pid ∷ []))
      × Released r (woken, r2)
      × IsValid r1
      × IsValid r2
units_lem pid v =
    let (granted, taken, queue, v1) = request_unit_lem pid v in
    let (released, v2) = release_unit_lem v in (granted, taken, queue, released, v1, v2)

-- Requests of these processes, one after the other, with nothing released between.
pub requests : List ℕ → Resource → List Bool
requests [] r = []
requests (pid ∷ pids) r = let (granted, r') = request_unit r pid in granted ∷ requests pids r'

starved :
    (pids : List ℕ) {r : Resource}
    → IsValid r
    → r.available ≡ 0
    → All (λ granted. granted ≡ false) (requests pids r)
unfolding requests
starved [] v z = tt
starved (pid ∷ pids) {r} v z =
    let q = request_unit_lem pid v in
    (ground (arith, q, z), starved pids q.3 (ground (arith, q, z)))

-- Where no unit is left and somebody waits, a release wakes the process that has waited longest, and still
-- no unit is there: as long as nothing else is released, every request is refused, one of the process that
-- was woken included.
pub release_unit_starves :
    (pids : List ℕ) {r : Resource}
    → IsValid r
    → r.available ≡ 0
    → waiting r ≢ []
    → let (woken, r') = release_unit r in
      (pid : ℕ) × (woken ≡ some pid)
      × (waiting r ≡ pid ∷ waiting r')
      × (r'.available ≡ 0)
      × All (λ granted. granted ≡ false) (requests (pid ∷ pids) r')
release_unit_starves pids {r} v z w = elim (Option-cases (release_unit r).0) [
  | inl e ↦ absurd (w (released none e).0)
  | inr (pid, e) ↦
      let x = released (some pid) e in
      (pid, e, x.0, x.1 ∙ z, starved (pid ∷ pids) (release_unit_lem v).1 (x.1 ∙ z))
]
  where
    released : (o : Option ℕ) → (release_unit r).0 ≡ o → Released r (o, (release_unit r).1)
    released o e = subst (λ x. Released r (x, (release_unit r).1)) e (release_unit_lem v).0
