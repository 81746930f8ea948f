-- ===== src/Kernel/Invariant/Answers.antt =====
-- The answers of `request_resource` and `release_resource` of src/kernel/resource.c for the resources for
-- which nobody waits, in the table that `init_resources` makes.
use rm_vm.Kernel.System.{init_kernel_state}
use rm_vm.Kernel.Invariant.{Idle, Pool}
use rm_vm.Kernel.Scheduler.{has_res}
use rm_vm.Kernel.Resource.{
  init_resource_manager, create_resource, dequeue, request_unit, release_unit, request_resource,
  release_resource, ResourceManager, Resource,
}
use rm_vm.Common.{
  ℕ, ◌+◌, ◌-◌, ◌<◌, ◌≡◌, refl, sym, ap, ◌∙◌, ◌⊎◌, true, none, some, [], ◌∷◌, arith, replicate,
  length-replicate,
}

abbrev pub taken : Resource → Resource
taken r = record r { available = r.available - 1 }

abbrev pub given : Resource → Resource
given r = record r { available = r.available + 1 }

module _ {m c t : ℕ} {r : Resource} {rm : ResourceManager} (q : Pool m c t r rm) where
  pub ask_memory :
      (pid : ℕ) → 0 < m → request_resource rm 2 pid ≡ some (true, r ∷ taken q.r2 ∷ q.r3 ∷ q.r4 ∷ [])
  unfolding request_resource request_unit
  ask_memory pid u =
      ap (λ x. request_resource x 2 pid) q.shape ∙ ground (arith, q.io, q.mem.0, u, q.mem.1)

  pub ask_processor :
      (pid : ℕ) → 0 < c → request_resource rm 3 pid ≡ some (true, r ∷ q.r2 ∷ taken q.r3 ∷ q.r4 ∷ [])
  unfolding request_resource request_unit
  ask_processor pid u =
      ap (λ x. request_resource x 3 pid) q.shape
      ∙ ground (arith, q.io, q.mem.0, q.processor.0, u, q.processor.1)

  pub ask_clock :
      (pid : ℕ) → 0 < t → request_resource rm 4 pid ≡ some (true, r ∷ q.r2 ∷ q.r3 ∷ taken q.r4 ∷ [])
  unfolding request_resource request_unit
  ask_clock pid u =
      ap (λ x. request_resource x 4 pid) q.shape
      ∙ ground (arith, q.io, q.mem.0, q.processor.0, q.clock.0, u, q.clock.1)

  pub give_memory : release_resource rm 2 ≡ some (none, r ∷ given q.r2 ∷ q.r3 ∷ q.r4 ∷ [])
  unfolding release_resource release_unit dequeue
  give_memory = ap (λ x. release_resource x 2) q.shape ∙ ground (arith, q.io, q.mem.0, q.mem.2)

  pub give_processor : release_resource rm 3 ≡ some (none, r ∷ q.r2 ∷ given q.r3 ∷ q.r4 ∷ [])
  unfolding release_resource release_unit dequeue
  give_processor =
      ap (λ x. release_resource x 3) q.shape
      ∙ ground (arith, q.io, q.mem.0, q.processor.0, q.processor.2)

  pub give_clock : release_resource rm 4 ≡ some (none, r ∷ q.r2 ∷ q.r3 ∷ given q.r4 ∷ [])
  unfolding release_resource release_unit dequeue
  give_clock =
      ap (λ x. release_resource x 4) q.shape
      ∙ ground (arith, q.io, q.mem.0, q.processor.0, q.clock.0, q.clock.2)

  pub known : (id : ℕ) → (id ≡ 1) ⊎ (id ≡ 2) ⊎ (id ≡ 3) ⊎ (id ≡ 4) → has_res rm id ≡ true
  unfolding has_res
  known id h =
      ap (λ x. has_res x id) q.shape ∙ ground (arith, q.io, q.mem.0, q.processor.0, q.clock.0, h)

-- A unit of the memory that was taken comes back.
back : (r : Resource) → 0 < r.available → given (taken r) ≡ r
back r u = ap (λ n. record r { available = n }) (omega (arith, u))

pub give_taken :
    {m c t : ℕ} {r : Resource} {rm : ResourceManager} (q : Pool m c t r rm)
    → 0 < m
    → release_resource (r ∷ taken q.r2 ∷ q.r3 ∷ q.r4 ∷ []) 2 ≡ some (none, rm)
unfolding release_resource release_unit dequeue
give_taken {r = r} q u =
    let step : release_resource (r ∷ taken q.r2 ∷ q.r3 ∷ q.r4 ∷ []) 2
        ≡ some (none, r ∷ given (taken q.r2) ∷ q.r3 ∷ q.r4 ∷ []) =
      ground (arith, q.io, q.mem.0, q.mem.2) in
    step
    ∙ ap (λ x. some (none, r ∷ x ∷ q.r3 ∷ q.r4 ∷ [])) (back q.r2 (omega (arith, u, q.mem.1)))
    ∙ ap (λ x. some (none, x)) (sym q.shape)

-- Another state of one of these resources.
module _ {m c t : ℕ} {r : Resource} {rm : ResourceManager} (q : Pool m c t r rm) (k : ℕ)
    (r' : Resource) where
  pub Pool-memory : Idle 2 k r' → Pool k c t r (r ∷ r' ∷ q.r3 ∷ q.r4 ∷ [])
  Pool-memory i = record {
    r2 = r';
    r3 = q.r3;
    r4 = q.r4;
    shape = refl;
    io = q.io;
    ring = q.ring;
    mem = i;
    processor = q.processor;
    clock = q.clock;
  }

  pub Pool-processor : Idle 3 k r' → Pool m k t r (r ∷ q.r2 ∷ r' ∷ q.r4 ∷ [])
  Pool-processor i = record {
    r2 = q.r2;
    r3 = r';
    r4 = q.r4;
    shape = refl;
    io = q.io;
    ring = q.ring;
    mem = q.mem;
    processor = i;
    clock = q.clock;
  }

  pub Pool-clock : Idle 4 k r' → Pool m c k r (r ∷ q.r2 ∷ q.r3 ∷ r' ∷ [])
  Pool-clock i = record {
    r2 = q.r2;
    r3 = q.r3;
    r4 = r';
    shape = refl;
    io = q.io;
    ring = q.ring;
    mem = q.mem;
    processor = q.processor;
    clock = i;
  }

pub taken-Idle : {id k : ℕ} (r : Resource) → Idle id k r → Idle id (k - 1) (taken r)
taken-Idle r (i, u, e) = (i, ap (λ n. n - 1) u, e)

pub given-Idle : {id k : ℕ} (r : Resource) → Idle id k r → Idle id (k + 1) (given r)
given-Idle r (i, u, e) = (i, ap (λ n. n + 1) u, e)

abbrev pub io_unit : Resource
io_unit = record { id = 1; available = 1; wait_pids = replicate 32 0; head = 0; tail = 0 }

-- The resources as they start.
pub init_kernel_state-Pool : Pool 2 1 1 io_unit init_kernel_state.1
unfolding init_kernel_state create_resource init_resource_manager
init_kernel_state-Pool = record {
  r2 = record { id = 2; available = 2; wait_pids = replicate 32 0; head = 0; tail = 0 };
  r3 = record { id = 3; available = 1; wait_pids = replicate 32 0; head = 0; tail = 0 };
  r4 = record { id = 4; available = 1; wait_pids = replicate 32 0; head = 0; tail = 0 };
  shape = refl;
  io = refl;
  ring = record { storage = length-replicate 32 0; head_in = omega arith; tail_in = omega arith };
  mem = (refl, refl, refl);
  processor = (refl, refl, refl);
  clock = (refl, refl, refl);
}
