-- ===== src/Kernel/Resource.antt =====
-- src/kernel/resourceManager.c: counted resources, each with a ring of waiting process ids.
pub mod Ring
pub mod Units
use rm_vm.Common.{
  ℕ, zero, suc, ◌+◌, ◌-◌, ◌*◌, ◌/◌, ◌%◌, ◌^◌, ◌≤◌, ◌<◌, bit_or, min, ◌≡◌, refl, sym, ap, ap₂, ◌∙◌,
  subst, ◌≢◌, ◌↔◌, ◌⊎◌, inl, inr, Bool, true, false, not, ◌&&◌, ◌||◌, Option, none, some, List, [],
  ◌∷◌, ◌++◌, map, append-nil, append_assoc, arith, dec_lt, ℕ_discrete, ltb, leb, ◌==◌,
  if◌then◌else◌, tests, Bool-cases, Option-cases, ltb→lt, ltb→ge, leb→le, leb→gt, ==→eq, length,
  get_or, set, take, drop, replicate, length-set, get_or-set_self, get_or-set_ne, length-append,
  length-replicate, All, All-set, All-get_or, All-replicate, u8, u16, uint16_max, IsByte, IsWord,
  AllWord, sub_u16, bit, drop-set,
}

abbrev pub max_resources : ℕ
max_resources = 8

abbrev pub max_wait_pids : ℕ
max_wait_pids = 32

-- `Resource` without its name, which is only written. `id` and `available` are never negative.
pub record Resource : Type 0 where
  pub id : ℕ
  pub available : ℕ
  pub wait_pids : List ℕ
  pub head : ℕ
  pub tail : ℕ

-- `ResourceManager`: the entries `res[0]` to `res[count - 1]`, so `count` is the length.
abbrev pub ResourceManager : Type 0
ResourceManager = List Resource

unfoldable pub init_resource_manager : ResourceManager
init_resource_manager = []

-- `createResource`: false where it returns -1. The entry's array starts out as zeros.
unfoldable pub create_resource : ResourceManager → ℕ → ℕ → Bool × ResourceManager
create_resource rm id units = if leb max_resources (length rm) then (false, rm) else (
  true,
  rm
      ++ record {
        id = id;
        available = units;
        wait_pids = replicate max_wait_pids 0;
        head = 0;
        tail = 0;
      }
        ∷ [],
)

unfoldable pub enqueue : Resource → ℕ → Bool × Resource
enqueue r pid =
    let next = (r.tail + 1) % max_wait_pids in
    if next == r.head
    then (false, r)
    else (true, record r { wait_pids = set r.wait_pids r.tail pid; tail = next })

-- The pid that goes to `pidOut`, or `none` where the function returns false.
unfoldable pub dequeue : Resource → Option ℕ × Resource
dequeue r =
    if r.head == r.tail
    then (none, r)
    else (some (get_or r.wait_pids r.head 0), record r { head = (r.head + 1) % max_wait_pids })

-- What `requestResource` does to the resource that it has found: a full ring loses the request.
unfoldable pub request_unit : Resource → ℕ → Bool × Resource
request_unit r pid =
    if ltb 0 r.available
    then (true, record r { available = r.available - 1 })
    else (false, (enqueue r pid).1)

-- What `releaseResource` does to the resource that it has found, with the pid that it wakes.
unfoldable pub release_unit : Resource → Option ℕ × Resource
release_unit r =
    let (pid, r') = dequeue r in
    elim pid [ none ↦ (none, record r' { available = r'.available + 1 }) | some p ↦ (some p, r') ]

-- `findRes` and an operation on the entry that it points to: the first with the id.
update_res {ℓ} :
    {A : Type ℓ} → (Resource → A × Resource) → ResourceManager → ℕ → Option (A × ResourceManager)
update_res f [] id = none
update_res f (r ∷ rm) id =
    let rest = update_res f rm id in
    if r.id == id
    then (let (a, r') = f r in some (a, r' ∷ rm))
    else elim rest [ none ↦ none | some (a, rm') ↦ some (a, r ∷ rm') ]

-- `requestResource` for a process with this pid; `none` where the resource does not exist.
unfoldable pub request_resource : ResourceManager → ℕ → ℕ → Option (Bool × ResourceManager)
unfolding update_res
request_resource rm id pid = update_res (λ r. request_unit r pid) rm id

unfoldable pub release_resource : ResourceManager → ℕ → Option (Option ℕ × ResourceManager)
unfolding update_res
release_resource rm id = update_res release_unit rm id
