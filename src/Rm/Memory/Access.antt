-- ===== src/Rm/Memory/Access.antt =====
-- src/rm/memory.c: which cells a checked access reaches, and what it leaves alone.
use rm_vm.Common.{
  ℕ, Bool, ◌&&◌, ◌||◌, ◌==◌, ltb, if◌then◌else◌, length, get_or, set, ◌≡◌, arith, get_or-set_self,
  get_or-set_ne,
}
use rm_vm.Rm.State.{Machine, memory_size, pi_invalid_address}
use rm_vm.Rm.Memory.{read, write}

-- The rule of the architecture: user cells always, supervisor cells in supervisor mode.
abbrev pub allowed : Machine → ℕ → Bool
allowed m a = ltb a 256 || (ltb a 512 && (m.cpu.mode == 1))

-- After a write, a read of `b` gives the value written if `b` is the address that was written and the
-- rule allowed it, the old cell if the rule allows `b` otherwise, and 0 where the rule forbids `b`.
read-write :
    (m : Machine) (a b v : ℕ)
    → length m.mem ≡ memory_size
    → (read (write m a v) b).0
      ≡ (if allowed m b then (if allowed m a && (a == b) then v else get_or m.mem b 0) else 0)
unfolding read write
read-write m a b v h = ground (arith, get_or-set_self m.mem a v 0, get_or-set_ne m.mem a b v 0)

-- An access raises `PI_INVALID_ADDRESS` exactly where the rule forbids it, and otherwise a write
-- changes the one cell. A read and a forbidden write change no cell.
access_faults :
    (m : Machine) (a v : ℕ)
    → ((read m a).1.cpu.pi ≡ (if allowed m a then m.cpu.pi else pi_invalid_address))
      × ((write m a v).cpu.pi ≡ (if allowed m a then m.cpu.pi else pi_invalid_address))
      × ((read m a).1.mem ≡ m.mem)
      × ((write m a v).mem ≡ (if allowed m a then set m.mem a v else m.mem))
unfolding read write
access_faults m a v = ground arith

-- After a write, a read of `b` gives the value written if `b` is the address that was written and the
-- rule allowed it, the old cell if the rule allows `b` otherwise, and 0 where the rule forbids `b`. An
-- access raises `PI_INVALID_ADDRESS` exactly where the rule forbids it, and otherwise a write changes
-- the one cell. A read and a forbidden write change no cell.
pub access_lem :
    (m : Machine) (a b v : ℕ)
    → length m.mem ≡ memory_size
    → ((read (write m a v) b).0
        ≡ (if allowed m b then (if allowed m a && (a == b) then v else get_or m.mem b 0) else 0))
      × ((read m a).1.cpu.pi ≡ (if allowed m a then m.cpu.pi else pi_invalid_address))
      × ((write m a v).cpu.pi ≡ (if allowed m a then m.cpu.pi else pi_invalid_address))
      × ((read m a).1.mem ≡ m.mem)
      × ((write m a v).mem ≡ (if allowed m a then set m.mem a v else m.mem))
access_lem m a b v h = let (p, q, r, w) = access_faults m a v in (read-write m a b v h, p, q, r, w)
