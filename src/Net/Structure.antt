-- ===== src/Net/Structure.antt =====
-- src/net/structure.rs: places, transitions and markings. `AliasId` and `AtomicOrdering` are the
-- plain data of src/memory/pointsto.rs and src/concurrency/atomic.rs.
pub mod Order
pub mod Eq
use rust_pta.Prelude.{ℕ, Option, List, String}

-- `u64`
abbrev pub Weight : Type 0
Weight = ℕ

pub data PlaceType : Type 0 where
  resources function_start function_end basic_block : PlaceType

pub record Place : Type 0 where
  pub name : String
  pub tokens : Weight
  pub capacity : Weight
  pub place_type : PlaceType
  pub span : String

pub data AtomicOrdering : Type 0 where
  relaxed release acquire acq_rel seq_cst : AtomicOrdering

pub record AliasId : Type 0 where
  pub instance_id : ℕ
  pub local : ℕ
  pub array_index : Option ℕ

pub data TransitionType : Type 0 where
  start : ℕ → TransitionType
  goto : TransitionType
  switch : TransitionType
  return : ℕ → TransitionType
  unlock : ℕ → TransitionType
  drop_read : ℕ → TransitionType
  drop_write : ℕ → TransitionType
  drop : TransitionType
  assert : TransitionType
  unsafe_read : ℕ → String → ℕ → String → TransitionType
  unsafe_write : ℕ → String → ℕ → String → TransitionType
  lock : ℕ → TransitionType
  rw_lock_read : ℕ → TransitionType
  rw_lock_write : ℕ → TransitionType
  notify : ℕ → TransitionType
  wait : TransitionType
  atomic_load : AliasId → AtomicOrdering → String → ℕ → TransitionType
  atomic_store : AliasId → AtomicOrdering → String → ℕ → TransitionType
  atomic_cmp_xchg : AliasId → AtomicOrdering → AtomicOrdering → String → ℕ → TransitionType
  spawn : String → TransitionType
  join : String → TransitionType
  async_spawn : ℕ → TransitionType
  async_join : ℕ → TransitionType
  async_poll : ℕ → TransitionType
  await_ready : ℕ → ℕ → TransitionType
  await_pending : ℕ → ℕ → Option ℕ → TransitionType
  async_wake : ℕ → ℕ → TransitionType
  async_done : ℕ → TransitionType
  async_abort : ℕ → TransitionType
  function : TransitionType
  normal : TransitionType
  inhibitor : TransitionType
  reset : TransitionType

pub record Transition : Type 0 where
  pub name : String
  pub transition_type : TransitionType

-- `Transition::new`
unfoldable pub new_transition : String → Transition
new_transition name = record { name = name; transition_type = normal }

-- The tokens of each place.
abbrev pub Marking : Type 0
Marking = List Weight
