-- ===== src/Pool.antt =====
-- src/pool.rs: the buffer pool of a shard and the scratch arena of a lookup. `RefCell` is explicit
-- state. A free buffer is its contents; its capacity never falls below its length, and a buffer that
-- was taken has the capacity of `buffer_size`.
pub mod Arena
use molia.Prelude.{
  ℕ, zero, suc, ◌+◌, ◌≡◌, Bool, true, false, not, ◌&&◌, Option, none, some, List, [], ◌∷◌, ◌++◌,
  length, replicate, if◌then◌else◌, ltb, leb,
}
use molia.Prelude.Words.{Bytes}
use molia.Types.{pmtu_floor}

abbrev pub buffer_size : ℕ
buffer_size = 2048

abbrev pub pool_cap : ℕ
pool_cap = 256

-- A buffer: its bytes and its capacity.
pub record Buffer : Type 0 where
  pub bytes : Bytes
  pub capacity : ℕ

-- The last free buffer stands first.
pub record BufferPool : Type 0 where
  pub free : List Buffer
  pub hits : ℕ
  pub misses : ℕ

abbrev pub blank : ℕ → Buffer
blank capacity = record { bytes = replicate buffer_size 0; capacity = capacity }

unfoldable pub new : BufferPool
new = record { free = replicate 64 (blank buffer_size); hits = 0; misses = 0 }

-- `clear` and `resize` keep the capacity, or grow it.
unfoldable pub take_buffer : BufferPool → BufferPool × Buffer
take_buffer p = elim p.free [
  | [] ↦ (record p { misses = p.misses + 1 }, blank buffer_size)
  | b ∷ free ↦ (
    record p { free = free; hits = p.hits + 1 },
    blank (if ltb b.capacity buffer_size then buffer_size else b.capacity),
  )
]

unfoldable pub recycle : Buffer → BufferPool → BufferPool
recycle buf p =
    if leb pmtu_floor buf.capacity && ltb (length p.free) pool_cap
    then record p { free = record buf { bytes = [] } ∷ p.free }
    else p

unfoldable pub stats : BufferPool → ℕ × ℕ
stats p = (p.hits, p.misses)

-- The bytes of the arena are scratch: its size and its cursor are its state.
pub record LookupArena : Type 0 where
  pub size : ℕ
  pub cursor : ℕ

unfoldable pub with_capacity : ℕ → LookupArena
with_capacity n = record { size = n; cursor = 0 }

-- The range of the arena that is handed out, if it fits.
unfoldable pub alloc : ℕ → LookupArena → LookupArena × Option (ℕ × ℕ)
alloc n a =
    if ltb a.size (a.cursor + n)
    then (a, none)
    else (record a { cursor = a.cursor + n }, some (a.cursor, a.cursor + n))

unfoldable pub reset : LookupArena → LookupArena
reset a = record a { cursor = 0 }
