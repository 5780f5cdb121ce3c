-- ===== src/Pool/Arena.antt =====
-- The pool never grows past its cap, and the arena never hands out a byte twice.
use molia.Prelude.{ℕ, ◌+◌, ◌≤◌, ◌<◌, ◌≡◌, some, length, replicate, arith}
use molia.Types.{pmtu_floor}
use molia.Pool.{
  Buffer, BufferPool, buffer_size, pool_cap, take_buffer, recycle, LookupArena, alloc, reset,
}

-- A buffer that is taken has `buffer_size` zero bytes, whatever was recycled; the pool keeps at most
-- 256 buffers, each take counts as one hit or one miss, and a buffer that is recycled into a pool with
-- room is handed out by the next take without an allocation.
pub recycle-take_buffer :
    (p : BufferPool) (buf : Buffer)
    → length p.free ≤ pool_cap
    → ((take_buffer p).1.bytes ≡ replicate buffer_size 0)
      × (length (take_buffer p).0.free ≤ pool_cap)
      × (length (recycle buf p).free ≤ pool_cap)
      × ((take_buffer p).0.hits + (take_buffer p).0.misses ≡ p.hits + p.misses + 1)
      × (length p.free < pool_cap
          → pmtu_floor ≤ buf.capacity
          → ((take_buffer (recycle buf p)).0.free ≡ p.free)
            × ((take_buffer (recycle buf p)).0.hits ≡ p.hits + 1))
unfolding take_buffer recycle
recycle-take_buffer p buf h = ground arith

-- Two allocations from an arena without a reset between them never overlap and stay inside it, and a
-- reset makes the whole arena available again.
pub alloc-disjoint :
    (a : LookupArena) (m n : ℕ)
    → a.cursor ≤ a.size
    → ((s e s' e' : ℕ)
        → (alloc m a).1 ≡ some (s, e)
        → (alloc n (alloc m a).0).1 ≡ some (s', e')
        → (e ≤ s') × (e' ≤ a.size) × (e ≡ s + m) × (e' ≡ s' + n))
      × ((alloc m a).0.cursor ≤ (alloc m a).0.size)
      × (n ≤ a.size → (alloc n (reset a)).1 ≡ some (0, n))
unfolding alloc reset
alloc-disjoint a m n h = ground arith
