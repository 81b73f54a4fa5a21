-- ===== src/Runtime/MemPool.antt =====
-- runtime/allocator.c: the pool of shadow-stack chunks. A pointer is its address, `null` is 0; the
-- fields of the chunk headers are functions of the chunk's address. The locked sections and the
-- atomic fetch-and-add are single steps here.
pub mod Invariant
pub mod Runs
mod Tests
use shadow_stack_llvm.Prelude.{
  ℕ, ◌+◌, ◌-◌, ◌%◌, ◌^◌, Bool, true, false, Option, none, some, update, leb, ◌==◌, if◌then◌else◌,
}

abbrev pub null : ℕ
null = 0

-- The byte offset of `data` behind the fields `next` and `top`.
abbrev pub data_offset : ℕ
data_offset = 16

pub record Pool : Type 0 where
  pub mem_pool : ℕ
  pub freelist : ℕ
  pub chunk_size : ℕ
  pub freearea_start : ℕ
  pub freearea_end : ℕ
  -- The fields of the chunk headers in memory.
  pub next : ℕ → ℕ
  pub top : ℕ → ℕ

-- MAP_FAILED is the pointer -1.
abbrev pub map_failed : ℕ
map_failed = 2 ^ 64 - 1

-- The first argument is what mmap returns, `none` for MAP_FAILED; the result is whether the
-- function returns 0 and not -1.
unfoldable pub mem_pool_init : Option ℕ → ℕ → ℕ → Pool → Bool × Pool
mem_pool_init none ch_size pl_size p = (false, record p { mem_pool = map_failed })
mem_pool_init (some adr) ch_size pl_size p = (
  true,
  record p {
    mem_pool = adr;
    freelist = null;
    chunk_size = ch_size;
    freearea_start = adr;
    freearea_end = (adr + pl_size) % 2 ^ 64;
  },
)

unfoldable pub init_chunk : ℕ → Pool → Pool
init_chunk chunk p = record p {
  top = update p.top chunk ((chunk + data_offset) % 2 ^ 64);
  next = update p.next chunk null;
}

unfoldable pub alloc_chunk : ℕ → Pool → ℕ × Pool
unfolding init_chunk
alloc_chunk lo p =
    if leb p.freearea_end ((lo + p.chunk_size) % 2 ^ 64) then (null, p) else (lo, init_chunk lo p)

-- `null` when the free list is empty.
unfoldable pub recycle_chunk : Pool → ℕ × Pool
unfolding init_chunk
recycle_chunk p =
    if p.freelist == null
    then (null, p)
    else (p.freelist, init_chunk p.freelist (record p { freelist = p.next p.freelist }))

-- atomic_fetch_add of the chunk size to the start of the free area.
unfoldable pub bump : Pool → ℕ × Pool
bump p =
    (p.freearea_start, record p { freearea_start = (p.freearea_start + p.chunk_size) % 2 ^ 64 })

unfoldable pub mem_pool_alloc : Pool → ℕ × Pool
unfolding recycle_chunk alloc_chunk bump
mem_pool_alloc p =
    let (chunk, p1) = recycle_chunk p in
    let (lo, p2) = bump p1 in if chunk == null then alloc_chunk lo p2 else (chunk, p1)

unfoldable pub mem_pool_release : ℕ → Pool → Pool
mem_pool_release chunk p = record p { next = update p.next chunk p.freelist; freelist = chunk }
