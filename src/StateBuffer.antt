-- ===== src/StateBuffer.antt =====
-- The buffers of saved Glide states and vertex layouts of qemu-0/hw/3dfx/gllstbuf.c. A list of
-- buffers is in the order of its next pointers; a buffer is the address that g_malloc returned.
pub mod Lookup
mod Examples
use qemu_3dfx.Common.{ℕ, zero, suc, ◌+◌, Bool, ◌&&◌, List, [], ◌∷◌, ◌==◌, if◌then◌else◌}

-- `LLSTBUF`
pub record StBuf : Type 0 where
  pub id : ℕ
  pub sz : ℕ
  pub st : ℕ

-- `(p->id == handle) && (p->sz == st_size)`
abbrev pub is_for : ℕ → ℕ → StBuf → Bool
is_for st_size handle p = (p.id == handle) && (p.sz == st_size)

-- `LookupStBuf`: the buffer's address and the list. `fresh` is what g_malloc returns if it is called.
pub lookup_st_buf : List StBuf → ℕ → ℕ → ℕ → ℕ × List StBuf
lookup_st_buf [] st_size handle fresh =
    (fresh, record { id = handle; sz = st_size; st = fresh } ∷ [])
lookup_st_buf (p ∷ ps) st_size handle fresh =
    let rest = lookup_st_buf ps st_size handle fresh in
    if is_for st_size handle p then (p.st, p ∷ ps) else (rest.0, p ∷ rest.1)

-- The loop of `FreeStBuf`: the count and the addresses that g_free gets.
pub free_st_buf : List StBuf → ℕ → ℕ × List ℕ
free_st_buf [] cnt = (cnt, [])
free_st_buf (p ∷ ps) cnt = let rest = free_st_buf ps (cnt + 1) in (rest.0, p.st ∷ rest.1)

-- `llGrState` and `llVtxLayout`
pub record Buffers : Type 0 where
  pub gr_state : List StBuf
  pub vtx_layout : List StBuf

pub lookup_gr_state : Buffers → ℕ → ℕ → ℕ → ℕ × Buffers
unfolding lookup_st_buf
lookup_gr_state b handle size fresh =
    let found = lookup_st_buf b.gr_state size handle fresh in
    (found.0, record b { gr_state = found.1 })

pub lookup_vtx_layout : Buffers → ℕ → ℕ → ℕ → ℕ × Buffers
unfolding lookup_st_buf
lookup_vtx_layout b handle size fresh =
    let found = lookup_st_buf b.vtx_layout size handle fresh in
    (found.0, record b { vtx_layout = found.1 })

pub free_gr_state : Buffers → ℕ × Buffers
unfolding free_st_buf
free_gr_state b = ((free_st_buf b.gr_state 0).0, record b { gr_state = [] })

pub free_vtx_layout : Buffers → ℕ × Buffers
unfolding free_st_buf
free_vtx_layout b = ((free_st_buf b.vtx_layout 0).0, record b { vtx_layout = [] })
