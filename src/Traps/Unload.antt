-- ===== src/Traps/Unload.antt =====
-- The wrapper's unloading while a context counts as current, and the next process.
use mathlib.Core.Path.{subst}
use qemu_3dfx.Common.{ℕ, ◌≡◌, inl, inr, refl, sym, true, false, ◌&&◌, not, ◌==◌, Bool-cases, arith}
use qemu_3dfx.Fifo.{first_fifo}
use qemu_3dfx.Traps.{
  magic, Input, PtState, is_set, is_current, process_queue, load, unload, flush_queue, create_cntx,
  make_cntx, dispatch_trap, mesapt_write,
}

-- Its predecessor's context counts as current, and there is none.
record IsStale (cache : ℕ) (d : PtState) : Type 0 where
  context : d.mgl_context ≡ 0
  current : is_set d.mgl_cntx_current ≡ true
  att : d.mgl_cntx_att ≡ 0
  cache_left : d.sz_vert_cache ≡ cache

-- The next process's context counts as current before it was made so.
pub record IsEarly (cache : ℕ) (d : PtState) : Type 0 where
  pub context : is_set d.mgl_context ≡ true
  pub current : is_set d.mgl_cntx_current ≡ true
  pub pending : d.reset_pending ≡ true
  pub cache_left : d.sz_vert_cache ≡ cache

unload-IsStale :
    (d : PtState)
    → is_set d.mgl_context ≡ true
    → is_set d.mgl_cntx_current ≡ true
    → d.mgl_cntx_att ≡ 0
    → IsStale d.sz_vert_cache (unload d)
unfolding unload
unload-IsStale d x c a = rw x (elim (Bool-cases (is_set d.mesa_ver)) [
  | inl m ↦ rw m (record { context = refl; current = c; att = a; cache_left = refl })
  | inr m ↦ rw m (record { context = refl; current = c; att = a; cache_left = refl })
])

load-IsStale :
    (inp : Input) (cache : ℕ) (d : PtState) → IsStale cache d → IsStale cache (load inp 0xa0320 d)
unfolding load
load-IsStale inp cache d s = elim (Bool-cases (inp.same_build && not inp.init_fails)) [
  | inl e ↦
      rw e
        (record { context = s.context; current = s.current; att = refl; cache_left = s.cache_left })
  | inr e ↦
      rw e (record {
        context = s.context;
        current = s.current;
        att = s.att;
        cache_left = s.cache_left;
      })
]

flush_queue-IsStale : (cache : ℕ) (d : PtState) → IsStale cache d → flush_queue d ≡ d
flush_queue-IsStale cache d s = elim (Bool-cases (is_current d)) [
  | inl e ↦ ground (arith, e, s.context)
  | inr e ↦ rw e refl
]

create_cntx-IsEarly :
    (inp : Input) (cache : ℕ) (d : PtState)
    → inp.create_fails ≡ false
    → IsStale cache d
    → IsEarly cache (create_cntx inp d)
unfolding create_cntx
create_cntx-IsEarly inp cache d f s = rw s.context (
    rw s.att (
      rw f (record {
        context = refl;
        current = s.current;
        pending = refl;
        cache_left = s.cache_left;
      })))

queue-IsEarly : (cache : ℕ) (d : PtState) → IsEarly cache d → IsEarly cache (process_queue d)
queue-IsEarly cache d e = elim (Bool-cases (d.fifo0 == first_fifo)) [
  | inl q ↦ rw q e
  | inr q ↦ rw q (record {
    context = e.context;
    current = e.current;
    pending = e.pending;
    cache_left = e.cache_left;
  })
]

flush_queue-IsEarly : (cache : ℕ) (d : PtState) → IsEarly cache d → IsEarly cache (flush_queue d)
flush_queue-IsEarly cache d e = elim (Bool-cases (is_current d)) [
  | inl c ↦
      let q = queue-IsEarly cache d e in
      rw c (record {
        context = q.context;
        current = q.current;
        pending = q.pending;
        cache_left = q.cache_left;
      })
  | inr c ↦ rw c e
]

make_cntx-IsEarly :
    (inp : Input) (cache : ℕ) (d : PtState) → IsEarly cache d → IsEarly cache (make_cntx inp d)
unfolding make_cntx
make_cntx-IsEarly inp cache d e =
    let first : (is_set d.mgl_context && d.mgl_cntx_current == 0 && is_set inp.page0) ≡ false =
      ground (arith, e.current) in
    rw first (record {
      context = e.context;
      current = e.current;
      pending = e.pending;
      cache_left = e.cache_left;
    })

-- When the wrapper is unloaded while a context counts as current, it still does in the next process:
-- behind its first wglCreateContext and wglMakeCurrent, if the host creates the context, its
-- calls are run, but the client arrays have not been reset, and the size of the vertex cache is the
-- one of the process before.
pub unload_keeps_current :
    (inp : Input) (d : PtState)
    → is_current d ≡ true
    → d.mgl_cntx_att ≡ 0
    → inp.create_fails ≡ false
    → IsEarly d.sz_vert_cache (
        mesapt_write inp 0xff8 magic (
          mesapt_write inp 0xffc magic
            (mesapt_write inp 0xfbc 0xa0320 (mesapt_write inp 0xfbc 0xd0320 d))))
unfolding mesapt_write dispatch_trap
unload_keeps_current inp d e a f =
    let cache = d.sz_vert_cache in
    let stale =
      load-IsStale inp cache _ (unload-IsStale d (ground (arith, e)) (ground (arith, e)) a) in
    make_cntx-IsEarly inp cache _ (
      flush_queue-IsEarly cache _ (
        subst (λ u. IsEarly cache (create_cntx inp u)) (sym (flush_queue-IsStale cache _ stale))
          (create_cntx-IsEarly inp cache _ f stale)))
