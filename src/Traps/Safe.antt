-- ===== src/Traps/Safe.antt =====
-- In every order of traps the calls of the guest run with a current context.
use qemu_3dfx.Common.{
  ℕ, ◌≡◌, inl, inr, refl, Bool, true, false, ◌&&◌, ◌||◌, ◌==◌, Bool-cases, if◌then◌else◌, arith,
}
use qemu_3dfx.Traps.{
  magic, make_current, Input, WglName, set_drawable_size, create_context_attribs,
  choose_pixel_format, another, PtState, device, is_set, is_current, act, flush_queue, make_cntx,
  delete_cntx, wgl_func, dispatch_trap, mesapt_write, mesapt_read, reset_arrays, level_of,
}
use qemu_3dfx.Traps.Order.{
  Current, IsSafe, IsOrderly, Reached, starts, queues, reads, writes, IsValid, idle_of,
  idle-IsValid, flush_queue-IsValid, load-IsValid, unload-IsValid, trap_call-IsValid,
  create_cntx-IsValid,
}

-- What stands behind a successful wglMakeCurrent.
made-IsValid :
    (d : PtState)
    → Current d.host
    → is_set d.mgl_context ≡ true
    → is_set d.mgl_cntx_current ≡ true
    → IsSafe d.host
    → IsValid (reset_arrays d)
made-IsValid d c context current s = elim (Bool-cases d.reset_pending) [
  | inl e ↦ rw current (rw e (record { live = λ _. (c, refl, context); safe = s }))
  | inr e ↦ rw current (rw e (record { live = λ _. (c, refl, context); safe = s }))
]

-- What the end of wglMakeCurrent sets besides.
set-IsValid :
    (cache : ℕ) (timer : Bool) (d : PtState)
    → IsValid d
    → IsValid (record d { sz_vert_cache = cache; disp_timer = timer })
set-IsValid cache timer d v = record { live = v.live; safe = v.safe }

make_cntx-IsValid : (inp : Input) (d : PtState) → IsValid d → IsValid (make_cntx inp d)
unfolding make_cntx
make_cntx-IsValid inp d v =
    let first = is_set d.mgl_context && d.mgl_cntx_current == 0 && is_set inp.page0 in
    elim (Bool-cases first) [
      | inr e ↦
          rw e
            (record { live = λ c. (inr (v.live c).0, (v.live c).1, (v.live c).2); safe = v.safe })
      | inl e ↦ rw e (elim (Bool-cases inp.current_fails) [
        | inl f ↦ rw f (idle-IsValid _ refl v.safe)
        | inr f ↦
            let made =
              act (make_current inp.page0 (level_of inp.page0) true)
                (record d { mgl_cntx_current = 1 }) in
            let context : is_set d.mgl_context ≡ true = ground (arith, e) in
            rw f (
              set-IsValid _ _ (reset_arrays made)
                (made-IsValid made (inl refl) context refl v.safe))
      ])
    ]

delete_cntx-IsValid : (d : PtState) → IsValid d → IsValid (delete_cntx d)
unfolding delete_cntx
delete_cntx-IsValid d v = elim (Bool-cases (is_current d)) [
  | inl e ↦ rw e (idle-IsValid _ refl v.safe)
  | inr e ↦ rw e (idle-IsValid _ (idle_of d v e) v.safe)
]

wgl_func-IsValid :
    (inp : Input) (name : WglName) (d : PtState) → IsValid d → IsValid (wgl_func inp name d)
unfolding wgl_func
wgl_func-IsValid inp set_drawable_size d v = v
wgl_func-IsValid inp create_context_attribs d v =
    elim (Bool-cases (is_set inp.args0 && inp.args1 == 0)) [
      | inl e ↦ rw e (idle-IsValid _ refl v.safe)
      | inr e ↦ rw e (record { live = v.live; safe = v.safe })
    ]
wgl_func-IsValid inp choose_pixel_format d v = record { live = v.live; safe = v.safe }
wgl_func-IsValid inp another d v = record { live = v.live; safe = v.safe }

if-IsValid : (test : Bool) (d e : PtState) → IsValid d → IsValid e → IsValid (if test then d else e)
if-IsValid true d e v w = v
if-IsValid false d e v w = w

dispatch_trap-IsValid :
    (inp : Input) (addr : ℕ) (d : PtState) → IsValid d → IsValid (dispatch_trap inp addr d)
unfolding dispatch_trap
dispatch_trap-IsValid inp addr d v = if-IsValid (addr == 0xffc) _ _ (create_cntx-IsValid inp d v) (
    if-IsValid (addr == 0xff8) _ _ (make_cntx-IsValid inp d v) (
      if-IsValid (addr == 0xff4) _ _ (delete_cntx-IsValid d v) (
        if-IsValid (addr == 0xff0) _ _ (record { live = v.live; safe = v.safe })
          (if-IsValid (addr == 0xfec) _ _ (record { live = v.live; safe = v.safe })
            (if-IsValid (addr == 0xfe8) _ _ (record { live = v.live; safe = v.safe })
              (if-IsValid (addr == 0xfe4) _ _ (record { live = v.live; safe = v.safe })
                (if-IsValid (addr == 0xfe0) _ _ (record { live = v.live; safe = v.safe })
                  (if-IsValid (addr == 0xfdc) _ _ (wgl_func-IsValid inp inp.name d v) (
                    if-IsValid (addr == 0xfd8) _ _
                      (if-IsValid (is_current d) _ _ (record { live = v.live; safe = v.safe }) v)
                      v)))))))))

write-IsValid :
    (inp : Input) (addr val : ℕ) (d : PtState)
    → IsOrderly addr val d
    → IsValid d
    → IsValid (mesapt_write inp addr val d)
unfolding mesapt_write
write-IsValid inp addr val d orderly v = elim (Bool-cases (addr == 0xfbc)) [
  | inl e ↦
      let register : addr ≡ 0xfbc = ground (arith, e) in
      rw e (
        if-IsValid (val == 0xa0320) _ _ (load-IsValid inp val d v)
          (elim (Bool-cases (val == 0xd0320)) [
            | inl u ↦
                let idle = orderly.0 register (ground (arith, u)) in
                rw u (unload-IsValid d (rw idle refl) v)
            | inr u ↦ rw u v
          ]))
  | inr e ↦ rw e (elim (Bool-cases (addr == 0xfc0)) [
    | inl c ↦ rw c (trap_call-IsValid val d (orderly.1 (ground (arith, c))) v)
    | inr c ↦ rw c (
        if-IsValid (val == magic) _ _
          (dispatch_trap-IsValid inp addr (flush_queue d) (flush_queue-IsValid d v)) v)
  ])
]

answer-IsValid :
    (test : Bool) (p q : ℕ × PtState)
    → IsValid p.1
    → IsValid q.1
    → IsValid (if test then p else q).1
answer-IsValid true p q v w = v
answer-IsValid false p q v w = w

read-IsValid :
    (inp : Input) (addr : ℕ) (d : PtState) → IsValid d → IsValid (mesapt_read inp addr d).1
unfolding mesapt_read
read-IsValid inp addr d v = answer-IsValid (addr == 0xfb8) _ _ v (
    answer-IsValid (addr == 0xfbc) _ _ v (
      answer-IsValid (addr == 0xfc0) _ _ v (
        answer-IsValid (addr == 0xfec) _ _ v (
          answer-IsValid (addr == 0xfe8) _ _ v (
            answer-IsValid (addr == 0xfe4 || addr == 0xfe0) _ _
              (record { live = v.live; safe = v.safe }) v)))))

Reached-IsValid : (d : PtState) → Reached d → IsValid d
Reached-IsValid d starts = idle-IsValid device refl tt
Reached-IsValid d (queues fifo0 data0 e r) =
    let v = Reached-IsValid e r in record { live = v.live; safe = v.safe }
Reached-IsValid d (reads inp addr e r) = read-IsValid inp addr e (Reached-IsValid e r)
Reached-IsValid d (writes inp addr val e o r) = write-IsValid inp addr val e o (Reached-IsValid e r)

-- Whatever the guest writes to the registers and to the shared memory, as long as it unloads the
-- wrapper only when no context counts as current, and inserts a debug message without a current
-- context only when the queue is empty: the queue and the trapped calls other than that message ran
-- only after a context was made current, with none deleted since; and while a context counts as
-- current this is so, and the client arrays of the last created context have been reset.
pub Reached-IsSafe :
    (d : PtState)
    → Reached d
    → IsSafe d.host × (is_current d ≡ true → Current d.host × (d.reset_pending ≡ false))
Reached-IsSafe d r =
    let v = Reached-IsValid d r in
    (
      v.safe,
      λ e. elim (Bool-cases (is_set d.mgl_cntx_current)) [
        | inl c ↦ ((v.live c).0, (v.live c).1)
        | inr c ↦ ground (arith, c, e)
      ],
    )
