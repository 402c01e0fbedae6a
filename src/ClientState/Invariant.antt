-- ===== src/ClientState/Invariant.antt =====
-- What processFRet of mesapt_mm.c keeps true of the client state that it remembers.
use qemu_3dfx.Common.{
  ℕ, ◌/◌, ◌%◌, ◌<◌, ◌≡◌, ◌≢◌, refl, Bool, false, true, List, [], ◌∷◌, arith, length, length-set,
  ◌==◌, Bool-cases, inl, inr,
}
use qemu_3dfx.ClientState.{
  init_client_states, Enables, Client, GlCall, bind_buffer, delete_buffers, bind_vertex_array,
  delete_vertex_arrays, client_active_texture, disable, disable_client_state,
  disable_vertex_attrib_array, enable, enable_client_state, enable_vertex_attrib_array,
  pixel_storei, enable_array, vtxarry_state, vattr2arry_state, attrib_state, bind_vao, bind,
  forget_buffers, set_vao, active_texture, client_state, pixel_store, host_call, host_calls,
}

-- The texture unit indexes the eight texture coordinate arrays, and while a vertex array object is
-- bound it stands for both buffers.
pub record IsTracked (s : Client) : Type 0 where
  pub unit : s.tex_unit < 8
  pub units : length s.enables.tex_coord ≡ 8
  pub arrays : s.vao ≢ 0 → s.array_buf ≡ s.vao
  pub elements : s.vao ≢ 0 → s.elem_arry_buf ≡ s.vao

pub init-IsTracked : IsTracked init_client_states
init-IsTracked = record {
  unit = omega arith;
  units = refl;
  arrays = λ n. absurd (n refl);
  elements = λ n. absurd (n refl);
}

length-enable_array :
    (e : Enables) (unit arry : ℕ) (st : Bool)
    → length (enable_array e unit arry st).tex_coord ≡ length e.tex_coord
unfolding enable_array
length-enable_array e unit arry st = ground (arith, length-set e.tex_coord unit st)

vtxarry_state-IsTracked :
    (s : Client) (arry : ℕ) (st : Bool) → IsTracked s → IsTracked (vtxarry_state s arry st)
unfolding vtxarry_state
vtxarry_state-IsTracked s arry st t = record {
  unit = t.unit;
  units = omega (arith, length-enable_array s.enables s.tex_unit arry st, t.units);
  arrays = t.arrays;
  elements = t.elements;
}

vattr2arry_state-IsTracked :
    (s : Client) (attr : ℕ) → IsTracked s → IsTracked (vattr2arry_state s attr).1
unfolding vattr2arry_state
vattr2arry_state-IsTracked s attr t = elim (Bool-cases (attr / 8 % 2 == 1)) [
  | inl e ↦
      rw e
        (record { unit = omega arith; units = t.units; arrays = t.arrays; elements = t.elements })
  | inr e ↦ rw e t
]

attrib_state-IsTracked :
    (s : Client) (attr : ℕ) (st : Bool) → IsTracked s → IsTracked (attrib_state s attr st)
unfolding attrib_state
attrib_state-IsTracked s attr st t =
    vtxarry_state-IsTracked (vattr2arry_state s attr).1 (vattr2arry_state s attr).0 st
      (vattr2arry_state-IsTracked s attr t)

client_state-IsTracked :
    (s : Client) (arg : ℕ) (st : Bool) → IsTracked s → IsTracked (client_state s arg st)
unfolding client_state
client_state-IsTracked s arg st t = elim (Bool-cases (arg % 0x10000 / 16 == 0x865)) [
  | inl e ↦ rw e (attrib_state-IsTracked s (arg % 16) st t)
  | inr e ↦ rw e (vtxarry_state-IsTracked s arg st t)
]

-- What `bind_vao` needs.
bind_vao-IsTracked :
    (s : Client) → s.tex_unit < 8 → length s.enables.tex_coord ≡ 8 → IsTracked (bind_vao s)
unfolding bind_vao
bind_vao-IsTracked s u l = elim (Bool-cases (s.vao == 0)) [
  | inl e ↦ rw e (record {
    unit = u;
    units = l;
    arrays = λ n. absurd (n (ground arith));
    elements = λ n. absurd (n (ground arith));
  })
  | inr e ↦ rw e (record { unit = u; units = l; arrays = λ _. refl; elements = λ _. refl })
]

forget_buffers_frame :
    (bs : List ℕ) (s : Client)
    → ((forget_buffers s bs).tex_unit ≡ s.tex_unit) × ((forget_buffers s bs).enables ≡ s.enables)
unfolding forget_buffers
forget_buffers_frame [] s = (refl, refl)
forget_buffers_frame (b ∷ bs) s = forget_buffers_frame bs _

set_vao-IsTracked : (s : Client) (v : ℕ) → IsTracked s → IsTracked (set_vao s v)
unfolding set_vao
set_vao-IsTracked s v t = record {
  unit = t.unit;
  units = t.units;
  arrays = λ _. refl;
  elements = λ _. refl;
}

active_texture-IsTracked : (s : Client) (t : ℕ) → IsTracked s → IsTracked (active_texture s t)
unfolding active_texture
active_texture-IsTracked s t k = elim (Bool-cases (t % 0x10000 / 32 == 0x426)) [
  | inl e ↦
      rw e
        (record { unit = omega arith; units = k.units; arrays = k.arrays; elements = k.elements })
  | inr e ↦ rw e k
]

call-IsTracked : (s : Client) (c : GlCall) → IsTracked s → IsTracked (host_call s c)
unfolding host_call bind pixel_store
call-IsTracked s (bind_buffer target buf) t = bind_vao-IsTracked _ t.unit t.units
call-IsTracked s (delete_buffers bs) t =
    let f = forget_buffers_frame bs s in
    bind_vao-IsTracked (forget_buffers s bs) (rw f.0 t.unit) (rw f.1 t.units)
call-IsTracked s (bind_vertex_array v) t = set_vao-IsTracked s v t
call-IsTracked s (delete_vertex_arrays vs) t = set_vao-IsTracked s _ t
call-IsTracked s (client_active_texture u) t = active_texture-IsTracked s u t
call-IsTracked s (disable cap) t = client_state-IsTracked s cap false t
call-IsTracked s (disable_client_state cap) t = client_state-IsTracked s cap false t
call-IsTracked s (disable_vertex_attrib_array attr) t = attrib_state-IsTracked s attr false t
call-IsTracked s (enable cap) t = client_state-IsTracked s cap true t
call-IsTracked s (enable_client_state cap) t = client_state-IsTracked s cap true t
call-IsTracked s (enable_vertex_attrib_array attr) t = attrib_state-IsTracked s attr true t
call-IsTracked s (pixel_storei name v) t = record {
  unit = t.unit;
  units = t.units;
  arrays = t.arrays;
  elements = t.elements;
}

-- If the texture unit indexes the eight texture coordinate arrays, and a vertex array object that is
-- bound stands for the array buffer and for the element array buffer, then this holds after any
-- sequence of calls on the host.
pub calls-IsTracked : (s : Client) (cs : List GlCall) → IsTracked s → IsTracked (host_calls s cs)
unfolding host_calls
calls-IsTracked s [] t = t
calls-IsTracked s (c ∷ cs) t = calls-IsTracked (host_call s c) cs (call-IsTracked s c t)
