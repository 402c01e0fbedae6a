-- ===== src/ClientState/Sides.antt =====
-- Whether the guest (wrappers/mesa/src/wrapgl32.c) and the host (processFRet of
-- qemu-1/hw/mesa/mesapt_mm.c) remember the same client state after the same calls.
use qemu_3dfx.Common.{
  ℕ, ◌+◌, ◌<◌, ◌/◌, ◌%◌, ◌≡◌, refl, ap, ◌∙◌, Bool, false, true, List, [], ◌∷◌, arith, ◌==◌,
  if◌then◌else◌, set, Bool-cases, inl, inr,
}
use qemu_3dfx.ClientState.{
  Client, GlCall, bind_buffer, delete_buffers, bind_vertex_array, delete_vertex_arrays,
  client_active_texture, disable, disable_client_state, disable_vertex_attrib_array, enable,
  enable_client_state, enable_vertex_attrib_array, pixel_storei, is_attrib_array, client_state,
  vtxarry_state, vattr2arry_state, attrib_state, enable_array, host_call, host_calls, guest_call,
  guest_calls, guest_vtxarry_state, guest_enable_array, guest_attrib_state, guest_vattr2arry_state,
  guest_client_state, guest_bind_buffer, guest_bind_vao, guest_forget_buffers, guest_forget_vao,
  guest_set_vao, guest_active_texture, guest_pixel_store, bind, bind_vao, forget_buffers,
  forget_vao, set_vao, active_texture, pixel_store,
}

-- A call that does not turn a vertex attribute array on or off by glEnable or glDisable.
abbrev pub is_plain : GlCall → Bool
is_plain (bind_buffer _ _) = true
is_plain (delete_buffers _) = true
is_plain (bind_vertex_array _) = true
is_plain (delete_vertex_arrays _) = true
is_plain (client_active_texture _) = true
is_plain (disable cap) = if is_attrib_array cap then false else true
is_plain (disable_client_state _) = true
is_plain (disable_vertex_attrib_array _) = true
is_plain (enable cap) = if is_attrib_array cap then false else true
is_plain (enable_client_state _) = true
is_plain (enable_vertex_attrib_array _) = true
is_plain (pixel_storei _ _) = true

abbrev pub are_plain : List GlCall → Bool
are_plain [] = true
are_plain (c ∷ cs) = let rest = are_plain cs in if is_plain c then rest else false

-- The parts of the two texts that have the same names do the same.
vtxarry_same :
    (s : Client) (arry : ℕ) (st : Bool) → guest_vtxarry_state s arry st ≡ vtxarry_state s arry st
unfolding guest_vtxarry_state guest_enable_array vtxarry_state enable_array
vtxarry_same s arry st = refl

attrib_same :
    (s : Client) (attr : ℕ) (st : Bool) → guest_attrib_state s attr st ≡ attrib_state s attr st
unfolding guest_attrib_state guest_vattr2arry_state guest_vtxarry_state guest_enable_array
    attrib_state vattr2arry_state vtxarry_state enable_array
attrib_same s attr st = refl

client_same :
    (s : Client) (arg : ℕ) (st : Bool) → guest_client_state s arg st ≡ client_state s arg st
unfolding guest_client_state client_state
client_same s arg st =
    ap (λ t. if is_attrib_array arg then t else guest_vtxarry_state s arg st)
      (attrib_same s (arg % 16) st)
    ∙ ap (λ t. if is_attrib_array arg then attrib_state s (arg % 16) st else t)
        (vtxarry_same s arg st)

bind_same : (s : Client) (target buf : ℕ) → guest_bind_buffer s target buf ≡ bind s target buf
unfolding guest_bind_buffer guest_bind_vao bind bind_vao
bind_same s target buf = refl

forget_buffers_same : (bs : List ℕ) (s : Client) → guest_forget_buffers s bs ≡ forget_buffers s bs
unfolding guest_forget_buffers forget_buffers
forget_buffers_same [] s = refl
forget_buffers_same (b ∷ bs) s = forget_buffers_same bs _

delete_buffers_same :
    (s : Client) (bs : List ℕ)
    → guest_bind_vao (guest_forget_buffers s bs) ≡ bind_vao (forget_buffers s bs)
unfolding guest_bind_vao bind_vao
delete_buffers_same s bs = ap (λ t. bind_vao t) (forget_buffers_same bs s)

forget_vao_same : (vs : List ℕ) (vao : ℕ) → guest_forget_vao vao vs ≡ forget_vao vao vs
unfolding guest_forget_vao forget_vao
forget_vao_same [] vao = refl
forget_vao_same (v ∷ vs) vao = forget_vao_same vs _

delete_vertex_arrays_same :
    (s : Client) (vs : List ℕ)
    → guest_set_vao s (guest_forget_vao s.vao vs) ≡ set_vao s (forget_vao s.vao vs)
unfolding guest_set_vao set_vao
delete_vertex_arrays_same s vs = ap (λ v. set_vao s v) (forget_vao_same vs s.vao)

active_texture_same : (s : Client) (t : ℕ) → guest_active_texture s t ≡ active_texture s t
unfolding guest_active_texture active_texture
active_texture_same s t = refl

pixel_store_same : (s : Client) (name v : ℕ) → guest_pixel_store s name v ≡ pixel_store s name v
unfolding guest_pixel_store pixel_store
pixel_store_same s name v = refl

client_state-plain :
    (s : Client) (cap : ℕ) (st : Bool)
    → (if is_attrib_array cap then false else true) ≡ true
    → guest_vtxarry_state s cap st ≡ client_state s cap st
unfolding client_state
client_state-plain s cap st p = elim (Bool-cases (cap % 0x10000 / 16 == 0x865)) [
  | inl e ↦ ground arith
  | inr e ↦ rw e (vtxarry_same s cap st)
]

call_agree : (s : Client) (c : GlCall) → is_plain c ≡ true → guest_call s c ≡ host_call s c
unfolding guest_call host_call guest_set_vao set_vao
call_agree s (bind_buffer target buf) _ = bind_same s target buf
call_agree s (delete_buffers bs) _ = delete_buffers_same s bs
call_agree s (bind_vertex_array _) _ = refl
call_agree s (delete_vertex_arrays vs) _ = delete_vertex_arrays_same s vs
call_agree s (client_active_texture t) _ = active_texture_same s t
call_agree s (disable cap) p = client_state-plain s cap false p
call_agree s (disable_client_state cap) _ = client_same s cap false
call_agree s (disable_vertex_attrib_array attr) _ = attrib_same s attr false
call_agree s (enable cap) p = client_state-plain s cap true p
call_agree s (enable_client_state cap) _ = client_same s cap true
call_agree s (enable_vertex_attrib_array attr) _ = attrib_same s attr true
call_agree s (pixel_storei name v) _ = pixel_store_same s name v

-- After the same calls the guest's wrappers and the host's processFRet, two texts that are modelled
-- apart, remember the same client state, as long as no call is glEnable or
-- glDisable of a vertex attribute array.
pub calls_agree :
    (s : Client) (cs : List GlCall) → are_plain cs ≡ true → guest_calls s cs ≡ host_calls s cs
unfolding guest_calls host_calls
calls_agree s [] _ = refl
calls_agree s (c ∷ cs) p = elim (Bool-cases (is_plain c)) [
  | inl e ↦ rw (call_agree s c e) (calls_agree (host_call s c) cs (ground arith))
  | inr e ↦ ground arith
]

enable_array-attrib :
    (s : Client) (k : ℕ)
    → k < 8
    → guest_enable_array s.enables s.tex_unit (0x8658 + k) true ≡ s.enables
unfolding guest_enable_array
enable_array-attrib s k l = ground arith

client_state-attrib :
    (s : Client) (k : ℕ)
    → k < 8
    → client_state s (0x8658 + k) true ≡ vtxarry_state (record s { tex_unit = k }) 0x8078 true
unfolding client_state attrib_state vattr2arry_state
client_state-attrib s k l =
    let slot : (0x8658 + k) % 0x10000 / 16 ≡ 0x865 = omega arith in
    let odd : (0x8658 + k) % 16 / 8 % 2 ≡ 1 = omega arith in
    let unit : (0x8658 + k) % 16 % 8 ≡ k = omega arith in rw (slot, odd, unit) refl

-- glEnable of one of the vertex attribute arrays 8 to 15: the host selects the texture unit and
-- enables its array of texture coordinates, and the guest does nothing.
pub enable_attrib_differs :
    (s : Client) (k : ℕ)
    → k < 8
    → (guest_call s (enable (0x8658 + k)) ≡ s)
      × ((host_call s (enable (0x8658 + k))).tex_unit ≡ k)
      × ((host_call s (enable (0x8658 + k))).enables.tex_coord ≡ set s.enables.tex_coord k true)
unfolding guest_call host_call guest_vtxarry_state vtxarry_state enable_array
enable_attrib_differs s k l = (
  ap (λ e. record s { enables = e }) (enable_array-attrib s k l),
  ap (λ c. c.tex_unit) (client_state-attrib s k l),
  ap (λ c. c.enables.tex_coord) (client_state-attrib s k l),
)
