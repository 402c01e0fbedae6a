-- ===== src/ClientState/Examples.antt =====
-- Tests of the client state, and the theorems of ClientState at inputs.
use qemu_3dfx.Common.{◌≡◌, refl, false, true, List, [], ◌∷◌, arith, set}
use qemu_3dfx.ClientState.{
  init_client_states, GlCall, bind_buffer, delete_buffers, bind_vertex_array, delete_vertex_arrays,
  client_active_texture, enable, enable_client_state, enable_vertex_attrib_array, pixel_storei,
  enable_array, vtxarry_state, vattr2arry_state, attrib_state, bind_vao, bind, forget_buffers,
  forget_vao, set_vao, active_texture, client_state, pixel_store, host_call, host_calls, guest_call,
  guest_calls,
}
use qemu_3dfx.ClientState.Invariant.{IsTracked, init-IsTracked, calls-IsTracked}
use qemu_3dfx.ClientState.Sides.{calls_agree, enable_attrib_differs}

-- Buffers are bound, deleted and shadowed by a vertex array object, and arrays are enabled.
abbrev session : List GlCall
session =
    bind_buffer 0x8892 5
    ∷ bind_buffer 0x8893 6
    ∷ bind_vertex_array 3
    ∷ delete_buffers (5 ∷ 6 ∷ [])
    ∷ client_active_texture 0x84c2
    ∷ enable_client_state 0x8078
    ∷ enable_vertex_attrib_array 3
    ∷ enable 0x0de1
    ∷ pixel_storei 0x0cf2 64
    ∷ []

shadowed : (host_calls init_client_states session).array_buf ≡ 3
unfolding host_calls host_call bind bind_vao set_vao forget_buffers active_texture client_state
    attrib_state vattr2arry_state vtxarry_state enable_array pixel_store
shadowed = refl

third_unit :
    (host_calls init_client_states session).enables.tex_coord
    ≡ false ∷ false ∷ true ∷ false ∷ false ∷ false ∷ false ∷ false ∷ []
unfolding host_calls host_call bind bind_vao set_vao forget_buffers active_texture client_state
    attrib_state vattr2arry_state vtxarry_state enable_array pixel_store
third_unit = refl

unbound :
    (host_calls init_client_states
      (bind_vertex_array 3 ∷ delete_vertex_arrays (3 ∷ []) ∷ [])).elem_arry_buf
    ≡ 0
unfolding host_calls host_call set_vao forget_vao
unbound = refl

calls-IsTracked_example : IsTracked (host_calls init_client_states session)
calls-IsTracked_example = calls-IsTracked init_client_states session init-IsTracked

calls_agree_example : guest_calls init_client_states session ≡ host_calls init_client_states session
calls_agree_example = calls_agree init_client_states session refl

enable_attrib_differs_example :
    (guest_call init_client_states (enable 0x865a) ≡ init_client_states)
    × ((host_call init_client_states (enable 0x865a)).tex_unit ≡ 2)
    × ((host_call init_client_states (enable 0x865a)).enables.tex_coord
        ≡ set init_client_states.enables.tex_coord 2 true)
enable_attrib_differs_example = enable_attrib_differs init_client_states 2 (omega arith)
