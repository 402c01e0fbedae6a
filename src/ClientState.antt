-- ===== src/ClientState.antt =====
-- What both sides remember of the client's GL state: vtxarry_state, vattr2arry_state and processFRet
-- of qemu-1/hw/mesa/mesapt_mm.c on the host, and the functions of the same names and the wrappers of
-- the same calls in wrappers/mesa/src/wrapgl32.c in the guest. A GL constant is its number; of a
-- vertex array only whether it is enabled.
pub mod Invariant
pub mod Sides
mod Examples
use qemu_3dfx.Common.{
  ℕ, ◌+◌, ◌-◌, ◌*◌, ◌/◌, ◌%◌, Bool, true, false, List, [], ◌∷◌, ◌==◌, if◌then◌else◌, set, get_or,
}

-- The `enable` fields, by the names of the arrays.
pub record Enables : Type 0 where
  pub color : Bool
  pub edge_flag : Bool
  pub index : Bool
  pub normal : Bool
  pub tex_coord : List Bool
  pub vertex : Bool
  pub secondary_color : Bool
  pub fog_coord : Bool
  pub weight : Bool
  pub gen_attrib0 : Bool
  pub gen_attrib1 : Bool

-- The fields that processFRet and the wrappers keep.
pub record Client : Type 0 where
  pub enables : Enables
  pub tex_unit : ℕ
  pub pix_pack_buf : ℕ
  pub pix_unpack_buf : ℕ
  pub query_buf : ℕ
  pub array_buf : ℕ
  pub elem_arry_buf : ℕ
  pub vao : ℕ
  pub sz_pack_width : ℕ
  pub sz_pack_height : ℕ
  pub sz_unpack_width : ℕ
  pub sz_unpack_height : ℕ

-- What `InitClientStates` leaves, which memset clears.
abbrev pub none_enabled : Enables
none_enabled = record {
  color = false;
  edge_flag = false;
  index = false;
  normal = false;
  tex_coord = false ∷ false ∷ false ∷ false ∷ false ∷ false ∷ false ∷ false ∷ [];
  vertex = false;
  secondary_color = false;
  fog_coord = false;
  weight = false;
  gen_attrib0 = false;
  gen_attrib1 = false;
}

abbrev pub init_client_states : Client
init_client_states = record {
  enables = none_enabled;
  tex_unit = 0;
  pix_pack_buf = 0;
  pix_unpack_buf = 0;
  query_buf = 0;
  array_buf = 0;
  elem_arry_buf = 0;
  vao = 0;
  sz_pack_width = 0;
  sz_pack_height = 0;
  sz_unpack_width = 0;
  sz_unpack_height = 0;
}

-- The switch of `vtxarry_state`.
pub enable_array : Enables → ℕ → ℕ → Bool → Enables
enable_array e unit arry st =
    if arry == 0x8076
    then record e { color = st }
    else if arry == 0x8079
    then record e { edge_flag = st }
    else if arry == 0x8077
    then record e { index = st }
    else if arry == 0x8075
    then record e { normal = st }
    else if arry == 0x8078
    then record e { tex_coord = set e.tex_coord unit st }
    else if arry == 0x8074
    then record e { vertex = st }
    else if arry == 0x845e
    then record e { secondary_color = st }
    else if arry == 0x8457
    then record e { fog_coord = st }
    else if arry == 0x86ad
    then record e { weight = st }
    else if arry == 6
    then record e { gen_attrib0 = st }
    else if arry == 7
    then record e { gen_attrib1 = st }
    else e

pub vtxarry_state : Client → ℕ → Bool → Client
unfolding enable_array
vtxarry_state s arry st = record s { enables = enable_array s.enables s.tex_unit arry st }

-- `st_arry`
abbrev pub st_arry : List ℕ
st_arry = 0x8074 ∷ 0x86ad ∷ 0x8075 ∷ 0x8076 ∷ 0x845e ∷ 0x8457 ∷ 6 ∷ 7 ∷ []

-- `vattr2arry_state`: the array of a vertex attribute; one from 8 on selects a texture unit.
pub vattr2arry_state : Client → ℕ → ℕ × Client
vattr2arry_state s attr =
    if attr / 8 % 2 == 1
    then (0x8078, record s { tex_unit = attr % 8 })
    else (get_or st_arry (attr % 8) 0, s)

-- `vtxarry_state(s, vattr2arry_state(s, attr), st)`
pub attrib_state : Client → ℕ → Bool → Client
unfolding vtxarry_state vattr2arry_state
attrib_state s attr st = let (arry, s') = vattr2arry_state s attr in vtxarry_state s' arry st

-- `(arg & 0xFFF0U) == GL_VERTEX_ATTRIB_ARRAY0_NV`
abbrev pub is_attrib_array : ℕ → Bool
is_attrib_array arg = arg % 0x10000 / 16 == 0x865

-- The calls that change what is remembered.
pub data GlCall : Type 0 where
  bind_buffer : ℕ → ℕ → GlCall
  delete_buffers : List ℕ → GlCall
  bind_vertex_array : ℕ → GlCall
  delete_vertex_arrays : List ℕ → GlCall
  client_active_texture : ℕ → GlCall
  disable : ℕ → GlCall
  disable_client_state : ℕ → GlCall
  disable_vertex_attrib_array : ℕ → GlCall
  enable : ℕ → GlCall
  enable_client_state : ℕ → GlCall
  enable_vertex_attrib_array : ℕ → GlCall
  pixel_storei : ℕ → ℕ → GlCall

-- A vertex array object that is bound stands for the buffers.
pub bind_vao : Client → Client
bind_vao s = if s.vao == 0 then s else record s { array_buf = s.vao; elem_arry_buf = s.vao }

pub bind : Client → ℕ → ℕ → Client
unfolding bind_vao
bind s target buf = bind_vao (record s {
  pix_pack_buf = if target == 0x88eb then buf else s.pix_pack_buf;
  pix_unpack_buf = if target == 0x88ec then buf else s.pix_unpack_buf;
  query_buf = if target == 0x9192 then buf else s.query_buf;
  array_buf = if target == 0x8892 then buf else s.array_buf;
  elem_arry_buf = if target == 0x8893 then buf else s.elem_arry_buf;
})

pub forget_buffers : Client → List ℕ → Client
forget_buffers s [] = s
forget_buffers s (b ∷ bs) =
    forget_buffers
      (record s {
        pix_pack_buf = if b == s.pix_pack_buf then 0 else s.pix_pack_buf;
        pix_unpack_buf = if b == s.pix_unpack_buf then 0 else s.pix_unpack_buf;
        query_buf = if b == s.query_buf then 0 else s.query_buf;
        array_buf = if b == s.array_buf then 0 else s.array_buf;
        elem_arry_buf = if b == s.elem_arry_buf then 0 else s.elem_arry_buf;
      })
      bs

pub forget_vao : ℕ → List ℕ → ℕ
forget_vao vao [] = vao
forget_vao vao (v ∷ vs) = forget_vao (if v == vao then 0 else vao) vs

pub set_vao : Client → ℕ → Client
set_vao s v = record s { vao = v; array_buf = v; elem_arry_buf = v }

-- `(arg & 0xFFE0U) == GL_TEXTURE0`
pub active_texture : Client → ℕ → Client
active_texture s arg = if arg % 0x10000 / 32 == 0x426 then record s { tex_unit = arg % 8 } else s

pub client_state : Client → ℕ → Bool → Client
unfolding attrib_state vtxarry_state
client_state s arg st =
    if is_attrib_array arg then attrib_state s (arg % 16) st else vtxarry_state s arg st

pub pixel_store : Client → ℕ → ℕ → Client
pixel_store s name v = record s {
  sz_pack_width = if name == 0xd02 then v else s.sz_pack_width;
  sz_pack_height = if name == 0x806c then v else s.sz_pack_height;
  sz_unpack_width = if name == 0xcf2 then v else s.sz_unpack_width;
  sz_unpack_height = if name == 0x806e then v else s.sz_unpack_height;
}

-- The host: processFRet.
pub host_call : Client → GlCall → Client
unfolding bind forget_buffers bind_vao forget_vao set_vao active_texture client_state attrib_state
    pixel_store
host_call s (bind_buffer target buf) = bind s target buf
host_call s (delete_buffers bs) = bind_vao (forget_buffers s bs)
host_call s (bind_vertex_array v) = set_vao s v
host_call s (delete_vertex_arrays vs) = set_vao s (forget_vao s.vao vs)
host_call s (client_active_texture t) = active_texture s t
host_call s (disable cap) = client_state s cap false
host_call s (disable_client_state cap) = client_state s cap false
host_call s (disable_vertex_attrib_array attr) = attrib_state s attr false
host_call s (enable cap) = client_state s cap true
host_call s (enable_client_state cap) = client_state s cap true
host_call s (enable_vertex_attrib_array attr) = attrib_state s attr true
host_call s (pixel_storei name v) = pixel_store s name v

-- The guest: the globals of the wrapper, in the same record, and its versions of all that.
-- The switch of `vtxarry_state`.
pub guest_enable_array : Enables → ℕ → ℕ → Bool → Enables
guest_enable_array e tex_unit arg0 st =
    if arg0 == 0x8076
    then record e { color = st }
    else if arg0 == 0x8079
    then record e { edge_flag = st }
    else if arg0 == 0x8077
    then record e { index = st }
    else if arg0 == 0x8075
    then record e { normal = st }
    else if arg0 == 0x8078
    then record e { tex_coord = set e.tex_coord tex_unit st }
    else if arg0 == 0x8074
    then record e { vertex = st }
    else if arg0 == 0x845e
    then record e { secondary_color = st }
    else if arg0 == 0x8457
    then record e { fog_coord = st }
    else if arg0 == 0x86ad
    then record e { weight = st }
    else if arg0 == 6
    then record e { gen_attrib0 = st }
    else if arg0 == 7
    then record e { gen_attrib1 = st }
    else e

pub guest_vtxarry_state : Client → ℕ → Bool → Client
unfolding guest_enable_array
guest_vtxarry_state s arg0 st = record s {
  enables = guest_enable_array s.enables s.tex_unit arg0 st;
}

abbrev pub guest_st_arry : List ℕ
guest_st_arry = 0x8074 ∷ 0x86ad ∷ 0x8075 ∷ 0x8076 ∷ 0x845e ∷ 0x8457 ∷ 6 ∷ 7 ∷ []

pub guest_vattr2arry_state : Client → ℕ → ℕ × Client
guest_vattr2arry_state s attr =
    if attr / 8 % 2 == 1
    then (0x8078, record s { tex_unit = attr % 8 })
    else (get_or guest_st_arry (attr % 8) 0, s)

-- `vtxarry_state(vattr2arry_state(attr), st)`
pub guest_attrib_state : Client → ℕ → Bool → Client
unfolding guest_vtxarry_state guest_vattr2arry_state
guest_attrib_state s attr st =
    let (arry, s') = guest_vattr2arry_state s attr in guest_vtxarry_state s' arry st

-- glEnableClientState and glDisableClientState.
pub guest_client_state : Client → ℕ → Bool → Client
unfolding guest_attrib_state guest_vtxarry_state
guest_client_state s arg0 st =
    if arg0 % 0x10000 / 16 == 0x865
    then guest_attrib_state s (arg0 % 16) st
    else guest_vtxarry_state s arg0 st

-- `if (vtxArry.vao)`
pub guest_bind_vao : Client → Client
guest_bind_vao s = if s.vao == 0 then s else record s { array_buf = s.vao; elem_arry_buf = s.vao }

-- glBindBuffer
pub guest_bind_buffer : Client → ℕ → ℕ → Client
unfolding guest_bind_vao
guest_bind_buffer s arg0 arg1 = guest_bind_vao (record s {
  pix_pack_buf = if arg0 == 0x88eb then arg1 else s.pix_pack_buf;
  pix_unpack_buf = if arg0 == 0x88ec then arg1 else s.pix_unpack_buf;
  query_buf = if arg0 == 0x9192 then arg1 else s.query_buf;
  array_buf = if arg0 == 0x8892 then arg1 else s.array_buf;
  elem_arry_buf = if arg0 == 0x8893 then arg1 else s.elem_arry_buf;
})

-- The loop of glDeleteBuffers.
pub guest_forget_buffers : Client → List ℕ → Client
guest_forget_buffers s [] = s
guest_forget_buffers s (b ∷ bs) =
    guest_forget_buffers
      (record s {
        pix_pack_buf = if b == s.pix_pack_buf then 0 else s.pix_pack_buf;
        pix_unpack_buf = if b == s.pix_unpack_buf then 0 else s.pix_unpack_buf;
        query_buf = if b == s.query_buf then 0 else s.query_buf;
        array_buf = if b == s.array_buf then 0 else s.array_buf;
        elem_arry_buf = if b == s.elem_arry_buf then 0 else s.elem_arry_buf;
      })
      bs

-- The loop of glDeleteVertexArrays.
pub guest_forget_vao : ℕ → List ℕ → ℕ
guest_forget_vao vao [] = vao
guest_forget_vao vao (v ∷ vs) = guest_forget_vao (if v == vao then 0 else vao) vs

-- glBindVertexArray
pub guest_set_vao : Client → ℕ → Client
guest_set_vao s arg0 = record s { vao = arg0; array_buf = arg0; elem_arry_buf = arg0 }

-- glClientActiveTexture
pub guest_active_texture : Client → ℕ → Client
guest_active_texture s arg0 =
    if arg0 % 0x10000 / 32 == 0x426 then record s { tex_unit = arg0 % 8 } else s

-- glPixelStorei
pub guest_pixel_store : Client → ℕ → ℕ → Client
guest_pixel_store s arg0 arg1 = record s {
  sz_pack_width = if arg0 == 0xd02 then arg1 else s.sz_pack_width;
  sz_pack_height = if arg0 == 0x806c then arg1 else s.sz_pack_height;
  sz_unpack_width = if arg0 == 0xcf2 then arg1 else s.sz_unpack_width;
  sz_unpack_height = if arg0 == 0x806e then arg1 else s.sz_unpack_height;
}

-- The wrappers. glEnable and glDisable do not look for vertex attributes.
pub guest_call : Client → GlCall → Client
unfolding guest_bind_buffer guest_forget_buffers guest_bind_vao guest_forget_vao guest_set_vao
    guest_active_texture guest_client_state guest_attrib_state guest_pixel_store guest_vtxarry_state
guest_call s (bind_buffer target buf) = guest_bind_buffer s target buf
guest_call s (delete_buffers bs) = guest_bind_vao (guest_forget_buffers s bs)
guest_call s (bind_vertex_array v) = guest_set_vao s v
guest_call s (delete_vertex_arrays vs) = guest_set_vao s (guest_forget_vao s.vao vs)
guest_call s (client_active_texture t) = guest_active_texture s t
guest_call s (disable cap) = guest_vtxarry_state s cap false
guest_call s (disable_client_state cap) = guest_client_state s cap false
guest_call s (disable_vertex_attrib_array attr) = guest_attrib_state s attr false
guest_call s (enable cap) = guest_vtxarry_state s cap true
guest_call s (enable_client_state cap) = guest_client_state s cap true
guest_call s (enable_vertex_attrib_array attr) = guest_attrib_state s attr true
guest_call s (pixel_storei name v) = guest_pixel_store s name v

pub host_calls : Client → List GlCall → Client
unfolding host_call
host_calls s [] = s
host_calls s (c ∷ cs) = host_calls (host_call s c) cs

pub guest_calls : Client → List GlCall → Client
unfolding guest_call
guest_calls s [] = s
guest_calls s (c ∷ cs) = guest_calls (guest_call s c) cs
