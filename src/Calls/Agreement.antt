-- ===== src/Calls/Agreement.antt =====
-- That the wrappers of wrappers/mesa/src/wrapgl32.c and the host agree on all modelled functions.
use qemu_3dfx.Common.{ℕ, ◌≡◌, Bool, true}
use qemu_3dfx.Calls.{Agrees}
use qemu_3dfx.Calls.Color3.{color3-Agrees}
use qemu_3dfx.Calls.Color4.{color4-Agrees}
use qemu_3dfx.Calls.EvalCoord.{eval_coord-Agrees}
use qemu_3dfx.Calls.MultiTexCoord1.{multi_tex_coord1-Agrees}
use qemu_3dfx.Calls.MultiTexCoord2.{multi_tex_coord2-Agrees}
use qemu_3dfx.Calls.MultiTexCoord3.{multi_tex_coord3-Agrees}
use qemu_3dfx.Calls.MultiTexCoord4.{multi_tex_coord4-Agrees}
use qemu_3dfx.Calls.Normal3.{normal3-Agrees}
use qemu_3dfx.Calls.RasterPos.{raster_pos-Agrees}
use qemu_3dfx.Calls.Rect.{rect-Agrees}
use qemu_3dfx.Calls.SecondaryColor3.{secondary_color3-Agrees}
use qemu_3dfx.Calls.TexCoord1.{tex_coord1_handled, tex_coord1-Agrees}
use qemu_3dfx.Calls.TexCoord2.{tex_coord2-Agrees}
use qemu_3dfx.Calls.TexCoord3.{tex_coord3-Agrees}
use qemu_3dfx.Calls.TexCoord4.{tex_coord4-Agrees}
use qemu_3dfx.Calls.Vertex2.{vertex2-Agrees}
use qemu_3dfx.Calls.Vertex3.{vertex3-Agrees}
use qemu_3dfx.Calls.Vertex4.{vertex4-Agrees}
use qemu_3dfx.Calls.VertexAttrib1.{vertex_attrib1-Agrees}
use qemu_3dfx.Calls.VertexAttrib2.{vertex_attrib2-Agrees}
use qemu_3dfx.Calls.VertexAttrib3.{vertex_attrib3-Agrees}
use qemu_3dfx.Calls.VertexAttrib4.{vertex_attrib4-Agrees}
use qemu_3dfx.Calls.VertexAttribs.{vertex_attribs_handled, vertex_attribs-Agrees}
use qemu_3dfx.Calls.Delete.{delete-Agrees}
use qemu_3dfx.Calls.Uniform1.{uniform1-Agrees}
use qemu_3dfx.Calls.Uniform2.{uniform2-Agrees}
use qemu_3dfx.Calls.Uniform3.{uniform3-Agrees}
use qemu_3dfx.Calls.Uniform4.{uniform4-Agrees}
use qemu_3dfx.Calls.UniformMatrix.{uniform_matrix-Agrees}
use qemu_3dfx.Calls.Light.{light-Agrees}
use qemu_3dfx.Calls.Material.{material-Agrees}
use qemu_3dfx.Calls.TexGen.{tex_gen-Agrees}
use qemu_3dfx.Calls.ClearBuffer.{clear_buffer_handled, clear_buffer-Agrees}
use qemu_3dfx.Calls.SetFence.{set_fence_handled, set_fence-Agrees}
use qemu_3dfx.Calls.TextureBuffer.{texture_buffer_handled, texture_buffer-Agrees}
use qemu_3dfx.Calls.SamplerParameter.{sampler_parameter-Agrees}
use qemu_3dfx.Calls.TexEnv.{tex_env-Agrees}
use qemu_3dfx.Calls.PointParameter.{point_parameter-Agrees}
use qemu_3dfx.Calls.LoadMatrix.{load_matrix-Agrees}
use qemu_3dfx.Calls.MultMatrix.{mult_matrix-Agrees}
use qemu_3dfx.Calls.PixelMap.{pixel_map-Agrees}
use qemu_3dfx.Calls.ColorTable.{color_table_handled, color_table-Agrees}
use qemu_3dfx.Calls.BindSampler.{bind_sampler-Agrees}
use qemu_3dfx.Calls.Scissor.{scissor-Agrees}
use qemu_3dfx.Calls.Viewport.{viewport-Agrees}
use qemu_3dfx.Calls.DepthRange.{depth_range-Agrees}
use qemu_3dfx.Calls.Map1.{map1-Agrees}
use qemu_3dfx.Calls.Map2.{map2-Agrees}
use qemu_3dfx.Calls.Function.{
  Function, bytes, entry, datacb, color3, color4, eval_coord, multi_tex_coord1, multi_tex_coord2,
  multi_tex_coord3, multi_tex_coord4, normal3, raster_pos, rect, secondary_color3, tex_coord1,
  tex_coord2, tex_coord3, tex_coord4, vertex2, vertex3, vertex4, vertex_attrib1, vertex_attrib2,
  vertex_attrib3, vertex_attrib4, vertex_attribs, delete, uniform1, uniform2, uniform3, uniform4,
  uniform_matrix, light, material, tex_gen, clear_buffer, set_fence, texture_buffer,
  sampler_parameter, tex_env, point_parameter, load_matrix, mult_matrix, pixel_map, color_table,
  bind_sampler, scissor, viewport, depth_range, map1, map2,
}

-- The calls on which the two sides agree: not glTexCoord1*v, glVertexAttribs*NV,
-- glColorTableParameter*v, glClearBuffer*v of
-- another buffer than the colors, glSetFenceNV and glTextureBufferEXT.
abbrev pub is_handled : Function → (ℕ → ℕ) → Bool
is_handled (tex_coord1 f) a = tex_coord1_handled f a
is_handled (vertex_attribs f) a = vertex_attribs_handled f a
is_handled (clear_buffer f) a = clear_buffer_handled f a
is_handled (set_fence f) a = set_fence_handled f a
is_handled (texture_buffer f) a = texture_buffer_handled f a
is_handled (color_table f) a = color_table_handled f a
is_handled _ _ = true

-- On every call of the modelled functions but glTexCoord1*v, glVertexAttribs*NV,
-- glColorTableParameter*v, glClearBuffer*v of another buffer than the colors, glSetFenceNV and
-- glTextureBufferEXT, the wrapper writes as many argument words as the host reads, and sends as many
-- words of data as processArgs lets the host skip.
pub call-Agrees :
    (f : Function) (a : ℕ → ℕ) → is_handled f a ≡ true → Agrees (entry f a) (bytes f) (datacb f a)
unfolding bytes entry datacb
call-Agrees (color3 f) a h = color3-Agrees f a
call-Agrees (color4 f) a h = color4-Agrees f a
call-Agrees (eval_coord f) a h = eval_coord-Agrees f a
call-Agrees (multi_tex_coord1 f) a h = multi_tex_coord1-Agrees f a
call-Agrees (multi_tex_coord2 f) a h = multi_tex_coord2-Agrees f a
call-Agrees (multi_tex_coord3 f) a h = multi_tex_coord3-Agrees f a
call-Agrees (multi_tex_coord4 f) a h = multi_tex_coord4-Agrees f a
call-Agrees (normal3 f) a h = normal3-Agrees f a
call-Agrees (raster_pos f) a h = raster_pos-Agrees f a
call-Agrees (rect f) a h = rect-Agrees f a
call-Agrees (secondary_color3 f) a h = secondary_color3-Agrees f a
call-Agrees (tex_coord1 f) a h = tex_coord1-Agrees f a h
call-Agrees (tex_coord2 f) a h = tex_coord2-Agrees f a
call-Agrees (tex_coord3 f) a h = tex_coord3-Agrees f a
call-Agrees (tex_coord4 f) a h = tex_coord4-Agrees f a
call-Agrees (vertex2 f) a h = vertex2-Agrees f a
call-Agrees (vertex3 f) a h = vertex3-Agrees f a
call-Agrees (vertex4 f) a h = vertex4-Agrees f a
call-Agrees (vertex_attrib1 f) a h = vertex_attrib1-Agrees f a
call-Agrees (vertex_attrib2 f) a h = vertex_attrib2-Agrees f a
call-Agrees (vertex_attrib3 f) a h = vertex_attrib3-Agrees f a
call-Agrees (vertex_attrib4 f) a h = vertex_attrib4-Agrees f a
call-Agrees (vertex_attribs f) a h = vertex_attribs-Agrees f a h
call-Agrees (delete f) a h = delete-Agrees f a
call-Agrees (uniform1 f) a h = uniform1-Agrees f a
call-Agrees (uniform2 f) a h = uniform2-Agrees f a
call-Agrees (uniform3 f) a h = uniform3-Agrees f a
call-Agrees (uniform4 f) a h = uniform4-Agrees f a
call-Agrees (uniform_matrix f) a h = uniform_matrix-Agrees f a
call-Agrees (light f) a h = light-Agrees f a
call-Agrees (material f) a h = material-Agrees f a
call-Agrees (tex_gen f) a h = tex_gen-Agrees f a
call-Agrees (clear_buffer f) a h = clear_buffer-Agrees f a h
call-Agrees (set_fence f) a h = set_fence-Agrees f a h
call-Agrees (texture_buffer f) a h = texture_buffer-Agrees f a h
call-Agrees (sampler_parameter f) a h = sampler_parameter-Agrees f a
call-Agrees (tex_env f) a h = tex_env-Agrees f a
call-Agrees (point_parameter f) a h = point_parameter-Agrees f a
call-Agrees (load_matrix f) a h = load_matrix-Agrees f a
call-Agrees (mult_matrix f) a h = mult_matrix-Agrees f a
call-Agrees (pixel_map f) a h = pixel_map-Agrees f a
call-Agrees (color_table f) a h = color_table-Agrees f a h
call-Agrees (bind_sampler f) a h = bind_sampler-Agrees f a
call-Agrees (scissor f) a h = scissor-Agrees f a
call-Agrees (viewport f) a h = viewport-Agrees f a
call-Agrees (depth_range f) a h = depth_range-Agrees f a
call-Agrees (map1 f) a h = map1-Agrees f a
call-Agrees (map2 f) a h = map2-Agrees f a
