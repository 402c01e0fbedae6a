-- ===== src/Calls/Function.antt =====
-- All modelled functions of wrappers/mesa/src/wrapgl32.c together.
use qemu_3dfx.Common.{ℕ}
use qemu_3dfx.Calls.{Entry}
use qemu_3dfx.Calls.Color3.{Color3, color3_bytes, color3_entry, color3_datacb}
use qemu_3dfx.Calls.Color4.{Color4, color4_bytes, color4_entry, color4_datacb}
use qemu_3dfx.Calls.EvalCoord.{EvalCoord, eval_coord_bytes, eval_coord_entry, eval_coord_datacb}
use qemu_3dfx.Calls.MultiTexCoord1.{
  MultiTexCoord1, multi_tex_coord1_bytes, multi_tex_coord1_entry, multi_tex_coord1_datacb,
}
use qemu_3dfx.Calls.MultiTexCoord2.{
  MultiTexCoord2, multi_tex_coord2_bytes, multi_tex_coord2_entry, multi_tex_coord2_datacb,
}
use qemu_3dfx.Calls.MultiTexCoord3.{
  MultiTexCoord3, multi_tex_coord3_bytes, multi_tex_coord3_entry, multi_tex_coord3_datacb,
}
use qemu_3dfx.Calls.MultiTexCoord4.{
  MultiTexCoord4, multi_tex_coord4_bytes, multi_tex_coord4_entry, multi_tex_coord4_datacb,
}
use qemu_3dfx.Calls.Normal3.{Normal3, normal3_bytes, normal3_entry, normal3_datacb}
use qemu_3dfx.Calls.RasterPos.{RasterPos, raster_pos_bytes, raster_pos_entry, raster_pos_datacb}
use qemu_3dfx.Calls.Rect.{Rect, rect_bytes, rect_entry, rect_datacb}
use qemu_3dfx.Calls.SecondaryColor3.{
  SecondaryColor3, secondary_color3_bytes, secondary_color3_entry, secondary_color3_datacb,
}
use qemu_3dfx.Calls.TexCoord1.{TexCoord1, tex_coord1_bytes, tex_coord1_entry, tex_coord1_datacb}
use qemu_3dfx.Calls.TexCoord2.{TexCoord2, tex_coord2_bytes, tex_coord2_entry, tex_coord2_datacb}
use qemu_3dfx.Calls.TexCoord3.{TexCoord3, tex_coord3_bytes, tex_coord3_entry, tex_coord3_datacb}
use qemu_3dfx.Calls.TexCoord4.{TexCoord4, tex_coord4_bytes, tex_coord4_entry, tex_coord4_datacb}
use qemu_3dfx.Calls.Vertex2.{Vertex2, vertex2_bytes, vertex2_entry, vertex2_datacb}
use qemu_3dfx.Calls.Vertex3.{Vertex3, vertex3_bytes, vertex3_entry, vertex3_datacb}
use qemu_3dfx.Calls.Vertex4.{Vertex4, vertex4_bytes, vertex4_entry, vertex4_datacb}
use qemu_3dfx.Calls.VertexAttrib1.{
  VertexAttrib1, vertex_attrib1_bytes, vertex_attrib1_entry, vertex_attrib1_datacb,
}
use qemu_3dfx.Calls.VertexAttrib2.{
  VertexAttrib2, vertex_attrib2_bytes, vertex_attrib2_entry, vertex_attrib2_datacb,
}
use qemu_3dfx.Calls.VertexAttrib3.{
  VertexAttrib3, vertex_attrib3_bytes, vertex_attrib3_entry, vertex_attrib3_datacb,
}
use qemu_3dfx.Calls.VertexAttrib4.{
  VertexAttrib4, vertex_attrib4_bytes, vertex_attrib4_entry, vertex_attrib4_datacb,
}
use qemu_3dfx.Calls.VertexAttribs.{
  VertexAttribs, vertex_attribs_bytes, vertex_attribs_entry, vertex_attribs_datacb,
}
use qemu_3dfx.Calls.Delete.{Delete, delete_bytes, delete_entry, delete_datacb}
use qemu_3dfx.Calls.Uniform1.{Uniform1, uniform1_bytes, uniform1_entry, uniform1_datacb}
use qemu_3dfx.Calls.Uniform2.{Uniform2, uniform2_bytes, uniform2_entry, uniform2_datacb}
use qemu_3dfx.Calls.Uniform3.{Uniform3, uniform3_bytes, uniform3_entry, uniform3_datacb}
use qemu_3dfx.Calls.Uniform4.{Uniform4, uniform4_bytes, uniform4_entry, uniform4_datacb}
use qemu_3dfx.Calls.UniformMatrix.{
  UniformMatrix, uniform_matrix_bytes, uniform_matrix_entry, uniform_matrix_datacb,
}
use qemu_3dfx.Calls.Light.{Light, light_bytes, light_entry, light_datacb}
use qemu_3dfx.Calls.Material.{Material, material_bytes, material_entry, material_datacb}
use qemu_3dfx.Calls.TexGen.{TexGen, tex_gen_bytes, tex_gen_entry, tex_gen_datacb}
use qemu_3dfx.Calls.ClearBuffer.{
  ClearBuffer, clear_buffer_bytes, clear_buffer_entry, clear_buffer_datacb,
}
use qemu_3dfx.Calls.SetFence.{SetFence, set_fence_bytes, set_fence_entry, set_fence_datacb}
use qemu_3dfx.Calls.TextureBuffer.{
  TextureBuffer, texture_buffer_bytes, texture_buffer_entry, texture_buffer_datacb,
}
use qemu_3dfx.Calls.SamplerParameter.{
  SamplerParameter, sampler_parameter_bytes, sampler_parameter_entry, sampler_parameter_datacb,
}
use qemu_3dfx.Calls.TexEnv.{TexEnv, tex_env_bytes, tex_env_entry, tex_env_datacb}
use qemu_3dfx.Calls.PointParameter.{
  PointParameter, point_parameter_bytes, point_parameter_entry, point_parameter_datacb,
}
use qemu_3dfx.Calls.LoadMatrix.{
  LoadMatrix, load_matrix_bytes, load_matrix_entry, load_matrix_datacb,
}
use qemu_3dfx.Calls.MultMatrix.{
  MultMatrix, mult_matrix_bytes, mult_matrix_entry, mult_matrix_datacb,
}
use qemu_3dfx.Calls.PixelMap.{PixelMap, pixel_map_bytes, pixel_map_entry, pixel_map_datacb}
use qemu_3dfx.Calls.ColorTable.{
  ColorTable, color_table_bytes, color_table_entry, color_table_datacb,
}
use qemu_3dfx.Calls.BindSampler.{
  BindSampler, bind_sampler_bytes, bind_sampler_entry, bind_sampler_datacb,
}
use qemu_3dfx.Calls.Scissor.{Scissor, scissor_bytes, scissor_entry, scissor_datacb}
use qemu_3dfx.Calls.Viewport.{Viewport, viewport_bytes, viewport_entry, viewport_datacb}
use qemu_3dfx.Calls.DepthRange.{
  DepthRange, depth_range_bytes, depth_range_entry, depth_range_datacb,
}
use qemu_3dfx.Calls.Map1.{Map1, map1_bytes, map1_entry, map1_datacb}
use qemu_3dfx.Calls.Map2.{Map2, map2_bytes, map2_entry, map2_datacb}

-- A function, by the family of its name.
pub data Function : Type 0 where
  color3 : Color3 → Function
  color4 : Color4 → Function
  eval_coord : EvalCoord → Function
  multi_tex_coord1 : MultiTexCoord1 → Function
  multi_tex_coord2 : MultiTexCoord2 → Function
  multi_tex_coord3 : MultiTexCoord3 → Function
  multi_tex_coord4 : MultiTexCoord4 → Function
  normal3 : Normal3 → Function
  raster_pos : RasterPos → Function
  rect : Rect → Function
  secondary_color3 : SecondaryColor3 → Function
  tex_coord1 : TexCoord1 → Function
  tex_coord2 : TexCoord2 → Function
  tex_coord3 : TexCoord3 → Function
  tex_coord4 : TexCoord4 → Function
  vertex2 : Vertex2 → Function
  vertex3 : Vertex3 → Function
  vertex4 : Vertex4 → Function
  vertex_attrib1 : VertexAttrib1 → Function
  vertex_attrib2 : VertexAttrib2 → Function
  vertex_attrib3 : VertexAttrib3 → Function
  vertex_attrib4 : VertexAttrib4 → Function
  vertex_attribs : VertexAttribs → Function
  delete : Delete → Function
  uniform1 : Uniform1 → Function
  uniform2 : Uniform2 → Function
  uniform3 : Uniform3 → Function
  uniform4 : Uniform4 → Function
  uniform_matrix : UniformMatrix → Function
  light : Light → Function
  material : Material → Function
  tex_gen : TexGen → Function
  clear_buffer : ClearBuffer → Function
  set_fence : SetFence → Function
  texture_buffer : TextureBuffer → Function
  sampler_parameter : SamplerParameter → Function
  tex_env : TexEnv → Function
  point_parameter : PointParameter → Function
  load_matrix : LoadMatrix → Function
  mult_matrix : MultMatrix → Function
  pixel_map : PixelMap → Function
  color_table : ColorTable → Function
  bind_sampler : BindSampler → Function
  scissor : Scissor → Function
  viewport : Viewport → Function
  depth_range : DepthRange → Function
  map1 : Map1 → Function
  map2 : Map2 → Function

-- The rows of the table.
unfoldable pub bytes : Function → ℕ
bytes (color3 f) = color3_bytes f
bytes (color4 f) = color4_bytes f
bytes (eval_coord f) = eval_coord_bytes f
bytes (multi_tex_coord1 f) = multi_tex_coord1_bytes f
bytes (multi_tex_coord2 f) = multi_tex_coord2_bytes f
bytes (multi_tex_coord3 f) = multi_tex_coord3_bytes f
bytes (multi_tex_coord4 f) = multi_tex_coord4_bytes f
bytes (normal3 f) = normal3_bytes f
bytes (raster_pos f) = raster_pos_bytes f
bytes (rect f) = rect_bytes f
bytes (secondary_color3 f) = secondary_color3_bytes f
bytes (tex_coord1 f) = tex_coord1_bytes f
bytes (tex_coord2 f) = tex_coord2_bytes f
bytes (tex_coord3 f) = tex_coord3_bytes f
bytes (tex_coord4 f) = tex_coord4_bytes f
bytes (vertex2 f) = vertex2_bytes f
bytes (vertex3 f) = vertex3_bytes f
bytes (vertex4 f) = vertex4_bytes f
bytes (vertex_attrib1 f) = vertex_attrib1_bytes f
bytes (vertex_attrib2 f) = vertex_attrib2_bytes f
bytes (vertex_attrib3 f) = vertex_attrib3_bytes f
bytes (vertex_attrib4 f) = vertex_attrib4_bytes f
bytes (vertex_attribs f) = vertex_attribs_bytes f
bytes (delete f) = delete_bytes f
bytes (uniform1 f) = uniform1_bytes f
bytes (uniform2 f) = uniform2_bytes f
bytes (uniform3 f) = uniform3_bytes f
bytes (uniform4 f) = uniform4_bytes f
bytes (uniform_matrix f) = uniform_matrix_bytes f
bytes (light f) = light_bytes f
bytes (material f) = material_bytes f
bytes (tex_gen f) = tex_gen_bytes f
bytes (clear_buffer f) = clear_buffer_bytes f
bytes (set_fence f) = set_fence_bytes f
bytes (texture_buffer f) = texture_buffer_bytes f
bytes (sampler_parameter f) = sampler_parameter_bytes f
bytes (tex_env f) = tex_env_bytes f
bytes (point_parameter f) = point_parameter_bytes f
bytes (load_matrix f) = load_matrix_bytes f
bytes (mult_matrix f) = mult_matrix_bytes f
bytes (pixel_map f) = pixel_map_bytes f
bytes (color_table f) = color_table_bytes f
bytes (bind_sampler f) = bind_sampler_bytes f
bytes (scissor f) = scissor_bytes f
bytes (viewport f) = viewport_bytes f
bytes (depth_range f) = depth_range_bytes f
bytes (map1 f) = map1_bytes f
bytes (map2 f) = map2_bytes f

-- The wrappers.
unfoldable pub entry : Function → (ℕ → ℕ) → Entry
entry (color3 f) a = color3_entry f a
entry (color4 f) a = color4_entry f a
entry (eval_coord f) a = eval_coord_entry f a
entry (multi_tex_coord1 f) a = multi_tex_coord1_entry f a
entry (multi_tex_coord2 f) a = multi_tex_coord2_entry f a
entry (multi_tex_coord3 f) a = multi_tex_coord3_entry f a
entry (multi_tex_coord4 f) a = multi_tex_coord4_entry f a
entry (normal3 f) a = normal3_entry f a
entry (raster_pos f) a = raster_pos_entry f a
entry (rect f) a = rect_entry f a
entry (secondary_color3 f) a = secondary_color3_entry f a
entry (tex_coord1 f) a = tex_coord1_entry f a
entry (tex_coord2 f) a = tex_coord2_entry f a
entry (tex_coord3 f) a = tex_coord3_entry f a
entry (tex_coord4 f) a = tex_coord4_entry f a
entry (vertex2 f) a = vertex2_entry f a
entry (vertex3 f) a = vertex3_entry f a
entry (vertex4 f) a = vertex4_entry f a
entry (vertex_attrib1 f) a = vertex_attrib1_entry f a
entry (vertex_attrib2 f) a = vertex_attrib2_entry f a
entry (vertex_attrib3 f) a = vertex_attrib3_entry f a
entry (vertex_attrib4 f) a = vertex_attrib4_entry f a
entry (vertex_attribs f) a = vertex_attribs_entry f a
entry (delete f) a = delete_entry f a
entry (uniform1 f) a = uniform1_entry f a
entry (uniform2 f) a = uniform2_entry f a
entry (uniform3 f) a = uniform3_entry f a
entry (uniform4 f) a = uniform4_entry f a
entry (uniform_matrix f) a = uniform_matrix_entry f a
entry (light f) a = light_entry f a
entry (material f) a = material_entry f a
entry (tex_gen f) a = tex_gen_entry f a
entry (clear_buffer f) a = clear_buffer_entry f a
entry (set_fence f) a = set_fence_entry f a
entry (texture_buffer f) a = texture_buffer_entry f a
entry (sampler_parameter f) a = sampler_parameter_entry f a
entry (tex_env f) a = tex_env_entry f a
entry (point_parameter f) a = point_parameter_entry f a
entry (load_matrix f) a = load_matrix_entry f a
entry (mult_matrix f) a = mult_matrix_entry f a
entry (pixel_map f) a = pixel_map_entry f a
entry (color_table f) a = color_table_entry f a
entry (bind_sampler f) a = bind_sampler_entry f a
entry (scissor f) a = scissor_entry f a
entry (viewport f) a = viewport_entry f a
entry (depth_range f) a = depth_range_entry f a
entry (map1 f) a = map1_entry f a
entry (map2 f) a = map2_entry f a

-- `datacb` behind processArgs.
unfoldable pub datacb : Function → (ℕ → ℕ) → ℕ
datacb (color3 f) a = color3_datacb f a
datacb (color4 f) a = color4_datacb f a
datacb (eval_coord f) a = eval_coord_datacb f a
datacb (multi_tex_coord1 f) a = multi_tex_coord1_datacb f a
datacb (multi_tex_coord2 f) a = multi_tex_coord2_datacb f a
datacb (multi_tex_coord3 f) a = multi_tex_coord3_datacb f a
datacb (multi_tex_coord4 f) a = multi_tex_coord4_datacb f a
datacb (normal3 f) a = normal3_datacb f a
datacb (raster_pos f) a = raster_pos_datacb f a
datacb (rect f) a = rect_datacb f a
datacb (secondary_color3 f) a = secondary_color3_datacb f a
datacb (tex_coord1 f) a = tex_coord1_datacb f a
datacb (tex_coord2 f) a = tex_coord2_datacb f a
datacb (tex_coord3 f) a = tex_coord3_datacb f a
datacb (tex_coord4 f) a = tex_coord4_datacb f a
datacb (vertex2 f) a = vertex2_datacb f a
datacb (vertex3 f) a = vertex3_datacb f a
datacb (vertex4 f) a = vertex4_datacb f a
datacb (vertex_attrib1 f) a = vertex_attrib1_datacb f a
datacb (vertex_attrib2 f) a = vertex_attrib2_datacb f a
datacb (vertex_attrib3 f) a = vertex_attrib3_datacb f a
datacb (vertex_attrib4 f) a = vertex_attrib4_datacb f a
datacb (vertex_attribs f) a = vertex_attribs_datacb f a
datacb (delete f) a = delete_datacb f a
datacb (uniform1 f) a = uniform1_datacb f a
datacb (uniform2 f) a = uniform2_datacb f a
datacb (uniform3 f) a = uniform3_datacb f a
datacb (uniform4 f) a = uniform4_datacb f a
datacb (uniform_matrix f) a = uniform_matrix_datacb f a
datacb (light f) a = light_datacb f a
datacb (material f) a = material_datacb f a
datacb (tex_gen f) a = tex_gen_datacb f a
datacb (clear_buffer f) a = clear_buffer_datacb f a
datacb (set_fence f) a = set_fence_datacb f a
datacb (texture_buffer f) a = texture_buffer_datacb f a
datacb (sampler_parameter f) a = sampler_parameter_datacb f a
datacb (tex_env f) a = tex_env_datacb f a
datacb (point_parameter f) a = point_parameter_datacb f a
datacb (load_matrix f) a = load_matrix_datacb f a
datacb (mult_matrix f) a = mult_matrix_datacb f a
datacb (pixel_map f) a = pixel_map_datacb f a
datacb (color_table f) a = color_table_datacb f a
datacb (bind_sampler f) a = bind_sampler_datacb f a
datacb (scissor f) a = scissor_datacb f a
datacb (viewport f) a = viewport_datacb f a
datacb (depth_range f) a = depth_range_datacb f a
datacb (map1 f) a = map1_datacb f a
datacb (map2 f) a = map2_datacb f a
