-- ===== src/Calls/Delete.antt =====
-- The functions glDelete* of wrappers/mesa/src/wrapgl32.c, their rows of qemu-1/hw/mesa/mglfptbl.h,
-- and their cases of processArgs of qemu-1/hw/mesa/mesapt_mm.c.
use qemu_3dfx.Common.{ℕ, refl, [], ◌∷◌, ◌*◌}
use qemu_3dfx.Calls.{Entry, queued, trapped, aligned, Agrees}
use qemu_3dfx.Calls.Words.{sent-raw}

-- The enumerators, by the functions' names.
pub data Delete : Type 0 where
  delete_async_markers_sgix delete_buffers delete_buffers_arb : Delete
  delete_command_lists_nv delete_fences_apple delete_fences_nv : Delete
  delete_fragment_shader_ati delete_framebuffers delete_framebuffers_ext : Delete
  delete_lists delete_memory_objects_ext delete_named_string_arb : Delete
  delete_names_amd delete_object_arb delete_occlusion_queries_nv : Delete
  delete_paths_nv delete_perf_monitors_amd delete_perf_query_intel : Delete
  delete_program delete_program_pipelines delete_programs_arb : Delete
  delete_programs_nv delete_queries delete_queries_arb : Delete
  delete_query_resource_tag_nv delete_renderbuffers delete_renderbuffers_ext : Delete
  delete_samplers delete_semaphores_ext delete_shader : Delete
  delete_states_nv delete_sync delete_textures : Delete
  delete_textures_ext delete_transform_feedbacks delete_transform_feedbacks_nv : Delete
  delete_vertex_arrays delete_vertex_arrays_apple delete_vertex_shader_ext : Delete

-- The bytes that the table has behind the @ of the symbol.
unfoldable pub delete_bytes : Delete → ℕ
delete_bytes delete_async_markers_sgix = 8
delete_bytes delete_buffers = 8
delete_bytes delete_buffers_arb = 8
delete_bytes delete_command_lists_nv = 8
delete_bytes delete_fences_apple = 8
delete_bytes delete_fences_nv = 8
delete_bytes delete_fragment_shader_ati = 4
delete_bytes delete_framebuffers = 8
delete_bytes delete_framebuffers_ext = 8
delete_bytes delete_lists = 8
delete_bytes delete_memory_objects_ext = 8
delete_bytes delete_named_string_arb = 8
delete_bytes delete_names_amd = 12
delete_bytes delete_object_arb = 4
delete_bytes delete_occlusion_queries_nv = 8
delete_bytes delete_paths_nv = 8
delete_bytes delete_perf_monitors_amd = 8
delete_bytes delete_perf_query_intel = 4
delete_bytes delete_program = 4
delete_bytes delete_program_pipelines = 8
delete_bytes delete_programs_arb = 8
delete_bytes delete_programs_nv = 8
delete_bytes delete_queries = 8
delete_bytes delete_queries_arb = 8
delete_bytes delete_query_resource_tag_nv = 8
delete_bytes delete_renderbuffers = 8
delete_bytes delete_renderbuffers_ext = 8
delete_bytes delete_samplers = 8
delete_bytes delete_semaphores_ext = 8
delete_bytes delete_shader = 4
delete_bytes delete_states_nv = 8
delete_bytes delete_sync = 4
delete_bytes delete_textures = 8
delete_bytes delete_textures_ext = 8
delete_bytes delete_transform_feedbacks = 8
delete_bytes delete_transform_feedbacks_nv = 8
delete_bytes delete_vertex_arrays = 8
delete_bytes delete_vertex_arrays_apple = 8
delete_bytes delete_vertex_shader_ext = 4

-- The wrappers.
unfoldable pub delete_entry : Delete → (ℕ → ℕ) → Entry
delete_entry delete_async_markers_sgix _ = trapped 2 []
delete_entry delete_buffers a = queued 2 ((a 0 * 4) ∷ [])
delete_entry delete_buffers_arb a = queued 2 ((a 0 * 4) ∷ [])
delete_entry delete_command_lists_nv _ = trapped 2 []
delete_entry delete_fences_apple a = queued 2 ((a 0 * 4) ∷ [])
delete_entry delete_fences_nv a = queued 2 ((a 0 * 4) ∷ [])
delete_entry delete_fragment_shader_ati _ = queued 1 []
delete_entry delete_framebuffers a = queued 2 ((a 0 * 4) ∷ [])
delete_entry delete_framebuffers_ext a = queued 2 ((a 0 * 4) ∷ [])
delete_entry delete_lists _ = queued 2 []
delete_entry delete_memory_objects_ext _ = trapped 2 []
delete_entry delete_named_string_arb _ = trapped 2 []
delete_entry delete_names_amd _ = trapped 3 []
delete_entry delete_object_arb _ = queued 1 []
delete_entry delete_occlusion_queries_nv a = queued 2 ((a 0 * 4) ∷ [])
delete_entry delete_paths_nv _ = trapped 2 []
delete_entry delete_perf_monitors_amd _ = trapped 2 []
delete_entry delete_perf_query_intel _ = trapped 1 []
delete_entry delete_program _ = queued 1 []
delete_entry delete_program_pipelines _ = trapped 2 []
delete_entry delete_programs_arb a = queued 2 ((a 0 * 4) ∷ [])
delete_entry delete_programs_nv a = queued 2 ((a 0 * 4) ∷ [])
delete_entry delete_queries a = queued 2 ((a 0 * 4) ∷ [])
delete_entry delete_queries_arb a = queued 2 ((a 0 * 4) ∷ [])
delete_entry delete_query_resource_tag_nv _ = trapped 2 []
delete_entry delete_renderbuffers a = queued 2 ((a 0 * 4) ∷ [])
delete_entry delete_renderbuffers_ext a = queued 2 ((a 0 * 4) ∷ [])
delete_entry delete_samplers a = queued 2 ((a 0 * 4) ∷ [])
delete_entry delete_semaphores_ext _ = trapped 2 []
delete_entry delete_shader _ = queued 1 []
delete_entry delete_states_nv _ = trapped 2 []
delete_entry delete_sync _ = queued 1 []
delete_entry delete_textures a = queued 2 ((a 0 * 4) ∷ [])
delete_entry delete_textures_ext a = queued 2 ((a 0 * 4) ∷ [])
delete_entry delete_transform_feedbacks _ = trapped 2 []
delete_entry delete_transform_feedbacks_nv _ = trapped 2 []
delete_entry delete_vertex_arrays a = queued 2 ((a 0 * 4) ∷ [])
delete_entry delete_vertex_arrays_apple _ = trapped 2 []
delete_entry delete_vertex_shader_ext _ = trapped 1 []

-- `datacb` behind processArgs.
unfoldable pub delete_datacb : Delete → (ℕ → ℕ) → ℕ
delete_datacb delete_buffers a = aligned (a 0 * 4)
delete_datacb delete_buffers_arb a = aligned (a 0 * 4)
delete_datacb delete_fences_apple a = aligned (a 0 * 4)
delete_datacb delete_fences_nv a = aligned (a 0 * 4)
delete_datacb delete_framebuffers a = aligned (a 0 * 4)
delete_datacb delete_framebuffers_ext a = aligned (a 0 * 4)
delete_datacb delete_occlusion_queries_nv a = aligned (a 0 * 4)
delete_datacb delete_programs_arb a = aligned (a 0 * 4)
delete_datacb delete_programs_nv a = aligned (a 0 * 4)
delete_datacb delete_queries a = aligned (a 0 * 4)
delete_datacb delete_queries_arb a = aligned (a 0 * 4)
delete_datacb delete_renderbuffers a = aligned (a 0 * 4)
delete_datacb delete_renderbuffers_ext a = aligned (a 0 * 4)
delete_datacb delete_samplers a = aligned (a 0 * 4)
delete_datacb delete_textures a = aligned (a 0 * 4)
delete_datacb delete_textures_ext a = aligned (a 0 * 4)
delete_datacb delete_vertex_arrays a = aligned (a 0 * 4)
delete_datacb _ _ = 0

pub delete-Agrees :
    (f : Delete) (a : ℕ → ℕ) → Agrees (delete_entry f a) (delete_bytes f) (delete_datacb f a)
unfolding delete_entry delete_bytes delete_datacb
delete-Agrees delete_async_markers_sgix a = (refl, refl)
delete-Agrees delete_buffers a = (refl, sent-raw (a 0 * 4))
delete-Agrees delete_buffers_arb a = (refl, sent-raw (a 0 * 4))
delete-Agrees delete_command_lists_nv a = (refl, refl)
delete-Agrees delete_fences_apple a = (refl, sent-raw (a 0 * 4))
delete-Agrees delete_fences_nv a = (refl, sent-raw (a 0 * 4))
delete-Agrees delete_fragment_shader_ati a = (refl, refl)
delete-Agrees delete_framebuffers a = (refl, sent-raw (a 0 * 4))
delete-Agrees delete_framebuffers_ext a = (refl, sent-raw (a 0 * 4))
delete-Agrees delete_lists a = (refl, refl)
delete-Agrees delete_memory_objects_ext a = (refl, refl)
delete-Agrees delete_named_string_arb a = (refl, refl)
delete-Agrees delete_names_amd a = (refl, refl)
delete-Agrees delete_object_arb a = (refl, refl)
delete-Agrees delete_occlusion_queries_nv a = (refl, sent-raw (a 0 * 4))
delete-Agrees delete_paths_nv a = (refl, refl)
delete-Agrees delete_perf_monitors_amd a = (refl, refl)
delete-Agrees delete_perf_query_intel a = (refl, refl)
delete-Agrees delete_program a = (refl, refl)
delete-Agrees delete_program_pipelines a = (refl, refl)
delete-Agrees delete_programs_arb a = (refl, sent-raw (a 0 * 4))
delete-Agrees delete_programs_nv a = (refl, sent-raw (a 0 * 4))
delete-Agrees delete_queries a = (refl, sent-raw (a 0 * 4))
delete-Agrees delete_queries_arb a = (refl, sent-raw (a 0 * 4))
delete-Agrees delete_query_resource_tag_nv a = (refl, refl)
delete-Agrees delete_renderbuffers a = (refl, sent-raw (a 0 * 4))
delete-Agrees delete_renderbuffers_ext a = (refl, sent-raw (a 0 * 4))
delete-Agrees delete_samplers a = (refl, sent-raw (a 0 * 4))
delete-Agrees delete_semaphores_ext a = (refl, refl)
delete-Agrees delete_shader a = (refl, refl)
delete-Agrees delete_states_nv a = (refl, refl)
delete-Agrees delete_sync a = (refl, refl)
delete-Agrees delete_textures a = (refl, sent-raw (a 0 * 4))
delete-Agrees delete_textures_ext a = (refl, sent-raw (a 0 * 4))
delete-Agrees delete_transform_feedbacks a = (refl, refl)
delete-Agrees delete_transform_feedbacks_nv a = (refl, refl)
delete-Agrees delete_vertex_arrays a = (refl, sent-raw (a 0 * 4))
delete-Agrees delete_vertex_arrays_apple a = (refl, refl)
delete-Agrees delete_vertex_shader_ext a = (refl, refl)
