-- ===== src/Sizes/Names.antt =====
-- qemu-1/hw/mesa/szgldata.c, the table of the GL parameter names: a constant of
-- qemu-1/hw/mesa/mgldefs.h and its number of values.
use qemu_3dfx.Common.{ℕ, List, [], ◌∷◌}

-- `glpname`
abbrev pub glpname : List (ℕ × ℕ)
glpname =
    (0x846e, 2)
    ∷  -- GL_ALIASED_LINE_WIDTH_RANGE
        (0x846d, 2)
    ∷  -- GL_ALIASED_POINT_SIZE_RANGE
        (0x0b70, 2)
    ∷  -- GL_DEPTH_RANGE
        (0x0b22, 2)
    ∷  -- GL_LINE_WIDTH_RANGE
        (0x0dd0, 2)
    ∷  -- GL_MAP1_GRID_DOMAIN
        (0x0d94, 2)
    ∷  -- GL_MAP1_TEXTURE_COORD_2
        (0x0dd3, 2)
    ∷  -- GL_MAP2_GRID_SEGMENTS
        (0x0db4, 2)
    ∷  -- GL_MAP2_TEXTURE_COORD_2
        (0x0d3a, 2)
    ∷  -- GL_MAX_VIEWPORT_DIMS
        (0x0b12, 2)
    ∷  -- GL_POINT_SIZE_RANGE
        (0x0b40, 2)
    ∷  -- GL_POLYGON_MODE
        (0x0b22, 2)
    ∷  -- GL_LINE_WIDTH_RANGE
        (0x0b12, 2)
    ∷  -- GL_POINT_SIZE_RANGE
        (0x825d, 2)
    ∷  -- GL_VIEWPORT_BOUNDS_RANGE
        (0x1603, 3)
    ∷  -- GL_COLOR_INDEXES
        (0x86e5, 3)
    ∷  -- GL_CONST_EYE_NV
        (0x0b02, 3)
    ∷  -- GL_CURRENT_NORMAL
        (0x8129, 3)
    ∷  -- GL_POINT_DISTANCE_ATTENUATION
        (0x0d92, 3)
    ∷  -- GL_MAP1_NORMAL
        (0x0d95, 3)
    ∷  -- GL_MAP1_TEXTURE_COORD_3
        (0x0d97, 3)
    ∷  -- GL_MAP1_VERTEX_3
        (0x0db2, 3)
    ∷  -- GL_MAP2_NORMAL
        (0x0db5, 3)
    ∷  -- GL_MAP2_TEXTURE_COORD_3
        (0x0db7, 3)
    ∷  -- GL_MAP2_VERTEX_3
        (0x1204, 3)
    ∷  -- GL_SPOT_DIRECTION
        (0x1200, 4)
    ∷  -- GL_AMBIENT
        (0x1602, 4)
    ∷  -- GL_AMBIENT_AND_DIFFUSE
        (0x8005, 4)
    ∷  -- GL_BLEND_COLOR
        (0x0c22, 4)
    ∷  -- GL_COLOR_CLEAR_VALUE
        (0x0c23, 4)
    ∷  -- GL_COLOR_WRITEMASK
        (0x852a, 4)
    ∷  -- GL_CONSTANT_COLOR0_NV
        (0x852b, 4)
    ∷  -- GL_CONSTANT_COLOR1_NV
        (0x86e0, 4)
    ∷  -- GL_CULL_MODES_NV
        (0x0b00, 4)
    ∷  -- GL_CURRENT_COLOR
        (0x0b04, 4)
    ∷  -- GL_CURRENT_RASTER_COLOR
        (0x0b07, 4)
    ∷  -- GL_CURRENT_RASTER_POSITION
        (0x845f, 4)
    ∷  -- GL_CURRENT_RASTER_SECONDARY_COLOR
        (0x0b06, 4)
    ∷  -- GL_CURRENT_RASTER_TEXTURE_COORDS
        (0x8459, 4)
    ∷  -- GL_CURRENT_SECONDARY_COLOR
        (0x0b03, 4)
    ∷  -- GL_CURRENT_TEXTURE_COORDS
        (0x1201, 4)
    ∷  -- GL_DIFFUSE
        (0x1600, 4)
    ∷  -- GL_EMISSION
        (0x2502, 4)
    ∷  -- GL_EYE_PLANE
        (0x0b66, 4)
    ∷  -- GL_FOG_COLOR
        (0x0b53, 4)
    ∷  -- GL_LIGHT_MODEL_AMBIENT
        (0x0d90, 4)
    ∷  -- GL_MAP1_COLOR_4
        (0x0d96, 4)
    ∷  -- GL_MAP1_TEXTURE_COORD_4
        (0x0d98, 4)
    ∷  -- GL_MAP1_VERTEX_4
        (0x0db0, 4)
    ∷  -- GL_MAP2_COLOR_4
        (0x0dd2, 4)
    ∷  -- GL_MAP2_GRID_DOMAIN
        (0x0db6, 4)
    ∷  -- GL_MAP2_TEXTURE_COORD_4
        (0x0db8, 4)
    ∷  -- GL_MAP2_VERTEX_4
        (0x2501, 4)
    ∷  -- GL_OBJECT_PLANE
        (0x86e1, 4)
    ∷  -- GL_OFFSET_TEXTURE_MATRIX_NV
        (0x1203, 4)
    ∷  -- GL_POSITION
        (0x0c10, 4)
    ∷  -- GL_SCISSOR_BOX
        (0x1202, 4)
    ∷  -- GL_SPECULAR
        (0x1004, 4)
    ∷  -- GL_TEXTURE_BORDER_COLOR
        (0x871a, 4)
    ∷  -- GL_TEXTURE_BORDER_VALUES_NV
        (0x2201, 4)
    ∷  -- GL_TEXTURE_ENV_COLOR
        (0x8e46, 4)
    ∷  -- GL_TEXTURE_SWIZZLE_RGBA
        (0x0ba2, 4)
    ∷  -- GL_VIEWPORT
        (0x80b1, 16)
    ∷  -- GL_COLOR_MATRIX
        (0x0ba6, 16)
    ∷  -- GL_MODELVIEW_MATRIX
        (0x0ba7, 16)
    ∷  -- GL_PROJECTION_MATRIX
        []
