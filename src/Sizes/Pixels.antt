-- ===== src/Sizes/Pixels.antt =====
-- qemu-1/hw/mesa/szgldata.c, the tables of the GL types and formats: a constant of
-- qemu-1/hw/mesa/mgldefs.h and its size.
use qemu_3dfx.Common.{ℕ, List, [], ◌∷◌}

-- `gltype`, in bytes
abbrev pub gltype : List (ℕ × ℕ)
gltype =
    (0x1407, 2)
    ∷  -- GL_2_BYTES
        (0x140b, 2)
    ∷  -- GL_HALF_FLOAT
        (0x1402, 2)
    ∷  -- GL_SHORT
        (0x1403, 2)
    ∷  -- GL_UNSIGNED_SHORT
        (0x8366, 2)
    ∷  -- GL_UNSIGNED_SHORT_1_5_5_5_REV
        (0x8033, 2)
    ∷  -- GL_UNSIGNED_SHORT_4_4_4_4
        (0x8365, 2)
    ∷  -- GL_UNSIGNED_SHORT_4_4_4_4_REV
        (0x8034, 2)
    ∷  -- GL_UNSIGNED_SHORT_5_5_5_1
        (0x8363, 2)
    ∷  -- GL_UNSIGNED_SHORT_5_6_5
        (0x8364, 2)
    ∷  -- GL_UNSIGNED_SHORT_5_6_5_REV
        (0x1408, 3)
    ∷  -- GL_3_BYTES
        (0x1409, 4)
    ∷  -- GL_4_BYTES
        (0x140c, 4)
    ∷  -- GL_FIXED
        (0x1406, 4)
    ∷  -- GL_FLOAT
        (0x1404, 4)
    ∷  -- GL_INT
        (0x8d9f, 4)
    ∷  -- GL_INT_2_10_10_10_REV
        (0x1405, 4)
    ∷  -- GL_UNSIGNED_INT
        (0x8c3b, 4)
    ∷  -- GL_UNSIGNED_INT_10F_11F_11F_REV
        (0x8036, 4)
    ∷  -- GL_UNSIGNED_INT_10_10_10_2
        (0x84fa, 4)
    ∷  -- GL_UNSIGNED_INT_24_8
        (0x8368, 4)
    ∷  -- GL_UNSIGNED_INT_2_10_10_10_REV
        (0x8035, 4)
    ∷  -- GL_UNSIGNED_INT_8_8_8_8
        (0x8367, 4)
    ∷  -- GL_UNSIGNED_INT_8_8_8_8_REV
        (0x86db, 4)
    ∷  -- GL_UNSIGNED_INT_8_8_S8_S8_REV_NV
        (0x140a, 8)
    ∷  -- GL_DOUBLE
        (0x8dad, 8)
    ∷  -- GL_FLOAT_32_UNSIGNED_INT_24_8_REV
        []

-- `glformat`, in components, or in bytes for an interleaved format
abbrev pub glformat : List (ℕ × ℕ)
glformat =
    (0x84f9, 2)
    ∷  -- GL_DEPTH_STENCIL
        (0x86f5, 2)
    ∷  -- GL_DSDT_NV
        (0x190a, 2)
    ∷  -- GL_LUMINANCE_ALPHA
        (0x8227, 2)
    ∷  -- GL_RG
        (2, 2)
    ∷  -- SIZE_2
        (0x80e0, 3)
    ∷  -- GL_BGR
        (0x86f6, 3)
    ∷  -- GL_DSDT_MAG_NV
        (0x1907, 3)
    ∷  -- GL_RGB
        (3, 3)
    ∷  -- SIZE_3
        (0x80e1, 4)
    ∷  -- GL_BGRA
        (0x86dc, 4)
    ∷  -- GL_DSDT_MAG_INTENSITY_NV
        (0x86f7, 4)
    ∷  -- GL_DSDT_MAG_VIB_NV
        (0x1908, 4)
    ∷  -- GL_RGBA
        (4, 4)
    ∷  -- SIZE_4
        (0x2a20, 8)
    ∷  -- GL_V2F
        (0x2a22, 12)
    ∷  -- GL_C4UB_V2F
        (0x2a21, 12)
    ∷  -- GL_V3F
        (0x2a23, 16)
    ∷  -- GL_C4UB_V3F
        (0x2a27, 20)
    ∷  -- GL_T2F_V3F
        (0x2a24, 24)
    ∷  -- GL_C3F_V3F
        (0x2a25, 24)
    ∷  -- GL_N3F_V3F
        (0x2a29, 24)
    ∷  -- GL_T2F_C4UB_V3F
        (0x2a2a, 32)
    ∷  -- GL_T2F_C3F_V3F
        (0x2a2b, 32)
    ∷  -- GL_T2F_N3F_V3F
        (0x2a28, 32)
    ∷  -- GL_T4F_V4F
        (0x2a26, 40)
    ∷  -- GL_C4F_N3F_V3F
        (0x2a2c, 48)
    ∷  -- GL_T2F_C4F_N3F_V3F
        (0x2a2d, 60)
    ∷  -- GL_T4F_C4F_N3F_V4F
        []

-- The types that hold all components of a pixel: the cases of the switch in `szgldata`.
abbrev pub packed_types : List ℕ
packed_types =
    0x8d9f
    ∷  -- GL_INT_2_10_10_10_REV
        0x8362
    ∷  -- GL_UNSIGNED_BYTE_2_3_3_REV
        0x8032
    ∷  -- GL_UNSIGNED_BYTE_3_3_2
        0x8c3b
    ∷  -- GL_UNSIGNED_INT_10F_11F_11F_REV
        0x8036
    ∷  -- GL_UNSIGNED_INT_10_10_10_2
        0x84fa
    ∷  -- GL_UNSIGNED_INT_24_8
        0x8368
    ∷  -- GL_UNSIGNED_INT_2_10_10_10_REV
        0x8035
    ∷  -- GL_UNSIGNED_INT_8_8_8_8
        0x8367
    ∷  -- GL_UNSIGNED_INT_8_8_8_8_REV
        0x86db
    ∷  -- GL_UNSIGNED_INT_8_8_S8_S8_REV_NV
        0x8366
    ∷  -- GL_UNSIGNED_SHORT_1_5_5_5_REV
        0x8033
    ∷  -- GL_UNSIGNED_SHORT_4_4_4_4
        0x8365
    ∷  -- GL_UNSIGNED_SHORT_4_4_4_4_REV
        0x8034
    ∷  -- GL_UNSIGNED_SHORT_5_5_5_1
        0x8363
    ∷  -- GL_UNSIGNED_SHORT_5_6_5
        0x8364
    ∷  -- GL_UNSIGNED_SHORT_5_6_5_REV
        []
