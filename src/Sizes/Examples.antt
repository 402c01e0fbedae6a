-- ===== src/Sizes/Examples.antt =====
-- Tests of the sizes, and the theorems of Sizes/Bounds at inputs.
use qemu_3dfx.Common.{◌≡◌, refl, ◌≤◌}
use qemu_3dfx.Sizes.{szgldata, szglname}
use qemu_3dfx.Sizes.Bounds.{szgldata_lem}

-- GL_RGBA of GL_FLOAT; GL_RGB of GL_UNSIGNED_SHORT_5_6_5; GL_VIEWPORT
sizes : (szgldata 0x1908 0x1406 ≡ 16) × (szgldata 0x1907 0x8363 ≡ 2) × (szglname 0x0ba2 ≡ 4)
unfolding szgldata szglname
sizes = (refl, refl, refl)

szgldata_lem_example :
    (szgldata 0x1908 0x1406 ≡ 16) × (1 ≤ szgldata 0x1908 0x1406) × (szgldata 0x1908 0x1406 ≤ 480)
unfolding szgldata
szgldata_lem_example = szgldata_lem 0x1908 0x1406
