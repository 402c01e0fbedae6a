-- ===== src/VertexStream/Samples.antt =====
-- Vertex arrays to try the models on.
use qemu_3dfx.Common.{true, false, replicate}
use qemu_3dfx.VertexStream.{VtxArray, Arrays}

abbrev pub unused : VtxArray
unused = record {
  enable = false;
  size = 0;
  type = 0;
  stride = 0;
  ptr = false;
  room = 0;
  client = false;
}

-- Three floats for each vertex, sixteen bytes apart.
abbrev pub positions : VtxArray
positions = record {
  enable = true;
  size = 3;
  type = 0x1406;
  stride = 16;
  ptr = true;
  room = 0x100;
  client = true;
}

abbrev pub arrays : Arrays
arrays = record {
  interleaved = unused;
  color = unused;
  edge_flag = unused;
  index = unused;
  normal = unused;
  tex_coord = replicate 8 unused;
  vertex = positions;
  secondary_color = unused;
  fog_coord = unused;
  weight = unused;
  gen_attrib = replicate 2 unused;
}
