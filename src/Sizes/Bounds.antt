-- ===== src/Sizes/Bounds.antt =====
-- The sizes of szgldata.c are positive and small, and a packed type is its own size.
use native.Mathlib.Nat.{mul-div_left, mul_comm}
use qemu_3dfx.Common.{
  ℕ, ◌*◌, ◌/◌, ◌≤◌, ◌≡◌, refl, List, [], ◌∷◌, arith, All, if◌then◌else◌, ◌∙◌, ap, Bool-cases, inl,
  inr,
}
use qemu_3dfx.Sizes.{
  size_of, sztype, szformat, szpname, is_packed, szgldata, szglname, gltype, glformat, glpname,
}

-- Every row of a table has a size from 1 to the bound.
abbrev Rows : ℕ → List (ℕ × ℕ) → Type 0
Rows m = All (λ r. (1 ≤ r.1) × (r.1 ≤ m))

size_of_bounds :
    (key m : ℕ) (rows : List (ℕ × ℕ))
    → 1 ≤ m
    → Rows m rows
    → (1 ≤ size_of key rows) × (size_of key rows ≤ m)
unfolding size_of
size_of_bounds key m [] h r = (omega arith, h)
size_of_bounds key m ((k, n) ∷ rows) h r = ground (arith, size_of_bounds key m rows h r.1)

sztype_bounds : (type : ℕ) → (1 ≤ sztype type) × (sztype type ≤ 8)
unfolding sztype
sztype_bounds type = size_of_bounds type 8 gltype (omega arith) (omega arith)

szformat_bounds : (format : ℕ) → (1 ≤ szformat format) × (szformat format ≤ 60)
unfolding szformat
szformat_bounds format = size_of_bounds format 60 glformat (omega arith) (omega arith)

-- Every GL parameter has between 1 and 16 values.
pub szglname_bounds : (pname : ℕ) → (1 ≤ szglname pname) × (szglname pname ≤ 16)
unfolding szglname szpname
szglname_bounds pname = size_of_bounds pname 16 glpname (omega arith) (omega arith)

product_bounds : (a b : ℕ) → 1 ≤ a → a ≤ 60 → 1 ≤ b → b ≤ 8 → (1 ≤ a * b) × (a * b ≤ 480)
product_bounds a b p q r s = (grind arith, grind arith)

quotient : (format type : ℕ) → szformat format * sztype type / szformat format ≡ sztype type
quotient format type =
    ap (λ (t : ℕ). t / szformat format) (mul_comm (szformat format) (sztype type))
    ∙ mul-div_left (sztype type) (szformat_bounds format).0

-- The size of a packed type is that of the type alone, whatever the format; any other is the
-- product of the components and the size of one. It is at least 1 and at most 480 bytes.
pub szgldata_lem :
    (format type : ℕ)
    → (szgldata format type
        ≡ (if is_packed type then sztype type else szformat format * sztype type))
      × (1 ≤ szgldata format type)
      × (szgldata format type ≤ 480)
unfolding szgldata
szgldata_lem format type =
    let f = szformat_bounds format in
    let t = sztype_bounds type in
    let p = product_bounds (szformat format) (sztype type) f.0 f.1 t.0 t.1 in
    elim (Bool-cases (is_packed type)) [
      | inl e ↦ rw (e, quotient format type) (refl, omega arith, omega arith)
      | inr e ↦ rw e (refl, p.0, p.1)
    ]
