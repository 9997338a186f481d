-- ===== src/Loader/Place.antt =====
-- Where src/loader.cc places a segment, and with what permissions.
use binforge.Prelude.{
  ℕ, ◌+◌, ◌-◌, ◌*◌, ◌/◌, ◌%◌, ◌^◌, ◌≤◌, ◌<◌, ◌≡◌, ap, sym, ◌∙◌, inl, inr, max, bit_and, bit_or,
  Bool, true, false, ◌&&◌, Bool-cases, Option-cases, if◌then◌else◌, ◌==◌, arith,
}
use mathlib.Core.Path.{subst}
use binforge.Prelude.Bits.{bit_and-digit, bit_or-digit, bit_and-le, bit_or-zero, bit_and-mask}
use binforge.Base.{ok, Limits, u64_max, checked_add, checked_align_up}
use binforge.Base.Checked.{checked_add_bound, checked_align_up_iff}
use binforge.Region.{allows, permission_read, permission_write, permission_execute}
use binforge.Image.{Segment}
use binforge.Loader.{LoadOptions, Placement, place, initial_permissions}

-- Each permission is a digit.
allows_digit :
    (p : ℕ)
    → (allows p 1 ≡ (p % 2 == 1))
      × (allows p 2 ≡ (p / 2 % 2 == 1))
      × (allows p 4 ≡ (p / 2 / 2 % 2 == 1))
unfolding allows
allows_digit p =
    let one : (y : ℕ) → bit_and y 1 ≡ y % 2 = λ y. bit_and-mask 1 y in
    let two : (y : ℕ) → bit_and y 2 ≡ y / 2 % 2 * 2 =
      λ y. omega (arith, bit_and-digit y 2, one (y / 2)) in
    let four : bit_and p 4 ≡ p / 2 / 2 % 2 * 4 = omega (arith, bit_and-digit p 4, two (p / 2)) in
    (ground (arith, one p), ground (arith, two p), ground (arith, four))

-- The mapping can be read as the segment asks, and can be written; it can be executed as the segment
-- asks, but not when the loader keeps writable memory from execution.
pub record IsGranted (options : LoadOptions) (segment : Segment) (p : ℕ) : Type 0 where
  pub readable : allows p permission_read ≡ allows segment.permissions permission_read
  pub writable : allows p permission_write ≡ true
  pub executable :
      allows p permission_execute
      ≡ (if options.enforce_wx then false else allows segment.permissions permission_execute)

pub initial_permissions-IsGranted :
    (options : LoadOptions) (s : Segment) → IsGranted options s (initial_permissions options s)
unfolding initial_permissions
initial_permissions-IsGranted options s =
    let p : ℕ = s.permissions in
    let x : ℕ = bit_or p 2 in
    let o1 = bit_or-digit p 2 in
    let o2 : bit_or (p / 2) 1 ≡ bit_or (p / 2 / 2) 0 * 2 + max (p / 2 % 2) 1 =
      bit_or-digit (p / 2) 1 in
    let o3 = bit_or-zero (p / 2 / 2) in
    let x1 : x % 2 ≡ p % 2 = omega (arith, o1) in
    let x2 : x / 2 % 2 ≡ 1 = omega (arith, o1, o2) in
    let x3 : x / 2 / 2 % 2 ≡ p / 2 / 2 % 2 = omega (arith, o1, o2, o3) in
    let y : ℕ = bit_and x 251 in
    let a1 = bit_and-digit x 251 in
    let a2 = bit_and-digit (x / 2) 125 in
    let a3 = bit_and-digit (x / 2 / 2) 62 in
    let y1 : y % 2 ≡ x % 2 = omega (arith, a1) in
    let y2 : y / 2 % 2 ≡ x / 2 % 2 = omega (arith, a1, a2) in
    let y3 : y / 2 / 2 % 2 ≡ 0 = omega (arith, a1, a2, a3) in
    let px = allows_digit x in
    let py = allows_digit y in
    let pp = allows_digit p in
    let test = λ (n : ℕ). n == 1 in
    let xr : allows x 1 ≡ allows p 1 = px.0 ∙ ap test x1 ∙ sym pp.0 in
    let xw : allows x 2 ≡ true = px.1 ∙ ap test x2 in
    let xe : allows x 4 ≡ allows p 4 = px.2 ∙ ap test x3 ∙ sym pp.2 in
    let yr : allows y 1 ≡ allows p 1 = py.0 ∙ ap test (y1 ∙ x1) ∙ sym pp.0 in
    let yw : allows y 2 ≡ true = py.1 ∙ ap test (y2 ∙ x2) in
    let ye : allows y 4 ≡ false = py.2 ∙ ap test y3 in
    elim (Bool-cases (options.enforce_wx && (allows x 2 && allows x 4))) [
      | inl stripped ↦
          subst (IsGranted options s) (ap (λ (b : Bool). if b then y else x) (sym stripped))
            (record { readable = yr; writable = yw; executable = ground (arith, stripped, ye) })
      | inr kept ↦
          subst (IsGranted options s) (ap (λ (b : Bool). if b then y else x) (sym kept))
            (record { readable = xr; writable = xw; executable = ground (arith, kept, xw, xe) })
    ]

-- The mapping holds the segment, from its own address plus the bias on.
pub record IsPlaced (s : Segment) (bias : ℕ) (p : Placement) : Type 0 where
  pub address : p.address ≡ s.virtual_address + bias
  pub low : p.aligned_base ≤ p.address
  pub high : p.address + s.memory_size ≤ p.aligned_base + p.aligned_size
  pub small : p.aligned_base < 2 ^ 64

pub place-IsPlaced :
    (limits : Limits) (s : Segment) (bias : ℕ) (p : Placement)
    → limits.page_size < 2 ^ 64
    → s.virtual_address < 2 ^ 64
    → place limits s bias ≡ ok p
    → IsPlaced s bias p
unfolding place
place-IsPlaced limits s bias p pages h e =
    elim (Option-cases (checked_add s.virtual_address bias)) [
      | inl wraps ↦ ground (arith, wraps)
      | inr (address, at) ↦
          let sum = checked_add_bound s.virtual_address bias address h at in
          let base : ℕ = bit_and address (u64_max - (limits.page_size + 2 ^ 32 - 1) % 2 ^ 32) in
          let low : base ≤ address =
            bit_and-le address (u64_max - (limits.page_size + 2 ^ 32 - 1) % 2 ^ 32) in
          elim (Option-cases (checked_add (address - base) s.memory_size)) [
            | inl wraps ↦ ground (arith, e, at, wraps)
            | inr (total, fits) ↦
                let size =
                  checked_add_bound (address - base) s.memory_size total (omega (arith, sum))
                    fits in
                elim (Option-cases (checked_align_up total limits.page_size)) [
                  | inl wraps ↦ ground (arith, e, at, fits, wraps)
                  | inr (aligned, up) ↦
                      let above : total ≤ aligned =
                        ((checked_align_up_iff total limits.page_size aligned (omega (arith, size))
                            pages).0
                          up).above in
                      let is : record {
                        address = address;
                        aligned_base = base;
                        aligned_size = aligned;
                      }
                          ≡ p =
                        ground (arith, e, at, fits, up) in
                      subst (IsPlaced s bias) is (record {
                        address = sum.0;
                        low = low;
                        high = omega (arith, low, above, size.0);
                        small = omega (arith, low, sum);
                      })
                ]
          ]
    ]
