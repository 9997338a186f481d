-- ===== src/Loader/Origin.antt =====
-- The base that src/loader.cc moves an image from, and the entry point that it moves.
use binforge.Prelude.{
  ℕ, ◌+◌, ◌^◌, ◌≤◌, ◌<◌, ◌≡◌, refl, sym, ◌∙◌, ◌⊎◌, inl, inr, ◌&&◌, not, Bool-cases, Option-cases,
  List, [], ◌∷◌, All, Any, ltb, leb, ◌==◌, if◌then◌else◌, arith,
}
use mathlib.Core.Path.{subst}
use binforge.Base.{ok, checked_add}
use binforge.Base.Checked.{checked_add_bound}
use binforge.Image.{BinaryImage, Segment}
use binforge.Loader.{least_address, original_base, load_entry}

-- The base that the image was linked for: its own, or its lowest segment address.
pub record IsLinked (image : BinaryImage) (base : ℕ) : Type 0 where
  pub own : 0 < image.header.image_base → base ≡ image.header.image_base
  pub empty : image.header.image_base ≡ 0 → image.segments ≡ [] → base ≡ 0
  pub lowest :
      image.header.image_base ≡ 0
      → All (λ (s : Segment). base ≤ s.virtual_address) image.segments
        × ((image.segments ≡ []) ⊎ Any (λ (s : Segment). s.virtual_address ≡ base) image.segments)

-- The entry point moves with the image when both it and the base are known and it is not below.
abbrev pub IsEntry : ℕ → ℕ → ℕ → ℕ → Type 0
IsEntry entry original bias moved =
    ((0 < entry) × (0 < original) × (original ≤ entry) × (moved ≡ entry + bias) × (moved < 2 ^ 64))
    ⊎ (((entry ≡ 0) ⊎ (original ≡ 0) ⊎ (entry < original)) × (moved ≡ entry))

pub load_entry-IsEntry :
    (image : BinaryImage) (original bias entry : ℕ)
    → image.header.entry_point < 2 ^ 64
    → load_entry image original bias ≡ ok entry
    → IsEntry image.header.entry_point original bias entry
unfolding load_entry
load_entry-IsEntry image original bias entry small e =
    let start : ℕ = image.header.entry_point in
    elim (Bool-cases (not (start == 0) && (not (original == 0) && leb original start))) [
      | inr stays ↦ inr (ground (arith, stays), ground (arith, e, stays))
      | inl moves ↦ elim (Option-cases (checked_add start bias)) [
        | inl wraps ↦ ground (arith, e, moves, wraps)
        | inr (sum, at) ↦
            let bound = checked_add_bound start bias sum small at in
            let is : sum ≡ entry = ground (arith, e, moves, at) in
            inl (
              ground (arith, moves),
              ground (arith, moves),
              ground (arith, moves),
              omega (arith, bound, is),
              omega (arith, bound, is),
            )
      ]
    ]

lower_of :
    (v least : ℕ)
    → ((if ltb v least then v else least) ≤ least)
      × ((if ltb v least then v else least) ≤ v)
      × (((if ltb v least then v else least) ≡ least) ⊎ (v ≡ (if ltb v least then v else least)))
lower_of v least = ground arith

least_address-Lowest :
    (least : ℕ) (segments : List Segment)
    → (least_address least segments ≤ least)
      × All (λ (s : Segment). least_address least segments ≤ s.virtual_address) segments
      × ((least_address least segments ≡ least)
          ⊎ Any (λ (s : Segment). s.virtual_address ≡ least_address least segments) segments)
unfolding least_address
least_address-Lowest least [] = (omega arith, tt, inl refl)
least_address-Lowest least (s ∷ segments) =
    let next : ℕ = if ltb s.virtual_address least then s.virtual_address else least in
    let (under, all, which) = least_address-Lowest next segments in
    let (first, second, choice) = lower_of s.virtual_address least in
    (
      omega (arith, under, first),
      (omega (arith, under, second), all),
      elim which [
        | inr later ↦ inr (inr later)
        | inl is ↦ elim choice [
          | inl before ↦ inl (is ∙ before)
          | inr here ↦ inr (inl (here ∙ sym is))
        ]
      ],
    )

original_base-IsLinked_over :
    (image : BinaryImage) (segments : List Segment)
    → image.segments ≡ segments
    → IsLinked image (original_base image)
unfolding original_base
original_base-IsLinked_over image [] is = record {
  own = λ h. ground (arith, h);
  empty = λ h _. ground (arith, h, is);
  lowest = λ h.
      (subst (All (λ (s : Segment). original_base image ≤ s.virtual_address)) (sym is) tt, inl is);
}
original_base-IsLinked_over image (s ∷ segments) is =
    let low : ℕ = least_address s.virtual_address segments in
    let (under, all, which) = least_address-Lowest s.virtual_address segments in
    let at : image.header.image_base ≡ 0 → original_base image ≡ low = λ h. ground (arith, h, is) in
    record {
      own = λ h. ground (arith, h);
      empty = λ h none_there. ground (arith, is, none_there);
      lowest = λ h. (
        subst (λ (n : ℕ). All (λ (x : Segment). n ≤ x.virtual_address) image.segments) (sym (at h))
            (subst (All (λ (x : Segment). low ≤ x.virtual_address)) (sym is) (under, all)),
        inr (
            subst (λ (n : ℕ). Any (λ (x : Segment). x.virtual_address ≡ n) image.segments)
              (sym (at h))
              (subst (Any (λ (x : Segment). x.virtual_address ≡ low)) (sym is)
                (elim which [ inl first ↦ inl (sym first) | inr later ↦ inr later ]))),
      );
    }

pub original_base-small :
    (image : BinaryImage) (segments : List Segment)
    → image.segments ≡ segments
    → image.header.image_base < 2 ^ 64
    → All (λ (s : Segment). s.virtual_address < 2 ^ 64) segments
    → original_base image < 2 ^ 64
unfolding original_base
original_base-small image [] is small h = ground (arith, small, is)
original_base-small image (s ∷ segments) is small h =
    let (under, _, _) = least_address-Lowest s.virtual_address segments in
    ground (arith, small, is, under, h.0)

pub original_base-IsLinked : (image : BinaryImage) → IsLinked image (original_base image)
original_base-IsLinked image = original_base-IsLinked_over image image.segments refl
