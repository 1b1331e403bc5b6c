-- ===== src/Host/Pairing/Qr.antt =====
-- `encode_qr` of pairing.rs: which version it takes.
use herdr_mobile.Base.{
  ==_iff, Bool-cases, Bytes, Option-cases, Result, arith, err, inl, inr, none, ok, refl, some,
  subst, suc, zero, ℕ, ◌+◌, ◌<◌, ◌==◌, ◌>>=◌, ◌≡◌, ◌≤◌, ◌⊎◌,
}
use herdr_mobile.Host.Pairing.{
  QrCrate, QrGrid, QrError, data_too_long, bits_of, to_grid, first_version, count_from, encode_qr,
}

-- The grid is that of the payload at a version.
abbrev pub IsGridOf : QrCrate → Bytes → ℕ → Result QrError QrGrid → Type 0
IsGridOf qr payload v r =
    (bits : qr.Bits) × (bits_of qr payload v ≡ some bits)
    × (r ≡ (qr.with_bits bits >>= λ code. ok (to_grid code)))

first_version_lem :
    (qr : QrCrate) (payload : Bytes) (count from : ℕ)
    → ((first_version qr payload (count_from from count) ≡ err data_too_long)
        × ((v : ℕ) → from ≤ v → v < from + count → bits_of qr payload v ≡ none))
      ⊎ ((v : ℕ) × (from ≤ v)
          × (v < from + count)
          × IsGridOf qr payload v (first_version qr payload (count_from from count))
          × ((w : ℕ) → from ≤ w → w < v → bits_of qr payload w ≡ none))
unfolding first_version count_from
first_version_lem qr payload zero from = inl (refl, λ v low high. absurd (omega arith))
first_version_lem qr payload (suc count) from = elim (Option-cases (bits_of qr payload from)) [
  | inr (bits, e) ↦ inr (
    from,
    omega arith,
    omega arith,
    (bits, e, rw (e, first_version) refl),
    λ w low high. absurd (omega arith),
  )
  | inl e ↦ elim (first_version_lem qr payload count (suc from)) [
    | inl (long, none_fits) ↦ inl (
      rw (e, first_version) long,
      λ v low high. below v low (λ above. none_fits v above (omega arith)) e,
    )
    | inr (v, low, high, (bits, fits, same), smaller) ↦ inr (
      v,
      omega arith,
      omega arith,
      (bits, fits, rw (e, first_version) same),
      λ w above under. below w above (λ next. smaller w next under) e,
    )
  ]
]
  where
    below :
        (w : ℕ)
        → from ≤ w
        → (suc from ≤ w → bits_of qr payload w ≡ none)
        → bits_of qr payload from ≡ none
        → bits_of qr payload w ≡ none
    below w low rest e = elim (Bool-cases (from == w)) [
      | inl same ↦ subst (λ n. bits_of qr payload n ≡ none) ((==_iff from w).0 same) e
      | inr other ↦ rest (ground (arith, other))
    ]

-- `encode_qr` encodes the payload at the smallest of the versions 1 to 40 whose bits hold it, and
-- says that the data are too long when none of them does.
pub encode_qr_smallest :
    (qr : QrCrate) (uri : Bytes)
    → ((encode_qr qr uri ≡ err data_too_long)
        × ((v : ℕ) → 1 ≤ v → v ≤ 40 → bits_of qr uri v ≡ none))
      ⊎ ((v : ℕ) × (1 ≤ v)
          × (v ≤ 40)
          × IsGridOf qr uri v (encode_qr qr uri)
          × ((w : ℕ) → 1 ≤ w → w < v → bits_of qr uri w ≡ none))
unfolding encode_qr
encode_qr_smallest qr uri = elim (first_version_lem qr uri 40 1) [
  | inl (long, none_fits) ↦ inl (long, λ v low high. none_fits v low (omega arith))
  | inr (v, low, high, grid, smaller) ↦ inr (v, low, omega arith, grid, smaller)
]
